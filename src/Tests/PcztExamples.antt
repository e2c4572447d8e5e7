-- ===== src/Tests/PcztExamples.antt =====
-- A bundle signed by the sample group, and the theorem on it.
use project_sapphire.Base.{
  ℕ, ◌+◌, ◌≡◌, ◌<◌, ◌⊎◌, refl, Option, some, none, List, [], ◌∷◌, nat_ord, Result, ok, err, length,
  take, drop, eqb, if◌then◌else◌, arith, String, true, false, subst,
}
use project_sapphire.Core.{Bytes}
use project_sapphire.Zcash.Ready.{IsReady}
use project_sapphire.Zcash.Pczt.{Orchard, PcztSignError, sign_pczt_orchard_bundle}
use project_sapphire.Zcash.Bundle.{IsLawfulOrchard, place_of, is_rejection}
use project_sapphire.Zcash.Actions.{AllSigned, sign_pczt_orchard_bundle-ends}
use project_sapphire.Tests.Scheme.{scheme, scheme-IsLawful}
use project_sapphire.Tests.Samples.{group_a}
use project_sapphire.Tests.EscrowExamples.{zeros}
use project_sapphire.Tests.NodeExamples.{node-IsConsistent}
use project_sapphire.Tests.SessionExamples.{
  idle, sighash, willing_three, group_txs-IsValid, group_found, text_of,
}

record Spend : Type 0 where
  randomness : Option ℕ
  key : ℕ
  signed : Option Bytes

-- The first byte of a signature is the signature of the sample scheme.
abbrev check_and_store : Bytes → Bytes → Spend → Result (Unit {0}) String × Spend
check_and_store message [] spend = (err "InvalidExternalSignature", spend)
check_and_store message (s ∷ rest) spend =
    if eqb s (spend.key + length message)
    then (ok tt, record spend { signed = some (s ∷ rest) })
    else (err "InvalidExternalSignature", spend)

abbrev first_byte : Bytes → Option ℕ
first_byte [] = none
first_byte (b ∷ bs) = some b

abbrev orchard : Orchard scheme
orchard = record {
  Scalar = ℕ;
  to_repr = λ s. s ∷ zeros 31;
  deserialize = first_byte;
  serialize = λ signature. some (signature ∷ zeros 63);
  SpendAuthSig = Bytes;
  from = λ bytes. bytes;
  Action = Spend;
  alpha = λ a. a.randomness;
  apply_signature = check_and_store;
  rk = λ a. a.key;
  spend_auth_sig = λ a. a.signed;
}

abbrev Stores : Bytes → Bytes → Spend → Type 0
Stores message bytes spend =
    (spend' : Spend) × (check_and_store message bytes spend ≡ (ok tt, spend'))
    × (spend'.signed ≡ some bytes)
    × (spend'.key ≡ spend.key)

orchard-accepts :
    (message bytes : Bytes) (signature : ℕ) (spend : Spend)
    → some (signature ∷ zeros 63) ≡ some bytes
    → length bytes ≡ 64
    → eqb signature (spend.key + length message) ≡ true
    → Stores message bytes spend
orchard-accepts message bytes signature spend h full verifies =
    let same : signature ∷ zeros 63 ≡ bytes = cc in
    subst (λ b. Stores message b spend) same
      (record spend { signed = some (signature ∷ zeros 63) }, ground arith, refl, refl)

orchard-IsLawfulOrchard : IsLawfulOrchard orchard
orchard-IsLawfulOrchard = record { accepts = orchard-accepts }

-- The key of the group is 7. The second action has no alpha.
abbrev bundle : List Spend
bundle =
    record { randomness = some 5; key = 12; signed = none }
    ∷ record { randomness = none; key = 9; signed = none }
    ∷ []

idle-IsReady : IsReady group_a idle willing_three
idle-IsReady = record {
  state-IsValid = group_txs-IsValid;
  pending = tt;
  consistent = (node-IsConsistent 1, (node-IsConsistent 2, (node-IsConsistent 3, tt)));
  group_there = group_found;
}

sign_pczt_orchard_bundle-ends_example :
    (let (result, actions', _, _, _) =
        sign_pczt_orchard_bundle orchard text_of sighash bundle idle willing_three 9 in
      ((result ≡ ok tt) × AllSigned orchard sighash bundle actions')
      ⊎ ((e : PcztSignError) × (result ≡ err e)
          × (place_of e < 2)
          × AllSigned orchard sighash (take (place_of e) bundle) (take (place_of e) actions')
          × (drop (place_of e) actions' ≡ drop (place_of e) bundle)
          × (is_rejection e ≡ false)))
sign_pczt_orchard_bundle-ends_example =
    sign_pczt_orchard_bundle-ends orchard text_of sighash group_a bundle idle willing_three 9
      scheme-IsLawful orchard-IsLawfulOrchard idle-IsReady (first_for, (second_for, tt))
  where
    first_for :
        (s alpha : ℕ) → some 5 ≡ some s → first_byte (s ∷ zeros 31) ≡ some alpha → 12 ≡ 7 + alpha
    first_for s alpha h k = ground arith

    second_for :
        (s alpha : ℕ) → none ≡ some s → first_byte (s ∷ zeros 31) ≡ some alpha → 9 ≡ 7 + alpha
    second_for s alpha h k = absurd (cc)
