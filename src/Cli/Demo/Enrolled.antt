-- ===== src/Cli/Demo/Enrolled.antt =====
-- Who takes part in the key generation of the demo: participants of different identifiers, all of
-- them registered by the first block.
use project_sapphire.Base.{
  ℕ, zero, suc, ◌+◌, ◌≡◌, ◌≢◌, ◌≤◌, sym, subst, true, List, [], ◌∷◌, Ord, ok, inl, inr,
  Result-cases, ==_iff, arith, EndsIn, >>=-EndsIn,
}
use project_sapphire.Base.Map.{Map, get, contains_key, insert}
use project_sapphire.Base.Map.Laws.{contains-insert}
use project_sapphire.Core.{MpcParams}
use project_sapphire.Frost.{Ciphersuite}
use project_sapphire.Chain.Tx.{EncPublicKey, dkg_begin}
use project_sapphire.Chain.State.{initial}
use project_sapphire.Chain.Apply.{apply_tx}
use project_sapphire.Chain.Effects.{dkg_begin-effect}
use project_sapphire.Chain.Sim.Laws.{settled}
use project_sapphire.Node.Gate.{All}
use project_sapphire.Keygen.Envelope.{CryptoBox}
use project_sapphire.Keygen.Participant.{DkgScheme, DkgParticipant, new_participant}
use project_sapphire.Cli.Demo.{Libraries, enroll, enc_keys}
use project_sapphire.Cli.Demo.Forming.{IsExpected}
use project_sapphire.Cli.Demo.Owed.{Owns}

-- No two are the same.
abbrev pub AreDistinct : {A : Type 0} → List A → Type 0
AreDistinct [] = Unit {0}
AreDistinct (x ∷ xs) = All (λ y. x ≢ y) xs × AreDistinct xs

nobody : {K : Type 0} ⦃o : Ord K⦄ (V : Type 0) (k : K) → contains_key {V = V} k [] ≢ true
unfolding contains_key get
nobody V k h = cc

module _ {I : Type 0} ⦃o : Ord I⦄ {C : Ciphersuite I} (B : CryptoBox C.Rng) (D : DkgScheme C)
    (L : Libraries C) where
  open C use {Rng}

  abbrev pub ids : List (DkgParticipant B D) → List I
  ids [] = []
  ids (p ∷ ps) = p.identifier ∷ ids ps

  -- Identifiers of different numbers are different.
  abbrev pub IsInjective : Type 0
  IsInjective = (i j : ℕ) (id : I) → L.try_into i ≡ ok id → L.try_into j ≡ ok id → i ≡ j

  -- Participants of different numbers, from this one on.
  abbrev pub AreEnrolled : ℕ → List I → Type 0
  AreEnrolled i js = AreDistinct js × All (λ id. (k : ℕ) × (i ≤ k) × (L.try_into k ≡ ok id)) js

  lower-All :
      (i : ℕ) (js : List I)
      → All (λ id. (k : ℕ) × (i + 1 ≤ k) × (L.try_into k ≡ ok id)) js
      → All (λ id. (k : ℕ) × (i ≤ k) × (L.try_into k ≡ ok id)) js
  lower-All i [] all = tt
  lower-All i (j ∷ js) ((k, above, named), all) = ((k, omega arith, named), lower-All i js all)

  new-Apart :
      (i : ℕ) (id : I) (js : List I)
      → IsInjective
      → L.try_into i ≡ ok id
      → All (λ id'. (k : ℕ) × (i + 1 ≤ k) × (L.try_into k ≡ ok id')) js
      → All (λ j. id ≢ j) js
  new-Apart i id [] injective named all = tt
  new-Apart i id (j ∷ js) injective named ((k, above, named'), all) = (
    (λ same. let clash : i ≡ k = injective i k id named (rw same named') in omega arith),
    new-Apart i id js injective named all,
  )

  pub enroll-AreEnrolled :
      (n i : ℕ) (rng : Rng)
      → IsInjective
      → EndsIn IsExpected (λ (ps, _). AreEnrolled i (ids ps)) (enroll B D L n i rng)
  unfolding enroll
  enroll-AreEnrolled zero i rng injective = (tt, tt)
  enroll-AreEnrolled (suc n) i rng injective = elim (Result-cases (L.try_into i)) [
    | inr (e, bad) ↦ rw (bad, enroll) tt
    | inl (id, named) ↦
        let (p, rng') = new_participant B D id rng in
        rw (named, enroll)
          (>>=-EndsIn IsExpected (λ (ps, _). AreEnrolled (i + 1) (ids ps)) _
            (enroll B D L n (i + 1) rng') _ (enroll-AreEnrolled n (i + 1) rng' injective)
            (λ (ps, _) (distinct, all). (
              (new-Apart i id (ids ps) injective named all, distinct),
              ((i, omega arith, named), lower-All i (ids ps) all),
            )))
  ]

  kept-enc_keys :
      (i : I) (ps : List (DkgParticipant B D)) (keys : Map I EncPublicKey)
      → contains_key i keys ≡ true
      → contains_key i (enc_keys B D L ps keys) ≡ true
  unfolding enc_keys
  kept-enc_keys i [] keys held = held
  kept-enc_keys i (p ∷ ps) keys held =
      kept-enc_keys i ps _ (ground (arith, contains-insert i p.identifier p.enc_public keys, held))

  -- Everyone in the list is registered.
  pub contains-enc_keys :
      (ps : List (DkgParticipant B D)) (keys : Map I EncPublicKey)
      → All (λ q. contains_key q.identifier (enc_keys B D L ps keys) ≡ true) ps
  unfolding enc_keys
  contains-enc_keys [] keys = tt
  contains-enc_keys (p ∷ ps) keys = (
    kept-enc_keys p.identifier ps _ (
        rw (contains-insert p.identifier p.identifier p.enc_public keys)
          (ground (arith, ==_iff p.identifier p.identifier))),
    contains-enc_keys ps (insert p.identifier p.enc_public keys),
  )

  -- The state after the first block.
  pub begun-Owns :
      (params : MpcParams) (keys : Map I EncPublicKey) (q : DkgParticipant B D)
      → contains_key q.identifier keys ≡ true
      → Owns B D q (settled (initial C) (dkg_begin params keys ∷ [])) []
  unfolding settled apply_tx
  begun-Owns params keys q held =
      elim (Result-cases (apply_tx (initial C) (dkg_begin params keys))) [
        | inr (x, e) ↦
            rw (e, settled)
              (record {
                queued = tt;
                registered = λ c h. cc;
                posted = λ c h held. cc;
                promoted = λ g h. cc;
              })
        | inl (t, e) ↦
            let (_, _, _, made) = dkg_begin-effect (initial C) t params keys e in
            rw (e, settled)
              (subst (λ u. Owns B D q u []) (sym made)
                (record {
                  queued = tt;
                  registered = λ c h. ground arith;
                  posted =
                      λ c h held'. absurd (nobody C.PublicKeyPackage q.identifier (ground arith));
                  promoted = λ g h. cc;
                }))
      ]
