-- ===== src/Zcash/Sound.antt =====
-- What a session returns: a signature that verifies, or an error.
use project_sapphire.Base.{
  ℕ, zero, suc, ◌≡◌, true, false, Bool, List, [], ◌∷◌, ◌++◌, String, Ord, ok, inl, inr,
  Result-cases, Option-cases, subst, none, some, arith,
}
use project_sapphire.Base.Map.{Set, get}
use project_sapphire.Core.{Bytes, Uuid, uuid_ord}
use project_sapphire.Frost.{Ciphersuite, IsLawful}
use project_sapphire.Chain.Tx.{Tx, submit_request}
use project_sapphire.Chain.State.{
  State, RequestStatus, RequestEntry, GroupConfig, ApplyError, completed, awaiting_commitments,
  signing, failed,
}
use project_sapphire.Chain.Validity.{IsTyped, IsValid}
use project_sapphire.Chain.Signature.{valid-verifies}
use project_sapphire.Chain.Sim.{ChainSim, commit_block, submit}
use project_sapphire.Chain.Sim.Laws.{mempool-commit_block}
use project_sapphire.Chain.Sim.Reach.{AllTyped, commit_block-Reaches}
use project_sapphire.Node.Signer.{Node}
use project_sapphire.Node.Memory.{IsConsistent}
use project_sapphire.Node.Gate.{All}
use project_sapphire.Zcash.Session.{
  react_validators, judge_status, judge, drive_rounds, drive_signing_session, first_error,
}
use project_sapphire.Zcash.Clean.{clean-entry}
use project_sapphire.Zcash.Round.{IsUnderway, round-IsUnderway}

module _ {I : Type 0} ⦃o : Ord I⦄ {C : Ciphersuite I} where
  open C use {
    Rng, Randomizer, Signature, verify, randomized_verifying_key, from_randomizer, verifying_key,
  }

  -- The chain has a group under whose key, rerandomized, the signature verifies for the message.
  abbrev pub IsSigned : State C → Bytes → Randomizer → Signature → Type 0
  IsSigned s message randomizer signature =
      (g : GroupConfig C) × (s.group ≡ some g)
      × (verify (randomized_verifying_key (from_randomizer (verifying_key g.pkp) randomizer))
            message signature
          ≡ true)

  group_of_entry :
      (s : State C) (k : Uuid) (e : RequestEntry C)
      → IsValid s
      → get k s.requests ≡ some e
      → (g : GroupConfig C) × (s.group ≡ some g)
  unfolding get
  group_of_entry s k e v there = elim (Option-cases s.group) [
    | inr found ↦ found
    | inl without ↦ absurd (ground (arith, v.no_requests without))
  ]

  judged :
      (emitted_any : Bool) (status : RequestStatus C) (signature : Signature)
      → judge_status emitted_any status ≡ some (ok signature)
      → (participants : Set I) × (status ≡ completed participants signature)
  unfolding judge_status
  judged any (completed participants s) signature h = (participants, ground arith)
  judged any (failed reason) signature h = cc
  judged true (awaiting_commitments m) signature h = cc
  judged false (awaiting_commitments m) signature h = cc
  judged true (signing p q r) signature h = cc
  judged false (signing p q r) signature h = cc

  underway-IsSigned :
      (k : Uuid) (message : Bytes) (randomizer : Randomizer) (chain : ChainSim C)
      (validators : List (Node C)) (emitted_any : Bool) (signature : Signature)
      → IsLawful C
      → IsUnderway k message randomizer chain validators
      → judge emitted_any (get k chain.state.requests) ≡ some (ok signature)
      → IsSigned chain.state message randomizer signature
  unfolding judge
  underway-IsSigned k message randomizer chain validators any signature L u h =
      let (g, found) = group_of_entry chain.state k u.entry u.state-IsValid u.there in
      let (participants, done) =
        judged any u.entry.status signature
          (subst (λ x. judge any x ≡ some (ok signature)) u.there h) in
      let (verified, _, _) =
        valid-verifies chain.state k u.entry g participants signature L u.state-IsValid found
          u.there done in
      (g, found, rw (← u.same_message, ← u.same_randomizer) verified)

  rounds-IsSigned :
      (n : ℕ) (k : Uuid) (message : Bytes) (randomizer : Randomizer) (chain : ChainSim C)
      (validators : List (Node C)) (rng : Rng) (signature : Signature)
      → IsLawful C
      → IsUnderway k message randomizer chain validators
      → (drive_rounds n k chain validators rng).0 ≡ ok signature
      → IsSigned (drive_rounds n k chain validators rng).1.state message randomizer signature
  unfolding drive_rounds
  rounds-IsSigned zero k message randomizer chain validators rng signature L u h = cc
  rounds-IsSigned (suc n) k message randomizer chain validators rng signature L u h =
      let (_, chain', validators', rng') = react_validators validators chain false rng in
      let next = (commit_block chain').0 in
      let u' : IsUnderway k message randomizer next validators' =
        round-IsUnderway k message randomizer chain validators rng L u in
      elim (Result-cases (react_validators validators chain false rng).0) [
        | inr (e, stopped) ↦ absurd (ground (arith, rw (stopped, drive_rounds) at h))
        | inl (any, reacted) ↦ elim (Option-cases (judge any (get k next.state.requests))) [
          | inl continues ↦
              rw (reacted, drive_rounds, continues)
                (rounds-IsSigned n k message randomizer next validators' rng' signature L u'
                  (rw (reacted, drive_rounds, continues) at h))
          | inr (outcome, ends) ↦
              rw (reacted, drive_rounds, ends)
                (underway-IsSigned k message randomizer next validators' any signature L u'
                  (ground (arith, ends, rw (reacted, drive_rounds, ends) at h)))
        ]
      ]

  pub last-AllTyped :
      (txs : List (Tx C)) (tx : Tx C) → AllTyped txs → IsTyped tx → AllTyped (txs ++ (tx ∷ []))
  last-AllTyped [] tx all typed = (typed, tt)
  last-AllTyped (x ∷ txs) tx (first, all) typed = (first, last-AllTyped txs tx all typed)

  pub first_block-IsUnderway :
      (chain : ChainSim C) (validators : List (Node C)) (k : Uuid) (message : Bytes)
      (randomizer : Randomizer)
      → IsLawful C
      → IsValid chain.state
      → AllTyped chain.mempool
      → All IsConsistent validators
      → first_error (commit_block (submit chain (submit_request k message randomizer))).1 ≡ none
      → IsUnderway k message randomizer
          (commit_block (submit chain (submit_request k message randomizer))).0
          validators
  unfolding submit
  first_block-IsUnderway chain validators k message randomizer L v typed all clean =
      let started = submit chain (submit_request k message randomizer) in
      let (_, valid) = commit_block-Reaches started L (last-AllTyped chain.mempool _ typed tt) v in
      let (e, there, same_message, same_randomizer, _) =
        clean-entry chain k message randomizer clean in
      record {
        state-IsValid = valid;
        nothing_pending = mempool-commit_block started;
        validators-AllConsistent = all;
        entry = e;
        there = there;
        same_message = same_message;
        same_randomizer = same_randomizer;
      }

  -- A session of consistent validators on a valid chain that returns a signature returns one that
  -- verifies for the sighash, under the key of the group on the chain, rerandomized by alpha.
  pub drive_signing_session-IsSigned :
      (to_string : ApplyError → String) (chain : ChainSim C) (validators : List (Node C))
      (sighash : Bytes) (alpha : Randomizer) (rng : Rng) (signature : Signature)
      → IsLawful C
      → IsValid chain.state
      → AllTyped chain.mempool
      → All IsConsistent validators
      → (drive_signing_session to_string chain validators sighash alpha rng).0 ≡ ok signature
      → IsSigned
          (drive_signing_session to_string chain validators sighash alpha rng).1.state
          sighash
          alpha
          signature
  unfolding drive_signing_session
  drive_signing_session-IsSigned to_string chain validators sighash alpha rng signature L v typed
        all h =
      let (bytes, rng') = C.fill_bytes 16 rng in
      let k : Uuid = record { bytes = bytes } in
      let (next, results) = commit_block (submit chain (submit_request k sighash alpha)) in
      elim (Option-cases (first_error results)) [
        | inr (e, rejected) ↦ absurd (ground (arith, rw (rejected, drive_signing_session) at h))
        | inl clean ↦
            rw (clean, drive_signing_session)
              (rounds-IsSigned 8 k sighash alpha next validators rng' signature L
                (first_block-IsUnderway chain validators k sighash alpha L v typed all clean)
                (rw (clean, drive_signing_session) at h))
      ]
