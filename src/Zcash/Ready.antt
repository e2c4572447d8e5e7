-- ===== src/Zcash/Ready.antt =====
-- What a session that ends with a signature leaves: a chain and validators that are fit for the next
-- one.
use project_sapphire.Base.{
  ℕ, zero, suc, ◌≡◌, refl, sym, subst, false, List, String, Ord, ok, inl, inr, Result-cases,
  Option-cases, some, arith,
}
use project_sapphire.Base.Map.{get}
use project_sapphire.Core.{Bytes, Uuid, uuid_ord}
use project_sapphire.Frost.{Ciphersuite, IsLawful}
use project_sapphire.Chain.Tx.{submit_request}
use project_sapphire.Chain.State.{GroupConfig, ApplyError}
use project_sapphire.Chain.Validity.{IsTyped, IsValid}
use project_sapphire.Chain.Progress.{Reaches-group}
use project_sapphire.Chain.Sim.{ChainSim, commit_block, submit}
use project_sapphire.Chain.Sim.Reach.{AllTyped, commit_block-Reaches}
use project_sapphire.Node.Signer.{Node}
use project_sapphire.Node.Memory.{IsConsistent}
use project_sapphire.Node.Gate.{All}
use project_sapphire.Zcash.Session.{
  react_validators, judge, drive_rounds, drive_signing_session, first_error,
}
use project_sapphire.Zcash.Round.{
  IsUnderway, round-IsUnderway, validators-keep, react-IsTyped, All-AllTyped,
}
use project_sapphire.Zcash.Sound.{first_block-IsUnderway, last-AllTyped}

module _ {I : Type 0} ⦃o : Ord I⦄ {C : Ciphersuite I} where
  open C use {Rng, Randomizer, Signature}

  -- A valid chain of this group with typed transactions pending, and consistent validators.
  pub record IsReady (g : GroupConfig C) (chain : ChainSim C) (validators : List (Node C))
      : Type 0 where
    pub state-IsValid : IsValid chain.state
    pub pending : AllTyped chain.mempool
    pub consistent : All IsConsistent validators
    pub group_there : chain.state.group ≡ some g

  round-group :
      (k : Uuid) (message : Bytes) (randomizer : Randomizer) (g : GroupConfig C)
      (chain : ChainSim C) (validators : List (Node C)) (rng : Rng)
      → IsLawful C
      → IsUnderway k message randomizer chain validators
      → chain.state.group ≡ some g
      → (let (_, chain', _, _) = react_validators validators chain false rng in
          (commit_block chain').0.state.group ≡ some g)
  round-group k message randomizer g chain validators rng L u found =
      let (_, chain', _, _) = react_validators validators chain false rng in
      let (same, typed, _) =
        validators-keep chain.state IsConsistent IsTyped (react-IsTyped chain.state u.state-IsValid)
          validators chain false rng refl u.validators-AllConsistent (rw u.nothing_pending tt) in
      let valid : IsValid chain'.state = subst IsValid (sym same) u.state-IsValid in
      let (reaches, _) = commit_block-Reaches chain' L (All-AllTyped chain'.mempool typed) valid in
      Reaches-group g L valid reaches (subst (λ s. s.group ≡ some g) (sym same) found)

  underway-IsReady :
      (k : Uuid) (message : Bytes) (randomizer : Randomizer) (g : GroupConfig C)
      (chain : ChainSim C) (validators : List (Node C))
      → IsUnderway k message randomizer chain validators
      → chain.state.group ≡ some g
      → IsReady g chain validators
  underway-IsReady k message randomizer g chain validators u found = record {
    state-IsValid = u.state-IsValid;
    pending = rw u.nothing_pending tt;
    consistent = u.validators-AllConsistent;
    group_there = found;
  }

  rounds-IsReady :
      (n : ℕ) (k : Uuid) (message : Bytes) (randomizer : Randomizer) (g : GroupConfig C)
      (chain : ChainSim C) (validators : List (Node C)) (rng : Rng) (signature : Signature)
      → IsLawful C
      → IsUnderway k message randomizer chain validators
      → chain.state.group ≡ some g
      → (drive_rounds n k chain validators rng).0 ≡ ok signature
      → IsReady g
          (drive_rounds n k chain validators rng).1
          (drive_rounds n k chain validators rng).2
  unfolding drive_rounds
  rounds-IsReady zero k message randomizer g chain validators rng signature L u found h = cc
  rounds-IsReady (suc n) k message randomizer g chain validators rng signature L u found h =
      let (_, chain', validators', rng') = react_validators validators chain false rng in
      let next = (commit_block chain').0 in
      let u' : IsUnderway k message randomizer next validators' =
        round-IsUnderway k message randomizer chain validators rng L u in
      let found' : next.state.group ≡ some g =
        round-group k message randomizer g chain validators rng L u found in
      elim (Result-cases (react_validators validators chain false rng).0) [
        | inr (e, stopped) ↦ absurd (ground (arith, rw (stopped, drive_rounds) at h))
        | inl (any, reacted) ↦ elim (Option-cases (judge any (get k next.state.requests))) [
          | inl continues ↦
              rw (reacted, drive_rounds, continues)
                (rounds-IsReady n k message randomizer g next validators' rng' signature L u' found'
                  (rw (reacted, drive_rounds, continues) at h))
          | inr (outcome, ends) ↦
              rw (reacted, drive_rounds, ends)
                (underway-IsReady k message randomizer g next validators' u' found')
        ]
      ]

  -- After a session that returns a signature everything is ready for the next one.
  pub drive_signing_session-IsReady :
      (to_string : ApplyError → String) (chain : ChainSim C) (validators : List (Node C))
      (sighash : Bytes) (alpha : Randomizer) (rng : Rng) (signature : Signature) (g : GroupConfig C)
      → IsLawful C
      → IsReady g chain validators
      → (drive_signing_session to_string chain validators sighash alpha rng).0 ≡ ok signature
      → IsReady g
          (drive_signing_session to_string chain validators sighash alpha rng).1
          (drive_signing_session to_string chain validators sighash alpha rng).2
  unfolding drive_signing_session submit
  drive_signing_session-IsReady to_string chain validators sighash alpha rng signature g L r h =
      let (bytes, rng') = C.fill_bytes 16 rng in
      let k : Uuid = record { bytes = bytes } in
      let started = submit chain (submit_request k sighash alpha) in
      let (next, results) = commit_block started in
      elim (Option-cases (first_error results)) [
        | inr (e, rejected) ↦ absurd (ground (arith, rw (rejected, drive_signing_session) at h))
        | inl clean ↦
            let (reaches, _) =
              commit_block-Reaches started L (last-AllTyped chain.mempool _ r.pending tt)
                r.state-IsValid in
            rw (clean, drive_signing_session)
              (rounds-IsReady 8 k sighash alpha g next validators rng' signature L
                (first_block-IsUnderway chain validators k sighash alpha L r.state-IsValid r.pending
                  r.consistent clean)
                (Reaches-group g L r.state-IsValid reaches r.group_there)
                (rw (clean, drive_signing_session) at h))
      ]
