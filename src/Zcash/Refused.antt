-- ===== src/Zcash/Refused.antt =====
-- A session whose message too few validators would sign yields no signature.
use project_sapphire.Base.{
  ℕ, zero, suc, ◌≡◌, ◌≢◌, ◌<◌, ◌⊎◌, refl, true, false, Bool, List, [], ◌∷◌, String, Ord, ok, err,
  inl, inr, Result-cases, Option-cases, subst, sym, none, some, arith, length,
}
use project_sapphire.Base.Map.{Set, get, contains_key}
use project_sapphire.Base.Map.Sorted.{IsSorted}
use project_sapphire.Base.Map.Within.{nil-KeysWithin}
use project_sapphire.Core.{Bytes, Uuid, uuid_ord}
use project_sapphire.Frost.{Ciphersuite, IsLawful}
use project_sapphire.Chain.Tx.{Tx, submit_request}
use project_sapphire.Chain.State.{State, RequestEntry, GroupConfig, ApplyError}
use project_sapphire.Chain.Validity.{IsTyped, IsValid}
use project_sapphire.Chain.Progress.{Reaches-group}
use project_sapphire.Chain.Quorum.{Waits, IsWilling, AllWilling, commit_block-Waits}
use project_sapphire.Chain.Sim.{ChainSim, commit_block, submit}
use project_sapphire.Chain.Sim.Reach.{AllTyped, commit_block-Reaches}
use project_sapphire.Node.Signer.{Node, react}
use project_sapphire.Node.Memory.{IsConsistent, react-IsProper}
use project_sapphire.Node.Once.{sent}
use project_sapphire.Node.Gate.{All, react-IsJustified, justified-AllWilling}
use project_sapphire.Node.Safety.{member-AllWilling}
use project_sapphire.Zcash.Session.{
  react_validators, judge_status, judge, drive_rounds, drive_signing_session, first_error,
}
use project_sapphire.Zcash.Clean.{clean-entry}
use project_sapphire.Zcash.Round.{IsUnderway, round-IsUnderway, validators-keep}
use project_sapphire.Zcash.Sound.{first_block-IsUnderway, last-AllTyped}

module _ {I : Type 0} ⦃o : Ord I⦄ {C : Ciphersuite I} (willing : Set I) (message : Bytes) where
  open C use {Rng, Randomizer, Signature}

  -- A validator is one of the willing, or its policy refuses the message.
  abbrev pub IsWillingOrRefuses : Node C → Type 0
  IsWillingOrRefuses node =
      IsConsistent node
      × ((contains_key node.identifier willing ≡ true)
          ⊎ ((reason : String) × (node.policy.approve message ≡ err reason)))

  abbrev IsHarmless : Uuid → Tx C → Type 0
  IsHarmless k tx = IsWilling k willing tx × IsTyped tx

  harmless-AllWilling :
      (k : Uuid) (txs : List (Tx C)) → All (IsHarmless k) txs → AllWilling k willing txs
  harmless-AllWilling k [] all = tt
  harmless-AllWilling k (tx ∷ txs) ((agrees, typed), all) =
      (agrees, typed, harmless-AllWilling k txs all)

  harmless-AllTyped : (k : Uuid) (txs : List (Tx C)) → All (IsHarmless k) txs → AllTyped txs
  harmless-AllTyped k [] all = tt
  harmless-AllTyped k (tx ∷ txs) ((agrees, typed), all) = (typed, harmless-AllTyped k txs all)

  willing-AllHarmless :
      (k : Uuid) (txs : List (Tx C)) → AllWilling k willing txs → All (IsHarmless k) txs
  willing-AllHarmless k [] all = tt
  willing-AllHarmless k (tx ∷ txs) (agrees, typed, all) =
      ((agrees, typed), willing-AllHarmless k txs all)

  react-IsHarmless :
      (k : Uuid) (state : State C) (e : RequestEntry C)
      → IsValid state
      → get k state.requests ≡ some e
      → e.message ≡ message
      → (node : Node C) (rng : Rng) → IsWillingOrRefuses node
      → IsWillingOrRefuses (react node state rng).1
        × All (IsHarmless k) (sent (react node state rng).0)
  react-IsHarmless k state e valid there same node rng (v, inl member) =
      let proper = react-IsProper node state rng v in
      (
        (proper.stays-IsConsistent, inl (rw proper.grows.same_identifier member)),
        willing-AllHarmless k _ (
            member-AllWilling node state k willing _ member
              (react-IsJustified node state rng v valid)),
      )
  react-IsHarmless k state e valid there same node rng (v, inr (reason, refuses)) =
      let proper = react-IsProper node state rng v in
      (
        (proper.stays-IsConsistent, inr (reason, rw proper.grows.same_policy refuses)),
        willing-AllHarmless k _ (
            justified-AllWilling node.identifier node.policy state k e reason willing _ there
              (rw same refuses) (react-IsJustified node state rng v valid)),
      )

  -- Between the rounds: the session is under way, its request waits, and nobody has changed sides.
  pub record IsRefused (k : Uuid) (randomizer : Randomizer) (g : GroupConfig C) (chain : ChainSim C)
      (validators : List (Node C)) : Type 0 where
    pub underway : IsUnderway k message randomizer chain validators
    pub group_there : chain.state.group ≡ some g
    pub waits : Waits k willing chain.state
    pub validators-AllWillingOrRefuse : All IsWillingOrRefuses validators

  pub round-IsRefused :
      (k : Uuid) (randomizer : Randomizer) (g : GroupConfig C) (chain : ChainSim C)
      (validators : List (Node C)) (rng : Rng)
      → IsLawful C
      → IsSorted willing
      → length willing < g.params.threshold
      → IsRefused k randomizer g chain validators
      → (let (_, chain', validators', _) = react_validators validators chain false rng in
          IsRefused k randomizer g (commit_block chain').0 validators')
  round-IsRefused k randomizer g chain validators rng L sorted few r =
      let u = r.underway in
      let (_, chain', validators', _) = react_validators validators chain false rng in
      let (same, harmless, sides) =
        validators-keep chain.state IsWillingOrRefuses (IsHarmless k)
          (react-IsHarmless k chain.state u.entry u.state-IsValid u.there u.same_message) validators
          chain false rng refl r.validators-AllWillingOrRefuse (rw u.nothing_pending tt) in
      let valid : IsValid chain'.state = subst IsValid (sym same) u.state-IsValid in
      let found : chain'.state.group ≡ some g = rw same r.group_there in
      let all = harmless-AllWilling k chain'.mempool harmless in
      let (reaches, _) =
        commit_block-Reaches chain' L (harmless-AllTyped k chain'.mempool harmless) valid in
      record {
        underway = round-IsUnderway k message randomizer chain validators rng L u;
        group_there = Reaches-group g L valid reaches found;
        waits =
            commit_block-Waits k willing chain' g L valid found sorted few all
              (subst (Waits k willing) (sym same) r.waits);
        validators-AllWillingOrRefuse = sides;
      }

  unjudged_lem :
      (k : Uuid) (s : State C) (emitted_any : Bool) (signature : Signature)
      → Waits k willing s
      → judge emitted_any (get k s.requests) ≢ some (ok signature)
  unfolding judge judge_status
  unjudged_lem k s true signature (e, m, there, waits, _) h =
      absurd (ground (arith, rw (there, judge, waits) at h))
  unjudged_lem k s false signature (e, m, there, waits, _) h =
      absurd (ground (arith, rw (there, judge, waits) at h))

  rounds_refused :
      (n : ℕ) (k : Uuid) (randomizer : Randomizer) (g : GroupConfig C) (chain : ChainSim C)
      (validators : List (Node C)) (rng : Rng) (signature : Signature)
      → IsLawful C
      → IsSorted willing
      → length willing < g.params.threshold
      → IsRefused k randomizer g chain validators
      → (drive_rounds n k chain validators rng).0 ≢ ok signature
  unfolding drive_rounds
  rounds_refused zero k randomizer g chain validators rng signature L sorted few r h = cc
  rounds_refused (suc n) k randomizer g chain validators rng signature L sorted few r h =
      let (_, chain', validators', rng') = react_validators validators chain false rng in
      let next = (commit_block chain').0 in
      let r' : IsRefused k randomizer g next validators' =
        round-IsRefused k randomizer g chain validators rng L sorted few r in
      elim (Result-cases (react_validators validators chain false rng).0) [
        | inr (e, stopped) ↦ absurd (ground (arith, rw (stopped, drive_rounds) at h))
        | inl (any, reacted) ↦ elim (Option-cases (judge any (get k next.state.requests))) [
          | inl continues ↦
              rounds_refused n k randomizer g next validators' rng' signature L sorted few r'
                (rw (reacted, drive_rounds, continues) at h)
          | inr (outcome, ends) ↦
              unjudged_lem k next.state any signature r'.waits
                (ground (arith, ends, rw (reacted, drive_rounds, ends) at h))
        ]
      ]

  sides-AllConsistent :
      (validators : List (Node C)) → All IsWillingOrRefuses validators → All IsConsistent validators
  sides-AllConsistent [] all = tt
  sides-AllConsistent (v ∷ validators) ((consistent, _), all) =
      (consistent, sides-AllConsistent validators all)

  first_block-IsRefused :
      (chain : ChainSim C) (validators : List (Node C)) (k : Uuid) (randomizer : Randomizer)
      (g : GroupConfig C)
      → IsLawful C
      → IsValid chain.state
      → AllTyped chain.mempool
      → chain.state.group ≡ some g
      → All IsWillingOrRefuses validators
      → first_error (commit_block (submit chain (submit_request k message randomizer))).1 ≡ none
      → IsRefused k randomizer g
          (commit_block (submit chain (submit_request k message randomizer))).0
          validators
  unfolding submit
  first_block-IsRefused chain validators k randomizer g L v typed found all clean =
      let started = submit chain (submit_request k message randomizer) in
      let (reaches, _) =
        commit_block-Reaches started L (last-AllTyped chain.mempool _ typed tt) v in
      let (e, there, _, _, waiting) = clean-entry chain k message randomizer clean in
      record {
        underway =
            first_block-IsUnderway chain validators k message randomizer L v typed
              (sides-AllConsistent validators all) clean;
        group_there = Reaches-group g L v reaches found;
        waits = (e, [], there, waiting, nil-KeysWithin C.SigningCommitments willing);
        validators-AllWillingOrRefuse = all;
      }

  -- On a valid chain with a group, a session of consistent validators yields no signature where each
  -- of them is one of the willing or refuses the sighash by its policy, and the willing are fewer
  -- than the threshold of the group.
  pub drive_signing_session-refused :
      (to_string : ApplyError → String) (chain : ChainSim C) (validators : List (Node C))
      (g : GroupConfig C) (alpha : Randomizer) (rng : Rng) (signature : Signature)
      → IsLawful C
      → IsValid chain.state
      → AllTyped chain.mempool
      → chain.state.group ≡ some g
      → IsSorted willing
      → length willing < g.params.threshold
      → All IsWillingOrRefuses validators
      → (drive_signing_session to_string chain validators message alpha rng).0 ≢ ok signature
  unfolding drive_signing_session
  drive_signing_session-refused to_string chain validators g alpha rng signature L v typed found
        sorted few all h =
      let (bytes, rng') = C.fill_bytes 16 rng in
      let k : Uuid = record { bytes = bytes } in
      let (next, results) = commit_block (submit chain (submit_request k message alpha)) in
      elim (Option-cases (first_error results)) [
        | inr (e, rejected) ↦ absurd (ground (arith, rw (rejected, drive_signing_session) at h))
        | inl clean ↦
            rounds_refused 8 k alpha g next validators rng' signature L sorted few
              (first_block-IsRefused chain validators k alpha g L v typed found all clean)
              (rw (clean, drive_signing_session) at h)
      ]
