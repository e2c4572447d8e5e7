-- ===== src/Zcash/Round.antt =====
-- One round of the session: what the validators put into the mempool, and what the block makes of it.
use project_sapphire.Base.{
  ◌≡◌, refl, true, false, ◌||◌, Bool, List, [], ◌∷◌, Ord, inl, inr, Result-cases, subst, sym, ◌∙◌,
  some, if◌then◌else◌,
}
use project_sapphire.Base.Map.{get}
use project_sapphire.Core.{Bytes, Uuid, uuid_ord}
use project_sapphire.Frost.{Ciphersuite, IsLawful}
use project_sapphire.Chain.Tx.{Tx, submit_commitment, submit_share}
use project_sapphire.Chain.State.{State, RequestEntry}
use project_sapphire.Chain.Validity.{IsTyped, IsValid}
use project_sapphire.Chain.Progress.{Reaches-Follows}
use project_sapphire.Chain.Sim.{ChainSim, commit_block}
use project_sapphire.Chain.Sim.Laws.{
  submit_all, mempool-submit_all, state-submit_all, mempool-commit_block,
}
use project_sapphire.Chain.Sim.Reach.{AllTyped, commit_block-Reaches}
use project_sapphire.Node.Signer.{Node, react}
use project_sapphire.Node.Memory.{IsConsistent, react-IsProper}
use project_sapphire.Node.Once.{sent}
use project_sapphire.Node.Gate.{All, All-append, IsJustified, react-IsJustified}
use project_sapphire.Zcash.Session.{react_validators, is_empty}

module _ {I : Type 0} ⦃o : Ord I⦄ {C : Ciphersuite I} where
  open C use {Rng}

  -- A property of the validators that `react` keeps, and one of all that it then emits.
  module _ (state : State C) (P : Node C → Type 0) (Q : Tx C → Type 0)
      (step : (node : Node C) (rng : Rng)
        → P node
        → P (react node state rng).1 × All Q (sent (react node state rng).0)) where
    pub validators-keep :
        (validators : List (Node C)) (chain : ChainSim C) (emitted_any : Bool) (rng : Rng)
        → chain.state ≡ state
        → All P validators
        → All Q chain.mempool
        → (let (_, chain', validators', _) = react_validators validators chain emitted_any rng in
            (chain'.state ≡ state) × All Q chain'.mempool × All P validators')
    unfolding react_validators
    validators-keep [] chain any rng here all queued = (here, queued, tt)
    validators-keep (v ∷ validators) chain any rng here (p, all) queued =
        let (p', emits) =
          subst (λ s. P (react v s rng).1 × All Q (sent (react v s rng).0)) (sym here)
            (step v rng p) in
        elim (Result-cases (react v chain.state rng).0) [
          | inr (e, stopped) ↦ rw (stopped, react_validators) (here, queued, (p', all))
          | inl (txs, pushed) ↦
              let queued' : All Q (submit_all chain txs).mempool =
                rw (mempool-submit_all chain txs) (
                  All-append Q chain.mempool txs queued
                    (subst (λ r. All Q (sent r)) pushed emits)) in
              let (there, more, rest) =
                validators-keep validators (submit_all chain txs)
                  (any || (if is_empty txs then false else true)) (react v chain.state rng).2
                  (state-submit_all chain txs ∙ here) all queued' in
              rw (pushed, react_validators) (there, more, (p', rest))
        ]

  pub All-AllTyped : (txs : List (Tx C)) → All IsTyped txs → AllTyped txs
  All-AllTyped [] all = tt
  All-AllTyped (tx ∷ txs) (typed, all) = (typed, All-AllTyped txs all)

  justified-IsTyped :
      (node : Node C) (state : State C) (txs : List (Tx C))
      → All (IsJustified node.identifier node.policy state) txs
      → All IsTyped txs
  justified-IsTyped node state [] all = tt
  justified-IsTyped node state (submit_commitment _ _ _ ∷ txs) (_, all) =
      (tt, justified-IsTyped node state txs all)
  justified-IsTyped node state (submit_share _ _ _ ∷ txs) (_, all) =
      (tt, justified-IsTyped node state txs all)
  justified-IsTyped node state (_ ∷ txs) all = absurd all.0

  pub react-IsTyped :
      (state : State C)
      → IsValid state
      → (node : Node C) (rng : Rng) → IsConsistent node
      → IsConsistent (react node state rng).1 × All IsTyped (sent (react node state rng).0)
  react-IsTyped state valid node rng v = (
    (react-IsProper node state rng v).stays-IsConsistent,
    justified-IsTyped node state _ (react-IsJustified node state rng v valid),
  )

  -- What holds between the rounds of a session: a request with this message and randomizer is on a
  -- valid chain, nothing is pending, and the validators are consistent.
  pub record IsUnderway (request_id : Uuid) (message : Bytes) (randomizer : C.Randomizer)
      (chain : ChainSim C) (validators : List (Node C)) : Type 0 where
    pub state-IsValid : IsValid chain.state
    pub nothing_pending : chain.mempool ≡ []
    pub validators-AllConsistent : All IsConsistent validators
    pub entry : RequestEntry C
    pub there : get request_id chain.state.requests ≡ some entry
    pub same_message : entry.message ≡ message
    pub same_randomizer : entry.randomizer ≡ randomizer

  -- A round keeps the session under way, whatever its validators emit.
  pub round-IsUnderway :
      (request_id : Uuid) (message : Bytes) (randomizer : C.Randomizer) (chain : ChainSim C)
      (validators : List (Node C)) (rng : Rng)
      → IsLawful C
      → IsUnderway request_id message randomizer chain validators
      → (let (_, chain', validators', _) = react_validators validators chain false rng in
          IsUnderway request_id message randomizer (commit_block chain').0 validators')
  round-IsUnderway k message randomizer chain validators rng L u =
      let (_, chain', validators', _) = react_validators validators chain false rng in
      let (same, typed, consistent) =
        validators-keep chain.state IsConsistent IsTyped (react-IsTyped chain.state u.state-IsValid)
          validators chain false rng refl u.validators-AllConsistent (rw u.nothing_pending tt) in
      let valid : IsValid chain'.state = subst IsValid (sym same) u.state-IsValid in
      let (reaches, valid') =
        commit_block-Reaches chain' L (All-AllTyped chain'.mempool typed) valid in
      let (e, there, follows) =
        Reaches-Follows k u.entry reaches
          (subst (λ s. get k s.requests ≡ some u.entry) (sym same) u.there) in
      record {
        state-IsValid = valid';
        nothing_pending = mempool-commit_block chain';
        validators-AllConsistent = consistent;
        entry = e;
        there = there;
        same_message = follows.same_message ∙ u.same_message;
        same_randomizer = follows.same_randomizer ∙ u.same_randomizer;
      }
