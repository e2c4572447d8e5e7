-- ===== src/Cli/Demo/Ready.antt =====
-- The chain and the nodes of the demo between two blocks, once there is a group.
use project_sapphire.Base.{
  ◌≡◌, refl, sym, subst, ◌∙◌, ◌⊎◌, some, List, [], ◌∷◌, Ord, ok, err, inl, inr, Result-cases,
  Bool-cases, true, false, EndsIn, >>=-EndsIn, map_err-EndsIn, map_err, ◌==◌, ==_iff, arith,
}
use project_sapphire.Base.Map.{Set, get, contains_key, insert}
use project_sapphire.Base.Map.Laws.{contains-insert, contains_of_get}
use project_sapphire.Core.{Bytes, Uuid, uuid_ord}
use project_sapphire.Frost.{Ciphersuite, IsLawful}
use project_sapphire.Chain.Tx.{Tx, submit_request, submit_commitment, submit_share}
use project_sapphire.Chain.State.{
  State, RequestEntry, GroupConfig, awaiting_commitments, completed, duplicate_request,
}
use project_sapphire.Chain.Apply.{apply_tx, apply_submit_request, require_group}
use project_sapphire.Chain.Effects.{submit_commitment-effect, submit_share-effect}
use project_sapphire.Chain.Validity.{IsValid}
use project_sapphire.Chain.Reach.{Reaches}
use project_sapphire.Chain.Progress.{Reaches-group}
use project_sapphire.Chain.Sim.{ChainSim, submit, commit_block}
use project_sapphire.Chain.Sim.Laws.{settled, state-commit_block, mempool-commit_block}
use project_sapphire.Chain.Sim.Reach.{AllTyped, commit_block-Reaches}
use project_sapphire.Node.Policy.{SignPolicy}
use project_sapphire.Node.Signer.{Node, react}
use project_sapphire.Node.Memory.{IsConsistent, react-IsProper}
use project_sapphire.Node.Once.{sent}
use project_sapphire.Node.Gate.{All, IsJustified, react-IsJustified}
use project_sapphire.Zcash.Session.{react_validators}
use project_sapphire.Zcash.Round.{validators-keep}
use project_sapphire.Cli.Demo.{react_failed, one_block, react_block}
use project_sapphire.Cli.Demo.Forming.{IsExpected}

module _ {I : Type 0} ⦃o : Ord I⦄ {C : Ciphersuite I} where
  open C use {Rng, Randomizer}

  -- What nodes emit.
  abbrev IsSigning : Tx C → Type 0
  IsSigning (submit_commitment k validator c) = Unit {0}
  IsSigning (submit_share k validator share) = Unit {0}
  IsSigning _ = ⊥

  signing-AllTyped : (txs : List (Tx C)) → All IsSigning txs → AllTyped txs
  signing-AllTyped [] all = tt
  signing-AllTyped (submit_commitment _ _ _ ∷ txs) (_, all) = (tt, signing-AllTyped txs all)
  signing-AllTyped (submit_share _ _ _ ∷ txs) (_, all) = (tt, signing-AllTyped txs all)
  signing-AllTyped (_ ∷ txs) (h, all) = absurd h

  justified-AllSigning :
      (node : Node C) (state : State C) (txs : List (Tx C))
      → All (IsJustified node.identifier node.policy state) txs
      → All IsSigning txs
  justified-AllSigning node state [] all = tt
  justified-AllSigning node state (submit_commitment _ _ _ ∷ txs) (_, all) =
      (tt, justified-AllSigning node state txs all)
  justified-AllSigning node state (submit_share _ _ _ ∷ txs) (_, all) =
      (tt, justified-AllSigning node state txs all)
  justified-AllSigning node state (_ ∷ txs) all = absurd all.0

  -- No request but this one.
  abbrev pub IsOnly : Uuid → State C → Type 0
  IsOnly k s = (j : Uuid) → contains_key j s.requests ≡ true → j ≡ k

  -- The only request has been completed, by these participants and with this signature.
  abbrev pub IsFinished : Uuid → Set I → C.Signature → State C → Type 0
  IsFinished k participants signature s =
      (e : RequestEntry C) × IsOnly k s
      × (get k s.requests ≡ some e)
      × (e.status ≡ completed participants signature)

  insert-IsOnly :
      (k j : Uuid) (s : State C) (old new : RequestEntry C)
      → IsOnly k s
      → get j s.requests ≡ some old
      → IsOnly k (record s { requests = insert j new s.requests })
  insert-IsOnly k j s old new only there i held = elim (Bool-cases (i == j)) [
    | inl same ↦ (==_iff i j).0 same ∙ only j (contains_of_get j s.requests old there)
    | inr other ↦ only i (ground (arith, contains-insert i j new s.requests))
  ]

  settled-IsOnly :
      (k : Uuid) (s : State C) (txs : List (Tx C))
      → IsOnly k s
      → All IsSigning txs
      → IsOnly k (settled s txs)
  unfolding settled apply_tx
  settled-IsOnly k s [] only all = only
  settled-IsOnly k s (tx ∷ txs) only (signs, all) = elim (Result-cases (apply_tx s tx)) [
    | inl (t, e) ↦ rw (e, settled) (settled-IsOnly k t txs (step-IsOnly t tx signs e) all)
    | inr (x, e) ↦ rw (e, settled) (settled-IsOnly k s txs only all)
  ]
    where
      step-IsOnly : (t : State C) (tx : Tx C) → IsSigning tx → apply_tx s tx ≡ ok t → IsOnly k t
      step-IsOnly t (submit_commitment j validator c) signs h =
          let (_, e, _, _, _, there, _, made) = submit_commitment-effect s t j validator c h in
          subst (IsOnly k) (sym made) (insert-IsOnly k j s e _ only there)
      step-IsOnly t (submit_share j validator share) signs h =
          let (_, e, _, _, _, there, _, made) = submit_share-effect s t j validator share h in
          subst (IsOnly k) (sym made) (insert-IsOnly k j s e _ only there)
      step-IsOnly t _ signs h = absurd signs

  -- A consistent node with this policy.
  abbrev pub IsKept : SignPolicy → Node C → Type 0
  IsKept policy node = IsConsistent node × (node.policy ≡ policy)

  pub record IsReady (policy : SignPolicy) (g : GroupConfig C) (chain : ChainSim C)
      (nodes : List (Node C)) : Type 0 where
    pub state-IsValid : IsValid chain.state
    pub nothing_pending : chain.mempool ≡ []
    pub group_there : chain.state.group ≡ some g
    pub nodes-AllKept : All (IsKept policy) nodes

  react-IsKept :
      (policy : SignPolicy) (state : State C)
      → IsValid state
      → (node : Node C) (rng : Rng) → IsKept policy node
      → IsKept policy (react node state rng).1 × All IsSigning (sent (react node state rng).0)
  react-IsKept policy state valid node rng (v, same) =
      let proper = react-IsProper node state rng v in
      (
        (proper.stays-IsConsistent, proper.grows.same_policy ∙ same),
        justified-AllSigning node state _ (react-IsJustified node state rng v valid),
      )

  -- A round of the nodes and its block.
  pub react_block-IsReady :
      (policy : SignPolicy) (g : GroupConfig C) (nodes : List (Node C)) (chain : ChainSim C)
      (rng : Rng)
      → IsLawful C
      → IsReady policy g chain nodes
      → EndsIn IsExpected
          (λ (nodes', chain', _).
            IsReady policy g chain' nodes'
            × Reaches chain.state chain'.state
            × ((k : Uuid) → IsOnly k chain.state → IsOnly k chain'.state))
          (react_block nodes chain rng)
  unfolding react_block
  react_block-IsReady policy g nodes chain rng L r =
      let (result, chain', nodes', rng') = react_validators nodes chain false rng in
      let (same, signs, kept) =
        validators-keep chain.state (IsKept policy) IsSigning
          (react-IsKept policy chain.state r.state-IsValid) nodes chain false rng refl
          r.nodes-AllKept (rw r.nothing_pending tt) in
      let valid : IsValid chain'.state = subst IsValid (sym same) r.state-IsValid in
      let (reaches, valid') =
        commit_block-Reaches chain' L (signing-AllTyped chain'.mempool signs) valid in
      let found : chain'.state.group ≡ some g = rw same r.group_there in
      >>=-EndsIn IsExpected (λ _. Unit {0}) _ (map_err react_failed result) _
        (map_err-EndsIn IsExpected react_failed (λ _. Unit {0}) result (λ e. tt) (λ a e. tt))
        (λ _ _. (
          record {
            state-IsValid = valid';
            nothing_pending = mempool-commit_block chain';
            group_there = Reaches-group g L valid reaches found;
            nodes-AllKept = kept;
          },
          subst (λ s. Reaches s (commit_block chain').0.state) same reaches,
          (λ k only.
              rw (state-commit_block)
                (settled-IsOnly k chain'.state chain'.mempool (rw same only) signs)),
        ))

  -- The entry of a new request.
  abbrev pub opened_entry : Uuid → Bytes → Randomizer → RequestEntry C
  opened_entry k message randomizer = record {
    request_id = k;
    message = message;
    randomizer = randomizer;
    status = awaiting_commitments [];
  }

  -- A request opens where its id is new, and is refused where it is not.
  abbrev pub Opens : Uuid → Bytes → Randomizer → State C → State C → Type 0
  Opens k message randomizer s t =
      ((contains_key k s.requests ≡ false)
        × (t.requests ≡ insert k (opened_entry k message randomizer) s.requests))
      ⊎ ((contains_key k s.requests ≡ true) × (t ≡ s))

  settled-Opens :
      (s : State C) (g : GroupConfig C) (k : Uuid) (message : Bytes) (randomizer : Randomizer)
      → s.group ≡ some g
      → Opens k message randomizer s (settled s (submit_request k message randomizer ∷ []))
  unfolding settled apply_tx apply_submit_request require_group
  settled-Opens s g k message randomizer found =
      let tx : Tx C = submit_request k message randomizer in
      elim (Bool-cases (contains_key k s.requests)) [
        | inl held ↦
            let refused : apply_tx s tx ≡ err (duplicate_request k) = rw (found, held) refl in
            inr (held, rw (refused, settled) refl)
        | inr fresh ↦
            let new = record s {
              requests = insert k (opened_entry k message randomizer) s.requests;
            } in
            let taken : apply_tx s tx ≡ ok new = rw (found, fresh) refl in
            inl (fresh, rw (taken, settled) refl)
      ]

  -- The block with a request.
  pub one_block-IsReady :
      (policy : SignPolicy) (g : GroupConfig C) (nodes : List (Node C)) (chain : ChainSim C)
      (k : Uuid) (message : Bytes) (randomizer : Randomizer)
      → IsLawful C
      → IsReady policy g chain nodes
      → (let chain' = one_block chain (submit_request k message randomizer) in
          IsReady policy g chain' nodes
          × Reaches chain.state chain'.state
          × Opens k message randomizer chain.state chain'.state)
  unfolding submit
  one_block-IsReady policy g nodes chain k message randomizer L r =
      let tx : Tx C = submit_request k message randomizer in
      let started = submit chain tx in
      let queue : started.mempool ≡ tx ∷ [] = rw r.nothing_pending refl in
      let (reaches, valid) =
        commit_block-Reaches started L (subst AllTyped (sym queue) (tt, tt)) r.state-IsValid in
      (
        record {
          state-IsValid = valid;
          nothing_pending = mempool-commit_block started;
          group_there = Reaches-group g L r.state-IsValid reaches r.group_there;
          nodes-AllKept = r.nodes-AllKept;
        },
        reaches,
        rw (state-commit_block, queue)
            (settled-Opens chain.state g k message randomizer r.group_there),
      )
