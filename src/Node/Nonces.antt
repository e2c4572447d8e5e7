-- ===== src/Node/Nonces.antt =====
-- Nonces are used once: with a share that a node emits, the nonces of that request are gone.
use project_sapphire.Base.{
  ◌≡◌, true, false, List, [], ◌∷◌, ◌++◌, Ord, inl, inr, arith, Bool-cases, Option-cases,
  Result-cases, ==_refl, subst,
}
use project_sapphire.Base.Map.{Map, contains_key}
use project_sapphire.Base.Map.Laws.{contains_of_get}
use project_sapphire.Core.{Uuid, uuid_ord}
use project_sapphire.Frost.{Ciphersuite}
use project_sapphire.Chain.Tx.{
  Tx, submit_share, submit_commitment, init_group, dkg_begin, dkg_round1, dkg_round2, dkg_finalize,
  submit_request,
}
use project_sapphire.Chain.State.{State, RequestEntry, RequestStatus}
use project_sapphire.Node.Signer.{Node, Step, react_entry, react_requests, react}
use project_sapphire.Node.Steps.{
  Reacts, idle, saw_commitment, saw_share, commits, in_use, shares, fails, react_entry-Reacts,
}
use project_sapphire.Node.Memory.{IsConsistent, Grows, entry-IsProper, contains-remove}
use project_sapphire.Node.Once.{sent}
use project_sapphire.Node.Gate.{All, All-append}

module _ {I : Type 0} ⦃o : Ord I⦄ {C : Ciphersuite I} where
  open C use {Rng}

  -- The request of a share is on record as committed, and has no nonces any more.
  abbrev pub IsSpent : Node C → Tx C → Type 0
  IsSpent node (submit_share request_id validator share) =
      (contains_key request_id node.committed_requests ≡ true)
      × (contains_key request_id node.pending ≡ false)
  IsSpent node _ = Unit {0}

  entry-IsSpent :
      (node : Node C) (request_id : Uuid) (entry : RequestEntry C) (rng : Rng)
      (status : RequestStatus C) (step : Step C (List (Tx C)))
      → IsConsistent node
      → Reacts node request_id entry rng status step
      → All (IsSpent step.1) (sent step.0)
  entry-IsSpent node j entry rng status step v idle = tt
  entry-IsSpent node j entry rng status step v saw_commitment = tt
  entry-IsSpent node j entry rng status step v saw_share = tt
  entry-IsSpent node j entry rng status step v (commits absent fresh agrees free) = (tt, tt)
  entry-IsSpent node j entry rng status step v (in_use fresh held) = tt
  entry-IsSpent node j entry rng status step v
        (shares nonces share chosen absent fresh held signed) =
      (
        (
          v j (contains_of_get j node.pending nonces held),
          ground (arith, contains-remove j j node.pending, ==_refl j),
        ),
        tt,
      )
  entry-IsSpent node j entry rng status step v (fails nonces e held refuses) = tt

  grown-IsSpent :
      (n m : Node C) (txs : List (Tx C)) → Grows n m → All (IsSpent n) txs → All (IsSpent m) txs
  grown-IsSpent n m [] g all = tt
  grown-IsSpent n m (submit_share j validator share ∷ txs) g ((done, gone), all) =
      ((g.committed_kept j done, g.spent_kept j done gone), grown-IsSpent n m txs g all)
  grown-IsSpent n m (submit_commitment j validator c ∷ txs) g (_, all) =
      (tt, grown-IsSpent n m txs g all)
  grown-IsSpent n m (init_group _ _ _ ∷ txs) g (_, all) = (tt, grown-IsSpent n m txs g all)
  grown-IsSpent n m (dkg_begin _ _ ∷ txs) g (_, all) = (tt, grown-IsSpent n m txs g all)
  grown-IsSpent n m (dkg_round1 _ _ ∷ txs) g (_, all) = (tt, grown-IsSpent n m txs g all)
  grown-IsSpent n m (dkg_round2 _ _ _ ∷ txs) g (_, all) = (tt, grown-IsSpent n m txs g all)
  grown-IsSpent n m (dkg_finalize _ _ ∷ txs) g (_, all) = (tt, grown-IsSpent n m txs g all)
  grown-IsSpent n m (submit_request _ _ _ ∷ txs) g (_, all) = (tt, grown-IsSpent n m txs g all)

  requests-IsSpent :
      (m : Map Uuid (RequestEntry C)) (out : List (Tx C)) (node : Node C) (rng : Rng)
      → IsConsistent node
      → All (IsSpent node) out
      → (let last = react_requests m out node rng in All (IsSpent last.1) (sent last.0))
  unfolding react_requests
  requests-IsSpent [] out node rng v all = all
  requests-IsSpent ((j, entry) ∷ rest) out node rng v all =
      let step = react_entry node j entry entry.status rng in
      let reacts = react_entry-Reacts node j entry entry.status rng in
      let proper = entry-IsProper node j entry rng entry.status step v reacts in
      let spent = entry-IsSpent node j entry rng entry.status step v reacts in
      elim (Result-cases step.0) [
        | inr (e, stopped) ↦ rw (stopped, react_requests) tt
        | inl (txs, pushed) ↦
            rw (pushed, react_requests)
              (requests-IsSpent rest (out ++ txs) step.1 step.2 proper.stays-IsConsistent (
                All-append (IsSpent step.1) out txs (grown-IsSpent node step.1 out proper.grows all)
                  (subst (λ r. All (IsSpent step.1) (sent r)) pushed spent)))
      ]

  -- A consistent node that emits a share in `react` holds no nonces for that request afterwards, and
  -- has the request on record as committed.
  pub react-IsSpent :
      (node : Node C) (state : State C) (rng : Rng)
      → IsConsistent node
      → (let last = react node state rng in All (IsSpent last.1) (sent last.0))
  unfolding react
  react-IsSpent node state rng v = elim (Option-cases state.group) [
    | inl without ↦ rw (without, react) tt
    | inr (g, found) ↦
        rw (found, react)
          (elim (Bool-cases (contains_key node.identifier g.validators)) [
            | inl member ↦ rw member (requests-IsSpent state.requests [] node rng v tt)
            | inr stranger ↦ rw stranger tt
          ])
  ]
