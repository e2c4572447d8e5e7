-- ===== src/Node/Once.antt =====
-- A node answers each request once: over any number of calls of `react`, in whatever states of the
-- chain, it emits at most one commitment and at most one share for a request.
use project_sapphire.Base.{
  ℕ, ◌+◌, ◌≤◌, ◌≡◌, Bool, true, false, List, [], ◌∷◌, ◌++◌, Ord, Result, ok, err, arith, Bool-cases,
  Option-cases, Result-cases, inl, inr, ◌==◌, ==_iff, ==_refl, subst,
}
use project_sapphire.Base.Map.{Map, contains_key}
use project_sapphire.Base.Map.Laws.{contains-insert}
use project_sapphire.Core.{Uuid, uuid_ord}
use project_sapphire.Frost.{Ciphersuite}
use project_sapphire.Chain.Tx.{Tx, submit_commitment, submit_share}
use project_sapphire.Chain.State.{State, RequestEntry, RequestStatus}
use project_sapphire.Node.Signer.{Node, Step, react_entry, react_requests, react}
use project_sapphire.Node.Steps.{
  Reacts, idle, saw_commitment, saw_share, commits, in_use, shares, fails, react_entry-Reacts,
}

abbrev pub bit : Bool → ℕ
bit false = 0
bit true = 1

-- What an error leaves to send: nothing.
abbrev pub sent {ℓ κ} : {A : Type ℓ} {E : Type κ} → Result (List A) E → List A
sent (ok txs) = txs
sent (err e) = []

pub total : {A : Type 0} → (A → ℕ) → List A → ℕ
total weigh [] = 0
total weigh (x ∷ xs) = weigh x + total weigh xs

pub total-append :
    {A : Type 0} (weigh : A → ℕ) (xs ys : List A)
    → total weigh (xs ++ ys) ≡ total weigh xs + total weigh ys
unfolding total
total-append weigh [] ys = omega arith
total-append weigh (x ∷ xs) ys = ground (arith, total-append weigh xs ys)

module _ {I : Type 0} ⦃o : Ord I⦄ {C : Ciphersuite I} where
  open C use {Rng}

  -- The transactions of the successive calls of `react`, one for each state that the node sees.
  unfoldable pub turns : Node C → Rng → List (State C) → List (Tx C)
  turns node rng [] = []
  turns node rng (state ∷ states) =
      let (result, node', rng') = react node state rng in sent result ++ turns node' rng' states

  abbrev pub commits_to : Uuid → Tx C → ℕ
  commits_to request_id (submit_commitment j validator c) = bit (j == request_id)
  commits_to request_id _ = 0

  abbrev pub shares_to : Uuid → Tx C → ℕ
  shares_to request_id (submit_share j validator share) = bit (j == request_id)
  shares_to request_id _ = 0

  committed_once :
      (k : Uuid) (node : Node C) (request_id : Uuid) (entry : RequestEntry C) (rng : Rng)
      (status : RequestStatus C) (step : Step C (List (Tx C)))
      → Reacts node request_id entry rng status step
      → total (commits_to k) (sent step.0) + bit (contains_key k node.committed_requests)
        ≤ bit (contains_key k step.1.committed_requests)
  unfolding total
  committed_once k node j entry rng status step idle = omega arith
  committed_once k node j entry rng status step saw_commitment =
      ground (arith, contains-insert k j tt node.committed_requests)
  committed_once k node j entry rng status step saw_share = omega arith
  committed_once k node j entry rng status step (commits absent fresh agrees free) =
      ground (arith, contains-insert k j tt node.committed_requests, ==_iff j k, ==_refl j)
  committed_once k node j entry rng status step (in_use fresh held) = omega arith
  committed_once k node j entry rng status step
        (shares nonces share chosen absent fresh held signed) =
      omega arith
  committed_once k node j entry rng status step (fails nonces e held refuses) = omega arith

  shared_once :
      (k : Uuid) (node : Node C) (request_id : Uuid) (entry : RequestEntry C) (rng : Rng)
      (status : RequestStatus C) (step : Step C (List (Tx C)))
      → Reacts node request_id entry rng status step
      → total (shares_to k) (sent step.0) + bit (contains_key k node.shared_requests)
        ≤ bit (contains_key k step.1.shared_requests)
  unfolding total
  shared_once k node j entry rng status step idle = omega arith
  shared_once k node j entry rng status step saw_commitment = omega arith
  shared_once k node j entry rng status step saw_share =
      ground (arith, contains-insert k j tt node.shared_requests)
  shared_once k node j entry rng status step (commits absent fresh agrees free) = omega arith
  shared_once k node j entry rng status step (in_use fresh held) = omega arith
  shared_once k node j entry rng status step (shares nonces share chosen absent fresh held signed) =
      ground (arith, contains-insert k j tt node.shared_requests, ==_iff j k, ==_refl j)
  shared_once k node j entry rng status step (fails nonces e held refuses) = omega arith

  -- Of a weight of transactions and a mark on the node: what is pushed about one request weighs no
  -- more than the mark allows.
  module _ (weigh : Tx C → ℕ) (marked : Node C → Bool)
      (entry_once : (node : Node C) (request_id : Uuid) (entry : RequestEntry C) (rng : Rng)
          (status : RequestStatus C) (step : Step C (List (Tx C)))
        → Reacts node request_id entry rng status step
        → total weigh (sent step.0) + bit (marked node) ≤ bit (marked step.1)) where
    requests_once :
        (m : Map Uuid (RequestEntry C)) (out : List (Tx C)) (node : Node C) (rng : Rng)
        → let last = react_requests m out node rng in
          total weigh (sent last.0) + bit (marked node) ≤ total weigh out + bit (marked last.1)
    unfolding react_requests total
    requests_once [] out node rng = omega arith
    requests_once ((j, entry) ∷ rest) out node rng =
        let step = react_entry node j entry entry.status rng in
        let once =
          entry_once node j entry rng entry.status step
            (react_entry-Reacts node j entry entry.status rng) in
        elim (Result-cases step.0) [
          | inr (e, stopped) ↦ rw (stopped, react_requests) (ground (arith, once))
          | inl (txs, pushed) ↦
              let later = requests_once rest (out ++ txs) step.1 step.2 in
              let here =
                subst (λ r. total weigh (sent r) + bit (marked node) ≤ bit (marked step.1)) pushed
                  once in
              rw (pushed, react_requests) (ground (arith, later, here, total-append weigh out txs))
        ]

    react_once :
        (node : Node C) (state : State C) (rng : Rng)
        → let last = react node state rng in
          total weigh (sent last.0) + bit (marked node) ≤ bit (marked last.1)
    unfolding react total
    react_once node state rng = elim (Option-cases state.group) [
      | inl without ↦ rw (without, react) (omega arith)
      | inr (g, found) ↦
          rw (found, react)
            (elim (Bool-cases (contains_key node.identifier g.validators)) [
              | inl member ↦ rw member (omega (arith, requests_once state.requests [] node rng))
              | inr stranger ↦ rw stranger (omega arith)
            ])
    ]

    pub turns_once :
        (node : Node C) (rng : Rng) (states : List (State C))
        → total weigh (turns node rng states) + bit (marked node) ≤ 1
    unfolding turns total
    turns_once node rng [] = ground arith
    turns_once node rng (state ∷ states) =
        let last = react node state rng in
        ground (
          arith,
          react_once node state rng,
          turns_once last.1 last.2 states,
          total-append weigh (sent last.0) (turns last.1 last.2 states),
        )

  -- A node emits at most one commitment and at most one share for a request, in all calls of
  -- `react` together and whatever states of the chain it is shown; and none for a request that it
  -- has on record as committed or as shared.
  pub turns-at_most_once :
      (node : Node C) (rng : Rng) (states : List (State C)) (request_id : Uuid)
      → (total (commits_to request_id) (turns node rng states)
            + bit (contains_key request_id node.committed_requests)
          ≤ 1)
        × (total (shares_to request_id) (turns node rng states)
              + bit (contains_key request_id node.shared_requests)
            ≤ 1)
  turns-at_most_once node rng states k = (
    turns_once (commits_to k) (λ n. contains_key k n.committed_requests) (committed_once k) node rng
        states,
    turns_once (shares_to k) (λ n. contains_key k n.shared_requests) (shared_once k) node rng
        states,
  )
