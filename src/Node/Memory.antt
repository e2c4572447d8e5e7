-- ===== src/Node/Memory.antt =====
-- What the node remembers from one `react` to the next.
use project_sapphire.Base.{
  ◌≡◌, refl, true, false, List, [], ◌∷◌, ◌++◌, Ord, Result, ok, err, arith, Bool-cases,
  Option-cases, if◌then◌else◌, Result-cases, inl, inr, String, ◌==◌, ==_iff, subst, ◌∙◌,
}
use project_sapphire.Base.Map.{Map, Set, contains_key, insert, remove}
use project_sapphire.Base.Map.Laws.{contains-insert, get-remove}
use project_sapphire.Base.Map.Counting.{KeysWithin}
use project_sapphire.Core.{Error, frost, Uuid, uuid_ord}
use project_sapphire.Frost.{Ciphersuite}
use project_sapphire.Chain.Tx.{Tx}
use project_sapphire.Chain.State.{State, RequestEntry, RequestStatus}
use project_sapphire.Node.Signer.{
  Node, Step, mark_committed, mark_shared, react_entry, react_requests, react,
}
use project_sapphire.Node.Steps.{
  Reacts, idle, saw_commitment, saw_share, commits, in_use, shares, fails, react_entry-Reacts,
}

pub contains-remove :
    {V : Type 0} (j k : Uuid) (m : Map Uuid V)
    → contains_key j (remove k m) ≡ (if j == k then false else contains_key j m)
unfolding contains_key
contains-remove j k m = rw (get-remove j k m) (ground (arith, Bool-cases (j == k)))

-- The only errors are those of FROST.
abbrev pub IsPlain : {A : Type 0} → Result A Error → Type 0
IsPlain (ok x) = Unit {0}
IsPlain (err e) = (text : String) × (e ≡ frost text)

module _ {I : Type 0} ⦃o : Ord I⦄ {C : Ciphersuite I} where
  open C use {Rng, SigningNonces, error_text}

  -- Nonces are pending only for requests that the node has committed to.
  abbrev pub IsConsistent : Node C → Type 0
  IsConsistent node = KeysWithin node.pending node.committed_requests

  -- What changes of a node, and what does not.
  pub record Grows (n m : Node C) : Type 0 where
    pub same_identifier : m.identifier ≡ n.identifier
    pub same_bundle : m.bundle ≡ n.bundle
    pub same_policy : m.policy ≡ n.policy
    pub committed_kept : KeysWithin n.committed_requests m.committed_requests
    pub shared_kept : KeysWithin n.shared_requests m.shared_requests
    -- Nonces that are used, or were never made, do not come back.
    pub spent_kept :
        (request_id : Uuid)
        → contains_key request_id n.committed_requests ≡ true
        → contains_key request_id n.pending ≡ false
        → contains_key request_id m.pending ≡ false

  Grows-refl : (n : Node C) → Grows n n
  Grows-refl n = record {
    same_identifier = refl;
    same_bundle = refl;
    same_policy = refl;
    committed_kept = λ k h. h;
    shared_kept = λ k h. h;
    spent_kept = λ k h spent. spent;
  }

  Grows-trans : (n m l : Node C) → Grows n m → Grows m l → Grows n l
  Grows-trans n m l f g = record {
    same_identifier = g.same_identifier ∙ f.same_identifier;
    same_bundle = g.same_bundle ∙ f.same_bundle;
    same_policy = g.same_policy ∙ f.same_policy;
    committed_kept = λ k h. g.committed_kept k (f.committed_kept k h);
    shared_kept = λ k h. g.shared_kept k (f.shared_kept k h);
    spent_kept = λ k h spent. g.spent_kept k (f.committed_kept k h) (f.spent_kept k h spent);
  }

  -- A step from a node that grows it, keeps it consistent, and has no error but those of FROST.
  pub record IsProper {A : Type 0} (n : Node C) (step : Step C A) : Type 0 where
    pub grows : Grows n step.1
    pub stays-IsConsistent : IsConsistent step.1
    pub result-IsPlain : IsPlain step.0

  changed-Grows :
      (n : Node C) (pending : Map Uuid SigningNonces) (committed shared : Set Uuid)
      → KeysWithin n.committed_requests committed
      → KeysWithin n.shared_requests shared
      → ((k : Uuid)
          → contains_key k n.committed_requests ≡ true
          → contains_key k n.pending ≡ false
          → contains_key k pending ≡ false)
      → Grows n
          (record n { pending = pending; committed_requests = committed; shared_requests = shared })
  changed-Grows n pending committed shared c s p = record {
    same_identifier = refl;
    same_bundle = refl;
    same_policy = refl;
    committed_kept = c;
    shared_kept = s;
    spent_kept = p;
  }

  mark_committed-Grows : (n : Node C) (j : Uuid) → Grows n (mark_committed j n)
  mark_committed-Grows n j =
      changed-Grows n n.pending (insert j tt n.committed_requests) n.shared_requests
        (λ k h. ground (arith, contains-insert k j tt n.committed_requests)) (λ k h. h)
        (λ k h spent. spent)

  mark_shared-Grows : (n : Node C) (j : Uuid) → Grows n (mark_shared j n)
  mark_shared-Grows n j =
      changed-Grows n n.pending n.committed_requests (insert j tt n.shared_requests) (λ k h. h)
        (λ k h. ground (arith, contains-insert k j tt n.shared_requests)) (λ k h spent. spent)

  use-Grows : (n : Node C) (j : Uuid) → Grows n (record n { pending = remove j n.pending })
  use-Grows n j =
      changed-Grows n (remove j n.pending) n.committed_requests n.shared_requests (λ k h. h)
        (λ k h. h) (λ k h spent. ground (arith, contains-remove k j n.pending))

  hold-Grows :
      (n : Node C) (j : Uuid) (nonces : SigningNonces)
      → contains_key j n.committed_requests ≡ false
      → Grows n (record n { pending = insert j nonces n.pending })
  hold-Grows n j nonces fresh =
      changed-Grows n (insert j nonces n.pending) n.committed_requests n.shared_requests (λ k h. h)
        (λ k h. h) (λ k h spent. ground (arith, contains-insert k j nonces n.pending, ==_iff k j))

  use-IsConsistent :
      (n : Node C) (j : Uuid)
      → IsConsistent n
      → IsConsistent (record n { pending = remove j n.pending })
  use-IsConsistent n j v k h = ground (arith, contains-remove k j n.pending, v k)

  idle-IsProper :
      (node : Node C) (rng : Rng) (out : List (Tx C))
      → IsConsistent node
      → IsProper node (ok out, node, rng)
  idle-IsProper node rng out v = record {
    grows = Grows-refl node;
    stays-IsConsistent = v;
    result-IsPlain = tt;
  }

  pub entry-IsProper :
      (node : Node C) (request_id : Uuid) (entry : RequestEntry C) (rng : Rng)
      (status : RequestStatus C) (step : Step C (List (Tx C)))
      → IsConsistent node
      → Reacts node request_id entry rng status step
      → IsProper node step
  entry-IsProper node j entry rng status step v idle = idle-IsProper node rng [] v
  entry-IsProper node j entry rng status step v saw_commitment = record {
    grows = mark_committed-Grows node j;
    stays-IsConsistent = λ k h. (mark_committed-Grows node j).committed_kept k (v k h);
    result-IsPlain = tt;
  }
  entry-IsProper node j entry rng status step v saw_share = record {
    grows = mark_shared-Grows node j;
    stays-IsConsistent = v;
    result-IsPlain = tt;
  }
  entry-IsProper node j entry rng status step v (commits absent fresh agrees free) =
      let nonces = (C.commit node.bundle.key_package rng).0 in
      let held : Node C = record node { pending = insert j nonces node.pending } in
      record {
        grows =
            Grows-trans node held (mark_committed j held) (hold-Grows node j nonces fresh)
              (mark_committed-Grows held j);
        stays-IsConsistent = λ k h. ground (
          arith,
          contains-insert k j nonces node.pending,
          contains-insert k j tt node.committed_requests,
          v k,
        );
        result-IsPlain = tt;
      }
  entry-IsProper node j entry rng status step v (in_use fresh held) = let known = v j held in cc
  entry-IsProper node j entry rng status step v
        (shares nonces share chosen absent fresh held signed) =
      let used : Node C = record node { pending = remove j node.pending } in
      record {
        grows =
            Grows-trans node used (mark_shared j used) (use-Grows node j)
              (mark_shared-Grows used j);
        stays-IsConsistent = use-IsConsistent node j v;
        result-IsPlain = tt;
      }
  entry-IsProper node j entry rng status step v (fails nonces e held refuses) = record {
    grows = use-Grows node j;
    stays-IsConsistent = use-IsConsistent node j v;
    result-IsPlain = (error_text e, refl);
  }

  pub requests-IsProper :
      (m : Map Uuid (RequestEntry C)) (out : List (Tx C)) (node : Node C) (rng : Rng)
      → IsConsistent node
      → IsProper node (react_requests m out node rng)
  unfolding react_requests
  requests-IsProper [] out node rng v = idle-IsProper node rng out v
  requests-IsProper ((j, entry) ∷ rest) out node rng v =
      let step = react_entry node j entry entry.status rng in
      let first =
        entry-IsProper node j entry rng entry.status step v
          (react_entry-Reacts node j entry entry.status rng) in
      elim (Result-cases step.0) [
        | inr (e, failed_so) ↦
            rw (failed_so, react_requests)
              (record {
                grows = first.grows;
                stays-IsConsistent = first.stays-IsConsistent;
                result-IsPlain = subst IsPlain failed_so first.result-IsPlain;
              })
        | inl (txs, pushed) ↦
            let later =
              requests-IsProper rest (out ++ txs) step.1 step.2 first.stays-IsConsistent in
            rw (pushed, react_requests)
              (record {
                grows = Grows-trans node step.1 _ first.grows later.grows;
                stays-IsConsistent = later.stays-IsConsistent;
                result-IsPlain = later.result-IsPlain;
              })
      ]

  -- In whatever state of the chain a consistent node reacts, it keeps its identifier, key shares and policy,
  -- forgets no request that it has committed to or given a share for, and never again holds nonces
  -- for a request whose nonces it has used; it stays consistent, and the only error that it
  -- returns is that of a signature share that FROST refuses to make.
  pub react-IsProper :
      (node : Node C) (state : State C) (rng : Rng)
      → IsConsistent node
      → IsProper node (react node state rng)
  unfolding react
  react-IsProper node state rng v = elim (Option-cases state.group) [
    | inl without ↦ rw (without, react) (idle-IsProper node rng [] v)
    | inr (g, found) ↦
        rw (found, react)
          (elim (Bool-cases (contains_key node.identifier g.validators)) [
            | inl member ↦ rw member (requests-IsProper state.requests [] node rng v)
            | inr stranger ↦ rw stranger (idle-IsProper node rng [] v)
          ])
  ]
