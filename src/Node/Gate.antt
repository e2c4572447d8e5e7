-- ===== src/Node/Gate.antt =====
-- The gate: why a node emits what it emits, and what a refusal of enough nodes means.
use mathlib.Core.Option.{some-injective}
use project_sapphire.Base.{
  ◌≡◌, refl, true, false, some, List, [], ◌∷◌, ◌++◌, Ord, ok, err, arith, Bool-cases, Option-cases,
  Result-cases, inl, inr, sym, subst, ◌∙◌, String,
}
use project_sapphire.Base.Map.{Map, Set, get, contains_key}
use project_sapphire.Base.Map.Sorted.{IsSorted, Above}
use project_sapphire.Core.{Uuid, uuid_ord}
use project_sapphire.Frost.{Ciphersuite}
use project_sapphire.Chain.Tx.{Tx, submit_commitment, submit_share}
use project_sapphire.Chain.State.{State, RequestEntry, RequestStatus, awaiting_commitments, signing}
use project_sapphire.Chain.Validity.{IsValid}
use project_sapphire.Chain.Quorum.{AllWilling}
use project_sapphire.Node.Policy.{SignPolicy}
use project_sapphire.Node.Signer.{Node, Step, react_entry, react_requests, react}
use project_sapphire.Node.Steps.{
  Reacts, idle, saw_commitment, saw_share, commits, in_use, shares, fails, react_entry-Reacts,
}
use project_sapphire.Node.Memory.{IsConsistent, entry-IsProper}
use project_sapphire.Node.Once.{sent}

abbrev pub All {ℓ} : {A : Type ℓ} → (A → Type 0) → List A → Type 0
All P [] = Unit {0}
All P (x ∷ xs) = P x × All P xs

pub All-append :
    {A : Type 0} (P : A → Type 0) (xs ys : List A) → All P xs → All P ys → All P (xs ++ ys)
All-append P [] ys p q = q
All-append P (x ∷ xs) ys (p, ps) q = (p, All-append P xs ys ps q)

module _ {V : Type 0} (whole : Map Uuid V) where
  -- Every entry of a list is what the map has under its key.
  abbrev AllFound : Map Uuid V → Type 0
  AllFound = All (λ e. get e.0 whole ≡ some e.1)

module _ {V : Type 0} where
  later-AllFound :
      (k : Uuid) (v : V) (m rest : Map Uuid V)
      → Above k rest
      → AllFound m rest
      → AllFound ((k, v) ∷ m) rest
  unfolding get
  later-AllFound k v m [] above found = tt
  later-AllFound k v m ((j, w) ∷ rest) above found = (
    ground (arith, above, found, uuid_ord.cmp_swap k j),
    later-AllFound k v m rest above.1 found.1,
  )

  AllFound-self : (m : Map Uuid V) → IsSorted m → AllFound m m
  unfolding get
  AllFound-self [] sorted = tt
  AllFound-self ((k, v) ∷ m) sorted = (
    ground (arith, uuid_ord.cmp_self k),
    later-AllFound k v m m sorted.0 (AllFound-self m sorted.1),
  )

module _ {I : Type 0} ⦃o : Ord I⦄ {C : Ciphersuite I} where
  open C use {Rng}

  -- A commitment is for a request that waits for it, that the policy approves and that the node
  -- has not answered on the chain; a share is for a request that selected the node and lacks its share. Both
  -- carry the node's own identifier, and nothing else is emitted.
  abbrev pub IsJustified : I → SignPolicy → State C → Tx C → Type 0
  IsJustified identifier policy state (submit_commitment request_id validator c) =
      (validator ≡ identifier)
      × (e : RequestEntry C) × (commitments : Map I C.SigningCommitments) × (get request_id
            state.requests
          ≡ some e)
      × (e.status ≡ awaiting_commitments commitments)
      × (contains_key identifier commitments ≡ false)
      × (policy.approve e.message ≡ ok tt)
  IsJustified identifier policy state (submit_share request_id validator share) =
      (validator ≡ identifier)
      × (e : RequestEntry C) × (pkg : C.SigningPackage) × (participants : Set I) × (given : Map I
          C.SignatureShare)
      × (get request_id state.requests ≡ some e)
      × (e.status ≡ signing pkg participants given)
      × (contains_key identifier participants ≡ true)
      × (contains_key identifier given ≡ false)
  IsJustified identifier policy state _ = ⊥

  entry-IsJustified :
      (node : Node C) (state : State C) (request_id : Uuid) (entry : RequestEntry C) (rng : Rng)
      (status : RequestStatus C) (step : Step C (List (Tx C)))
      → get request_id state.requests ≡ some entry
      → entry.status ≡ status
      → Reacts node request_id entry rng status step
      → All (IsJustified node.identifier node.policy state) (sent step.0)
  entry-IsJustified node state j entry rng status step there now idle = tt
  entry-IsJustified node state j entry rng status step there now saw_commitment = tt
  entry-IsJustified node state j entry rng status step there now saw_share = tt
  entry-IsJustified node state j entry rng status step there now
        (commits {commitments} absent fresh agrees free) =
      ((refl, entry, commitments, there, now, absent, agrees), tt)
  entry-IsJustified node state j entry rng status step there now (in_use fresh held) = tt
  entry-IsJustified node state j entry rng status step there now
        (shares {pkg} {participants} {given} nonces share chosen absent fresh held signed) =
      ((refl, entry, pkg, participants, given, there, now, chosen, absent), tt)
  entry-IsJustified node state j entry rng status step there now (fails nonces e held refuses) = tt

  requests-IsJustified :
      (identifier : I) (policy : SignPolicy) (state : State C) (m : Map Uuid (RequestEntry C))
      (out : List (Tx C)) (node : Node C) (rng : Rng)
      → IsConsistent node
      → node.identifier ≡ identifier
      → node.policy ≡ policy
      → AllFound state.requests m
      → All (IsJustified identifier policy state) out
      → All (IsJustified identifier policy state) (sent (react_requests m out node rng).0)
  unfolding react_requests
  requests-IsJustified identifier policy state [] out node rng v me mine found all = all
  requests-IsJustified identifier policy state ((j, entry) ∷ rest) out node rng v me mine found
        all =
      let step = react_entry node j entry entry.status rng in
      let reacts = react_entry-Reacts node j entry entry.status rng in
      let proper = entry-IsProper node j entry rng entry.status step v reacts in
      let pushed_all =
        entry-IsJustified node state j entry rng entry.status step found.0 refl reacts in
      elim (Result-cases step.0) [
        | inr (e, stopped) ↦ rw (stopped, react_requests) tt
        | inl (txs, pushed) ↦
            let justified : All (IsJustified identifier policy state) txs =
              subst (λ i. All (IsJustified i policy state) txs) me
                (subst (λ p. All (IsJustified node.identifier p state) txs) mine
                  (subst (λ r. All (IsJustified node.identifier node.policy state) (sent r)) pushed
                    pushed_all)) in
            rw (pushed, react_requests)
              (requests-IsJustified identifier policy state rest (out ++ txs) step.1 step.2
                proper.stays-IsConsistent (proper.grows.same_identifier ∙ me)
                (proper.grows.same_policy ∙ mine) found.1
                (All-append (IsJustified identifier policy state) out txs all justified))
      ]

  -- Everything that a consistent node emits in `react` on a valid state is justified by the state of the chain that it sees and, for a
  -- commitment, by the node's policy: the chain has a request under that id which waits for
  -- commitments and lacks this node's, and the policy approves its message; or it has one that
  -- selected this node and lacks its share.
  pub react-IsJustified :
      (node : Node C) (state : State C) (rng : Rng)
      → IsConsistent node
      → IsValid state
      → All (IsJustified node.identifier node.policy state) (sent (react node state rng).0)
  unfolding react
  react-IsJustified node state rng v valid = elim (Option-cases state.group) [
    | inl without ↦ rw (without, react) tt
    | inr (g, found) ↦
        rw (found, react)
          (elim (Bool-cases (contains_key node.identifier g.validators)) [
            | inl member ↦ rw member (
                requests-IsJustified node.identifier node.policy state state.requests [] node rng v
                  refl refl (AllFound-self state.requests valid.requests-IsSorted) tt)
            | inr stranger ↦ rw stranger tt
          ])
  ]

  pub justified-AllWilling :
      (identifier : I) (policy : SignPolicy) (state : State C) (request_id : Uuid)
      (e : RequestEntry C) (reason : String) (willing : Set I) (txs : List (Tx C))
      → get request_id state.requests ≡ some e
      → policy.approve e.message ≡ err reason
      → All (IsJustified identifier policy state) txs
      → AllWilling request_id willing txs
  justified-AllWilling identifier policy state k e reason willing [] there refuses all = tt
  justified-AllWilling identifier policy state k e reason willing
        (submit_commitment j validator c ∷ txs) there refuses
        ((_, e', _, there', _, _, approves), all) =
      (
        (λ same.
            let one : e' ≡ e =
              some-injective e' e
                (sym (subst (λ i. get i state.requests ≡ some e') same there') ∙ there) in
            cc),
        tt,
        justified-AllWilling identifier policy state k e reason willing txs there refuses all,
      )
  justified-AllWilling identifier policy state k e reason willing
        (submit_share j validator share ∷ txs) there refuses (_, all) =
      (
        tt,
        tt,
        justified-AllWilling identifier policy state k e reason willing txs there refuses all,
      )
  justified-AllWilling identifier policy state k e reason willing (_ ∷ txs) there refuses all =
      absurd all.0

  -- A node whose policy refuses the message of a request emits no commitment to it, so its
  -- transactions are among those that, from a set of willing validators below the threshold, leave
  -- the request waiting.
  pub react-AllWilling :
      (node : Node C) (state : State C) (rng : Rng) (request_id : Uuid) (e : RequestEntry C)
      (reason : String) (willing : Set I)
      → IsConsistent node
      → IsValid state
      → get request_id state.requests ≡ some e
      → node.policy.approve e.message ≡ err reason
      → AllWilling request_id willing (sent (react node state rng).0)
  react-AllWilling node state rng request_id e reason willing v valid there refuses =
      justified-AllWilling node.identifier node.policy state request_id e reason willing _ there
        refuses (react-IsJustified node state rng v valid)
