-- ===== src/Node/Safety.antt =====
-- A block made of what the nodes emit: where too few of them would sign a request, it waits.
use project_sapphire.Base.{
  ◌≡◌, ◌<◌, ◌⊎◌, inl, inr, true, List, [], ◌∷◌, ◌++◌, String, Ord, err, length, some, subst, sym,
}
use project_sapphire.Base.Map.{Set, get, contains_key}
use project_sapphire.Base.Map.Sorted.{IsSorted}
use project_sapphire.Core.{Uuid, uuid_ord}
use project_sapphire.Frost.{Ciphersuite, IsLawful}
use project_sapphire.Chain.Tx.{Tx, submit_commitment, submit_share}
use project_sapphire.Chain.State.{State, RequestEntry, GroupConfig}
use project_sapphire.Chain.Validity.{IsValid}
use project_sapphire.Chain.Quorum.{AllWilling, Waits, commit_block-Waits}
use project_sapphire.Chain.Sim.{ChainSim, commit_block}
use project_sapphire.Node.Signer.{Node, react}
use project_sapphire.Node.Memory.{IsConsistent}
use project_sapphire.Node.Once.{sent}
use project_sapphire.Node.Gate.{All, IsJustified, react-IsJustified, react-AllWilling}

module _ {I : Type 0} ⦃o : Ord I⦄ {C : Ciphersuite I} where
  open C use {Rng}

  -- What these nodes emit in one state, each with its own random generator.
  unfoldable pub emitted : State C → List (Node C × Rng) → List (Tx C)
  emitted state [] = []
  emitted state ((node, rng) ∷ nodes) = sent (react node state rng).0 ++ emitted state nodes

  -- A node is one of the willing, or its policy refuses the request.
  abbrev pub IsWillingOrRefuses : Set I → RequestEntry C → Node C × Rng → Type 0
  IsWillingOrRefuses willing e (node, rng) =
      IsConsistent node
      × ((contains_key node.identifier willing ≡ true)
          ⊎ ((reason : String) × (node.policy.approve e.message ≡ err reason)))

  AllWilling-append :
      (k : Uuid) (willing : Set I) (xs ys : List (Tx C))
      → AllWilling k willing xs
      → AllWilling k willing ys
      → AllWilling k willing (xs ++ ys)
  AllWilling-append k willing [] ys p q = q
  AllWilling-append k willing (x ∷ xs) ys (p, typed, ps) q =
      (p, typed, AllWilling-append k willing xs ys ps q)

  pub member-AllWilling :
      (node : Node C) (state : State C) (k : Uuid) (willing : Set I) (txs : List (Tx C))
      → contains_key node.identifier willing ≡ true
      → All (IsJustified node.identifier node.policy state) txs
      → AllWilling k willing txs
  member-AllWilling node state k willing [] member all = tt
  member-AllWilling node state k willing (submit_commitment j validator c ∷ txs) member
        ((own, _, _, _, _, _, _), all) =
      (
        (λ same. subst (λ i. contains_key i willing ≡ true) (sym own) member),
        tt,
        member-AllWilling node state k willing txs member all,
      )
  member-AllWilling node state k willing (submit_share j validator share ∷ txs) member (_, all) =
      (tt, tt, member-AllWilling node state k willing txs member all)
  member-AllWilling node state k willing (_ ∷ txs) member all = absurd all.0

  pub emitted-AllWilling :
      (state : State C) (k : Uuid) (e : RequestEntry C) (willing : Set I)
      (nodes : List (Node C × Rng))
      → IsValid state
      → get k state.requests ≡ some e
      → All (IsWillingOrRefuses willing e) nodes
      → AllWilling k willing (emitted state nodes)
  unfolding emitted
  emitted-AllWilling state k e willing [] valid there all = tt
  emitted-AllWilling state k e willing ((node, rng) ∷ nodes) valid there ((v, inl member), all) =
      AllWilling-append k willing (sent (react node state rng).0) (emitted state nodes)
        (member-AllWilling node state k willing _ member (react-IsJustified node state rng v valid))
        (emitted-AllWilling state k e willing nodes valid there all)
  emitted-AllWilling state k e willing ((node, rng) ∷ nodes) valid there
        ((v, inr (reason, refuses)), all) =
      AllWilling-append k willing (sent (react node state rng).0) (emitted state nodes)
        (react-AllWilling node state rng k e reason willing v valid there refuses)
        (emitted-AllWilling state k e willing nodes valid there all)

  -- A proposal that too few validators would sign fails: in a valid state where a request waits
  -- with commitments of the willing only, and every node is consistent and one of the willing or
  -- refuses the message of a request by its policy, and the willing are fewer than the threshold,
  -- a block of all that the nodes emit leaves the request waiting for commitments.
  pub commit_block-emitted-Waits :
      (sim : ChainSim C) (g : GroupConfig C) (request_id : Uuid) (e : RequestEntry C)
      (willing : Set I) (nodes : List (Node C × Rng))
      → IsLawful C
      → IsValid sim.state
      → sim.state.group ≡ some g
      → get request_id sim.state.requests ≡ some e
      → Waits request_id willing sim.state
      → IsSorted willing
      → length willing < g.params.threshold
      → sim.mempool ≡ emitted sim.state nodes
      → All (IsWillingOrRefuses willing e) nodes
      → Waits request_id willing (commit_block sim).0.state
  commit_block-emitted-Waits sim g k e willing nodes L valid found there waits sorted few from all =
      commit_block-Waits k willing sim g L valid found sorted few
        (subst (AllWilling k willing) (sym from)
          (emitted-AllWilling sim.state k e willing nodes valid there all))
        waits
