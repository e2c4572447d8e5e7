-- ===== src/Tests/NodeExamples.antt =====
-- Nodes that react to the sample chain, and the theorems on them at these runs.
use project_sapphire.Base.{
  ℕ, ◌+◌, ◌≡◌, ◌≤◌, refl, List, [], ◌∷◌, ◌++◌, nat_ord, err, inl, inr, arith,
}
use project_sapphire.Base.Map.{get, contains_key, insert, remove}
use project_sapphire.Base.Map.Within.{nil-KeysWithin}
use project_sapphire.Core.{uuid_ord}
use project_sapphire.Chain.Tx.{Tx, submit_commitment, submit_share}
use project_sapphire.Chain.State.{State, awaiting_commitments}
use project_sapphire.Chain.Sim.{ChainSim, commit_block}
use project_sapphire.Chain.Quorum.{Waits}
use project_sapphire.Node.Policy.{SignPolicy, accept_all}
use project_sapphire.Node.Signer.{
  Node, new_node, with_policy, commit, sign_share_rerandomized, emit_commitment, emit_share,
  react_awaiting, react_signing, react_entry, react_requests, react,
}
use project_sapphire.Node.Memory.{IsConsistent, IsProper, react-IsProper}
use project_sapphire.Node.Once.{sent, total, turns, commits_to, shares_to, turns-at_most_once}
use project_sapphire.Node.Gate.{All, IsJustified, react-IsJustified}
use project_sapphire.Node.Nonces.{IsSpent, react-IsSpent}
use project_sapphire.Node.Safety.{emitted, IsWillingOrRefuses, commit_block-emitted-Waits}
use project_sapphire.Tests.Scheme.{scheme, scheme-IsLawful}
use project_sapphire.Tests.Samples.{after, id_a, commit_by, sim_of, group_a, entry_a}
use project_sapphire.Tests.ChainExamples.{
  request_txs, request_txs-IsValid, group_there, request_there,
}

abbrev pub node : ℕ → Node scheme
node i = new_node scheme (record { key_package = i; public_key_package = 7 })

abbrev refuse_all : SignPolicy
refuse_all = record { approve = λ message. err "no" }

abbrev pub wary : ℕ → Node scheme
wary i = with_policy scheme (node i) refuse_all

unfoldable pub reply : Node scheme → State scheme → ℕ → List (Tx scheme)
unfolding react react_requests react_entry react_awaiting react_signing emit_commitment emit_share
    commit sign_share_rerandomized insert remove get contains_key after
reply n state rng = sent (react n state rng).0

waiting : State scheme
unfolding after
waiting = after request_txs

commits_first : reply (node 1) waiting 5 ≡ (submit_commitment id_a 1 105 ∷ [])
unfolding reply waiting
commits_first = refl

refuses : reply (wary 1) waiting 5 ≡ []
unfolding reply waiting
refuses = refl

stranger : reply (node 4) waiting 5 ≡ []
unfolding reply waiting
stranger = refl

-- The node commits, sees that it is selected, and gives its share with the nonces it kept.
commits_then_shares :
    turns
      (node 1)
      5
      (waiting ∷ waiting ∷ after (request_txs ++ (commit_by 1 ∷ commit_by 2 ∷ [])) ∷ [])
    ≡ (submit_commitment id_a 1 105 ∷ submit_share id_a 1 10 ∷ [])
unfolding reply waiting turns after
commits_then_shares = refl

pub node-IsConsistent : (i : ℕ) → IsConsistent (node i)
node-IsConsistent i = nil-KeysWithin ℕ []

react-IsProper_example : IsProper (node 1) (react (node 1) (after request_txs) 5)
react-IsProper_example = react-IsProper (node 1) (after request_txs) 5 (node-IsConsistent 1)

turns-at_most_once_example :
    let states = waiting ∷ waiting ∷ [] in
    (total (commits_to id_a) (turns (node 1) 5 states) + 0 ≤ 1)
    × (total (shares_to id_a) (turns (node 1) 5 states) + 0 ≤ 1)
unfolding contains_key get
turns-at_most_once_example = turns-at_most_once (node 1) 5 (waiting ∷ waiting ∷ []) id_a

react-IsJustified_example :
    All
      (IsJustified 1 accept_all (after request_txs))
      (sent (react (node 1) (after request_txs) 5).0)
react-IsJustified_example =
    react-IsJustified (node 1) (after request_txs) 5 (node-IsConsistent 1) request_txs-IsValid

abbrev slate : List (Node scheme × ℕ)
slate = (wary 1, 5) ∷ (node 2, 6) ∷ (wary 3, 7) ∷ []

abbrev gated : ChainSim scheme
gated = sim_of (after request_txs) (emitted (after request_txs) slate)

gated-Waits : Waits id_a ((2, tt) ∷ []) (after request_txs)
gated-Waits =
    (entry_a (awaiting_commitments []), [], request_there, refl, nil-KeysWithin ℕ ((2, tt) ∷ []))

slate-IsWillingOrRefuses :
    All (IsWillingOrRefuses ((2, tt) ∷ []) (entry_a (awaiting_commitments []))) slate
unfolding contains_key get
slate-IsWillingOrRefuses = (
  (node-IsConsistent 1, inr ("no", refl)),
  ((node-IsConsistent 2, inl refl), ((node-IsConsistent 3, inr ("no", refl)), tt)),
)

commit_block-emitted-Waits_example : Waits id_a ((2, tt) ∷ []) (commit_block gated).0.state
commit_block-emitted-Waits_example =
    commit_block-emitted-Waits gated group_a id_a (entry_a (awaiting_commitments [])) ((2, tt) ∷ [])
      slate scheme-IsLawful request_txs-IsValid group_there request_there gated-Waits (tt, tt)
      (omega arith) refl slate-IsWillingOrRefuses

-- The node after its first commitment, and the chain once it is selected.
abbrev selected_txs : List (Tx scheme)
selected_txs = request_txs ++ (commit_by 1 ∷ commit_by 2 ∷ [])

abbrev committed : Node scheme
committed = (react (node 1) (after request_txs) 5).1

react-IsSpent_example :
    let last = react committed (after selected_txs) 6 in All (IsSpent last.1) (sent last.0)
react-IsSpent_example =
    react-IsSpent committed (after selected_txs) 6
      (react-IsProper (node 1) (after request_txs) 5 (node-IsConsistent 1)).stays-IsConsistent
