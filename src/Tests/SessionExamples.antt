-- ===== src/Tests/SessionExamples.antt =====
-- Whole signing sessions of the sample group, and the theorems on them at these runs.
use project_sapphire.Base.{
  ℕ, ◌≡◌, ◌≢◌, refl, some, List, [], ◌∷◌, nat_ord, Result, ok, err, inl, inr, arith, String,
}
use project_sapphire.Base.Map.{get, contains_key}
use project_sapphire.Core.{Bytes, uuid_ord}
use project_sapphire.Chain.State.{initial, ApplyError}
use project_sapphire.Chain.Sim.{ChainSim, commit_block, submit, drain}
use project_sapphire.Chain.Reach.{reachable-IsValid}
use project_sapphire.Chain.Validity.{IsValid}
use project_sapphire.Node.Signer.{Node}
use project_sapphire.Node.Gate.{All}
use project_sapphire.Zcash.Session.{
  first_error, react_validators, judge_status, judge, drive_rounds, drive_signing_session,
  stuck_before_completion, submit_request_rejected, SignError,
}
use project_sapphire.Zcash.Sound.{IsSigned, drive_signing_session-IsSigned}
use project_sapphire.Zcash.Refused.{IsWillingOrRefuses, drive_signing_session-refused}
use project_sapphire.Tests.Scheme.{scheme, scheme-IsLawful}
use project_sapphire.Tests.Samples.{after, group_txs, sim_of, group_a}
use project_sapphire.Tests.ChainExamples.{after-Reaches, group_txs-AllTyped}
use project_sapphire.Tests.NodeExamples.{node, wary, node-IsConsistent, reply}

pub text_of : ApplyError → String
text_of e = "rejected"

abbrev pub idle : ChainSim scheme
idle = sim_of (after group_txs) []

abbrev pub sighash : Bytes
sighash = 4 ∷ 2 ∷ []

abbrev pub willing_three : List (Node scheme)
willing_three = node 1 ∷ node 2 ∷ node 3 ∷ []

abbrev wary_three : List (Node scheme)
wary_three = wary 1 ∷ node 2 ∷ wary 3 ∷ []

session_run : ChainSim scheme → List (Node scheme) → Result ℕ SignError
unfolding drive_signing_session drive_rounds judge judge_status react_validators first_error submit
    commit_block drain reply after text_of
session_run chain validators = (drive_signing_session text_of chain validators sighash 5 9).0

session_signs : session_run idle willing_three ≡ ok 14
unfolding session_run
session_signs = refl

session_stuck : session_run idle wary_three ≡ err (stuck_before_completion "AwaitingCommitments")
unfolding session_run
session_stuck = refl

no_group :
    session_run (sim_of (initial scheme) []) willing_three
    ≡ err (submit_request_rejected "rejected")
unfolding session_run
no_group = refl

pub group_txs-IsValid : IsValid (after group_txs)
group_txs-IsValid = reachable-IsValid scheme-IsLawful (after-Reaches group_txs group_txs-AllTyped)

session_returns : (drive_signing_session text_of idle willing_three sighash 5 9).0 ≡ ok 14
unfolding session_run
session_returns = session_signs

drive_signing_session-IsSigned_example :
    IsSigned (drive_signing_session text_of idle willing_three sighash 5 9).1.state sighash 5 14
drive_signing_session-IsSigned_example =
    drive_signing_session-IsSigned text_of idle willing_three sighash 5 9 14 scheme-IsLawful
      group_txs-IsValid tt (node-IsConsistent 1, (node-IsConsistent 2, (node-IsConsistent 3, tt)))
      session_returns

pub group_found : (after group_txs).group ≡ some group_a
unfolding after
group_found = refl

wary-AllWillingOrRefuse : All (IsWillingOrRefuses {C = scheme} ((2, tt) ∷ []) sighash) wary_three
unfolding contains_key get
wary-AllWillingOrRefuse = (
  (node-IsConsistent 1, inr ("no", refl)),
  ((node-IsConsistent 2, inl refl), ((node-IsConsistent 3, inr ("no", refl)), tt)),
)

drive_signing_session-refused_example :
    (drive_signing_session text_of idle wary_three sighash 5 9).0 ≢ ok 14
drive_signing_session-refused_example =
    drive_signing_session-refused ((2, tt) ∷ []) sighash text_of idle wary_three group_a 5 9 14
      scheme-IsLawful group_txs-IsValid tt group_found (tt, tt) (omega arith)
      wary-AllWillingOrRefuse
