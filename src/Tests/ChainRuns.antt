-- ===== src/Tests/ChainRuns.antt =====
-- Runs of `apply_tx` and of the simulator, as the tests of sapphire-chain make them.
use project_sapphire.Base.{◌≡◌, refl, none, some, List, [], ◌∷◌, ◌++◌, nat_ord, err, length}
use project_sapphire.Tests.Scheme.{scheme}
use project_sapphire.Chain.Tx.{Tx, dkg_round2, dkg_finalize, init_group, submit_share}
use project_sapphire.Chain.State.{
  completed, failed, already_initialized, not_initialized, validator_set_mismatch,
  round1_not_complete, pkp_mismatch, duplicate_commitment, not_awaiting_commitments,
  not_selected_participant, duplicate_share, unknown_validator, ApplyError,
}
use project_sapphire.Chain.Sim.{commit_block, drain, Outcome}
use project_sapphire.Tests.Samples.{
  after, id_a, two_of_three, begin, before_last_txs, group_txs, request_a, commit_by, share_by,
  signed_txs, sim_of, group_a, entry_a, late_ceremony,
}

-- The outcome of the last transaction, after all the others.
last_outcome : List (Tx scheme) → Tx scheme → List (Outcome scheme)
unfolding commit_block after
last_outcome txs tx = (commit_block (sim_of (after txs) (tx ∷ []))).1

Refused : (txs : List (Tx scheme)) (tx : Tx scheme) (e : ApplyError) → Type 0
Refused txs tx e = last_outcome txs tx ≡ ((tx, err e) ∷ [])

signed_state : after signed_txs ≡ record {
  ceremony = none;
  group = some group_a;
  requests = (id_a, entry_a (completed ((1, tt) ∷ (3, tt) ∷ []) 14)) ∷ [];
}
unfolding after
signed_state = refl

-- A zero share makes the aggregation fail.
failed_state :
    (after (
      group_txs
      ++ (request_a
          ∷ commit_by 3
          ∷ commit_by 2
          ∷ share_by 3
          ∷ submit_share id_a 2 0
          ∷ []))).requests
    ≡ (id_a, entry_a (failed "zero share")) ∷ []
unfolding after
failed_state = refl

late_state : (after before_last_txs).ceremony ≡ some late_ceremony
unfolding after
late_state = refl

round2_too_early :
    Refused (begin ∷ []) (dkg_round2 1 2 (record { envelope = [] })) round1_not_complete
unfolding Refused last_outcome
round2_too_early = refl

finalize_disagrees : Refused before_last_txs (dkg_finalize 3 8) (pkp_mismatch "validator")
unfolding Refused last_outcome
finalize_disagrees = refl

wrong_validators : Refused [] (init_group two_of_three 7 (1 ∷ 2 ∷ [])) validator_set_mismatch
unfolding Refused last_outcome
wrong_validators = refl

second_group : Refused group_txs (init_group two_of_three 7 (1 ∷ 2 ∷ 3 ∷ [])) already_initialized
unfolding Refused last_outcome
second_group = refl

no_group : Refused [] request_a not_initialized
unfolding Refused last_outcome
no_group = refl

stranger : Refused (group_txs ++ (request_a ∷ [])) (commit_by 4) (unknown_validator "validator")
unfolding Refused last_outcome
stranger = refl

twice : Refused (group_txs ++ (request_a ∷ commit_by 1 ∷ [])) (commit_by 1) duplicate_commitment
unfolding Refused last_outcome
twice = refl

late_commitment :
    Refused
      (group_txs ++ (request_a ∷ commit_by 3 ∷ commit_by 1 ∷ []))
      (commit_by 2)
      not_awaiting_commitments
unfolding Refused last_outcome
late_commitment = refl

not_chosen :
    Refused
      (group_txs ++ (request_a ∷ commit_by 3 ∷ commit_by 1 ∷ []))
      (share_by 2)
      not_selected_participant
unfolding Refused last_outcome
not_chosen = refl

second_share :
    Refused
      (group_txs ++ (request_a ∷ commit_by 3 ∷ commit_by 1 ∷ share_by 1 ∷ []))
      (share_by 1)
      duplicate_share
unfolding Refused last_outcome
second_share = refl

-- What is refused is reported, and is not part of the block.
block_of_two :
    let (sim, results) = commit_block (sim_of (after group_txs) (share_by 1 ∷ request_a ∷ [])) in
    (sim.last_block ≡ (request_a ∷ [])) × (length results ≡ 2) × (sim.block_height ≡ 1)
unfolding commit_block drain after
block_of_two = (refl, refl, refl)
