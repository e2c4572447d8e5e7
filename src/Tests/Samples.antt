-- ===== src/Tests/Samples.antt =====
-- A group of three validators, two of which sign, and a request to it.
use project_sapphire.Base.{ℕ, ◌+◌, nat_ord, pair_ord, List, [], ◌∷◌, ◌++◌}
use project_sapphire.Base.Map
use project_sapphire.Core.{MpcParams, Uuid, uuid_ord}
use project_sapphire.Chain.Tx.{
  EncPublicKey, Sealed, Tx, dkg_begin, dkg_round1, dkg_round2, dkg_finalize, submit_request,
  submit_commitment, submit_share,
}
use project_sapphire.Chain.State.{
  State, initial, r1_complete, r2_complete, finalize_complete, RequestEntry, RequestStatus,
  GroupConfig, DkgCeremony,
}
use project_sapphire.Chain.Apply.{
  apply_init_group, apply_dkg_begin, apply_dkg_round1, apply_dkg_round2, agrees_with_first, promote,
  apply_dkg_finalize, apply_submit_request, advance, record_commitment, apply_submit_commitment,
  settle, conclude, record_share, apply_submit_share, apply_tx,
}
use project_sapphire.Chain.Sim.{ChainSim}
use project_sapphire.Chain.Sim.Laws.{settled}
use project_sapphire.Tests.Scheme.{scheme, all_nonzero}

abbrev pub id_a : Uuid
id_a = record { bytes = 1 ∷ 1 ∷ [] }

abbrev pub id_b : Uuid
id_b = record { bytes = 1 ∷ 2 ∷ [] }

abbrev pub two_of_three : MpcParams
two_of_three = record { threshold = 2; total = 3 }

abbrev key_of : ℕ → EncPublicKey
key_of i = record { key = i ∷ [] }

abbrev pub validator_keys : Map.Map ℕ EncPublicKey
validator_keys = (1, key_of 1) ∷ (2, key_of 2) ∷ (3, key_of 3) ∷ []

abbrev pub begin : Tx scheme
begin = dkg_begin two_of_three validator_keys

abbrev pub round1_txs : List (Tx scheme)
round1_txs = dkg_round1 3 30 ∷ dkg_round1 1 10 ∷ dkg_round1 2 20 ∷ []

abbrev sealed : ℕ → ℕ → Sealed
sealed i j = record { envelope = i ∷ j ∷ [] }

abbrev envelope : ℕ → ℕ → Tx scheme
envelope i j = dkg_round2 i j (sealed i j)

abbrev pub round2_txs : List (Tx scheme)
round2_txs =
    envelope 1 2 ∷ envelope 1 3 ∷ envelope 2 1 ∷ envelope 2 3 ∷ envelope 3 1 ∷ envelope 3 2 ∷ []

abbrev pub two_finalize_txs : List (Tx scheme)
two_finalize_txs = dkg_finalize 2 7 ∷ dkg_finalize 1 7 ∷ []

abbrev pub before_last_txs : List (Tx scheme)
before_last_txs = (begin ∷ []) ++ round1_txs ++ round2_txs ++ two_finalize_txs

abbrev pub group_txs : List (Tx scheme)
group_txs = before_last_txs ++ (dkg_finalize 3 7 ∷ [])

abbrev pub request_a : Tx scheme
request_a = submit_request id_a (4 ∷ 2 ∷ []) 5

abbrev pub commit_by : ℕ → Tx scheme
commit_by i = submit_commitment id_a i (100 + i)

abbrev pub share_by : ℕ → Tx scheme
share_by i = submit_share id_a i (200 + i)

-- The state after these transactions, from the start.
unfoldable pub after : List (Tx scheme) → State scheme
unfolding settled apply_tx apply_init_group apply_dkg_begin apply_dkg_round1 apply_dkg_round2
    apply_dkg_finalize apply_submit_request apply_submit_commitment apply_submit_share
    agrees_with_first promote advance record_commitment settle conclude record_share r1_complete
    r2_complete finalize_complete Map.map_eq Map.set_eq Map.collect_set Map.insert Map.get
    Map.contains_key Map.key_set all_nonzero
after txs = settled (initial scheme) txs

abbrev pub signed_txs : List (Tx scheme)
signed_txs = group_txs ++ (request_a ∷ commit_by 3 ∷ commit_by 1 ∷ share_by 1 ∷ share_by 3 ∷ [])

abbrev pub sim_of : State scheme → List (Tx scheme) → ChainSim scheme
sim_of state mempool = record {
  state = state;
  mempool = mempool;
  block_height = 0;
  last_block = [];
}

abbrev pub group_a : GroupConfig scheme
group_a = record { params = two_of_three; pkp = 7; validators = (1, tt) ∷ (2, tt) ∷ (3, tt) ∷ [] }

abbrev pub entry_a : RequestStatus scheme → RequestEntry scheme
entry_a status = record { request_id = id_a; message = 4 ∷ 2 ∷ []; randomizer = 5; status = status }

-- The ceremony when only validator 3 has not finalized yet.
abbrev pub late_ceremony : DkgCeremony scheme
late_ceremony = record {
  params = two_of_three;
  validators = validator_keys;
  round1 = (1, 10) ∷ (2, 20) ∷ (3, 30) ∷ [];
  round2 =
      ((1, 2), sealed 1 2)
      ∷ ((1, 3), sealed 1 3)
      ∷ ((2, 1), sealed 2 1)
      ∷ ((2, 3), sealed 2 3)
      ∷ ((3, 1), sealed 3 1)
      ∷ ((3, 2), sealed 3 2)
      ∷ [];
  finalize = (1, 7) ∷ (2, 7) ∷ [];
}
