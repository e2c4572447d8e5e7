-- ===== src/Tests/ChainExamples.antt =====
-- The theorems on sapphire-chain, at the runs of the sample group.
use project_sapphire.Base.{
  ℕ, ◌≡◌, ◌↔◌, ◌≢◌, ◌⊎◌, ◌<◌, refl, none, some, List, [], ◌∷◌, ◌++◌, nat_ord, ok, err, length, true,
  false, arith, pair_ord,
}
use project_sapphire.Base.Map.{Map, Set, key_set, insert, get, contains_key}
use project_sapphire.Base.Map.Counting.{KeysWithin}
use project_sapphire.Base.Map.Within.{nil-KeysWithin}
use project_sapphire.Core.{uuid_ord}
use project_sapphire.Tests.Scheme.{scheme, scheme-IsLawful}
use project_sapphire.Chain.Tx.{Tx, dkg_finalize}
use project_sapphire.Chain.State.{
  initial, RequestEntry, DkgCeremony, GroupConfig, completed, signing, awaiting_commitments,
  not_awaiting_commitments, not_selected_participant, r1_complete, r2_complete,
}
use project_sapphire.Chain.Sim.{ChainSim, commit_block}
use project_sapphire.Chain.Sim.Laws.{
  settled, replay, submit_all, replay-commit_block, commit_block-submit_all,
}
use project_sapphire.Chain.Sim.Reach.{AllTyped, settled-Reaches, commit_block-Reaches}
use project_sapphire.Chain.Apply.{apply_tx, advance, record_share}
use project_sapphire.Chain.Reach.{Reaches, here, reachable-IsValid}
use project_sapphire.Chain.Validity.{IsValid, IsCeremony, IsGroup, IsStatus}
use project_sapphire.Chain.Progress.{Follows, Reaches-Follows}
use project_sapphire.Chain.Signature.{completed-verifies}
use project_sapphire.Chain.Selection.{selection_by_arrival, selected}
use project_sapphire.Chain.Rounds.{rounds_complete_iff, dkg_finalize-promotes, IsAgreedGroup}
use project_sapphire.Chain.Stuck.{zero_threshold-selects_nobody}
use project_sapphire.Chain.Quorum.{Waits, AllWilling, commit_block-Waits}
use project_sapphire.Tests.Samples.{
  after, id_a, validator_keys, before_last_txs, group_txs, request_a, commit_by, share_by,
  signed_txs, sim_of, group_a, entry_a, late_ceremony,
}

signed_txs-AllTyped : AllTyped signed_txs
signed_txs-AllTyped = ground arith

pub group_txs-AllTyped : AllTyped group_txs
group_txs-AllTyped = ground arith

before_last_txs-AllTyped : AllTyped before_last_txs
before_last_txs-AllTyped = ground arith

abbrev pub request_txs : List (Tx scheme)
request_txs = group_txs ++ (request_a ∷ [])

request_txs-AllTyped : AllTyped request_txs
request_txs-AllTyped = ground arith

pub after-Reaches : (txs : List (Tx scheme)) → AllTyped txs → Reaches (initial scheme) (after txs)
unfolding after
after-Reaches txs typed = settled-Reaches (initial scheme) (initial scheme) txs typed here

reachable-IsValid_example : IsValid (after signed_txs)
reachable-IsValid_example =
    reachable-IsValid scheme-IsLawful (after-Reaches signed_txs signed_txs-AllTyped)

abbrev later : List (Tx scheme)
later = commit_by 3 ∷ commit_by 1 ∷ share_by 1 ∷ share_by 3 ∷ []

later-Reaches : Reaches (after request_txs) (settled (after request_txs) later)
later-Reaches = settled-Reaches (after request_txs) (after request_txs) later (ground arith) here

pub request_there : get id_a (after request_txs).requests ≡ some (entry_a (awaiting_commitments []))
unfolding after
request_there = refl

Reaches-Follows_example :
    (e' : RequestEntry scheme) × (get id_a (settled (after request_txs) later).requests ≡ some e')
    × Follows (entry_a (awaiting_commitments [])) e'
Reaches-Follows_example =
    Reaches-Follows id_a (entry_a (awaiting_commitments [])) later-Reaches request_there

pub group_there : (after request_txs).group ≡ some group_a
unfolding after
group_there = refl

pub request_txs-IsValid : IsValid (after request_txs)
request_txs-IsValid =
    reachable-IsValid scheme-IsLawful (after-Reaches request_txs request_txs-AllTyped)

signed_there :
    get id_a (after signed_txs).requests ≡ some (entry_a (completed ((1, tt) ∷ (3, tt) ∷ []) 14))
unfolding after
signed_there = refl

signed_group : (after signed_txs).group ≡ some group_a
unfolding after
signed_group = refl

abbrev chosen : Set ℕ
chosen = (1, tt) ∷ (3, tt) ∷ []

completed-verifies_example :
    (scheme.verify 12 (4 ∷ 2 ∷ []) 14 ≡ true)
    × (length chosen ≡ group_a.params.threshold)
    × KeysWithin chosen group_a.validators
completed-verifies_example =
    completed-verifies id_a (entry_a (completed ((1, tt) ∷ (3, tt) ∷ []) 14)) group_a chosen 14
      scheme-IsLawful (after-Reaches signed_txs signed_txs-AllTyped) signed_group signed_there refl

-- One commitment is there, and one is missing.
abbrev one_txs : List (Tx scheme)
one_txs = request_txs ++ (commit_by 2 ∷ [])

one_txs-IsValid : IsValid (after one_txs)
one_txs-IsValid = reachable-IsValid scheme-IsLawful (after-Reaches one_txs (ground arith))

one_group : (after one_txs).group ≡ some group_a
unfolding after
one_group = refl

abbrev one_commitment : Map ℕ ℕ
one_commitment = (2, 102) ∷ []

one_there : get id_a (after one_txs).requests ≡ some (entry_a (awaiting_commitments one_commitment))
unfolding after
one_there = refl

group_a-IsGroup : IsGroup group_a
group_a-IsGroup = one_txs-IsValid.group-IsGroup group_a one_group

one-IsStatus : IsStatus group_a (4 ∷ 2 ∷ []) 5 (awaiting_commitments one_commitment)
one-IsStatus =
    (one_txs-IsValid.entry-IsEntry group_a id_a (entry_a (awaiting_commitments one_commitment))
      one_group one_there).status-IsStatus

absent_1 : contains_key 1 one_commitment ≡ false
unfolding contains_key get
absent_1 = refl

absent_3 : contains_key 3 one_commitment ≡ false
unfolding contains_key get
absent_3 = refl

member_1 : contains_key 1 group_a.validators ≡ true
unfolding contains_key get
member_1 = refl

member_3 : contains_key 3 group_a.validators ≡ true
unfolding contains_key get
member_3 = refl

selection_by_arrival_example :
    let s = after one_txs in
    let e = entry_a (awaiting_commitments one_commitment) in
    let ta = selected s id_a e (insert 1 101 one_commitment) in
    let tb = selected s id_a e (insert 3 103 one_commitment) in
    (apply_tx s (commit_by 1) ≡ ok ta)
    × (apply_tx ta (commit_by 3) ≡ err not_awaiting_commitments)
    × (apply_tx s (commit_by 3) ≡ ok tb)
    × (apply_tx tb (commit_by 1) ≡ err not_awaiting_commitments)
    × (key_set (insert 1 101 one_commitment) ≢ key_set (insert 3 103 one_commitment))
selection_by_arrival_example =
    selection_by_arrival (after one_txs) group_a id_a
      (entry_a (awaiting_commitments one_commitment)) one_commitment 1 3 101 103 group_a-IsGroup
      one_group one_there refl one-IsStatus refl member_1 member_3 absent_1 absent_3 refl

late-IsValid : IsValid (after before_last_txs)
late-IsValid =
    reachable-IsValid scheme-IsLawful (after-Reaches before_last_txs before_last_txs-AllTyped)

late_there : (after before_last_txs).ceremony ≡ some late_ceremony
unfolding after
late_there = refl

late_ceremony-IsCeremony : IsCeremony late_ceremony
late_ceremony-IsCeremony = late-IsValid.ceremony-IsCeremony late_ceremony late_there

rounds_complete_iff_example :
    ((r1_complete late_ceremony ≡ true) ↔ (
      (i : ℕ) → contains_key i validator_keys ≡ true → contains_key i late_ceremony.round1 ≡ true))
    × ((r2_complete late_ceremony ≡ true) ↔ (
        (i j : ℕ)
        → contains_key i validator_keys ≡ true
        → contains_key j validator_keys ≡ true
        → i ≢ j
        → contains_key (i, j) late_ceremony.round2 ≡ true))
rounds_complete_iff_example = rounds_complete_iff late_ceremony late_ceremony-IsCeremony

last_finalize : apply_tx (after before_last_txs) (dkg_finalize 3 7) ≡ ok (after group_txs)
unfolding after
last_finalize = refl

dkg_finalize-promotes_example :
    (c : DkgCeremony scheme) × ((after before_last_txs).ceremony ≡ some c)
    × (let packages = insert 3 7 c.finalize in
        ((length packages < c.params.total)
          × (after group_txs ≡ record (after before_last_txs) {
            ceremony = some (record c { finalize = packages });
          }))
        ⊎ ((g : GroupConfig scheme) × IsAgreedGroup c packages g
            × (after group_txs
                ≡ record (after before_last_txs) { ceremony = none; group = some g })))
dkg_finalize-promotes_example =
    dkg_finalize-promotes (after before_last_txs) (after group_txs) 3 7 scheme-IsLawful late-IsValid
      last_finalize

-- A simulator with a refused transaction between two accepted ones.
abbrev busy : ChainSim scheme
busy = sim_of (after request_txs) (commit_by 1 ∷ commit_by 1 ∷ commit_by 2 ∷ [])

replay-commit_block_example :
    replay busy.state (commit_block busy).0.last_block ≡ ok (commit_block busy).0.state
replay-commit_block_example = replay-commit_block busy

commit_block-submit_all_example :
    (commit_block
      (submit_all (commit_block (submit_all busy (share_by 1 ∷ []))).0 (share_by 2 ∷ []))).0.state
    ≡ (commit_block (submit_all busy (share_by 1 ∷ share_by 2 ∷ []))).0.state
commit_block-submit_all_example = commit_block-submit_all busy (share_by 1 ∷ []) (share_by 2 ∷ [])

commit_block-Reaches_example :
    Reaches busy.state (commit_block busy).0.state × IsValid (commit_block busy).0.state
commit_block-Reaches_example =
    commit_block-Reaches busy scheme-IsLawful (tt, (tt, (tt, tt))) request_txs-IsValid

-- Only validator 2 is willing.
abbrev reluctant : ChainSim scheme
reluctant = sim_of (after request_txs) (commit_by 2 ∷ share_by 1 ∷ commit_by 2 ∷ [])

reluctant-Waits : Waits id_a ((2, tt) ∷ []) (after request_txs)
unfolding get
reluctant-Waits =
    (entry_a (awaiting_commitments []), [], request_there, refl, nil-KeysWithin ℕ ((2, tt) ∷ []))

reluctant-AllWilling : AllWilling {C = scheme} id_a ((2, tt) ∷ []) reluctant.mempool
unfolding contains_key get
reluctant-AllWilling = ((λ p. refl), tt, (tt, tt, ((λ p. refl), tt, tt)))

commit_block-Waits_example : Waits id_a ((2, tt) ∷ []) (commit_block reluctant).0.state
commit_block-Waits_example =
    commit_block-Waits id_a ((2, tt) ∷ []) reluctant group_a scheme-IsLawful request_txs-IsValid
      group_there (tt, tt) (omega arith) reluctant-AllWilling reluctant-Waits

abbrev nobody_needed : GroupConfig scheme
nobody_needed = record group_a { params = record { threshold = 0; total = 3 } }

zero_threshold-selects_nobody_example :
    (advance nobody_needed (4 ∷ []) ((2, 102) ∷ []) ≡ signing ([], 4 ∷ []) [] [])
    × (record_share nobody_needed 5 2 202 (advance nobody_needed (4 ∷ []) ((2, 102) ∷ []))
        ≡ err not_selected_participant)
zero_threshold-selects_nobody_example =
    zero_threshold-selects_nobody nobody_needed (4 ∷ []) ((2, 102) ∷ []) 5 2 202 refl
