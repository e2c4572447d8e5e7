-- ===== src/Chain/Apply.antt =====
-- sapphire-chain/src/state.rs: `apply_tx`, one handler for each arm of its `match`.
use project_sapphire.Base.{
  ◌%◌, Bool, true, not, ◌&&◌, none, some, List, [], ◌∷◌, Ord, pair_ord, ◌==◌, length, take, leb,
  eqb, is_some, if◌then◌else◌, Result, ok, err, ◌>>=◌, ◌>>◌, ensure, ok_or,
}
use project_sapphire.Base.Map.{
  Map, Set, key_set, get, contains_key, insert, collect_set, set_eq, map_eq,
}
use project_sapphire.Core.{Bytes, MpcParams, Uuid, uuid_ord, u16_mod}
use project_sapphire.Frost.{Ciphersuite}
use project_sapphire.Chain.Tx.{
  EncPublicKey, Sealed, Tx, init_group, dkg_begin, dkg_round1, dkg_round2, dkg_finalize,
  submit_request, submit_commitment, submit_share,
}
use project_sapphire.Chain.State.{
  RequestStatus, awaiting_commitments, signing, completed, failed, RequestEntry, DkgCeremony,
  GroupConfig, State, r1_complete, r2_complete, finalize_complete, ApplyError, already_initialized,
  not_initialized, validator_set_mismatch, ceremony_already_in_progress, no_ceremony,
  bad_dkg_validator_count, round1_not_complete, round2_not_complete, duplicate_round1,
  duplicate_round2, duplicate_finalize, self_addressed_round2, unknown_dkg_validator, pkp_mismatch,
  duplicate_request, unknown_request, unknown_validator, duplicate_commitment, duplicate_share,
  not_awaiting_commitments, not_signing, not_selected_participant,
}

module _ {I : Type 0} ⦃o : Ord I⦄ (C : Ciphersuite I) where
  open C use {
    PublicKeyPackage, verifying_key, verifying_shares, verifying_key_eq, verifying_share_eq,
  }

  -- `DkgFinalize`'s test of a package against the entry of the least identifier, if there is one.
  unfoldable pub agrees_with_first : PublicKeyPackage → Map I PublicKeyPackage → Bool
  agrees_with_first pkp [] = true
  agrees_with_first pkp ((_, first) ∷ rest) =
      verifying_key_eq (verifying_key first) (verifying_key pkp)
      && map_eq verifying_share_eq (verifying_shares first) (verifying_shares pkp)

module _ {I : Type 0} ⦃o : Ord I⦄ {C : Ciphersuite I} where
  open C use {
    PublicKeyPackage, Round1Package, Randomizer, SigningCommitments, SigningPackage, SignatureShare,
    Signature, debug, verifying_key, verifying_shares, verifying_key_eq, verifying_share_eq,
    signing_package, from_randomizer, aggregate, error_text,
  }

  unfoldable pub require_group : State C → Result (GroupConfig C) ApplyError
  require_group s = ok_or s.group not_initialized

  -- `Tx::InitGroup`
  unfoldable pub apply_init_group :
      State C → MpcParams → PublicKeyPackage → List I → Result (State C) ApplyError
  apply_init_group s params pkp validators = do
    ensure (not (is_some s.group)) already_initialized
    ensure (not (is_some s.ceremony)) ceremony_already_in_progress
    let vs = collect_set validators
    ensure (set_eq (key_set (verifying_shares pkp)) vs) validator_set_mismatch
    ok (record s { group = some (record { params = params; pkp = pkp; validators = vs }) })

  -- `Tx::DkgBegin`
  unfoldable pub apply_dkg_begin :
      State C → MpcParams → Map I EncPublicKey → Result (State C) ApplyError
  apply_dkg_begin s params validators = do
    ensure (not (is_some s.group)) already_initialized
    ensure (not (is_some s.ceremony)) ceremony_already_in_progress
    ensure (eqb (length validators) params.total) bad_dkg_validator_count
    ok (record s {
      ceremony = some (record {
        params = params;
        validators = validators;
        round1 = [];
        round2 = [];
        finalize = [];
      });
    })

  -- `Tx::DkgRound1`
  unfoldable pub apply_dkg_round1 : State C → I → Round1Package → Result (State C) ApplyError
  apply_dkg_round1 s from pkg = do
    ceremony ← ok_or s.ceremony no_ceremony
    ensure (contains_key from ceremony.validators) (unknown_dkg_validator (debug from))
    ensure (not (contains_key from ceremony.round1)) (duplicate_round1 (debug from))
    ok (record s { ceremony = some (record ceremony { round1 = insert from pkg ceremony.round1 }) })

  -- `Tx::DkgRound2`
  unfoldable pub apply_dkg_round2 : State C → I → I → Sealed → Result (State C) ApplyError
  apply_dkg_round2 s from to sealed = do
    ceremony ← ok_or s.ceremony no_ceremony
    ensure (r1_complete ceremony) round1_not_complete
    ensure (not (from == to)) (self_addressed_round2 (debug from))
    ensure (contains_key from ceremony.validators) (unknown_dkg_validator (debug from))
    ensure (contains_key to ceremony.validators) (unknown_dkg_validator (debug to))
    ensure (not (contains_key (from, to) ceremony.round2))
        (duplicate_round2 (debug from) (debug to))
    ok (record s {
      ceremony = some (record ceremony { round2 = insert (from, to) sealed ceremony.round2 });
    })

  -- The promotion of a ceremony: `agreed_pkp` is the package of the least identifier. The source
  -- has an `expect` where there is none.
  unfoldable pub promote : State C → DkgCeremony C → Map I PublicKeyPackage → State C
  promote s ceremony [] = s
  promote s ceremony ((_, agreed_pkp) ∷ rest) = record s {
    ceremony = none;
    group = some (record {
      params = ceremony.params;
      pkp = agreed_pkp;
      validators = key_set ceremony.validators;
    });
  }

  -- `Tx::DkgFinalize`
  unfoldable pub apply_dkg_finalize : State C → I → PublicKeyPackage → Result (State C) ApplyError
  apply_dkg_finalize s from pkp = do
    ceremony ← ok_or s.ceremony no_ceremony
    ensure (r2_complete ceremony) round2_not_complete
    ensure (contains_key from ceremony.validators) (unknown_dkg_validator (debug from))
    ensure (not (contains_key from ceremony.finalize)) (duplicate_finalize (debug from))
    ensure (agrees_with_first C pkp ceremony.finalize) (pkp_mismatch (debug from))
    let next = record ceremony { finalize = insert from pkp ceremony.finalize }
    ok (
        if finalize_complete next
        then promote s next next.finalize
        else record s { ceremony = some next })

  -- `Tx::SubmitRequest`
  unfoldable pub apply_submit_request :
      State C → Uuid → Bytes → Randomizer → Result (State C) ApplyError
  unfolding require_group
  apply_submit_request s request_id message randomizer = do
    _ ← require_group s
    ensure (not (contains_key request_id s.requests)) (duplicate_request request_id)
    let entry : RequestEntry C = record {
      request_id = request_id;
      message = message;
      randomizer = randomizer;
      status = awaiting_commitments [];
    }
    ok (record s { requests = insert request_id entry s.requests })

  -- What the commitments become: the `if` on the threshold. `map.len() as u16` wraps.
  unfoldable pub advance : GroupConfig C → Bytes → Map I SigningCommitments → RequestStatus C
  advance group message commitments =
      if leb group.params.threshold (length commitments % u16_mod)
      then (let chosen = take group.params.threshold commitments in
          signing (signing_package chosen message) (key_set chosen) [])
      else awaiting_commitments commitments

  -- The `match` of `SubmitCommitment` on the status.
  unfoldable pub record_commitment :
      GroupConfig C
      → Bytes
      → I
      → SigningCommitments
      → RequestStatus C
      → Result (RequestStatus C) ApplyError
  record_commitment group message validator c (awaiting_commitments commitments) = do
    ensure (not (contains_key validator commitments)) duplicate_commitment
    ok (advance group message (insert validator c commitments))
  record_commitment group message validator c _ = err not_awaiting_commitments

  -- `Tx::SubmitCommitment`
  unfoldable pub apply_submit_commitment :
      State C → Uuid → I → SigningCommitments → Result (State C) ApplyError
  unfolding require_group
  apply_submit_commitment s request_id validator c = do
    group ← require_group s
    ensure (contains_key validator group.validators) (unknown_validator (debug validator))
    entry ← ok_or (get request_id s.requests) (unknown_request request_id)
    status ← record_commitment group entry.message validator c entry.status
    ok (record s { requests = insert request_id (record entry { status = status }) s.requests })

  -- The `match` on what `aggregate` returns.
  unfoldable pub settle : Set I → Result Signature C.FrostError → RequestStatus C
  settle participants (ok signature) = completed participants signature
  settle participants (err e) = failed (error_text e)

  -- The aggregation against the rerandomized verifying key.
  unfoldable pub conclude :
      GroupConfig C → Randomizer → SigningPackage → Set I → Map I SignatureShare → RequestStatus C
  conclude group randomizer pkg participants shares =
      let randomized_params = from_randomizer (verifying_key group.pkp) randomizer in
      settle participants (aggregate pkg shares group.pkp randomized_params)

  -- The rest of `SubmitShare`, from its `match` on the status.
  unfoldable pub record_share :
      GroupConfig C
      → Randomizer
      → I
      → SignatureShare
      → RequestStatus C
      → Result (RequestStatus C) ApplyError
  record_share group randomizer validator share (signing pkg participants shares) = do
    ensure (contains_key validator participants) not_selected_participant
    ensure (not (contains_key validator shares)) duplicate_share
    let next = insert validator share shares
    ok (
        if eqb (length next) (length participants)
        then conclude group randomizer pkg participants next
        else signing pkg participants next)
  record_share group randomizer validator share _ = err not_signing

  -- `Tx::SubmitShare`
  unfoldable pub apply_submit_share :
      State C → Uuid → I → SignatureShare → Result (State C) ApplyError
  unfolding require_group
  apply_submit_share s request_id validator share = do
    group ← require_group s
    ensure (contains_key validator group.validators) (unknown_validator (debug validator))
    entry ← ok_or (get request_id s.requests) (unknown_request request_id)
    status ← record_share group entry.randomizer validator share entry.status
    ok (record s { requests = insert request_id (record entry { status = status }) s.requests })

  unfoldable pub apply_tx : State C → Tx C → Result (State C) ApplyError
  apply_tx s (init_group params pkp validators) = apply_init_group s params pkp validators
  apply_tx s (dkg_begin params validators) = apply_dkg_begin s params validators
  apply_tx s (dkg_round1 from pkg) = apply_dkg_round1 s from pkg
  apply_tx s (dkg_round2 from to sealed) = apply_dkg_round2 s from to sealed
  apply_tx s (dkg_finalize from pkp) = apply_dkg_finalize s from pkp
  apply_tx s (submit_request request_id message randomizer) =
      apply_submit_request s request_id message randomizer
  apply_tx s (submit_commitment request_id validator c) =
      apply_submit_commitment s request_id validator c
  apply_tx s (submit_share request_id validator share) =
      apply_submit_share s request_id validator share
