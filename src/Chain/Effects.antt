-- ===== src/Chain/Effects.antt =====
-- What an accepted transaction of each kind found in the state, and what it made of it.
use project_sapphire.Base.{
  ◌≡◌, refl, true, false, none, some, List, [], Ord, pair_ord, ◌==◌, arith, length, eqb,
  if◌then◌else◌, ok, ok_or-eq-ok, ensure-eq-ok, >>=-eq-ok,
}
use project_sapphire.Base.Map.{Map, Set, key_set, get, contains_key, insert, collect_set, set_eq}
use project_sapphire.Core.{Bytes, MpcParams, Uuid, uuid_ord}
use project_sapphire.Frost.{Ciphersuite}
use project_sapphire.Chain.Tx.{EncPublicKey, Sealed}
use project_sapphire.Chain.State.{
  RequestStatus, awaiting_commitments, signing, RequestEntry, DkgCeremony, GroupConfig, State,
  r1_complete, r2_complete, finalize_complete, unknown_validator,
}
use project_sapphire.Chain.Apply.{
  apply_init_group, apply_dkg_begin, apply_dkg_round1, apply_dkg_round2, agrees_with_first, promote,
  apply_dkg_finalize, apply_submit_request, advance, record_commitment, apply_submit_commitment,
  conclude, record_share, apply_submit_share,
}

module _ {I : Type 0} ⦃o : Ord I⦄ {C : Ciphersuite I} where
  open C use {
    PublicKeyPackage, Round1Package, Randomizer, SigningCommitments, SigningPackage, SignatureShare,
    Signature, verifying_shares, debug,
  }

  pub init_group-effect :
      (s t : State C) (params : MpcParams) (pkp : PublicKeyPackage) (validators : List I)
      → apply_init_group s params pkp validators ≡ ok t
      → (s.group ≡ none)
        × (s.ceremony ≡ none)
        × (set_eq (key_set (verifying_shares pkp)) (collect_set validators) ≡ true)
        × (t ≡ record s {
          group = some (record { params = params; pkp = pkp; validators = collect_set validators });
        })
  unfolding apply_init_group
  init_group-effect s t params pkp validators h = ground arith

  pub dkg_begin-effect :
      (s t : State C) (params : MpcParams) (validators : Map I EncPublicKey)
      → apply_dkg_begin s params validators ≡ ok t
      → (s.group ≡ none)
        × (s.ceremony ≡ none)
        × (length validators ≡ params.total)
        × (t ≡ record s {
          ceremony = some (record {
            params = params;
            validators = validators;
            round1 = [];
            round2 = [];
            finalize = [];
          });
        })
  unfolding apply_dkg_begin
  dkg_begin-effect s t params validators h = ground arith

  pub dkg_round1-effect :
      (s t : State C) (from : I) (pkg : Round1Package)
      → apply_dkg_round1 s from pkg ≡ ok t
      → (c : DkgCeremony C) × (s.ceremony ≡ some c)
        × (contains_key from c.validators ≡ true)
        × (contains_key from c.round1 ≡ false)
        × (t ≡ record s { ceremony = some (record c { round1 = insert from pkg c.round1 }) })
  unfolding apply_dkg_round1
  dkg_round1-effect s t from pkg h = ground arith

  pub dkg_round2-effect :
      (s t : State C) (from to : I) (sealed : Sealed)
      → apply_dkg_round2 s from to sealed ≡ ok t
      → (c : DkgCeremony C) × (s.ceremony ≡ some c)
        × (r1_complete c ≡ true)
        × ((from == to) ≡ false)
        × (contains_key from c.validators ≡ true)
        × (contains_key to c.validators ≡ true)
        × (contains_key (from, to) c.round2 ≡ false)
        × (t ≡ record s {
          ceremony = some (record c { round2 = insert (from, to) sealed c.round2 });
        })
  unfolding apply_dkg_round2
  dkg_round2-effect s t from to sealed h = ground arith

  pub dkg_finalize-effect :
      (s t : State C) (from : I) (pkp : PublicKeyPackage)
      → apply_dkg_finalize s from pkp ≡ ok t
      → (c : DkgCeremony C) × (s.ceremony ≡ some c)
        × (r2_complete c ≡ true)
        × (contains_key from c.validators ≡ true)
        × (contains_key from c.finalize ≡ false)
        × (agrees_with_first C pkp c.finalize ≡ true)
        × (let next = record c { finalize = insert from pkp c.finalize } in
            t ≡ (
              if finalize_complete next
              then promote s next next.finalize
              else record s { ceremony = some next }))
  unfolding apply_dkg_finalize
  dkg_finalize-effect s t from pkp h = ground arith

  pub submit_request-effect :
      (s t : State C) (request_id : Uuid) (message : Bytes) (randomizer : Randomizer)
      → apply_submit_request s request_id message randomizer ≡ ok t
      → (g : GroupConfig C) × (s.group ≡ some g)
        × (contains_key request_id s.requests ≡ false)
        × (t ≡ record s {
          requests =
              insert request_id
                (record {
                  request_id = request_id;
                  message = message;
                  randomizer = randomizer;
                  status = awaiting_commitments [];
                })
                s.requests;
        })
  unfolding apply_submit_request
  submit_request-effect s t request_id message randomizer h =
      let (g, found, rest) = ok_or-eq-ok s.group _ _ h in (g, found, ground arith, ground arith)

  pub record_commitment-effect :
      (g : GroupConfig C) (message : Bytes) (validator : I) (c : SigningCommitments)
      (old new : RequestStatus C)
      → record_commitment g message validator c old ≡ ok new
      → (commitments : Map I SigningCommitments) × (old ≡ awaiting_commitments commitments)
        × (contains_key validator commitments ≡ false)
        × (new ≡ advance g message (insert validator c commitments))
  unfolding record_commitment
  record_commitment-effect g message validator c (awaiting_commitments commitments) new h =
      (commitments, refl, ground arith, ground arith)
  record_commitment-effect g message validator c _ new h = cc

  pub submit_commitment-effect :
      (s t : State C) (request_id : Uuid) (validator : I) (c : SigningCommitments)
      → apply_submit_commitment s request_id validator c ≡ ok t
      → (g : GroupConfig C) × (e : RequestEntry C) × (status : RequestStatus C) × (s.group ≡ some g)
        × (contains_key validator g.validators ≡ true)
        × (get request_id s.requests ≡ some e)
        × (record_commitment g e.message validator c e.status ≡ ok status)
        × (t ≡ record s { requests = insert request_id (record e { status = status }) s.requests })
  unfolding apply_submit_commitment
  submit_commitment-effect s t request_id validator c h =
      let (g, found, rest) = ok_or-eq-ok s.group _ _ h in
      let (known, rest') =
        ensure-eq-ok (contains_key validator g.validators) (unknown_validator (debug validator)) _
          rest in
      let (e, there, rest'') = ok_or-eq-ok (get request_id s.requests) _ _ rest' in
      let (status, recorded, made) = >>=-eq-ok _ _ rest'' in
      (g, e, status, found, known, there, recorded, ground arith)

  pub record_share-effect :
      (g : GroupConfig C) (randomizer : Randomizer) (validator : I) (share : SignatureShare)
      (old new : RequestStatus C)
      → record_share g randomizer validator share old ≡ ok new
      → (pkg : SigningPackage) × (participants : Set I) × (shares : Map I SignatureShare) × (old
          ≡ signing pkg participants shares)
        × (contains_key validator participants ≡ true)
        × (contains_key validator shares ≡ false)
        × (let next = insert validator share shares in
            new ≡ (
              if eqb (length next) (length participants)
              then conclude g randomizer pkg participants next
              else signing pkg participants next))
  unfolding record_share
  record_share-effect g randomizer validator share (signing pkg participants shares) new h =
      (pkg, participants, shares, refl, ground arith, ground arith, ground arith)
  record_share-effect g randomizer validator share _ new h = cc

  pub submit_share-effect :
      (s t : State C) (request_id : Uuid) (validator : I) (share : SignatureShare)
      → apply_submit_share s request_id validator share ≡ ok t
      → (g : GroupConfig C) × (e : RequestEntry C) × (status : RequestStatus C) × (s.group ≡ some g)
        × (contains_key validator g.validators ≡ true)
        × (get request_id s.requests ≡ some e)
        × (record_share g e.randomizer validator share e.status ≡ ok status)
        × (t ≡ record s { requests = insert request_id (record e { status = status }) s.requests })
  unfolding apply_submit_share
  submit_share-effect s t request_id validator share h =
      let (g, found, rest) = ok_or-eq-ok s.group _ _ h in
      let (known, rest') =
        ensure-eq-ok (contains_key validator g.validators) (unknown_validator (debug validator)) _
          rest in
      let (e, there, rest'') = ok_or-eq-ok (get request_id s.requests) _ _ rest' in
      let (status, recorded, made) = >>=-eq-ok _ _ rest'' in
      (g, e, status, found, known, there, recorded, ground arith)
