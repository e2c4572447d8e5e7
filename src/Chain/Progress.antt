-- ===== src/Chain/Progress.antt =====
-- What no transaction undoes: the group, a request's content, a finished status.
use mathlib.Core.Option.{some-injective}
use project_sapphire.Base.{
  ℕ, ◌≤◌, ◌≡◌, refl, some, [], ◌∷◌, inl, inr, Ord, ok, arith, Bool-cases, sym, subst, ◌∙◌, ◌==◌,
  ==_iff,
}
use project_sapphire.Base.Map.{Map, get, insert}
use project_sapphire.Base.Map.Laws.{get-insert, contains_of_get}
use project_sapphire.Core.{Bytes, Uuid, uuid_ord}
use project_sapphire.Frost.{Ciphersuite, IsLawful}
use project_sapphire.Chain.Tx.{
  Tx, init_group, dkg_begin, dkg_round1, dkg_round2, dkg_finalize, submit_request,
  submit_commitment, submit_share,
}
use project_sapphire.Chain.State.{
  RequestStatus, awaiting_commitments, signing, completed, failed, RequestEntry, DkgCeremony,
  GroupConfig, State,
}
use project_sapphire.Chain.Apply.{
  promote, apply_tx, settle, advance, conclude, record_commitment, record_share,
}
use project_sapphire.Chain.Effects.{
  init_group-effect, dkg_begin-effect, dkg_round1-effect, dkg_round2-effect, dkg_finalize-effect,
  submit_request-effect, submit_commitment-effect, submit_share-effect, record_commitment-effect,
  record_share-effect,
}
use project_sapphire.Chain.Validity.{IsValid}
use project_sapphire.Chain.Reach.{Reaches, here, next, Reaches-IsValid}

module _ {I : Type 0} ⦃o : Ord I⦄ {C : Ciphersuite I} where
  open C use {PublicKeyPackage, Randomizer, SigningCommitments, SigningPackage, SignatureShare}

  -- How far a request has come.
  abbrev pub rank : RequestStatus C → ℕ
  rank (awaiting_commitments commitments) = 0
  rank (signing pkg participants shares) = 1
  rank (completed participants signature) = 2
  rank (failed reason) = 2

  -- A later form of an entry: the same request, not further back, and the same once it is finished.
  pub record Follows (e e' : RequestEntry C) : Type 0 where
    pub same_id : e'.request_id ≡ e.request_id
    pub same_message : e'.message ≡ e.message
    pub same_randomizer : e'.randomizer ≡ e.randomizer
    pub forward : rank e.status ≤ rank e'.status
    pub final : rank e.status ≡ 2 → e'.status ≡ e.status

  Follows-refl : (e : RequestEntry C) → Follows e e
  Follows-refl e = ground arith

  Follows-trans : (a b c : RequestEntry C) → Follows a b → Follows b c → Follows a c
  Follows-trans a b c f g = ground arith

  -- From one state to the next no request is lost.
  abbrev pub Keeps : State C → State C → Type 0
  Keeps s t =
      (request_id : Uuid) (e : RequestEntry C)
      → get request_id s.requests ≡ some e
      → (e' : RequestEntry C) × (get request_id t.requests ≡ some e') × Follows e e'

  record_commitment-rank :
      (g : GroupConfig C) (message : Bytes) (validator : I) (c : SigningCommitments)
      (old new : RequestStatus C)
      → record_commitment g message validator c old ≡ ok new
      → (rank old ≡ 0) × (rank new ≤ 1)
  unfolding advance
  record_commitment-rank g message validator c old new h =
      let (commitments, before, fresh, after) =
        record_commitment-effect g message validator c old new h in
      rw (before, after) (ground arith)

  record_share-rank :
      (g : GroupConfig C) (randomizer : Randomizer) (validator : I) (share : SignatureShare)
      (old new : RequestStatus C)
      → record_share g randomizer validator share old ≡ ok new
      → (rank old ≡ 1) × (1 ≤ rank new)
  unfolding conclude settle
  record_share-rank g randomizer validator share old new h =
      let (pkg, participants, shares, before, chosen, fresh, after) =
        record_share-effect g randomizer validator share old new h in
      rw (before, after) (ground arith)

  Keeps-refl : (s : State C) → Keeps s s
  Keeps-refl s request_id e h = (e, h, Follows-refl e)

  Keeps-trans : (s t u : State C) → Keeps s t → Keeps t u → Keeps s u
  Keeps-trans s t u f g request_id e h =
      let (e', h', p) = f request_id e h in
      let (e'', h'', q) = g request_id e' h' in (e'', h'', Follows-trans e e' e'' p q)

  -- Writing one request keeps the others.
  insert-Keeps :
      (s : State C) (request_id : Uuid) (new : RequestEntry C)
      → ((old : RequestEntry C) → get request_id s.requests ≡ some old → Follows old new)
      → Keeps s (record s { requests = insert request_id new s.requests })
  insert-Keeps s request_id new f j e h = elim (Bool-cases (j == request_id)) [
    | inl same ↦
        let p : j ≡ request_id = (==_iff j request_id).0 same in
        (new, rw (get-insert, same), f e (rw (sym p) h))
    | inr other ↦ (e, rw (get-insert, other) h, Follows-refl e)
  ]

  pub promote-requests :
      (s : State C) (c : DkgCeremony C) (m : Map I PublicKeyPackage)
      → (promote s c m).requests ≡ s.requests
  unfolding promote
  promote-requests s c [] = refl
  promote-requests s c (x ∷ m) = refl

  Keeps-of_requests : (s t : State C) → t.requests ≡ s.requests → Keeps s t
  Keeps-of_requests s t p request_id e h = (e, rw p h, Follows-refl e)

  pub apply_tx-Keeps : (s t : State C) (tx : Tx C) → apply_tx s tx ≡ ok t → Keeps s t
  unfolding apply_tx
  apply_tx-Keeps s t (init_group params pkp validators) h =
      let (_, _, _, made) = init_group-effect s t params pkp validators h in
      Keeps-of_requests s t (ground arith)
  apply_tx-Keeps s t (dkg_begin params validators) h =
      let (_, _, _, made) = dkg_begin-effect s t params validators h in
      Keeps-of_requests s t (ground arith)
  apply_tx-Keeps s t (dkg_round1 from pkg) h =
      let (c, _, _, _, made) = dkg_round1-effect s t from pkg h in
      Keeps-of_requests s t (ground arith)
  apply_tx-Keeps s t (dkg_round2 from to sealed) h =
      let (c, _, _, _, _, _, _, made) = dkg_round2-effect s t from to sealed h in
      Keeps-of_requests s t (ground arith)
  apply_tx-Keeps s t (dkg_finalize from pkp) h =
      let (c, _, _, _, _, _, made) = dkg_finalize-effect s t from pkp h in
      let next : DkgCeremony C = record c { finalize = insert from pkp c.finalize } in
      Keeps-of_requests s t (ground (arith, promote-requests s next next.finalize))
  apply_tx-Keeps s t (submit_request request_id message randomizer) h =
      let (g, found, fresh, made) = submit_request-effect s t request_id message randomizer h in
      rw made (
        insert-Keeps s request_id _
          (λ old there. cc (contains_of_get request_id s.requests old there)))
  apply_tx-Keeps s t (submit_commitment request_id validator c) h =
      let (g, e, status, found, known, there, recorded, made) =
        submit_commitment-effect s t request_id validator c h in
      let ranks = record_commitment-rank g e.message validator c e.status status recorded in
      rw made (
        insert-Keeps s request_id _ (λ old there'.
          subst (λ x. Follows x (record e { status = status }))
            (some-injective e old (sym there ∙ there')) (ground arith)))
  apply_tx-Keeps s t (submit_share request_id validator share) h =
      let (g, e, status, found, known, there, recorded, made) =
        submit_share-effect s t request_id validator share h in
      let ranks = record_share-rank g e.randomizer validator share e.status status recorded in
      rw made (
        insert-Keeps s request_id _ (λ old there'.
          subst (λ x. Follows x (record e { status = status }))
            (some-injective e old (sym there ∙ there')) (ground arith)))

  Reaches-Keeps : {s t : State C} → Reaches s t → Keeps s t
  Reaches-Keeps {s} here = Keeps-refl s
  Reaches-Keeps {s} (next {t} {u} r tx typed h) =
      Keeps-trans s t u (Reaches-Keeps r) (apply_tx-Keeps t u tx h)

  -- Once submitted, a request stays: its id, message and randomizer never change, its status goes
  -- from awaiting to signing to finished and never back, and a finished status, with the signature
  -- in it, stays as it is.
  pub Reaches-Follows :
      {s t : State C} (request_id : Uuid) (e : RequestEntry C)
      → Reaches s t
      → get request_id s.requests ≡ some e
      → (e' : RequestEntry C) × (get request_id t.requests ≡ some e') × Follows e e'
  Reaches-Follows request_id e r there = Reaches-Keeps r request_id e there

  pub apply_tx-group :
      (s t : State C) (tx : Tx C) (g : GroupConfig C)
      → IsValid s
      → s.group ≡ some g
      → apply_tx s tx ≡ ok t
      → t.group ≡ some g
  unfolding apply_tx
  apply_tx-group s t (init_group params pkp validators) g v found h =
      let (alone, _, _, made) = init_group-effect s t params pkp validators h in cc
  apply_tx-group s t (dkg_begin params validators) g v found h =
      let (alone, _, _, made) = dkg_begin-effect s t params validators h in cc
  apply_tx-group s t (dkg_round1 from pkg) g v found h =
      let (c, _, _, _, made) = dkg_round1-effect s t from pkg h in ground arith
  apply_tx-group s t (dkg_round2 from to sealed) g v found h =
      let (c, _, _, _, _, _, _, made) = dkg_round2-effect s t from to sealed h in ground arith
  apply_tx-group s t (dkg_finalize from pkp) g v found h =
      let (c, at_work, _, _, _, _, made) = dkg_finalize-effect s t from pkp h in
      ground (arith, v.exclusive)
  apply_tx-group s t (submit_request request_id message randomizer) g v found h =
      let (_, _, _, made) = submit_request-effect s t request_id message randomizer h in
      ground arith
  apply_tx-group s t (submit_commitment request_id validator c) g v found h =
      let (_, _, _, _, _, _, _, made) = submit_commitment-effect s t request_id validator c h in
      ground arith
  apply_tx-group s t (submit_share request_id validator share) g v found h =
      let (_, _, _, _, _, _, _, made) = submit_share-effect s t request_id validator share h in
      ground arith

  -- The group, however it came about, is never replaced.
  pub Reaches-group :
      {s t : State C} (g : GroupConfig C)
      → IsLawful C
      → IsValid s
      → Reaches s t
      → s.group ≡ some g
      → t.group ≡ some g
  Reaches-group g L v here found = found
  Reaches-group g L v (next {t} {u} r tx typed h) found =
      apply_tx-group t u tx g (Reaches-IsValid L v r) (Reaches-group g L v r found) h
