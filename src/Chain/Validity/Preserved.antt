-- ===== src/Chain/Validity/Preserved.antt =====
-- Every accepted transaction keeps the state valid.
use mathlib.Core.Option.{some-injective}
use project_sapphire.Base.{
  ◌≡◌, refl, none, some, List, [], ◌∷◌, inl, inr, Ord, ok, arith, Bool-cases, sym, subst, ◌==◌,
  ==_iff,
}
use project_sapphire.Base.Map.{Map, insert, collect_set}
use project_sapphire.Base.Map.Laws.{get-insert, get-nil}
use project_sapphire.Base.Map.Sorted.{
  IsSorted, insert-IsSorted, key_set-IsSorted, collect_set-IsSorted,
}
use project_sapphire.Base.Map.Within.{nil-KeysWithin}
use project_sapphire.Core.{MpcParams, Uuid, uuid_ord}
use project_sapphire.Frost.{Ciphersuite, IsLawful}
use project_sapphire.Chain.Tx.{
  Tx, init_group, dkg_begin, dkg_round1, dkg_round2, dkg_finalize, submit_request,
  submit_commitment, submit_share,
}
use project_sapphire.Chain.State.{
  RequestEntry, DkgCeremony, GroupConfig, State, initial, finalize_complete,
}
use project_sapphire.Chain.Apply.{promote, apply_tx}
use project_sapphire.Chain.Effects.{
  init_group-effect, dkg_begin-effect, dkg_round1-effect, dkg_round2-effect, dkg_finalize-effect,
  submit_request-effect, submit_commitment-effect, submit_share-effect,
}
use project_sapphire.Chain.Validity.{IsTyped, IsGroup, IsEntry, IsCeremony, IsValid, InRange}
use project_sapphire.Chain.Validity.Status.{record_commitment-IsStatus, record_share-IsStatus}
use project_sapphire.Chain.Validity.Ceremony.{
  begin-IsCeremony, round1-IsCeremony, round2-IsCeremony, finalize-IsCeremony,
}

module _ {I : Type 0} ⦃o : Ord I⦄ {C : Ciphersuite I} where
  open C use {PublicKeyPackage, Randomizer}

  pub initial-IsValid : IsValid (initial C)
  initial-IsValid = record {
    exclusive = inl refl;
    requests-IsSorted = tt;
    no_requests = λ h. refl;
    group-IsGroup = λ g h. cc;
    ceremony-IsCeremony = λ c h. cc;
    entry-IsEntry = λ g request_id e h k. cc;
  }

  with_ceremony-IsValid :
      (s : State C) (c : DkgCeremony C)
      → IsValid s
      → s.group ≡ none
      → IsCeremony c
      → IsValid (record s { ceremony = some c })
  with_ceremony-IsValid s c v alone h = record {
    exclusive = inl alone;
    requests-IsSorted = v.requests-IsSorted;
    no_requests = v.no_requests;
    group-IsGroup = v.group-IsGroup;
    ceremony-IsCeremony = λ c' e. subst IsCeremony (some-injective c c' e) h;
    entry-IsEntry = v.entry-IsEntry;
  }

  with_group-IsValid :
      (s : State C) (g : GroupConfig C)
      → IsValid s
      → s.group ≡ none
      → IsGroup g
      → IsValid (record s { ceremony = none; group = some g })
  with_group-IsValid s g v alone h = record {
    exclusive = inr refl;
    requests-IsSorted = v.requests-IsSorted;
    no_requests = λ e. cc;
    group-IsGroup = λ g' e. subst IsGroup (some-injective g g' e) h;
    ceremony-IsCeremony = λ c e. cc;
    entry-IsEntry = λ g' request_id e _ found. cc (v.no_requests alone, get-nil request_id);
  }

  IsEntry-eq :
      {g g' : GroupConfig C} {j k : Uuid} {e e' : RequestEntry C}
      → g ≡ g'
      → j ≡ k
      → e ≡ e'
      → IsEntry g j e
      → IsEntry g' k e'
  IsEntry-eq {g} {g'} {j} {k} {e} {e'} p q r h =
      subst (λ x. IsEntry x k e') p (subst (λ y. IsEntry g y e') q (subst (IsEntry g j) r h))

  with_entry-IsValid :
      (s : State C) (g : GroupConfig C) (request_id : Uuid) (e : RequestEntry C)
      → IsValid s
      → s.group ≡ some g
      → IsEntry g request_id e
      → IsValid (record s { requests = insert request_id e s.requests })
  with_entry-IsValid s g request_id e v found h = record {
    exclusive = v.exclusive;
    requests-IsSorted = insert-IsSorted request_id e s.requests v.requests-IsSorted;
    no_requests = λ alone. cc;
    group-IsGroup = v.group-IsGroup;
    ceremony-IsCeremony = v.ceremony-IsCeremony;
    entry-IsEntry = λ g' j e' found' there. elim (Bool-cases (j == request_id)) [
      | inl same ↦
          IsEntry-eq (ground arith) (sym ((==_iff j request_id).0 same))
            (ground (arith, get-insert j request_id e s.requests)) h
      | inr other ↦
          v.entry-IsEntry g' j e' found' (ground (arith, get-insert j request_id e s.requests))
    ];
  }

  alone_of_ceremony :
      (s : State C) (c : DkgCeremony C) → IsValid s → s.ceremony ≡ some c → s.group ≡ none
  alone_of_ceremony s c v h = ground (arith, v.exclusive)

  promote-IsValid :
      (s : State C) (c : DkgCeremony C) (m : Map I PublicKeyPackage)
      → IsValid s
      → s.group ≡ none
      → InRange c.params
      → IsSorted c.validators
      → IsValid (promote s c m)
  unfolding promote
  promote-IsValid s c [] v alone range sorted = v
  promote-IsValid s c ((_, pkp) ∷ rest) v alone range sorted =
      with_group-IsValid s _ v alone
        (record { range = range; validators-IsSorted = key_set-IsSorted c.validators sorted })

  init_group-IsValid :
      (s t : State C) (params : MpcParams) (pkp : PublicKeyPackage) (validators : List I)
      → IsValid s
      → InRange params
      → apply_tx s (init_group params pkp validators) ≡ ok t
      → IsValid t
  unfolding apply_tx
  init_group-IsValid s t params pkp validators v range h =
      let (alone, idle, matches, made) = init_group-effect s t params pkp validators h in
      subst IsValid (ground arith) (
        with_group-IsValid s
          (record { params = params; pkp = pkp; validators = collect_set validators }) v alone
          (record { range = range; validators-IsSorted = collect_set-IsSorted validators }))

  finalize-IsValid :
      IsLawful C
      → (s t : State C) (from : I) (pkp : PublicKeyPackage) → IsValid s
      → apply_tx s (dkg_finalize from pkp) ≡ ok t
      → IsValid t
  unfolding apply_tx
  finalize-IsValid L s t from pkp v h =
      let (c, at_work, ready, known, fresh, agrees, made) = dkg_finalize-effect s t from pkp h in
      let alone : s.group ≡ none = alone_of_ceremony s c v at_work in
      let now : IsCeremony c = v.ceremony-IsCeremony c at_work in
      let next : DkgCeremony C = record c { finalize = insert from pkp c.finalize } in
      rw made (elim (Bool-cases (finalize_complete next)) [
        | inl full ↦
            rw full (promote-IsValid s next next.finalize v alone now.range now.validators-IsSorted)
        | inr open_still ↦ rw open_still (
            with_ceremony-IsValid s next v alone
              (finalize-IsCeremony L c from pkp now ready known fresh agrees open_still))
      ])

  -- Typed transactions keep the state valid, whatever their content.
  pub apply_tx-IsValid :
      IsLawful C
      → (s t : State C) (tx : Tx C) → IsValid s
      → IsTyped tx
      → apply_tx s tx ≡ ok t
      → IsValid t
  unfolding apply_tx
  apply_tx-IsValid L s t (init_group params pkp validators) v typed h =
      init_group-IsValid s t params pkp validators v typed h
  apply_tx-IsValid L s t (dkg_begin params validators) v typed h =
      let (alone, idle, count, made) = dkg_begin-effect s t params validators h in
      rw made (
        with_ceremony-IsValid s _ v alone
          (begin-IsCeremony params validators typed.0 typed.1 count))
  apply_tx-IsValid L s t (dkg_round1 from pkg) v typed h =
      let (c, at_work, known, fresh, made) = dkg_round1-effect s t from pkg h in
      rw made (
        with_ceremony-IsValid s _ v (alone_of_ceremony s c v at_work)
          (round1-IsCeremony c from pkg (v.ceremony-IsCeremony c at_work) known fresh))
  apply_tx-IsValid L s t (dkg_round2 from to sealed) v typed h =
      let (c, at_work, ready, other, kf, kt, fresh, made) =
        dkg_round2-effect s t from to sealed h in
      rw made (
        with_ceremony-IsValid s _ v (alone_of_ceremony s c v at_work) (
          round2-IsCeremony c from to sealed (v.ceremony-IsCeremony c at_work) ready other kf kt
            fresh))
  apply_tx-IsValid L s t (dkg_finalize from pkp) v typed h = finalize-IsValid L s t from pkp v h
  apply_tx-IsValid L s t (submit_request request_id message randomizer) v typed h =
      let (g, found, fresh, made) = submit_request-effect s t request_id message randomizer h in
      rw made (
        with_entry-IsValid s g request_id _ v found
          (record { own_id = refl; status-IsStatus = (tt, nil-KeysWithin _ _, inl refl) }))
  apply_tx-IsValid L s t (submit_commitment request_id validator c) v typed h =
      let (g, e, status, found, known, there, recorded, made) =
        submit_commitment-effect s t request_id validator c h in
      let old : IsEntry g request_id e = v.entry-IsEntry g request_id e found there in
      rw made (
        with_entry-IsValid s g request_id _ v found (record {
          own_id = old.own_id;
          status-IsStatus =
              record_commitment-IsStatus g e.message e.randomizer validator c e.status status
                (v.group-IsGroup g found) known recorded old.status-IsStatus;
        }))
  apply_tx-IsValid L s t (submit_share request_id validator share) v typed h =
      let (g, e, status, found, known, there, recorded, made) =
        submit_share-effect s t request_id validator share h in
      let old : IsEntry g request_id e = v.entry-IsEntry g request_id e found there in
      rw made (
        with_entry-IsValid s g request_id _ v found (record {
          own_id = old.own_id;
          status-IsStatus =
              record_share-IsStatus g e.message e.randomizer validator share e.status status
                recorded old.status-IsStatus;
        }))
