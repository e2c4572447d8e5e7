-- ===== src/Chain/Quorum.antt =====
-- Too few willing validators cannot bring a request to signing.
use mathlib.Core.Option.{some-injective}
use project_sapphire.Base.{
  ◌<◌, ◌≡◌, true, false, some, List, [], ◌∷◌, inl, inr, Ord, ok, arith, ◌==◌, ==_iff, length,
  Bool-cases, Result-cases, sym, subst, ◌∙◌,
}
use project_sapphire.Base.Map.{Map, Set, get, contains_key, insert}
use project_sapphire.Base.Map.Laws.{get-insert, get-insert_self, contains_of_get}
use project_sapphire.Base.Map.Sorted.{IsSorted, insert-IsSorted}
use project_sapphire.Base.Map.Counting.{KeysWithin, length-le_of_KeysWithin}
use project_sapphire.Base.Map.Within.{insert-KeysWithin}
use project_sapphire.Core.{Bytes, Uuid, uuid_ord, u16_mod}
use project_sapphire.Frost.{Ciphersuite, IsLawful}
use project_sapphire.Chain.Tx.{
  Tx, init_group, dkg_begin, dkg_round1, dkg_round2, dkg_finalize, submit_request,
  submit_commitment, submit_share,
}
use project_sapphire.Chain.State.{
  RequestStatus, awaiting_commitments, RequestEntry, DkgCeremony, GroupConfig, State,
}
use project_sapphire.Chain.Apply.{apply_tx, advance, record_commitment}
use project_sapphire.Chain.Effects.{
  init_group-effect, dkg_begin-effect, dkg_round1-effect, dkg_round2-effect, dkg_finalize-effect,
  submit_request-effect, submit_commitment-effect, submit_share-effect, record_commitment-effect,
  record_share-effect,
}
use project_sapphire.Chain.Validity.{IsTyped, IsStatus, IsEntry, IsValid}
use project_sapphire.Chain.Validity.Preserved.{apply_tx-IsValid}
use project_sapphire.Chain.Progress.{apply_tx-group, promote-requests}
use project_sapphire.Chain.Sim.{ChainSim, commit_block}
use project_sapphire.Chain.Sim.Laws.{settled, state-commit_block}

module _ {I : Type 0} ⦃o : Ord I⦄ {C : Ciphersuite I} (request_id : Uuid) (willing : Set I) where
  open C use {SigningCommitments}

  -- The request waits, with commitments of willing validators only.
  abbrev pub Waits : State C → Type 0
  Waits s =
      (e : RequestEntry C) × (commitments : Map I SigningCommitments) × (get request_id s.requests
        ≡ some e)
      × (e.status ≡ awaiting_commitments commitments)
      × KeysWithin commitments willing

  -- A commitment for this request is that of a willing validator.
  abbrev pub IsWilling : Tx C → Type 0
  IsWilling (submit_commitment j validator c) =
      j ≡ request_id → contains_key validator willing ≡ true
  IsWilling _ = Unit {0}

  abbrev pub AllWilling : List (Tx C) → Type 0
  AllWilling [] = Unit {0}
  AllWilling (tx ∷ txs) = IsWilling tx × IsTyped tx × AllWilling txs

  other-Waits :
      (s : State C) (j : Uuid) (new : RequestEntry C)
      → (j == request_id) ≡ false
      → Waits s
      → Waits (record s { requests = insert j new s.requests })
  other-Waits s j new differ (e, commitments, there, waits, within) = (
    e,
    commitments,
    ground (arith, get-insert request_id j new s.requests, uuid_ord.cmp_swap j request_id),
    waits,
    within,
  )

  same_requests-Waits : (s t : State C) → t.requests ≡ s.requests → Waits s → Waits t
  same_requests-Waits s t p (e, commitments, there, waits, within) =
      (e, commitments, rw p there, waits, within)

  -- One more willing commitment stays below the threshold.
  advance_waits :
      (g : GroupConfig C) (message : Bytes) (commitments : Map I SigningCommitments)
      → g.params.threshold < u16_mod
      → length willing < g.params.threshold
      → IsSorted willing
      → IsSorted commitments
      → KeysWithin commitments willing
      → advance g message commitments ≡ awaiting_commitments commitments
  unfolding advance
  advance_waits g message commitments range few sw sc within =
      ground (arith, length-le_of_KeysWithin commitments willing sc sw within)

  -- What a commitment for the request itself makes of it.
  committed-Waits :
      (s : State C) (g : GroupConfig C) (e : RequestEntry C) (status : RequestStatus C)
      (validator : I) (c : SigningCommitments)
      → IsValid s
      → s.group ≡ some g
      → IsSorted willing
      → length willing < g.params.threshold
      → contains_key validator willing ≡ true
      → get request_id s.requests ≡ some e
      → record_commitment g e.message validator c e.status ≡ ok status
      → Waits s
      → Waits (record s { requests = insert request_id (record e { status = status }) s.requests })
  committed-Waits s g e status validator c v found sw few agrees there recorded
        (e', commitments, there', waits, within) =
      let (before, was, fresh, after) =
        record_commitment-effect g e.message validator c e.status status recorded in
      let same : e' ≡ e = some-injective e' e (sym there' ∙ there) in
      let known : commitments ≡ before = cc in
      let entry : IsEntry g request_id e = v.entry-IsEntry g request_id e found there in
      let old : IsStatus g e.message e.randomizer (awaiting_commitments before) =
        subst (IsStatus g e.message e.randomizer) was entry.status-IsStatus in
      let next = insert validator c before in
      let next_within : KeysWithin next willing =
        insert-KeysWithin validator c before willing agrees
          (subst (λ m. KeysWithin m willing) known within) in
      let stays =
        advance_waits g e.message next (v.group-IsGroup g found).range.0 few sw
          (insert-IsSorted validator c before old.0) next_within in
      (record e { status = status }, next, rw get-insert_self, after ∙ stays, next_within)

  step-Waits :
      (s t : State C) (g : GroupConfig C) (tx : Tx C)
      → IsValid s
      → s.group ≡ some g
      → IsSorted willing
      → length willing < g.params.threshold
      → IsWilling tx
      → Waits s
      → apply_tx s tx ≡ ok t
      → Waits t
  unfolding apply_tx
  step-Waits s t g (init_group params pkp validators) v found sw few agrees w h =
      let (_, _, _, made) = init_group-effect s t params pkp validators h in
      same_requests-Waits s t (ground arith) w
  step-Waits s t g (dkg_begin params validators) v found sw few agrees w h =
      let (_, _, _, made) = dkg_begin-effect s t params validators h in
      same_requests-Waits s t (ground arith) w
  step-Waits s t g (dkg_round1 from pkg) v found sw few agrees w h =
      let (_, _, _, _, made) = dkg_round1-effect s t from pkg h in
      same_requests-Waits s t (ground arith) w
  step-Waits s t g (dkg_round2 from to sealed) v found sw few agrees w h =
      let (_, _, _, _, _, _, _, made) = dkg_round2-effect s t from to sealed h in
      same_requests-Waits s t (ground arith) w
  step-Waits s t g (dkg_finalize from pkp) v found sw few agrees w h =
      let (c, _, _, _, _, _, made) = dkg_finalize-effect s t from pkp h in
      let next : DkgCeremony C = record c { finalize = insert from pkp c.finalize } in
      same_requests-Waits s t (ground (arith, promote-requests s next next.finalize)) w
  step-Waits s t g (submit_request j message randomizer) v found sw few agrees w h =
      let (_, _, fresh, made) = submit_request-effect s t j message randomizer h in
      let (e, _, there, _, _) = w in
      let held = contains_of_get request_id s.requests e there in
      rw made (other-Waits s j _ (ground (arith, ==_iff j request_id)) w)
  step-Waits s t g (submit_commitment j validator c) v found sw few agrees w h =
      let (g', e, status, found', known, there, recorded, made) =
        submit_commitment-effect s t j validator c h in
      rw made (elim (Bool-cases (j == request_id)) [
        | inr other ↦ other-Waits s j _ other w
        | inl hit ↦
            let p : j ≡ request_id = (==_iff j request_id).0 hit in
            let same : g' ≡ g = some-injective g' g (sym found' ∙ found) in
            subst
              (λ k.
                Waits (record s { requests = insert k (record e { status = status }) s.requests }))
              (sym p)
              (committed-Waits s g e status validator c v found sw few (agrees p)
                (subst (λ k. get k s.requests ≡ some e) p there)
                (subst (λ x. record_commitment x e.message validator c e.status ≡ ok status) same
                  recorded)
                w)
      ])
  step-Waits s t g (submit_share j validator share) v found sw few agrees w h =
      let (g', e, status, found', known, there, recorded, made) =
        submit_share-effect s t j validator share h in
      let (_, _, _, was, _, _, _) =
        record_share-effect g' e.randomizer validator share e.status status recorded in
      let (e', commitments, there', waits, _) = w in
      rw made (elim (Bool-cases (j == request_id)) [
        | inr other ↦ other-Waits s j _ other w
        | inl hit ↦
            let p : j ≡ request_id = (==_iff j request_id).0 hit in
            let same : e ≡ e' =
              some-injective e e' (sym (subst (λ k. get k s.requests ≡ some e) p there) ∙ there') in
            cc
      ])

  settled-Waits :
      (s : State C) (g : GroupConfig C) (txs : List (Tx C))
      → IsLawful C
      → IsValid s
      → s.group ≡ some g
      → IsSorted willing
      → length willing < g.params.threshold
      → AllWilling txs
      → Waits s
      → Waits (settled s txs)
  unfolding settled
  settled-Waits s g [] L v found sw few all w = w
  settled-Waits s g (tx ∷ txs) L v found sw few (agrees, typed, all) w =
      elim (Result-cases (apply_tx s tx)) [
        | inl (t, e) ↦
            rw (e, settled)
              (settled-Waits t g txs L (apply_tx-IsValid L s t tx v typed e)
                (apply_tx-group s t tx g v found e) sw few all
                (step-Waits s t g tx v found sw few agrees w e))
        | inr (x, e) ↦ rw (e, settled) (settled-Waits s g txs L v found sw few all w)
      ]

  -- In a valid state, where fewer validators than the threshold are willing to sign a request that
  -- waits with commitments of theirs only, and only they commit
  -- to it, a block leaves it waiting, whatever else is in the block: it does not reach signing.
  pub commit_block-Waits :
      (sim : ChainSim C) (g : GroupConfig C)
      → IsLawful C
      → IsValid sim.state
      → sim.state.group ≡ some g
      → IsSorted willing
      → length willing < g.params.threshold
      → AllWilling sim.mempool
      → Waits sim.state
      → Waits (commit_block sim).0.state
  commit_block-Waits sim g L v found sw few all w =
      rw state-commit_block (settled-Waits sim.state g sim.mempool L v found sw few all w)
