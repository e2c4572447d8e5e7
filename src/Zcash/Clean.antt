-- ===== src/Zcash/Clean.antt =====
-- A first block without an error: its request is on the chain, as it was submitted.
use mathlib.Core.List.{append_assoc, append-nil}
use project_sapphire.Base.{
  ◌≡◌, ◌≢◌, refl, none, some, List, [], ◌∷◌, ◌++◌, Ord, ok, err, inl, inr, Result-cases, sym, ◌∙◌,
  >>=-eq-ok,
}
use project_sapphire.Base.Map.{get}
use project_sapphire.Base.Map.Laws.{get-insert_self}
use project_sapphire.Core.{Bytes, Uuid, uuid_ord}
use project_sapphire.Frost.{Ciphersuite}
use project_sapphire.Chain.Tx.{Tx, submit_request}
use project_sapphire.Chain.State.{State, RequestEntry, ApplyError, awaiting_commitments}
use project_sapphire.Chain.Apply.{apply_tx, apply_submit_request}
use project_sapphire.Chain.Effects.{submit_request-effect}
use project_sapphire.Chain.Sim.{ChainSim, Outcome, submit, drain, commit_block}
use project_sapphire.Chain.Sim.Laws.{replay, replay-append}
use project_sapphire.Zcash.Session.{first_error}

module _ {I : Type 0} ⦃o : Ord I⦄ {C : Ciphersuite I} where
  open C use {Randomizer}

  first_error-append :
      (r q : List (Outcome C))
      → first_error (r ++ q) ≡ none
      → (first_error r ≡ none) × (first_error q ≡ none)
  unfolding first_error
  first_error-append [] q h = (refl, h)
  first_error-append ((tx, ok _) ∷ r) q h = first_error-append r q h
  first_error-append ((tx, err e) ∷ r) q h = cc

  drain-extends :
      (s : State C) (done : List (Tx C)) (results : List (Outcome C)) (txs : List (Tx C))
      → (q : List (Outcome C)) × ((drain s done results txs).2 ≡ results ++ q)
  unfolding drain
  drain-extends s done results [] = ([], sym (append-nil results))
  drain-extends s done results (tx ∷ txs) = elim (Result-cases (apply_tx s tx)) [
    | inl (u, e) ↦
        let (q, h) = drain-extends u (done ++ (tx ∷ [])) (results ++ ((tx, ok tt) ∷ [])) txs in
        ((tx, ok tt) ∷ q, rw (e, drain) (h ∙ append_assoc results ((tx, ok tt) ∷ []) q))
    | inr (x, e) ↦
        let (q, h) = drain-extends s done (results ++ ((tx, err x) ∷ [])) txs in
        ((tx, err x) ∷ q, rw (e, drain) (h ∙ append_assoc results ((tx, err x) ∷ []) q))
  ]

  refused_seen : (tx : Tx C) (x : ApplyError) → first_error ((tx, err x) ∷ []) ≢ none
  unfolding first_error
  refused_seen tx x h = cc

  last_replay : (u t : State C) (tx : Tx C) → replay u (tx ∷ []) ≡ ok t → apply_tx u tx ≡ ok t
  unfolding replay
  last_replay u t tx h = let (v, applied, same) = >>=-eq-ok (apply_tx u tx) _ h in cc

  drain-clean :
      (s : State C) (done : List (Tx C)) (results : List (Outcome C)) (txs : List (Tx C))
      → first_error (drain s done results txs).2 ≡ none
      → replay s txs ≡ ok (drain s done results txs).0
  unfolding drain replay
  drain-clean s done results [] h = refl
  drain-clean s done results (tx ∷ txs) h = elim (Result-cases (apply_tx s tx)) [
    | inl (u, e) ↦
        rw (e, drain, replay)
          (drain-clean u (done ++ (tx ∷ [])) (results ++ ((tx, ok tt) ∷ [])) txs
            (rw (e, drain) at h))
    | inr (x, e) ↦
        let rest = results ++ ((tx, err x) ∷ []) in
        let (q, extends) = drain-extends s done rest txs in
        let kept : first_error (rest ++ q) ≡ none = rw (← extends) (rw (e, drain) at h) in
        let seen = (first_error-append results _ (first_error-append rest q kept).0).1 in
        absurd (refused_seen tx x seen)
  ]

  submit_applied :
      (u t : State C) (request_id : Uuid) (message : Bytes) (randomizer : Randomizer)
      → apply_tx u (submit_request request_id message randomizer) ≡ ok t
      → apply_submit_request u request_id message randomizer ≡ ok t
  unfolding apply_tx
  submit_applied u t request_id message randomizer h = h

  -- The entry of the request that the first block has taken in.
  pub clean-entry :
      (chain : ChainSim C) (request_id : Uuid) (message : Bytes) (randomizer : Randomizer)
      → (let (next, results) =
            commit_block (submit chain (submit_request request_id message randomizer)) in
          first_error results ≡ none
          → (e : RequestEntry C) × (get request_id next.state.requests ≡ some e)
            × (e.message ≡ message)
            × (e.randomizer ≡ randomizer)
            × (e.status ≡ awaiting_commitments []))
  unfolding commit_block submit
  clean-entry chain request_id message randomizer h =
      let tx : Tx C = submit_request request_id message randomizer in
      let all = drain-clean chain.state [] [] (chain.mempool ++ (tx ∷ [])) h in
      let (u, _, last) =
        >>=-eq-ok (replay chain.state chain.mempool) (λ t. replay t (tx ∷ []))
          (sym (replay-append chain.state chain.mempool (tx ∷ [])) ∙ all) in
      let applied = last_replay u _ tx last in
      let (g, found, fresh, made) =
        submit_request-effect u _ request_id message randomizer
          (submit_applied u _ _ _ _ applied) in
      (
        record {
          request_id = request_id;
          message = message;
          randomizer = randomizer;
          status = awaiting_commitments [];
        },
        rw (made, get-insert_self),
        refl,
        refl,
        refl,
      )
