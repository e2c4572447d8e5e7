-- ===== src/Chain/Sim/Laws.antt =====
-- What a block does: it replays, and it does not matter where one block ends and the next begins.
use mathlib.Core.List.{append_assoc, append-nil, map-append}
use project_sapphire.Base.{
  ◌+◌, ◌%◌, ◌≡◌, refl, sym, ap, ◌∙◌, List, [], ◌∷◌, ◌++◌, map, Ord, Result, ok, err, ◌>>=◌, inl,
  inr, Result-cases,
}
use project_sapphire.Core.{usize_mod}
use project_sapphire.Frost.{Ciphersuite}
use project_sapphire.Chain.Tx.{Tx}
use project_sapphire.Chain.State.{State, ApplyError}
use project_sapphire.Chain.Apply.{apply_tx}
use project_sapphire.Chain.Sim.{ChainSim, Outcome, submit, drain, commit_block}

module _ {I : Type 0} ⦃o : Ord I⦄ {C : Ciphersuite I} where
  -- All transactions in order; the first refusal stops the run.
  unfoldable pub replay : State C → List (Tx C) → Result (State C) ApplyError
  replay s [] = ok s
  replay s (tx ∷ txs) = apply_tx s tx >>= λ next. replay next txs

  -- All transactions in order; what is refused leaves the state as it was.
  unfoldable pub settled : State C → List (Tx C) → State C
  settled s [] = s
  settled s (tx ∷ txs) = elim (apply_tx s tx) [ ok next ↦ settled next txs | err e ↦ settled s txs ]

  -- The transactions among the outcomes that were accepted.
  abbrev pub accepted : List (Outcome C) → List (Tx C)
  accepted [] = []
  accepted ((tx, ok _) ∷ r) = tx ∷ accepted r
  accepted ((tx, err e) ∷ r) = accepted r

  abbrev pub submit_all : ChainSim C → List (Tx C) → ChainSim C
  submit_all sim [] = sim
  submit_all sim (tx ∷ txs) = submit_all (submit sim tx) txs

  accepted-append : (r q : List (Outcome C)) → accepted (r ++ q) ≡ accepted r ++ accepted q
  accepted-append [] q = refl
  accepted-append ((tx, ok _) ∷ r) q = ap (◌∷◌ tx) (accepted-append r q)
  accepted-append ((tx, err e) ∷ r) q = accepted-append r q

  settled-append :
      (s : State C) (xs ys : List (Tx C)) → settled s (xs ++ ys) ≡ settled (settled s xs) ys
  unfolding settled
  settled-append s [] ys = refl
  settled-append s (tx ∷ xs) ys = elim (Result-cases (apply_tx s tx)) [
    | inl (u, e) ↦ rw (e, settled) (settled-append u xs ys)
    | inr (x, e) ↦ rw (e, settled) (settled-append s xs ys)
  ]

  pub replay-append :
      (s : State C) (xs ys : List (Tx C)) → replay s (xs ++ ys) ≡ (replay s xs >>= λ t. replay t ys)
  unfolding replay
  replay-append s [] ys = refl
  replay-append s (tx ∷ xs) ys = elim (Result-cases (apply_tx s tx)) [
    | inl (u, e) ↦ rw (e, replay) (replay-append u xs ys)
    | inr (x, e) ↦ rw (e, replay)
  ]

  pub mempool-submit_all :
      (sim : ChainSim C) (txs : List (Tx C)) → (submit_all sim txs).mempool ≡ sim.mempool ++ txs
  unfolding submit
  mempool-submit_all sim [] = sym (append-nil sim.mempool)
  mempool-submit_all sim (tx ∷ txs) =
      mempool-submit_all (submit sim tx) txs ∙ append_assoc sim.mempool (tx ∷ []) txs

  pub state-submit_all :
      (sim : ChainSim C) (txs : List (Tx C)) → (submit_all sim txs).state ≡ sim.state
  unfolding submit
  state-submit_all sim [] = refl
  state-submit_all sim (tx ∷ txs) = state-submit_all (submit sim tx) txs

  -- What the loop does, from any point of it.
  pub drain-settled :
      (s : State C) (done : List (Tx C)) (results : List (Outcome C)) (txs : List (Tx C))
      → (drain s done results txs).0 ≡ settled s txs
  unfolding drain settled
  drain-settled s done results [] = refl
  drain-settled s done results (tx ∷ txs) = elim (Result-cases (apply_tx s tx)) [
    | inl (u, e) ↦ rw (e, drain, settled) (drain-settled u _ _ txs)
    | inr (x, e) ↦ rw (e, drain, settled) (drain-settled s _ _ txs)
  ]

  drain-replay :
      (origin s : State C) (done : List (Tx C)) (results : List (Outcome C)) (txs : List (Tx C))
      → replay origin done ≡ ok s
      → replay origin (drain s done results txs).1 ≡ ok (drain s done results txs).0
  unfolding drain replay
  drain-replay origin s done results [] h = h
  drain-replay origin s done results (tx ∷ txs) h = elim (Result-cases (apply_tx s tx)) [
    | inl (u, e) ↦
        rw (e, drain)
          (drain-replay origin u _ _ txs
            (rw (replay-append origin done (tx ∷ []), h) (rw (e, replay))))
    | inr (x, e) ↦ rw (e, drain) (drain-replay origin s done _ txs h)
  ]

  drain-mempool :
      (s : State C) (done : List (Tx C)) (results : List (Outcome C)) (txs : List (Tx C))
      → map (λ r. r.0) (drain s done results txs).2 ≡ map (λ r. r.0) results ++ txs
  unfolding drain
  drain-mempool s done results [] = sym (append-nil _)
  drain-mempool s done results (tx ∷ txs) = elim (Result-cases (apply_tx s tx)) [
    | inl (u, e) ↦ rw (e, drain) (drain-mempool u _ _ txs ∙ simp (map-append, append_assoc))
    | inr (x, e) ↦ rw (e, drain) (drain-mempool s done _ txs ∙ simp (map-append, append_assoc))
  ]

  drain-accepted :
      (s : State C) (done : List (Tx C)) (results : List (Outcome C)) (txs : List (Tx C))
      → done ≡ accepted results
      → (drain s done results txs).1 ≡ accepted (drain s done results txs).2
  unfolding drain
  drain-accepted s done results [] h = h
  drain-accepted s done results (tx ∷ txs) h = elim (Result-cases (apply_tx s tx)) [
    | inl (u, e) ↦ rw (e, drain) (drain-accepted u _ _ txs (rw (h, accepted-append)))
    | inr (x, e) ↦
        rw (e, drain)
          (drain-accepted s done _ txs
            (rw (accepted-append) (h ∙ sym (append-nil (accepted results)))))
  ]

  -- Replaying a committed block on the state before it accepts every transaction of the block and
  -- ends in the state after it.
  pub replay-commit_block :
      (sim : ChainSim C)
      → let sim' = (commit_block sim).0 in replay sim.state sim'.last_block ≡ ok sim'.state
  unfolding commit_block replay
  replay-commit_block sim = drain-replay sim.state sim.state [] [] sim.mempool refl

  -- A block empties the mempool and raises the height, wrapping at 64 bits. It reports each pending
  -- transaction once and in order of submission, and keeps those reported as accepted.
  pub commit_block-results :
      (sim : ChainSim C)
      → let (sim', results) = commit_block sim in
        (sim'.mempool ≡ [])
        × (sim'.block_height ≡ (sim.block_height + 1) % usize_mod)
        × (map (λ r. r.0) results ≡ sim.mempool)
        × (sim'.last_block ≡ accepted results)
  unfolding commit_block
  commit_block-results sim = (
    refl,
    refl,
    drain-mempool sim.state [] [] sim.mempool,
    drain-accepted sim.state [] [] sim.mempool refl,
  )

  pub state-commit_block :
      (sim : ChainSim C) → (commit_block sim).0.state ≡ settled sim.state sim.mempool
  unfolding commit_block
  state-commit_block sim = drain-settled sim.state [] [] sim.mempool

  pub mempool-commit_block : (sim : ChainSim C) → (commit_block sim).0.mempool ≡ []
  mempool-commit_block sim = (commit_block-results sim).0

  -- Where a block ends does not matter: two batches of transactions lead to one state, in two
  -- blocks or in one.
  pub commit_block-submit_all :
      (sim : ChainSim C) (xs ys : List (Tx C))
      → (commit_block (submit_all (commit_block (submit_all sim xs)).0 ys)).0.state
        ≡ (commit_block (submit_all sim (xs ++ ys))).0.state
  unfolding settled
  commit_block-submit_all sim xs ys = simp (
    state-commit_block, state-submit_all, mempool-submit_all, mempool-commit_block, settled-append,
  )
