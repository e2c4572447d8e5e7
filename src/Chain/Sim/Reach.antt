-- ===== src/Chain/Sim/Reach.antt =====
-- The states that blocks lead to are states that the chain reaches.
use project_sapphire.Base.{List, [], ◌∷◌, Ord, inl, inr, Result-cases}
use project_sapphire.Frost.{Ciphersuite, IsLawful}
use project_sapphire.Chain.Tx.{Tx}
use project_sapphire.Chain.State.{State}
use project_sapphire.Chain.Apply.{apply_tx}
use project_sapphire.Chain.Validity.{IsTyped, IsValid}
use project_sapphire.Chain.Reach.{Reaches, here, next, Reaches-IsValid}
use project_sapphire.Chain.Sim.{ChainSim, commit_block}
use project_sapphire.Chain.Sim.Laws.{settled, state-commit_block}

module _ {I : Type 0} ⦃o : Ord I⦄ {C : Ciphersuite I} where
  abbrev pub AllTyped : List (Tx C) → Type 0
  AllTyped [] = Unit {0}
  AllTyped (tx ∷ txs) = IsTyped tx × AllTyped txs

  pub settled-Reaches :
      (origin s : State C) (txs : List (Tx C))
      → AllTyped txs
      → Reaches origin s
      → Reaches origin (settled s txs)
  unfolding settled
  settled-Reaches origin s [] typed r = r
  settled-Reaches origin s (tx ∷ txs) (typed, all) r = elim (Result-cases (apply_tx s tx)) [
    | inl (t, e) ↦ rw (e, settled) (settled-Reaches origin t txs all (next r tx typed e))
    | inr (x, e) ↦ rw (e, settled) (settled-Reaches origin s txs all r)
  ]

  -- A block, whatever transactions are pending and whichever of them are refused, leads from a
  -- state to one that accepted transactions alone lead to, and keeps the state valid.
  pub commit_block-Reaches :
      (sim : ChainSim C)
      → IsLawful C
      → AllTyped sim.mempool
      → IsValid sim.state
      → Reaches sim.state (commit_block sim).0.state × IsValid (commit_block sim).0.state
  commit_block-Reaches sim L typed v =
      let r : Reaches sim.state (commit_block sim).0.state =
        rw state-commit_block (settled-Reaches sim.state sim.state sim.mempool typed here) in
      (r, Reaches-IsValid L v r)
