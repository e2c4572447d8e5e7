-- ===== src/Chain/Sim.antt =====
-- sapphire-chain/src/sim.rs: the in-process simulator.
pub mod Laws
pub mod Reach
use project_sapphire.Base.{ℕ, ◌+◌, ◌%◌, List, [], ◌∷◌, ◌++◌, Ord, Result, ok, err}
use project_sapphire.Core.{usize_mod}
use project_sapphire.Frost.{Ciphersuite}
use project_sapphire.Chain.Tx.{Tx}
use project_sapphire.Chain.State.{State, initial, ApplyError}
use project_sapphire.Chain.Apply.{apply_tx}

module _ {I : Type 0} (C : Ciphersuite I) where
  pub record ChainSim : Type 0 where
    pub state : State C
    pub mempool : List (Tx C)
    pub block_height : ℕ
    pub last_block : List (Tx C)

  -- `ChainSim::new`
  abbrev pub new_sim : ChainSim
  new_sim = record { state = initial C; mempool = []; block_height = 0; last_block = [] }

  -- A transaction with what `apply_tx` said of it.
  abbrev pub Outcome : Type 0
  Outcome = Tx C × Result (Unit {0}) ApplyError

module _ {I : Type 0} ⦃o : Ord I⦄ {C : Ciphersuite I} where
  unfoldable pub submit : ChainSim C → Tx C → ChainSim C
  submit sim tx = record sim { mempool = sim.mempool ++ (tx ∷ []) }

  -- The `while let` loop, over the state, the accepted transactions and the results.
  unfoldable pub drain :
      State C
      → List (Tx C)
      → List (Outcome C)
      → List (Tx C)
      → State C × List (Tx C) × List (Outcome C)
  drain state accepted results [] = (state, accepted, results)
  drain state accepted results (tx ∷ mempool) = elim (apply_tx state tx) [
    | ok next ↦ drain next (accepted ++ (tx ∷ [])) (results ++ ((tx, ok tt) ∷ [])) mempool
    | err e ↦ drain state accepted (results ++ ((tx, err e) ∷ [])) mempool
  ]

  -- The height is a `u64`, which is as wide as a `usize` here.
  unfoldable pub commit_block : ChainSim C → ChainSim C × List (Outcome C)
  unfolding drain
  commit_block sim =
      let (state, accepted, results) = drain sim.state [] [] sim.mempool in
      (
        record {
          state = state;
          mempool = [];
          block_height = (sim.block_height + 1) % usize_mod;
          last_block = accepted;
        },
        results,
      )
