-- ===== src/Chain.antt =====
-- sapphire-chain: the coordination state machine. `Tx` and `State` hold the data, `Apply` the
-- transition function, `Sim` the simulator; the proofs stand in the other modules.
pub mod Tx
pub mod State
pub mod Apply
pub mod Effects
pub mod Validity
pub mod Reach
pub mod Progress
pub mod Signature
pub mod Selection
pub mod Rounds
pub mod Quorum
pub mod Sim
pub mod Stuck
