-- ===== src/Node.antt =====
-- sapphire-node: the signing policy and the node that reacts to the chain.
pub mod Policy
pub mod Signer
pub mod Steps
pub mod Memory
pub mod Once
pub mod Gate
pub mod Safety
pub mod Nonces
