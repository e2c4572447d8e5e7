-- ===== src/Zcash.antt =====
-- sapphire-zcash: one signing session from the request to the signature.
pub mod Session
pub mod Clean
pub mod Round
pub mod Sound
pub mod Refused
pub mod Ready
pub mod Pczt
pub mod Bundle
pub mod Actions
