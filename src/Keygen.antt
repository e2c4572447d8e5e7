-- ===== src/Keygen.antt =====
-- Key generation over the chain: the sealed envelopes of round 2, and the participant.
pub mod Envelope
pub mod Participant
pub mod Steps
pub mod Laws
pub mod Ceremony
pub mod Posted
pub mod Rounds
pub mod Whole
pub mod First
pub mod Transcript
pub mod Generate
