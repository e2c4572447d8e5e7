-- ===== src/Net.antt =====
-- sapphire-net: frames, the Noise handshake and the mesh of validators.
pub mod Sockets
pub mod Noise
pub mod Codec
pub mod Frames
pub mod Written
pub mod Connection
pub mod Wire
pub mod Rounds
pub mod Receiver
pub mod Sendable
pub mod Sending
pub mod Sender
pub mod Delivery
pub mod Handshake
pub mod Meeting
pub mod Mesh
pub mod Dial
pub mod Retry
pub mod Admission
pub mod Link
