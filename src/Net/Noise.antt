-- ===== src/Net/Noise.antt =====
-- What sapphire-net uses of the crate snow: handshakes and transports, with the buffer that each
-- call is given by its length. A state is replaced by each call, also where it fails.
use project_sapphire.Base.{ℕ, suc, ◌+◌, ◌-◌, ◌≡◌, ◌≤◌, Option, Result, ok, String, length}
use project_sapphire.Core.{Bytes}

pub record Noise : Type 1 where
  pub NoiseError : Type 0
  pub TransportState : Type 0
  -- The message, and the length of the buffer; the result is the written part of the buffer.
  pub encrypt : Bytes → ℕ → TransportState → Result Bytes NoiseError × TransportState
  pub decrypt : Bytes → ℕ → TransportState → Result Bytes NoiseError × TransportState
  pub HandshakeState : Type 0
  -- `Builder::new(params).local_private_key(…).build_…()`, with the pattern that is parsed,
  -- and what the system's generator will give it.
  pub Entropy : Type 0
  pub build_initiator : String → Bytes → Entropy → Result HandshakeState NoiseError
  pub build_responder : String → Bytes → Entropy → Result HandshakeState NoiseError
  pub write_message : Bytes → ℕ → HandshakeState → Result Bytes NoiseError × HandshakeState
  pub read_message : Bytes → ℕ → HandshakeState → Result Bytes NoiseError × HandshakeState
  pub get_remote_static : HandshakeState → Option Bytes
  pub into_transport_mode : HandshakeState → Result TransportState NoiseError

-- A message that `a` writes and `b` reads, the tag of 16 bytes included.
pub record Passes (N : Noise) (a b : N.TransportState) (text : Bytes) : Type 0 where
  pub ciphertext : Bytes
  pub sender : N.TransportState
  pub receiver : N.TransportState
  pub encrypts : N.encrypt text (length text + 16) a ≡ (ok ciphertext, sender)
  pub tagged : length ciphertext ≡ length text + 16
  pub decrypts : N.decrypt ciphertext (length ciphertext) b ≡ (ok text, receiver)

-- The two ends of a channel stay in step, and the two directions of a transport do not meet.
-- `Paired k a b`: `b` can read the next `k` messages that `a` writes.
pub record IsLawfulNoise (N : Noise) : Type 1 where
  pub Paired : ℕ → N.TransportState → N.TransportState → Type 0
  pub pass :
      (k : ℕ) (a b : N.TransportState) (text : Bytes)
      → Paired (suc k) a b
      → length text ≤ 65535 - 16
      → (p : Passes N a b text) × Paired k p.sender p.receiver
  pub decrypt-Paired :
      (k : ℕ) (a b : N.TransportState) (ct : Bytes) (room : ℕ)
      → Paired k a b
      → Paired k (N.decrypt ct room a).1 b
  pub decrypt-encrypt_other :
      (t : N.TransportState) (text ct : Bytes) (room space : ℕ)
      → N.decrypt ct room (N.encrypt text space t).1
        ≡ ((N.decrypt ct room t).0, (N.encrypt text space (N.decrypt ct room t).1).1)
