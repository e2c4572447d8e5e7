-- ===== src/Net/Codec.antt =====
-- sapphire-net/src/codec.rs: frames with a length prefix over an encrypted stream. Each function
-- returns its result and the half of the stream or the transport as it leaves it.
use project_sapphire.Base.{
  ℕ, ◌+◌, ◌-◌, ◌*◌, ◌/◌, ◌%◌, ◌^◌, [], ◌∷◌, Result, err, map_err, length, ltb, if◌then◌else◌,
}
use project_sapphire.Core.{Bytes}
use project_sapphire.Net.Sockets.{
  Sockets, IoError, Io, throw, ◌>>=◌, ◌>>◌, invalid_data, invalid_input, other,
}
use project_sapphire.Net.Noise.{Noise}

abbrev pub max_payload : ℕ
max_payload = 65535 - 16

-- `(n as u32).to_be_bytes()`
unfoldable pub to_be_bytes : ℕ → Bytes
to_be_bytes n =
    let w : ℕ = n % 2 ^ 32 in (w / 2 ^ 24) ∷ (w / 2 ^ 16 % 256) ∷ (w / 2 ^ 8 % 256) ∷ (w % 256) ∷ []

-- `u32::from_be_bytes`
unfoldable pub from_be_bytes_loop : ℕ → Bytes → ℕ
from_be_bytes_loop acc [] = acc
from_be_bytes_loop acc (b ∷ bs) = from_be_bytes_loop (acc * 256 + b) bs

unfoldable pub from_be_bytes : Bytes → ℕ
unfolding from_be_bytes_loop
from_be_bytes bs = from_be_bytes_loop 0 bs

module _ (S : Sockets) where
  open S use {ReadHalf, WriteHalf, read_exact, write_all, flush}

  unfoldable pub read_frame_bytes : Io ReadHalf Bytes
  read_frame_bytes = do
    len_buf ← read_exact 4
    let n = from_be_bytes len_buf
    if ltb (max_payload + 16) n then throw invalid_data else read_exact n

  unfoldable pub write_frame_bytes : Bytes → Io WriteHalf (Unit {0})
  write_frame_bytes ciphertext = do
    write_all (to_be_bytes (length ciphertext))
    write_all ciphertext
    flush

-- The error of snow, by the kind that it is given.
abbrev pub with_kind : {E A T : Type 0} → IoError → Result A E × T → Result A IoError × T
with_kind kind (result, t) = (map_err (λ _. kind) result, t)

module _ (N : Noise) where
  open N use {TransportState, encrypt, decrypt}

  unfoldable pub decrypt_frame : Bytes → Io TransportState Bytes
  decrypt_frame ciphertext transport =
      with_kind invalid_data (decrypt ciphertext (length ciphertext) transport)

  unfoldable pub encrypt_frame : Bytes → Io TransportState Bytes
  encrypt_frame payload transport =
      if ltb max_payload (length payload)
      then (err invalid_input, transport)
      else with_kind other (encrypt payload (length payload + 16) transport)
