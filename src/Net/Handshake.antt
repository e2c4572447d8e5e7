-- ===== src/Net/Handshake.antt =====
-- sapphire-net/src/handshake.rs: the two roles of the Noise XX handshake over a stream, whose state
-- is the stream's halves and the handshake.
use project_sapphire.Base.{
  none, some, [], Result, ok, err, map_err, length, ltb, eqb, if◌then◌else◌, String, not,
}
use project_sapphire.Core.{Bytes}
use project_sapphire.Net.Sockets.{Sockets, IoError, Io, throw, ◌>>=◌, ◌>>◌, invalid_data, other}
use project_sapphire.Net.Noise.{Noise}
use project_sapphire.Net.Codec.{to_be_bytes, from_be_bytes}

abbrev pub noise_pattern : String
noise_pattern = "Noise_XX_25519_ChaChaPoly_BLAKE2s"

module _ (S : Sockets) (N : Noise) where
  open S use {ReadHalf, WriteHalf, read_exact, write_all, flush}
  open N use {HandshakeState, TransportState, write_message, read_message}

  -- `stream` and `state`
  pub record Handshaking : Type 0 where
    pub read_half : ReadHalf
    pub write_half : WriteHalf
    pub state : HandshakeState

  abbrev pub Out : Type 0 → Type 0
  Out A = Result A IoError × Handshaking

  -- A call on one part of the session.
  unfoldable pub on_reader : {A : Type 0} → Io ReadHalf A → Io Handshaking A
  on_reader m s = let (result, half) = m s.read_half in (result, record s { read_half = half })

  unfoldable pub on_writer : {A : Type 0} → Io WriteHalf A → Io Handshaking A
  on_writer m s = let (result, half) = m s.write_half in (result, record s { write_half = half })

  unfoldable pub on_state :
      {A : Type 0} → (HandshakeState → Result A N.NoiseError × HandshakeState) → Io Handshaking A
  on_state m s =
      let (result, state) = m s.state in (map_err (λ _. other) result, record s { state = state })

  unfoldable pub write_msg : Bytes → Io Handshaking (Unit {0})
  unfolding on_state on_writer
  write_msg payload = do
    buf ← on_state (write_message payload 65535)
    on_writer (write_all (to_be_bytes (length buf)))
    on_writer (write_all buf)
    on_writer flush

  unfoldable pub read_msg : Io Handshaking Bytes
  unfolding on_state on_reader
  read_msg = do
    len_buf ← on_reader (read_exact 4)
    let n = from_be_bytes len_buf
    buf ← if ltb 65535 n then throw invalid_data else on_reader (read_exact n)
    on_state (read_message buf n)

  unfoldable pub finish : Io Handshaking (TransportState × Bytes)
  finish s = elim (N.get_remote_static s.state) [
    | none ↦ (err other, s)
    | some remote ↦
        if not (eqb (length remote) 32)
        then (err other, s)
        else elim (N.into_transport_mode s.state) [
          | err e ↦ (err other, s)
          | ok transport ↦ (ok (transport, remote), s)
        ]
  ]

  -- Behind the builder.
  unfoldable pub run :
      Io Handshaking (TransportState × Bytes)
      → Result HandshakeState N.NoiseError
      → Io (ReadHalf × WriteHalf) (TransportState × Bytes)
  run steps (err e) stream = (err other, stream)
  run steps (ok state) (read_half, write_half) =
      let (result, s) =
        steps (record { read_half = read_half; write_half = write_half; state = state }) in
      (result, (s.read_half, s.write_half))

  unfoldable pub initiator_steps : Io Handshaking (TransportState × Bytes)
  initiator_steps = do write_msg []; _ ← read_msg; write_msg []; finish

  unfoldable pub responder_steps : Io Handshaking (TransportState × Bytes)
  responder_steps = do _ ← read_msg; write_msg []; _ ← read_msg; finish

  unfoldable pub run_initiator :
      Bytes → N.Entropy → Io (ReadHalf × WriteHalf) (TransportState × Bytes)
  unfolding run initiator_steps
  run_initiator local_static_secret entropy =
      run initiator_steps (N.build_initiator noise_pattern local_static_secret entropy)

  unfoldable pub run_responder :
      Bytes → N.Entropy → Io (ReadHalf × WriteHalf) (TransportState × Bytes)
  unfolding run responder_steps
  run_responder local_static_secret entropy =
      run responder_steps (N.build_responder noise_pattern local_static_secret entropy)
