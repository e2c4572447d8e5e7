-- ===== src/Net/Connection.antt =====
-- sapphire-net/src/mesh.rs: `drive_connection`, the reader and the writer of one connection. Each
-- turn is one round of a task's loop. The transport is the only thing the two share, and a round
-- holds its lock for one call, so a run is a sequence of rounds in any order.
use project_sapphire.Base.{
  ℕ, zero, suc, Bool, false, Option, none, some, List, [], ◌∷◌, ◌++◌, Result, ok, err,
  if◌then◌else◌,
}
use project_sapphire.Core.{Bytes}
use project_sapphire.Net.Sockets.{Sockets, IoError}
use project_sapphire.Net.Noise.{Noise}
use project_sapphire.Net.Codec.{read_frame_bytes, write_frame_bytes, decrypt_frame, encrypt_frame}

-- `mpsc::Sender`: what was received, and for how many more payloads the receiver stays.
pub record Incoming : Type 0 where
  pub queue : List Bytes
  pub stays : ℕ

-- `Sender::send`
abbrev pub send_within : ℕ → Bytes → List Bytes → Option Incoming
send_within zero payload queue = none
send_within (suc n) payload queue = some (record { queue = queue ++ (payload ∷ []); stays = n })

abbrev pub send : Bytes → Incoming → Option Incoming
send payload incoming = send_within incoming.stays payload incoming.queue

-- What `broadcast::Receiver::recv` will return: the end of the list is `Closed`.
pub data Received : Type 0 where
  payload : Bytes → Received
  lagged : ℕ → Received

pub data Task : Type 0 where
  reader : Task
  writer : Task

module _ (S : Sockets) (N : Noise) where
  open S use {ReadHalf, WriteHalf, shutdown}
  open N use {TransportState}

  pub record Connection : Type 0 where
    pub read_half : ReadHalf
    pub write_half : WriteHalf
    pub transport : TransportState
    pub incoming : Incoming
    pub outgoing : List Received
    -- Whether each task is still in its loop.
    pub reading : Bool
    pub writing : Bool

  -- The end of a round of the reader: hand the payload on.
  unfoldable pub hand_on : Connection → Option Incoming → Connection
  hand_on c none = record c { reading = false }
  hand_on c (some incoming) = record c { incoming = incoming }

  unfoldable pub opened : Connection → Result Bytes IoError × TransportState → Connection
  unfolding hand_on
  opened c (err e, transport) = record c { transport = transport; reading = false }
  opened c (ok pt, transport) = hand_on (record c { transport = transport }) (send pt c.incoming)

  unfoldable pub arrived : Connection → Result Bytes IoError × ReadHalf → Connection
  unfolding opened
  arrived c (err e, half) = record c { read_half = half; reading = false }
  arrived c (ok ct, half) = opened (record c { read_half = half }) (decrypt_frame N ct c.transport)

  -- One round of the reader's loop.
  unfoldable pub read_round : Connection → Connection
  unfolding arrived
  read_round c = if c.reading then arrived c (read_frame_bytes S c.read_half) else c

  -- The end of a round of the writer.
  unfoldable pub put : Connection → Result (Unit {0}) IoError × WriteHalf → Connection
  put c (err e, half) = record c { write_half = shutdown half; writing = false }
  put c (ok _, half) = record c { write_half = half }

  unfoldable pub closed : Connection → Result Bytes IoError × TransportState → Connection
  unfolding put
  closed c (err e, transport) = record c { transport = transport }
  closed c (ok ct, transport) =
      put (record c { transport = transport }) (write_frame_bytes S ct c.write_half)

  unfoldable pub write_next : Connection → List Received → Connection
  unfolding closed
  write_next c [] = record c { writing = false }
  write_next c (lagged n ∷ outgoing) = record c { outgoing = outgoing }
  write_next c (payload p ∷ outgoing) =
      closed (record c { outgoing = outgoing }) (encrypt_frame N p c.transport)

  -- One round of the writer's loop.
  unfoldable pub write_round : Connection → Connection
  unfolding write_next
  write_round c = if c.writing then write_next c c.outgoing else c

  unfoldable pub round : Task → Connection → Connection
  unfolding read_round write_round
  round reader c = read_round c
  round writer c = write_round c

  -- `drive_connection`: both tasks, in an order of their rounds.
  unfoldable pub drive_connection : List Task → Connection → Connection
  unfolding round
  drive_connection [] c = c
  drive_connection (task ∷ rest) c = drive_connection rest (round task c)
