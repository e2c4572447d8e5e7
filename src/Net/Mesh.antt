-- ===== src/Net/Mesh.antt =====
-- sapphire-net/src/mesh.rs: which peers are dialled, how a connection is made and authenticated, and
-- what runs behind that. Tasks, channels and log lines are tokio's.
use project_sapphire.Base.{
  ℕ, zero, suc, ◌*◌, Bool, true, false, not, List, [], ◌∷◌, Result, ok, err, Ordering, list_ord,
  nat_ord, ◌==◌, ltb, if◌then◌else◌,
}
use project_sapphire.Base.Map.{Map, contains_key, insert}
use project_sapphire.Core.{Bytes}
use project_sapphire.Net.Sockets.{Sockets, IoError, Io}
use project_sapphire.Net.Noise.{Noise}
use project_sapphire.Net.Connection.{Connection, Incoming, Received, Task, drive_connection}
use project_sapphire.Net.Handshake.{run_initiator, run_responder}

-- `SocketAddr` is a parameter.
pub record PeerConfig (Addr : Type 0) : Type 0 where
  pub addr : Addr
  pub static_public : Bytes

pub record MeshConfig (Addr : Type 0) : Type 0 where
  pub local_static_secret : Bytes
  pub local_static_public : Bytes
  pub bind_addr : Addr
  pub peers : List (PeerConfig Addr)

pub data MeshError : Type 0 where
  io : IoError → MeshError
  serde : MeshError
  -- the key that was seen
  unknown_peer : Bytes → MeshError

-- `allowed`, a `HashMap<[u8; 32], ()>`, of which only the keys are used.
unfoldable pub allowed_peers : {Addr : Type 0} → List (PeerConfig Addr) → Map Bytes (Unit {0})
allowed_peers [] = []
allowed_peers (p ∷ peers) = insert p.static_public tt (allowed_peers peers)

-- `a <= b` on byte arrays
abbrev pub at_most : Bytes → Bytes → Bool
at_most a b = elim (list_ord.cmp a b) [ Ordering.gt ↦ false | _ ↦ true ]

-- The loop that spawns a dialer for each peer that it does not skip.
unfoldable pub dialed : {Addr : Type 0} → Bytes → List (PeerConfig Addr) → List (PeerConfig Addr)
dialed local_static_public [] = []
dialed local_static_public (peer ∷ peers) =
    let rest = dialed local_static_public peers in
    if at_most peer.static_public local_static_public then rest else peer ∷ rest

-- What `retrying_connect` uses of the network: a connection attempt, and a sleep in milliseconds.
pub record Dialing (S : Sockets) (Addr : Type 0) : Type 1 where
  pub World : Type 0
  pub connect : Addr → Io World (S.ReadHalf × S.WriteHalf)
  pub sleep : ℕ → World → World

-- `(delay * 2).min(500)`
abbrev pub next_delay : ℕ → ℕ
next_delay delay = if ltb (delay * 2) 500 then delay * 2 else 500

module _ {S : Sockets} {Addr : Type 0} (D : Dialing S Addr) where
  open D use {World, connect, sleep}

  -- After an attempt: done, or a sleep and the next one.
  unfoldable pub connect_again :
      Io World (S.ReadHalf × S.WriteHalf)
      → ℕ
      → Result (S.ReadHalf × S.WriteHalf) IoError × World
      → Result (S.ReadHalf × S.WriteHalf) IoError × World
  connect_again rest delay (ok stream, world) = (ok stream, world)
  connect_again rest delay (err e, world) = rest (sleep delay world)

  unfoldable pub connect_loop : ℕ → ℕ → Addr → Io World (S.ReadHalf × S.WriteHalf)
  connect_loop zero delay addr world = connect addr world
  connect_loop (suc rounds) delay addr world =
      connect_again (connect_loop rounds (next_delay delay) addr) delay (connect addr world)

  unfoldable pub retrying_connect : Addr → Io World (S.ReadHalf × S.WriteHalf)
  unfolding connect_loop connect_again
  retrying_connect addr = connect_loop 20 20 addr

-- The channels that a connection is given.
pub record Channels : Type 0 where
  pub incoming : Incoming
  pub outgoing : List Received

module _ {S : Sockets} (N : Noise) where
  open S use {ReadHalf, WriteHalf}
  open N use {TransportState}

  -- What `drive_connection` starts from.
  abbrev pub new_connection : ReadHalf × WriteHalf → TransportState → Channels → Connection S N
  new_connection (read_half, write_half) transport channels = record {
    read_half = read_half;
    write_half = write_half;
    transport = transport;
    incoming = channels.incoming;
    outgoing = channels.outgoing;
    reading = true;
    writing = true;
  }

  -- Behind the handshake of the responder; `tasks` is the order in which the two tasks will run.
  unfoldable pub admit_responder :
      Map Bytes (Unit {0})
      → Channels
      → List Task
      → Result (TransportState × Bytes) IoError × (ReadHalf × WriteHalf)
      → Result (Connection S N) MeshError
  admit_responder allowed channels tasks (err e, stream) = err (io e)
  admit_responder allowed channels tasks (ok (transport, remote_static), stream) =
      if not (contains_key remote_static allowed)
      then err (unknown_peer remote_static)
      else ok (drive_connection S N tasks (new_connection stream transport channels))

  unfoldable pub serve_responder :
      ReadHalf × WriteHalf
      → Bytes
      → N.Entropy
      → Map Bytes (Unit {0})
      → Channels
      → List Task
      → Result (Connection S N) MeshError
  unfolding admit_responder
  serve_responder stream secret entropy allowed channels tasks =
      admit_responder allowed channels tasks (run_responder S N secret entropy stream)

  -- Behind the handshake of the initiator.
  unfoldable pub admit_initiator :
      Bytes
      → Map Bytes (Unit {0})
      → Channels
      → List Task
      → Result (TransportState × Bytes) IoError × (ReadHalf × WriteHalf)
      → Result (Connection S N) MeshError
  admit_initiator static_public allowed channels tasks (err e, stream) = err (io e)
  admit_initiator static_public allowed channels tasks (ok (transport, remote_static), stream) =
      if not (remote_static == static_public)
      then err (unknown_peer remote_static)
      else if not (contains_key remote_static allowed)
      then err (unknown_peer remote_static)
      else ok (drive_connection S N tasks (new_connection stream transport channels))

module _ {S : Sockets} (N : Noise) {Addr : Type 0} (D : Dialing S Addr) where
  -- Behind the connection attempts.
  unfoldable pub over_stream :
      PeerConfig Addr
      → Bytes
      → N.Entropy
      → Map Bytes (Unit {0})
      → Channels
      → List Task
      → Result (S.ReadHalf × S.WriteHalf) IoError × D.World
      → Result (Connection S N) MeshError × D.World
  unfolding admit_initiator
  over_stream peer secret entropy allowed channels tasks (err e, world) = (err (io e), world)
  over_stream peer secret entropy allowed channels tasks (ok stream, world) = (
    admit_initiator N peer.static_public allowed channels tasks
        (run_initiator S N secret entropy stream),
    world,
  )

  unfoldable pub serve_initiator :
      PeerConfig Addr
      → Bytes
      → N.Entropy
      → Map Bytes (Unit {0})
      → Channels
      → List Task
      → D.World
      → Result (Connection S N) MeshError × D.World
  unfolding over_stream
  serve_initiator peer secret entropy allowed channels tasks world =
      over_stream peer secret entropy allowed channels tasks (retrying_connect D peer.addr world)

-- What `Mesh::start` sets up: the keys that the listener accepts, and a dialer for each of these peers.
pub record Mesh (Addr : Type 0) : Type 0 where
  pub local_static_public : Bytes
  pub allowed : Map Bytes (Unit {0})
  pub dialers : List (PeerConfig Addr)

-- `Mesh::start`, with the result of `TcpListener::bind`.
unfoldable pub start :
    {Addr : Type 0} → Result (Unit {0}) IoError → MeshConfig Addr → Result (Mesh Addr) MeshError
start (err e) config = err (io e)
start (ok _) config = ok (record {
  local_static_public = config.local_static_public;
  allowed = allowed_peers config.peers;
  dialers = dialed config.local_static_public config.peers;
})

-- A connection that the listener accepts, with what its task will be given.
pub record Accepted (S : Sockets) (N : Noise) : Type 0 where
  pub stream : S.ReadHalf × S.WriteHalf
  pub entropy : N.Entropy
  pub channels : Channels
  pub tasks : List Task

-- The listener's loop over what `accept` returns: an error is passed over, and each connection is
-- served by a task of its own.
unfoldable pub listen :
    {S : Sockets} (N : Noise)
    → Bytes
    → Map Bytes (Unit {0})
    → List (Result (Accepted S N) IoError)
    → List (Result (Connection S N) MeshError)
listen N secret allowed [] = []
listen N secret allowed (err e ∷ rest) = listen N secret allowed rest
listen N secret allowed (ok a ∷ rest) =
    serve_responder N a.stream secret a.entropy allowed a.channels a.tasks
    ∷ listen N secret allowed rest
