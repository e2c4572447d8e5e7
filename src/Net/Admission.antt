-- ===== src/Net/Admission.antt =====
-- Which connections a node takes up.
use project_sapphire.Base.{
  ◌≡◌, ◌↔◌, refl, sym, ap, ◌∙◌, subst, Bool, true, false, not, List, [], ◌∷◌, Result, ok, err,
  if◌then◌else◌, ==_iff, nat_ord, list_ord,
}
use project_sapphire.Core.{Bytes}
use project_sapphire.Net.Sockets.{Sockets, IoError}
use project_sapphire.Net.Noise.{Noise}
use project_sapphire.Net.Connection.{Connection, Task, drive_connection}
use project_sapphire.Net.Handshake.{run_initiator, run_responder}
use project_sapphire.Net.Mesh.{
  PeerConfig, allowed_peers, Channels, new_connection, MeshError, admit_responder, serve_responder,
  admit_initiator, serve_initiator, over_stream, Accepted, listen, Dialing, retrying_connect,
}
use project_sapphire.Net.Dial.{Lists, contains-allowed_peers}

-- `if !test { return Err(e); }` in front of a result.
unless-eq-ok :
    {A : Type 0} (b : Bool) (e : MeshError) (r : Result A MeshError) {a : A}
    → (if not b then err e else r) ≡ ok a
    → (b ≡ true) × (r ≡ ok a)
unless-eq-ok true e r h = (refl, h)
unless-eq-ok false e r h = cc

unless_lem :
    {A : Type 0} (b : Bool) (e : MeshError) (r : Result A MeshError)
    → b ≡ true
    → (if not b then err e else r) ≡ r
unless_lem b e r h = rw h refl

module _ {S : Sockets} (N : Noise) {Addr : Type 0} (peers : List (PeerConfig Addr)) where
  -- The handshake of a connection that was taken up, with a peer that is configured.
  pub record Authentic
      (handshake : Result (N.TransportState × Bytes) IoError × (S.ReadHalf × S.WriteHalf))
      (channels : Channels) (tasks : List Task) (c : Connection S N) : Type 0 where
    pub transport : N.TransportState
    pub remote : Bytes
    pub stream : S.ReadHalf × S.WriteHalf
    pub met : handshake ≡ (ok (transport, remote), stream)
    pub configured : Lists remote peers
    pub driven : c ≡ drive_connection S N tasks (new_connection N stream transport channels)

  admit_responder-Authentic :
      (channels : Channels) (tasks : List Task)
      (m : Result (N.TransportState × Bytes) IoError × (S.ReadHalf × S.WriteHalf))
      (c : Connection S N)
      → admit_responder N (allowed_peers peers) channels tasks m ≡ ok c
      → Authentic m channels tasks c
  unfolding admit_responder
  admit_responder-Authentic channels tasks (err e, stream) c h = cc
  admit_responder-Authentic channels tasks (ok (transport, remote), stream) c h =
      let (known, rest) = unless-eq-ok _ _ _ h in
      record {
        transport = transport;
        remote = remote;
        stream = stream;
        met = refl;
        configured = (contains-allowed_peers remote peers).0 known;
        driven = cc;
      }

  Authentic-admit_responder :
      (channels : Channels) (tasks : List Task)
      (m : Result (N.TransportState × Bytes) IoError × (S.ReadHalf × S.WriteHalf))
      (c : Connection S N)
      → Authentic m channels tasks c
      → admit_responder N (allowed_peers peers) channels tasks m ≡ ok c
  unfolding admit_responder
  Authentic-admit_responder channels tasks m c a =
      ap (admit_responder N (allowed_peers peers) channels tasks) a.met
      ∙ unless_lem _ _ _ ((contains-allowed_peers a.remote peers).1 a.configured)
      ∙ ap ok (sym a.driven)

  -- An inbound connection is taken up exactly where the handshake ends with the key of a configured
  -- peer, and what runs then is that handshake's transport over that stream.
  pub serve_responder-ok_iff :
      (stream : S.ReadHalf × S.WriteHalf) (secret : Bytes) (entropy : N.Entropy)
      (channels : Channels) (tasks : List Task) (c : Connection S N)
      → (serve_responder N stream secret entropy (allowed_peers peers) channels tasks ≡ ok c)
        ↔ Authentic (run_responder S N secret entropy stream) channels tasks c
  unfolding serve_responder
  serve_responder-ok_iff stream secret entropy channels tasks c = (
    (λ h. admit_responder-Authentic channels tasks _ c h),
    (λ a. Authentic-admit_responder channels tasks _ c a),
  )

  -- The peer that was dialled, and no other one.
  abbrev pub Dialled :
      PeerConfig Addr
      → Result (N.TransportState × Bytes) IoError × (S.ReadHalf × S.WriteHalf)
      → Channels
      → List Task
      → Connection S N
      → Type 0
  Dialled peer m channels tasks c =
      (a : Authentic m channels tasks c) × (a.remote ≡ peer.static_public)

  admit_initiator-Dialled :
      (peer : PeerConfig Addr) (channels : Channels) (tasks : List Task)
      (m : Result (N.TransportState × Bytes) IoError × (S.ReadHalf × S.WriteHalf))
      (c : Connection S N)
      → admit_initiator N peer.static_public (allowed_peers peers) channels tasks m ≡ ok c
      → Dialled peer m channels tasks c
  unfolding admit_initiator
  admit_initiator-Dialled peer channels tasks (err e, stream) c h = absurd (cc)
  admit_initiator-Dialled peer channels tasks (ok (transport, remote), stream) c h =
      let (expected, more) = unless-eq-ok _ _ _ h in
      let (known, rest) = unless-eq-ok _ _ _ more in
      (
        record {
          transport = transport;
          remote = remote;
          stream = stream;
          met = refl;
          configured = (contains-allowed_peers remote peers).0 known;
          driven = cc;
        },
        (==_iff remote peer.static_public).0 expected,
      )

  Dialled-admit_initiator :
      (peer : PeerConfig Addr) (channels : Channels) (tasks : List Task)
      (m : Result (N.TransportState × Bytes) IoError × (S.ReadHalf × S.WriteHalf))
      (c : Connection S N)
      → Dialled peer m channels tasks c
      → admit_initiator N peer.static_public (allowed_peers peers) channels tasks m ≡ ok c
  unfolding admit_initiator
  Dialled-admit_initiator peer channels tasks m c (a, same) =
      ap (admit_initiator N peer.static_public (allowed_peers peers) channels tasks) a.met
      ∙ unless_lem _ _ _ ((==_iff a.remote peer.static_public).1 same)
      ∙ unless_lem _ _ _ ((contains-allowed_peers a.remote peers).1 a.configured)
      ∙ ap ok (sym a.driven)

  over_stream-eq :
      (D : Dialing S Addr) (peer : PeerConfig Addr) (secret : Bytes) (entropy : N.Entropy)
      (channels : Channels) (tasks : List Task)
      (m : Result (S.ReadHalf × S.WriteHalf) IoError × D.World) (c : Connection S N)
      → ((over_stream N D peer secret entropy (allowed_peers peers) channels tasks m).0 ≡ ok c) ↔ (
          (stream : S.ReadHalf × S.WriteHalf) × (m.0 ≡ ok stream)
          × Dialled peer (run_initiator S N secret entropy stream) channels tasks c)
  unfolding over_stream
  over_stream-eq D peer secret entropy channels tasks (err e, world) c =
      ((λ h. absurd (cc)), (λ (stream, h, _). absurd (cc)))
  over_stream-eq D peer secret entropy channels tasks (ok stream, world) c = (
    (λ h. (stream, refl, admit_initiator-Dialled peer channels tasks _ c h)),
    (λ (stream', h, d).
        let same : stream' ≡ stream = cc in
        subst
          (λ s.
            admit_initiator N peer.static_public (allowed_peers peers) channels tasks
              (run_initiator S N secret entropy s)
            ≡ ok c)
          same (Dialled-admit_initiator peer channels tasks _ c d)),
  )

  -- A dialled connection is taken up exactly where the attempts give a stream, the handshake on it ends
  -- with the key of the peer that was dialled, and that is a configured one.
  pub serve_initiator-ok_iff :
      (D : Dialing S Addr) (peer : PeerConfig Addr) (secret : Bytes) (entropy : N.Entropy)
      (channels : Channels) (tasks : List Task) (world : D.World) (c : Connection S N)
      → ((serve_initiator N D peer secret entropy (allowed_peers peers) channels tasks world).0
          ≡ ok c)
        ↔ ((stream : S.ReadHalf × S.WriteHalf) × ((retrying_connect D peer.addr world).0
              ≡ ok stream)
            × Dialled peer (run_initiator S N secret entropy stream) channels tasks c)
  unfolding serve_initiator
  serve_initiator-ok_iff D peer secret entropy channels tasks world c =
      over_stream-eq D peer secret entropy channels tasks _ c

  -- What the listener's tasks take up, one after the other.
  pub data Admits (secret : Bytes)
      : List (Result (Accepted S N) IoError)
        → List (Result (Connection S N) MeshError)
        → Type 0 where
    none_left : Admits secret [] []
    passed_over :
        {e : IoError} {accepted : List (Result (Accepted S N) IoError)}
        {results : List (Result (Connection S N) MeshError)}
        → Admits secret accepted results
        → Admits secret (err e ∷ accepted) results
    served :
        (a : Accepted S N) {result : Result (Connection S N) MeshError}
        {accepted : List (Result (Accepted S N) IoError)}
        {results : List (Result (Connection S N) MeshError)}
        → ((c : Connection S N)
            → (result ≡ ok c)
              ↔ Authentic (run_responder S N secret a.entropy a.stream) a.channels a.tasks c)
        → Admits secret accepted results
        → Admits secret (ok a ∷ accepted) (result ∷ results)

  -- Each connection that the listener accepts is taken up or refused for itself, whatever errors and
  -- refusals come between.
  pub listen-Admits :
      (secret : Bytes) (accepted : List (Result (Accepted S N) IoError))
      → Admits secret accepted (listen N secret (allowed_peers peers) accepted)
  unfolding listen
  listen-Admits secret [] = none_left
  listen-Admits secret (err e ∷ accepted) = passed_over (listen-Admits secret accepted)
  listen-Admits secret (ok a ∷ accepted) =
      served a (λ c. serve_responder-ok_iff a.stream secret a.entropy a.channels a.tasks c)
        (listen-Admits secret accepted)
