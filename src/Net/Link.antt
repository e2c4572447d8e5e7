-- ===== src/Net/Link.antt =====
-- A connection from its two ends: dialling, the handshake, the checks of the keys, and what runs then.
use project_sapphire.Base.{
  ℕ, ◌≡◌, ◌≤◌, refl, sym, ap, ◌∙◌, List, ◌++◌, ok, length, nat_ord, list_ord,
}
use project_sapphire.Core.{Bytes}
use project_sapphire.Net.Sockets.{Sockets, IsReliable}
use project_sapphire.Net.Noise.{Noise, IsLawfulNoise}
use project_sapphire.Net.Frames.{frame}
use project_sapphire.Net.Wire.{Begins}
use project_sapphire.Net.Connection.{Connection, Task, drive_connection}
use project_sapphire.Net.Sendable.{sendable}
use project_sapphire.Net.Meeting.{Exchange, roles_meet}
use project_sapphire.Net.Mesh.{
  PeerConfig, allowed_peers, Channels, new_connection, serve_responder, serve_initiator, Dialing,
  retrying_connect,
}
use project_sapphire.Net.Dial.{Lists}
use project_sapphire.Net.Admission.{serve_responder-ok_iff, serve_initiator-ok_iff}
use project_sapphire.Net.Delivery.{delivered_in_order}

module _ {S : Sockets} {N : Noise} {Addr : Type 0} (R : IsReliable S) (L : IsLawfulNoise N) where
  -- Let node `a` dial a peer that it has configured with `b`'s key, let `b` have a peer configured
  -- with `a`'s key, and let the messages of the two be a run of Noise XX that leaves the ends of the
  -- channel in step for all that `a` has to send. Let the streams be open at first and carry to each
  -- side what the other one writes, from `a` to `b` up to a tail that may be lost. Then both nodes
  -- take the connection up, and in whatever orders their tasks run `b` hands on the payloads of at
  -- most 65519 bytes that `a` was given to send, in order and without gaps, up to one after which it
  -- hands on nothing.
  pub linked :
      {mine theirs : Bytes} {e e' : N.Entropy} (x : Exchange N mine theirs e e')
      (D : Dialing S Addr) (world : D.World) (peer : PeerConfig Addr)
      (peers_of_a peers_of_b : List (PeerConfig Addr)) (to_a to_b : Channels)
      (tasks_of_a tasks_of_b : List Task) (r r' : S.ReadHalf) (w w' : S.WriteHalf)
      (rest rest' lost : Bytes) (k : ℕ)
      → (retrying_connect D peer.addr world).0 ≡ ok (r, w)
      → peer.static_public ≡ x.their_key
      → Lists x.their_key peers_of_a
      → Lists x.my_key peers_of_b
      → R.IsOpen w
      → R.IsOpen w'
      → S.arriving r ≡ frame x.second ++ rest
      → S.arriving r' ≡ frame x.first ++ (frame x.third ++ rest')
      → L.Paired k x.my_end x.their_end
      → length to_a.outgoing ≤ k
      → ((c : Connection S N)
          → (serve_initiator N D peer mine e (allowed_peers peers_of_a) to_a tasks_of_a world).0
            ≡ ok c
          → S.sent c.write_half ≡ S.sent w ++ frame x.first ++ frame x.third ++ (rest' ++ lost))
      → (a : Connection S N) × (b : Connection S N) × (all : Begins N (sendable to_a.outgoing))
        × ((serve_initiator N D peer mine e (allowed_peers peers_of_a) to_a tasks_of_a world).0
            ≡ ok a)
        × (serve_responder N (r', w') theirs e' (allowed_peers peers_of_b) to_b tasks_of_b ≡ ok b)
        × (b.incoming.queue ≡ to_b.incoming.queue ++ all.got)
  linked {mine = mine} {theirs = theirs} {e = e} {e' = e'} x D world peer peers_of_a peers_of_b to_a
        to_b tasks_of_a tasks_of_b r r' w w' rest rest' lost k reached key listed listed' o o' wire
        wire' paired short sent =
      let (q, v, q', v', ran, ran', left, left', wrote, _) =
        roles_meet R x r r' w w' rest rest' o o' wire wire' in
      let a0 : Connection S N = new_connection N (q, v) x.my_end to_a in
      let b0 : Connection S N = new_connection N (q', v') x.their_end to_b in
      let a = drive_connection S N tasks_of_a a0 in
      let b = drive_connection S N tasks_of_b b0 in
      let took : (serve_initiator N D peer mine e (allowed_peers peers_of_a) to_a tasks_of_a
            world).0
          ≡ ok a =
        (serve_initiator-ok_iff N peers_of_a D peer mine e to_a tasks_of_a world a).1 (
          (r, w),
          reached,
          (
            record {
              transport = x.my_end;
              remote = x.their_key;
              stream = (q, v);
              met = ran;
              configured = listed;
              driven = refl;
            },
            sym key,
          ),
        ) in
      let took' : serve_responder N (r', w') theirs e' (allowed_peers peers_of_b) to_b tasks_of_b
          ≡ ok b =
        (serve_responder-ok_iff N peers_of_b (r', w') theirs e' to_b tasks_of_b b).1 (record {
          transport = x.their_end;
          remote = x.my_key;
          stream = (q', v');
          met = ran';
          configured = listed';
          driven = refl;
        }) in
      let flows : S.sent a.write_half ≡ S.sent v ++ (S.arriving q' ++ lost) =
        sent a took
        ∙ ap (λ (l : Bytes). l ++ (rest' ++ lost)) (sym wrote)
        ∙ ap (λ (l : Bytes). S.sent v ++ (l ++ lost)) (sym left') in
      let (all, queue) =
        delivered_in_order R tasks_of_a tasks_of_b a0 b0 k lost L paired short refl refl flows in
      (a, b, all, took, took', queue)
