-- ===== src/Net/Meeting.antt =====
-- The two roles of the handshake against each other.
use mathlib.Core.List.{append_assoc}
use project_sapphire.Base.{
  ◌≡◌, ◌≤◌, refl, sym, ap, ◌∙◌, false, some, [], ◌++◌, Result, ok, length, ltb, arith,
}
use project_sapphire.Core.{Bytes}
use project_sapphire.Net.Sockets.{Sockets, IsReliable, IoError}
use project_sapphire.Net.Noise.{Noise}
use project_sapphire.Net.Codec.{to_be_bytes, from_be_bytes}
use project_sapphire.Net.Frames.{frame, from_be_bytes-to_be_bytes, length-to_be_bytes}
use project_sapphire.Net.Handshake.{
  Handshaking, noise_pattern, on_reader, on_state, write_msg, read_msg, finish, run, run_initiator,
  run_responder, initiator_steps, responder_steps,
}

-- A run of Noise XX between two key holders, message by message: each side learns the other's static
-- public key.
pub record Exchange (N : Noise) (mine theirs : Bytes) (e e' : N.Entropy) : Type 0 where
  pub start : N.HandshakeState
  pub peer : N.HandshakeState
  pub starts : N.build_initiator noise_pattern mine e ≡ ok start
  pub awaits : N.build_responder noise_pattern theirs e' ≡ ok peer
  -- -> e
  pub first : Bytes
  pub sent1 : N.HandshakeState
  pub got1 : N.HandshakeState
  pub writes1 : N.write_message [] 65535 start ≡ (ok first, sent1)
  pub reads1 : N.read_message first (length first) peer ≡ (ok [], got1)
  pub fits1 : length first ≤ 65535
  -- <- e, ee, s, es
  pub second : Bytes
  pub sent2 : N.HandshakeState
  pub got2 : N.HandshakeState
  pub writes2 : N.write_message [] 65535 got1 ≡ (ok second, sent2)
  pub reads2 : N.read_message second (length second) sent1 ≡ (ok [], got2)
  pub fits2 : length second ≤ 65535
  -- -> s, se
  pub third : Bytes
  pub sent3 : N.HandshakeState
  pub got3 : N.HandshakeState
  pub writes3 : N.write_message [] 65535 got2 ≡ (ok third, sent3)
  pub reads3 : N.read_message third (length third) sent2 ≡ (ok [], got3)
  pub fits3 : length third ≤ 65535
  pub my_key : Bytes
  pub their_key : Bytes
  pub learns : N.get_remote_static sent3 ≡ some their_key
  pub is_learned : N.get_remote_static got3 ≡ some my_key
  pub my_key_length : length my_key ≡ 32
  pub their_key_length : length their_key ≡ 32
  pub my_end : N.TransportState
  pub their_end : N.TransportState
  pub turns : N.into_transport_mode sent3 ≡ ok my_end
  pub turns_too : N.into_transport_mode got3 ≡ ok their_end

module _ {S : Sockets} {N : Noise} (R : IsReliable S) where
  -- A message goes out as a frame.
  write_msg_lem :
      (s : Handshaking S N) (m : Bytes) (state : N.HandshakeState)
      → N.write_message [] 65535 s.state ≡ (ok m, state)
      → R.IsOpen s.write_half
      → (half : S.WriteHalf) × (write_msg S N [] s
          ≡ (ok tt, record s { write_half = half; state = state }))
        × (S.sent half ≡ S.sent s.write_half ++ frame m)
        × R.IsOpen half
  unfolding write_msg
  write_msg_lem s m state writes open_now =
      let (w1, a, o1) = R.write-IsOpen (to_be_bytes (length m)) s.write_half open_now in
      let (w2, b, o2) = R.write-IsOpen m w1 o1 in
      let (w3, c, o3) = R.flush-IsOpen w2 o2 in
      (
        w3,
        rw (writes, on_state) (rw a (rw b (rw c refl))),
        ap (λ (p : Result (Unit {0}) IoError × S.WriteHalf). S.sent p.1) (sym c)
            ∙ R.sent-flush w2
            ∙ R.write_done m w1 w2 b
            ∙ rw (R.write_done _ s.write_half w1 a)
                (append_assoc (S.sent s.write_half) (to_be_bytes (length m)) m),
        o3,
      )

  -- The next frame comes in as a message.
  read_msg_lem :
      (s : Handshaking S N) (m rest : Bytes) (state : N.HandshakeState)
      → N.read_message m (length m) s.state ≡ (ok [], state)
      → length m ≤ 65535
      → S.arriving s.read_half ≡ frame m ++ rest
      → (half : S.ReadHalf) × (read_msg S N s
          ≡ (ok [], record s { read_half = half; state = state }))
        × (S.arriving half ≡ rest)
  unfolding read_msg
  read_msg_lem s m rest state reads fits wire =
      let n = length m in
      let first =
        R.read_next (to_be_bytes n) (m ++ rest) s.read_half
          (wire ∙ append_assoc (to_be_bytes n) m rest) in
      let second = R.read_next m rest first.after first.leaves in
      let head : S.read_exact 4 s.read_half ≡ (ok (to_be_bytes n), first.after) =
        rw (← (length-to_be_bytes n)) first.reads in
      let small : ltb 65535 n ≡ false = ground arith in
      let same : from_be_bytes (to_be_bytes n) ≡ n = from_be_bytes-to_be_bytes n (omega arith) in
      (
        second.after,
        rw (head, on_reader) (rw same (rw small (rw second.reads (rw (reads, on_state) refl)))),
        second.leaves,
      )

  finish_lem :
      (s : Handshaking S N) (remote : Bytes) (t : N.TransportState)
      → N.get_remote_static s.state ≡ some remote
      → length remote ≡ 32
      → N.into_transport_mode s.state ≡ ok t
      → finish S N s ≡ (ok (t, remote), s)
  unfolding finish
  finish_lem s remote t key full turns = ground arith

  -- Let the network carry to each side what the other one writes, with both connections open, and let
  -- the two key holders' messages be a run of Noise XX. Then both roles succeed: each gets its end of
  -- the channel and the other's static public key, each has read exactly the other's messages, and the
  -- frames each side was expected to get are the ones that the other side wrote.
  pub roles_meet :
      {mine theirs : Bytes} {e e' : N.Entropy} (x : Exchange N mine theirs e e') (r r' : S.ReadHalf)
      (w w' : S.WriteHalf) (rest rest' : Bytes)
      → R.IsOpen w
      → R.IsOpen w'
      → S.arriving r ≡ frame x.second ++ rest
      → S.arriving r' ≡ frame x.first ++ (frame x.third ++ rest')
      → (q : S.ReadHalf) × (v : S.WriteHalf) × (q' : S.ReadHalf) × (v' : S.WriteHalf)
        × (run_initiator S N mine e (r, w) ≡ (ok (x.my_end, x.their_key), (q, v)))
        × (run_responder S N theirs e' (r', w') ≡ (ok (x.their_end, x.my_key), (q', v')))
        × (S.arriving q ≡ rest)
        × (S.arriving q' ≡ rest')
        × (S.sent v ≡ S.sent w ++ frame x.first ++ frame x.third)
        × (S.sent v' ≡ S.sent w' ++ frame x.second)
  unfolding run_initiator run_responder run initiator_steps responder_steps
  roles_meet x r r' w w' rest rest' o o' wire wire' =
      let s0 : Handshaking S N = record { read_half = r; write_half = w; state = x.start } in
      let (w1, a1, b1, o1) = write_msg_lem s0 x.first x.sent1 x.writes1 o in
      let s1 : Handshaking S N = record { read_half = r; write_half = w1; state = x.sent1 } in
      let (r2, a2, b2) = read_msg_lem s1 x.second rest x.got2 x.reads2 x.fits2 wire in
      let s2 : Handshaking S N = record { read_half = r2; write_half = w1; state = x.got2 } in
      let (w3, a3, b3, o3) = write_msg_lem s2 x.third x.sent3 x.writes3 o1 in
      let s3 : Handshaking S N = record { read_half = r2; write_half = w3; state = x.sent3 } in
      let t0 : Handshaking S N = record { read_half = r'; write_half = w'; state = x.peer } in
      let (p1, c1, d1) =
        read_msg_lem t0 x.first (frame x.third ++ rest') x.got1 x.reads1 x.fits1 wire' in
      let t1 : Handshaking S N = record { read_half = p1; write_half = w'; state = x.got1 } in
      let (v2, c2, d2, _) = write_msg_lem t1 x.second x.sent2 x.writes2 o' in
      let t2 : Handshaking S N = record { read_half = p1; write_half = v2; state = x.sent2 } in
      let (p3, c3, d3) = read_msg_lem t2 x.third rest' x.got3 x.reads3 x.fits3 d1 in
      let t3 : Handshaking S N = record { read_half = p3; write_half = v2; state = x.got3 } in
      (
        r2,
        w3,
        p3,
        v2,
        rw x.starts (
            rw a1 (
              rw a2 (
                rw a3 (
                  rw (finish_lem s3 x.their_key x.my_end x.learns x.their_key_length x.turns)
                    refl)))),
        rw x.awaits (
            rw c1 (
              rw c2 (
                rw c3 (
                  rw (finish_lem t3 x.my_key x.their_end x.is_learned x.my_key_length x.turns_too)
                    refl)))),
        b2,
        d3,
        b3 ∙ ap (λ (l : Bytes). l ++ frame x.third) b1,
        d2,
      )
