-- ===== src/Tests/MeshExamples.antt =====
-- Two validators that dial each other and talk over the sample streams, and the theorems at these
-- runs.
use mathlib.Core.List.{append-nil}
use project_sapphire.Base.{
  ℕ, ◌+◌, ◌≡◌, ◌≤◌, ◌⊎◌, inl, ◌↔◌, refl, sym, List, [], ◌∷◌, ◌++◌, Result, ok, err, ltb,
  if◌then◌else◌, take, drop, some, none, arith, list_ord, Ordering, nat_ord,
}
use project_sapphire.Base.Map.{contains_key, get, insert}
use project_sapphire.Core.{Bytes}
use project_sapphire.Net.Sockets.{IoError, system}
use project_sapphire.Net.Codec.{
  to_be_bytes, from_be_bytes, read_frame_bytes, write_frame_bytes, encrypt_frame,
}
use project_sapphire.Net.Frames.{frame}
use project_sapphire.Net.Connection.{Connection, reader, drive_connection}
use project_sapphire.Net.Wire.{Begins}
use project_sapphire.Net.Handshake.{write_msg, read_msg, finish, run_initiator, run_responder}
use project_sapphire.Net.Meeting.{Exchange, roles_meet}
use project_sapphire.Net.Mesh.{
  new_connection, PeerConfig, dialed, allowed_peers, Channels, serve_initiator, serve_responder,
  Dialing, retrying_connect,
}
use project_sapphire.Net.Dial.{times, dialed-one_side}
use project_sapphire.Net.Retry.{Reachable, retrying_connect-answers}
use project_sapphire.Net.Admission.{Dialled, serve_initiator-ok_iff}
use project_sapphire.Net.Link.{linked}
use project_sapphire.Tests.EscrowExamples.{zeros}
use project_sapphire.Tests.NetSamples.{
  sockets, sockets-IsReliable, noise, noise-IsLawfulNoise, begins_with, in_step, is_open,
}
use project_sapphire.Tests.NetExamples.{
  first_text, next_text, first_frame, next_frame, idle_channel, sending, tasks,
}

-- The keys of two validators.
abbrev low_key : Bytes
low_key = 1 ∷ zeros 31

abbrev high_key : Bytes
high_key = 2 ∷ zeros 31

abbrev peer : ℕ → Bytes → PeerConfig ℕ
peer addr key = record { addr = addr; static_public = key }

abbrev exchanged : Exchange noise low_key high_key tt tt
exchanged = record {
  start = begins_with low_key;
  peer = begins_with high_key;
  starts = refl;
  awaits = refl;
  first = [];
  sent1 = record { secret = low_key; remote = none; step = 1 };
  got1 = record { secret = high_key; remote = none; step = 1 };
  writes1 = refl;
  reads1 = refl;
  fits1 = omega arith;
  second = high_key;
  sent2 = record { secret = high_key; remote = none; step = 2 };
  got2 = record { secret = low_key; remote = some high_key; step = 2 };
  writes2 = refl;
  reads2 = refl;
  fits2 = omega arith;
  third = low_key;
  sent3 = record { secret = low_key; remote = some high_key; step = 3 };
  got3 = record { secret = high_key; remote = some low_key; step = 3 };
  writes3 = refl;
  reads3 = refl;
  fits3 = omega arith;
  my_key = low_key;
  their_key = high_key;
  learns = refl;
  is_learned = refl;
  my_key_length = refl;
  their_key_length = refl;
  my_end = record { out = 0; inward = 0 };
  their_end = record { out = 0; inward = 0 };
  turns = refl;
  turns_too = refl;
}

dialed-one_side_example :
    (((list_ord.cmp high_key low_key ≡ Ordering.gt)
        × (times high_key (dialed low_key (peer 5 high_key ∷ []))
            ≡ times high_key (peer 5 high_key ∷ []))
        × (times low_key (dialed high_key (peer 4 low_key ∷ [])) ≡ 0))
      ⊎ ((list_ord.cmp low_key high_key ≡ Ordering.gt)
          × (times high_key (dialed low_key (peer 5 high_key ∷ [])) ≡ 0)
          × (times low_key (dialed high_key (peer 4 low_key ∷ []))
              ≡ times low_key (peer 4 low_key ∷ []))))
    × (times low_key (dialed low_key (peer 5 high_key ∷ [])) ≡ 0)
dialed-one_side_example =
    dialed-one_side low_key high_key (peer 5 high_key ∷ []) (peer 4 low_key ∷ []) (λ e. absurd (cc))

-- The network comes up after 700 milliseconds; an attempt takes one.
abbrev attempt : ℕ → Result (Bytes × Bytes) IoError
attempt now = if ltb now 700 then err (system "connection refused") else ok ([], [])

abbrev dialing : Dialing sockets ℕ
dialing = record {
  World = ℕ;
  connect = λ addr now. (attempt now, now + 1);
  sleep = λ delay now. now + delay;
}

dialing-Reachable : Reachable dialing 5 700
dialing-Reachable = record {
  clock = λ now. now;
  sleeps = λ delay now. omega arith;
  passes = λ now. omega arith;
  answers = λ now h. (([], []), up now h);
}
  where
    up : (now : ℕ) → 700 ≤ now → attempt now ≡ ok ([], [])
    up now h = ground arith

retrying_connect-answers_example :
    (stream : Bytes × Bytes) × ((retrying_connect dialing 5 0).0 ≡ ok stream)
retrying_connect-answers_example = retrying_connect-answers dialing-Reachable 0 (omega arith)

-- `low` dials `high`, and has two payloads to send; `high` has heard all but the last three bytes.
abbrev to_low : Channels
to_low = record { incoming = idle_channel; outgoing = sending.outgoing }

abbrev to_high : Channels
to_high = record { incoming = idle_channel; outgoing = [] }

abbrev heard : Bytes
heard = first_frame ++ take 18 next_frame

abbrev peers_of_low : List (PeerConfig ℕ)
peers_of_low = peer 5 high_key ∷ []

abbrev peers_of_high : List (PeerConfig ℕ)
peers_of_high = peer 4 low_key ∷ []

abbrev answering : Dialing sockets ℕ
answering = record {
  World = Unit {0};
  connect = λ addr world. (ok (frame high_key, []), tt);
  sleep = λ delay world. tt;
}

roles_meet_example :
    (q : Bytes) × (v : Bytes) × (q' : Bytes) × (v' : Bytes) × (run_initiator sockets noise low_key
        tt
        (frame high_key, [])
      ≡ (ok (exchanged.my_end, high_key), (q, v)))
    × (run_responder sockets noise high_key tt (frame [] ++ (frame low_key ++ heard), [])
        ≡ (ok (exchanged.their_end, low_key), (q', v')))
    × (q ≡ [])
    × (q' ≡ heard)
    × (v ≡ frame [] ++ frame low_key)
    × (v' ≡ frame high_key)
roles_meet_example =
    roles_meet sockets-IsReliable exchanged (frame high_key) (frame [] ++ (frame low_key ++ heard))
      [] [] [] heard (is_open []) (is_open []) (sym (append-nil (frame high_key))) refl

abbrev taken_up : Connection sockets noise
taken_up = new_connection noise ([], frame [] ++ frame low_key) exchanged.my_end to_low

serve_initiator-ok_iff_example :
    ((serve_initiator noise answering
        (peer 5 high_key)
        low_key
        tt
        (allowed_peers peers_of_low)
        to_low
        []
        tt).0
      ≡ ok taken_up)
    ↔ ((stream : Bytes × Bytes) × ((retrying_connect answering 5 tt).0 ≡ ok stream)
        × Dialled noise peers_of_low
            (peer 5 high_key)
            (run_initiator sockets noise low_key tt stream)
            to_low
            []
            taken_up)
serve_initiator-ok_iff_example =
    serve_initiator-ok_iff noise peers_of_low answering (peer 5 high_key) low_key tt to_low [] tt
      taken_up

taken_up_runs :
    (serve_initiator noise answering
      (peer 5 high_key)
      low_key
      tt
      (allowed_peers peers_of_low)
      to_low
      []
      tt).0
    ≡ ok taken_up
unfolding serve_initiator retrying_connect run_initiator write_msg read_msg finish to_be_bytes
    from_be_bytes allowed_peers contains_key get insert drive_connection
taken_up_runs = refl

low_sends :
    (c : Connection sockets noise)
    → (serve_initiator noise answering
        (peer 5 high_key)
        low_key
        tt
        (allowed_peers peers_of_low)
        to_low
        tasks
        tt).0
      ≡ ok c
    → c.write_half ≡ frame [] ++ frame low_key ++ (heard ++ drop 18 next_frame)
unfolding serve_initiator retrying_connect run_initiator write_msg read_msg finish to_be_bytes
    from_be_bytes allowed_peers contains_key get insert drive_connection write_frame_bytes
    encrypt_frame read_frame_bytes
low_sends c h = cc

linked_example :
    (a : Connection sockets noise) × (b : Connection sockets noise) × (all : Begins noise
      (first_text ∷ next_text ∷ []))
    × ((serve_initiator noise answering
          (peer 5 high_key)
          low_key
          tt
          (allowed_peers peers_of_low)
          to_low
          tasks
          tt).0
        ≡ ok a)
    × (serve_responder noise
          (frame [] ++ (frame low_key ++ heard), [])
          high_key
          tt
          (allowed_peers peers_of_high)
          to_high
          (reader ∷ reader ∷ [])
        ≡ ok b)
    × (b.incoming.queue ≡ all.got)
unfolding retrying_connect
linked_example =
    linked sockets-IsReliable noise-IsLawfulNoise exchanged answering tt (peer 5 high_key)
      peers_of_low peers_of_high to_low to_high tasks (reader ∷ reader ∷ []) (frame high_key)
      (frame [] ++ (frame low_key ++ heard)) [] [] [] heard (drop 18 next_frame) 3 refl refl
      (inl refl) (inl refl) (is_open []) (is_open []) (sym (append-nil (frame high_key))) refl
      (in_step 3 0) (omega arith) low_sends
