-- ===== src/Tests/NetExamples.antt =====
-- Frames that cross a connection of the sample streams, and the theorems at these runs.
use project_sapphire.Base.{
  ◌≡◌, ◌≤◌, refl, List, [], ◌∷◌, ◌++◌, length, true, take, drop, arith, list_ord, nat_ord,
}
use project_sapphire.Core.{Bytes}
use project_sapphire.Net.Codec.{
  to_be_bytes, from_be_bytes, read_frame_bytes, write_frame_bytes, encrypt_frame,
}
use project_sapphire.Net.Frames.{frame, read_frame_bytes-bounded}
use project_sapphire.Net.Connection.{
  Connection, Incoming, payload, lagged, Task, reader, writer, drive_connection,
}
use project_sapphire.Net.Wire.{Begins}
use project_sapphire.Net.Delivery.{delivered_in_order, delivered_all}
use project_sapphire.Tests.EscrowExamples.{zeros}
use project_sapphire.Tests.NetSamples.{
  sockets, sockets-IsReliable, noise, noise-IsLawfulNoise, in_step, is_open,
}

abbrev two_bytes : Bytes
two_bytes = 7 ∷ 8 ∷ []

read_frame_bytes-bounded_example : length two_bytes ≤ 65535
unfolding read_frame_bytes to_be_bytes from_be_bytes
read_frame_bytes-bounded_example =
    read_frame_bytes-bounded sockets-IsReliable (frame two_bytes ++ (9 ∷ [])) (9 ∷ []) two_bytes
      refl

abbrev pub first_text : Bytes
first_text = 1 ∷ 2 ∷ []

abbrev pub next_text : Bytes
next_text = 4 ∷ []

-- What the sample cipher makes of the two texts.
abbrev pub first_frame : Bytes
first_frame = frame ((0 ∷ zeros 15) ++ first_text)

abbrev pub next_frame : Bytes
next_frame = frame ((1 ∷ zeros 15) ++ next_text)

abbrev pub idle_channel : Incoming
idle_channel = record { queue = []; stays = 5 }

abbrev pub sending : Connection sockets noise
sending = record {
  read_half = [];
  write_half = [];
  transport = record { out = 0; inward = 0 };
  incoming = idle_channel;
  outgoing = payload first_text ∷ lagged 3 ∷ payload next_text ∷ [];
  reading = true;
  writing = true;
}

abbrev hearing : Bytes → Connection sockets noise
hearing bytes = record sending { read_half = bytes; outgoing = payload next_text ∷ [] }

abbrev pub tasks : List Task
tasks = writer ∷ reader ∷ writer ∷ writer ∷ []

delivered_all_example :
    (drive_connection sockets noise
      (reader ∷ writer ∷ reader ∷ [])
      (hearing (first_frame ++ next_frame))).incoming.queue
    ≡ first_text ∷ next_text ∷ []
unfolding drive_connection write_frame_bytes encrypt_frame to_be_bytes read_frame_bytes
    from_be_bytes
delivered_all_example =
    delivered_all sockets-IsReliable tasks (reader ∷ writer ∷ reader ∷ []) sending
      (hearing (first_frame ++ next_frame)) 3 noise-IsLawfulNoise (in_step 3 0) (omega arith) refl
      refl refl (is_open []) (omega arith) (omega arith) (omega arith)

-- The last three bytes are lost.
delivered_in_order_example :
    (all : Begins noise (first_text ∷ next_text ∷ [])) × ((drive_connection sockets noise
        (reader ∷ reader ∷ [])
        (hearing (first_frame ++ take 18 next_frame))).incoming.queue
      ≡ all.got)
unfolding drive_connection write_frame_bytes encrypt_frame to_be_bytes read_frame_bytes
    from_be_bytes
delivered_in_order_example =
    delivered_in_order sockets-IsReliable tasks (reader ∷ reader ∷ []) sending
      (hearing (first_frame ++ take 18 next_frame)) 3 (drop 18 next_frame) noise-IsLawfulNoise
      (in_step 3 0) (omega arith) refl refl refl
