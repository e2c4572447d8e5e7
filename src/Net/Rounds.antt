-- ===== src/Net/Rounds.antt =====
-- Single rounds of a connection: what the writer leaves to the reader, a reader that has left its
-- loop, and the channel behind the reader.
use project_sapphire.Base.{
  ℕ, zero, suc, ◌+◌, ◌≡◌, ◌≤◌, refl, ap, Bool, false, Option, none, some, List, [], ◌∷◌, ◌++◌,
  Result, ok, err, length, ltb, if_elim, ◌⊎◌, inl, inr, arith,
}
use project_sapphire.Core.{Bytes}
use project_sapphire.Net.Sockets.{Sockets, IoError, invalid_data}
use project_sapphire.Net.Noise.{Noise}
use project_sapphire.Net.Codec.{with_kind, max_payload, encrypt_frame, decrypt_frame}
use project_sapphire.Net.Connection.{
  Connection, Incoming, Received, Task, reader, writer, drive_connection, read_round, write_round,
  put, closed, write_next, send, send_within, payload, lagged, hand_on, opened, arrived,
}

-- What a round of the writer preserves: any property of the parts that the reader uses, where it
-- does not depend on the direction in which the writer moves the transport.
module _ {S : Sockets} {N : Noise} (P : N.TransportState → S.ReadHalf → Incoming → Bool → Type 0)
    (moves : (text : Bytes) (space : ℕ) (t : N.TransportState) (half : S.ReadHalf)
        (incoming : Incoming) (reading : Bool)
      → P t half incoming reading
      → P (N.encrypt text space t).1 half incoming reading) where
  abbrev At : Connection S N → Type 0
  At c = P c.transport c.read_half c.incoming c.reading

  put_keeps :
      (c : Connection S N) (m : Result (Unit {0}) IoError × S.WriteHalf) → At c → At (put S N c m)
  unfolding put
  put_keeps c (err e, half) h = h
  put_keeps c (ok _, half) h = h

  closed_keeps :
      (c : Connection S N) (m : Result Bytes IoError × N.TransportState)
      → At (record c { transport = m.1 })
      → At (closed S N c m)
  unfolding closed
  closed_keeps c (err e, t) h = h
  closed_keeps c (ok ct, t) h = put_keeps (record c { transport = t }) _ h

  write_next_keeps :
      (c : Connection S N) (outgoing : List Received) → At c → At (write_next S N c outgoing)
  unfolding write_next encrypt_frame
  write_next_keeps c [] h = h
  write_next_keeps c (lagged n ∷ outgoing) h = h
  write_next_keeps c (payload p ∷ outgoing) h =
      closed_keeps (record c { outgoing = outgoing }) (encrypt_frame N p c.transport)
        (if_elim
          (λ (m : Result Bytes IoError × N.TransportState). P m.1 c.read_half c.incoming c.reading)
          (ltb max_payload (length p)) (λ e. h) (λ e. moves p (length p + 16) _ _ _ _ h))

  pub write_round_keeps : (c : Connection S N) → At c → At (write_round S N c)
  unfolding write_round
  write_round_keeps c h = if_elim At c.writing (λ e. write_next_keeps c c.outgoing h) (λ e. h)

module _ {S : Sockets} {N : Noise} where
  -- A reader that has left its loop hands nothing on any more.
  pub idle :
      (tasks : List Task) (c : Connection S N) (incoming : Incoming)
      → (c.incoming ≡ incoming) × (c.reading ≡ false)
      → (drive_connection S N tasks c).incoming ≡ incoming
  unfolding drive_connection read_round
  idle [] c incoming h = h.0
  idle (reader ∷ tasks) c incoming h =
      if_elim (λ (c' : Connection S N). (drive_connection S N tasks c').incoming ≡ incoming)
        c.reading (λ e. absurd (cc)) (λ e. idle tasks c incoming h)
  idle (writer ∷ tasks) c incoming h = idle tasks (write_round S N c) incoming (
      write_round_keeps (λ t half i r. (i ≡ incoming) × (r ≡ false)) (λ text space t half i r h. h)
        c h)

pub nil_of_length : (texts : List Bytes) → length texts ≤ 0 → texts ≡ []
nil_of_length [] h = refl
nil_of_length (text ∷ texts) h = absurd (omega arith)

pub send-cases :
    (text : Bytes) (incoming : Incoming)
    → ((incoming.stays ≡ 0) × (send text incoming ≡ none))
      ⊎ ((i : Incoming) × (incoming.stays ≡ suc i.stays)
          × (i.queue ≡ incoming.queue ++ (text ∷ []))
          × (send text incoming ≡ some i))
send-cases text incoming = go incoming.stays refl
  where
    go :
        (n : ℕ)
        → incoming.stays ≡ n
        → ((incoming.stays ≡ 0) × (send_within incoming.stays text incoming.queue ≡ none))
          ⊎ ((i : Incoming) × (incoming.stays ≡ suc i.stays)
              × (i.queue ≡ incoming.queue ++ (text ∷ []))
              × (send_within incoming.stays text incoming.queue ≡ some i))
    go zero e = inl (e, rw e refl)
    go (suc n) e =
        inr (record { queue = incoming.queue ++ (text ∷ []); stays = n }, e, refl, rw e refl)

pub decrypt_frame-ok :
    (N : Noise) {t t' : N.TransportState} (ct : Bytes) {text : Bytes}
    → N.decrypt ct (length ct) t ≡ (ok text, t')
    → decrypt_frame N ct t ≡ (ok text, t')
unfolding decrypt_frame
decrypt_frame-ok N ct h = ap (with_kind invalid_data) h

-- The same of a round of the reader.
module _ {S : Sockets} {N : Noise}
    (P : N.TransportState → S.WriteHalf → List Received → Bool → Type 0)
    (moves : (ct : Bytes) (space : ℕ) (t : N.TransportState) (half : S.WriteHalf)
        (outgoing : List Received) (writing : Bool)
      → P t half outgoing writing
      → P (N.decrypt ct space t).1 half outgoing writing) where
  abbrev Holds : Connection S N → Type 0
  Holds c = P c.transport c.write_half c.outgoing c.writing

  hand_on_keeps : (c : Connection S N) (m : Option Incoming) → Holds c → Holds (hand_on S N c m)
  unfolding hand_on
  hand_on_keeps c none h = h
  hand_on_keeps c (some incoming) h = h

  opened_keeps :
      (c : Connection S N) (m : Result Bytes IoError × N.TransportState)
      → Holds (record c { transport = m.1 })
      → Holds (opened S N c m)
  unfolding opened
  opened_keeps c (err e, t) h = h
  opened_keeps c (ok pt, t) h = hand_on_keeps (record c { transport = t }) (send pt c.incoming) h

  arrived_keeps :
      (c : Connection S N) (m : Result Bytes IoError × S.ReadHalf)
      → Holds c
      → Holds (arrived S N c m)
  unfolding arrived decrypt_frame
  arrived_keeps c (err e, half) h = h
  arrived_keeps c (ok ct, half) h =
      opened_keeps (record c { read_half = half }) (decrypt_frame N ct c.transport)
        (moves ct (length ct) c.transport c.write_half c.outgoing c.writing h)

  pub read_round_keeps : (c : Connection S N) → Holds c → Holds (read_round S N c)
  unfolding read_round
  read_round_keeps c h = if_elim Holds c.reading (λ e. arrived_keeps c _ h) (λ e. h)

module _ {S : Sockets} {N : Noise} where
  -- A writer that has left its loop sends nothing any more.
  pub finished :
      (tasks : List Task) (c : Connection S N) (bytes : Bytes)
      → (S.sent c.write_half ≡ bytes) × (c.writing ≡ false)
      → S.sent (drive_connection S N tasks c).write_half ≡ bytes
  unfolding drive_connection write_round
  finished [] c bytes h = h.0
  finished (writer ∷ tasks) c bytes h =
      if_elim (λ (c' : Connection S N). S.sent (drive_connection S N tasks c').write_half ≡ bytes)
        c.writing (λ e. absurd (cc)) (λ e. finished tasks c bytes h)
  finished (reader ∷ tasks) c bytes h = finished tasks (read_round S N c) bytes (
      read_round_keeps (λ t half o w. (S.sent half ≡ bytes) × (w ≡ false))
        (λ ct space t half o w h. h) c h)
