-- ===== src/Net/Sendable.antt =====
-- Which payloads the writer of a connection can send, and how its rounds begin.
use project_sapphire.Base.{
  ℕ, suc, ◌+◌, ◌≡◌, ◌≤◌, refl, ap, true, false, List, [], ◌∷◌, ok, err, length, arith, leb, ltb,
  if◌then◌else◌, if_elim, ◌<◌,
}
use project_sapphire.Core.{Bytes}
use project_sapphire.Net.Sockets.{Sockets, invalid_input, other}
use project_sapphire.Net.Noise.{Noise}
use project_sapphire.Net.Codec.{max_payload, encrypt_frame, with_kind}
use project_sapphire.Net.Connection.{
  Connection, Received, payload, lagged, Task, reader, writer, write_round, write_next,
}

abbrev pub writer_rounds : List Task → ℕ
writer_rounds [] = 0
writer_rounds (reader ∷ tasks) = writer_rounds tasks
writer_rounds (writer ∷ tasks) = suc (writer_rounds tasks)

-- The payloads that fit a frame.
abbrev pub sendable : List Received → List Bytes
sendable [] = []
sendable (lagged n ∷ outgoing) = sendable outgoing
sendable (payload p ∷ outgoing) =
    let rest = sendable outgoing in if leb (length p) 65519 then p ∷ rest else rest

module _ (N : Noise) where
  pub encrypt_frame-too_long :
      (p : Bytes) (t : N.TransportState)
      → ltb max_payload (length p) ≡ true
      → encrypt_frame N p t ≡ (err invalid_input, t)
  unfolding encrypt_frame
  encrypt_frame-too_long p t h = rw h refl

  pub encrypt_frame-ok :
      (p ct : Bytes) (t t' : N.TransportState)
      → ltb max_payload (length p) ≡ false
      → N.encrypt p (length p + 16) t ≡ (ok ct, t')
      → encrypt_frame N p t ≡ (ok ct, t')
  unfolding encrypt_frame
  encrypt_frame-ok p ct t t' h e = rw h (ap (with_kind other) e)

pub write_round_lem :
    {S : Sockets} {N : Noise} (c : Connection S N) (outgoing : List Received)
    → c.writing ≡ true
    → c.outgoing ≡ outgoing
    → write_round S N c ≡ write_next S N c outgoing
unfolding write_round
write_round_lem {S} {N} c outgoing w o =
    if_elim (λ (c' : Connection S N). c' ≡ write_next S N c outgoing) c.writing
      (λ e. ap (write_next S N c) o) (λ e. absurd (cc))

pub sendable-payload :
    (p : Bytes) (outgoing : List Received)
    → length p ≤ 65519
    → sendable (payload p ∷ outgoing) ≡ p ∷ sendable outgoing
sendable-payload p outgoing h = ground arith

pub sendable-too_long :
    (p : Bytes) (outgoing : List Received)
    → 65519 < length p
    → sendable (payload p ∷ outgoing) ≡ sendable outgoing
sendable-too_long p outgoing h = ground arith

pub sendable-nil : (outgoing : List Received) → length outgoing ≤ 0 → sendable outgoing ≡ []
sendable-nil [] h = refl
sendable-nil (r ∷ outgoing) h = absurd (omega arith)
