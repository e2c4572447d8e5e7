-- ===== src/Net/Sending.antt =====
-- Single rounds of the writer of a connection, and what each adds to what a run sends.
use mathlib.Core.List.{append_assoc, append-nil}
use project_sapphire.Base.{
  ◌+◌, ◌≡◌, ◌≤◌, refl, sym, ap, subst, ◌∙◌, true, false, List, [], ◌∷◌, ◌++◌, Result, ok, err,
  length, arith,
}
use project_sapphire.Core.{Bytes}
use project_sapphire.Net.Sockets.{Sockets, IsReliable, IoError}
use project_sapphire.Net.Noise.{Noise, Passes}
use project_sapphire.Net.Codec.{max_payload, write_frame_bytes}
use project_sapphire.Net.Frames.{frame}
use project_sapphire.Net.Written.{write_frame_bytes-Written, write_frame_bytes-IsOpen}
use project_sapphire.Net.Wire.{Wire, empty, cut, next, Begins}
use project_sapphire.Net.Connection.{
  Connection, Received, payload, Task, writer, drive_connection, write_round, put, closed,
  write_next, round,
}
use project_sapphire.Net.Rounds.{finished}
use project_sapphire.Net.Sendable.{
  writer_rounds, sendable, encrypt_frame-ok, write_round_lem, sendable-payload,
}

module _ {S : Sockets} {N : Noise} (R : IsReliable S) where
  -- What a run of both tasks sends, as the end `b` will read it.
  pub record Sends (tasks : List Task) (c : Connection S N) (b : N.TransportState) : Type 0 where
    pub bytes : Bytes
    pub begins : Begins N (sendable c.outgoing)
    pub wire : Wire N b begins.got bytes
    pub sends : S.sent (drive_connection S N tasks c).write_half ≡ S.sent c.write_half ++ bytes
    pub complete :
        R.IsOpen c.write_half → length c.outgoing ≤ writer_rounds tasks → begins.missed ≡ []

  pub none_sent :
      (tasks : List Task) (c : Connection S N) (b : N.TransportState)
      → S.sent (drive_connection S N tasks c).write_half ≡ S.sent c.write_half
      → (length c.outgoing ≤ writer_rounds tasks → sendable c.outgoing ≡ [])
      → Sends tasks c b
  none_sent tasks c b h complete = record {
    bytes = [];
    begins = record { got = []; missed = sendable c.outgoing; split = refl };
    wire = empty;
    sends = h ∙ sym (append-nil (S.sent c.write_half));
    complete = λ _ few. complete few;
  }

  -- A round of the reader, or one that skips a payload: nothing is sent.
  pub skips :
      (task : Task) (tasks : List Task) (c c' : Connection S N) (b : N.TransportState)
      → round S N task c ≡ c'
      → c'.write_half ≡ c.write_half
      → sendable c'.outgoing ≡ sendable c.outgoing
      → (length c.outgoing ≤ writer_rounds (task ∷ tasks)
          → length c'.outgoing ≤ writer_rounds tasks)
      → Sends tasks c' b
      → Sends (task ∷ tasks) c b
  unfolding drive_connection
  skips task tasks c c' b e half same fewer s = record {
    bytes = s.bytes;
    begins = record { got = s.begins.got; missed = s.begins.missed; split = s.begins.split ∙ same };
    wire = s.wire;
    sends =
        ap (λ (k : Connection S N). S.sent (drive_connection S N tasks k).write_half) e
        ∙ s.sends
        ∙ ap (λ (w : S.WriteHalf). S.sent w ++ s.bytes) half;
    complete = λ o few. s.complete (subst R.IsOpen (sym half) o) (fewer few);
  }

  -- A payload goes out as a whole frame, and the next ones follow.
  one_frame :
      (tasks : List Task) (c c' : Connection S N) (b b' : N.TransportState) (ct p : Bytes)
      (outgoing : List Received)
      → write_round S N c ≡ c'
      → c.outgoing ≡ payload p ∷ outgoing
      → c'.outgoing ≡ outgoing
      → length p ≤ 65519
      → length ct ≤ max_payload + 16
      → N.decrypt ct (length ct) b ≡ (ok p, b')
      → S.sent c'.write_half ≡ S.sent c.write_half ++ frame ct
      → (R.IsOpen c.write_half → R.IsOpen c'.write_half)
      → Sends tasks c' b'
      → Sends (writer ∷ tasks) c b
  unfolding drive_connection
  one_frame tasks c c' b b' ct p outgoing e o o' fits small opens sent stays_open s = record {
    bytes = frame ct ++ s.bytes;
    begins = record {
      got = p ∷ s.begins.got;
      missed = s.begins.missed;
      split =
          ap (◌∷◌ p) s.begins.split
          ∙ (ap (λ (l : List Received). p ∷ sendable l) o'
              ∙ sym (sendable-payload p outgoing fits)
              ∙ ap sendable (sym o));
    };
    wire = next ct p opens small refl s.wire;
    sends =
        ap (λ (k : Connection S N). S.sent (drive_connection S N tasks k).write_half) e
        ∙ s.sends
        ∙ ap (λ (l : Bytes). l ++ s.bytes) sent
        ∙ append_assoc (S.sent c.write_half) (frame ct) s.bytes;
    complete =
        λ open_now few. s.complete (stays_open open_now) (omega (arith, ap length o, ap length o'));
  }

  sent_part :
      (tasks : List Task) (c c' : Connection S N) (part : Bytes)
      → write_round S N c ≡ c'
      → S.sent c'.write_half ≡ S.sent c.write_half ++ part
      → c'.writing ≡ false
      → S.sent (drive_connection S N (writer ∷ tasks) c).write_half ≡ S.sent c.write_half ++ part
  unfolding drive_connection
  sent_part tasks c c' part e sent ends =
      ap (λ (k : Connection S N). S.sent (drive_connection S N tasks k).write_half) e
      ∙ finished tasks c' _ (sent, ends)

  -- The write fails behind a part of the frame, which may be the whole of it.
  breaks_off :
      (tasks : List Task) (c c' : Connection S N) (b b' : N.TransportState) (ct p : Bytes)
      (outgoing : List Received) (lost part : Bytes)
      → write_round S N c ≡ c'
      → c.outgoing ≡ payload p ∷ outgoing
      → length p ≤ 65519
      → length ct ≤ max_payload + 16
      → N.decrypt ct (length ct) b ≡ (ok p, b')
      → part ++ lost ≡ frame ct
      → S.sent c'.write_half ≡ S.sent c.write_half ++ part
      → c'.writing ≡ false
      → ¬ R.IsOpen c.write_half
      → Sends (writer ∷ tasks) c b
  unfolding drive_connection
  breaks_off tasks c c' b b' ct p outgoing [] part e o fits small opens split sent ends shut =
      let all : part ≡ frame ct = sym (append-nil part) ∙ split in
      record {
        bytes = part;
        begins = record {
          got = p ∷ [];
          missed = sendable outgoing;
          split = sym (sendable-payload p outgoing fits) ∙ ap sendable (sym o);
        };
        wire = next ct p opens small (all ∙ sym (append-nil (frame ct))) empty;
        sends = sent_part tasks c c' part e sent ends;
        complete = λ open_now few. absurd (shut open_now);
      }
  breaks_off tasks c c' b b' ct p outgoing (x ∷ lost) part e o fits small opens split sent ends
        shut =
      record {
        bytes = part;
        begins = record { got = []; missed = sendable c.outgoing; split = refl };
        wire = cut ct part (x ∷ lost) split (λ n. cc) small;
        sends = sent_part tasks c c' part e sent ends;
        complete = λ open_now few. absurd (shut open_now);
      }

  -- A payload that fits a frame: it is encrypted, and the frame is written as far as that goes.
  pub writes_one :
      (tasks : List Task) (c : Connection S N) (b : N.TransportState) (p : Bytes)
      (outgoing : List Received)
      → c.writing ≡ true
      → c.outgoing ≡ payload p ∷ outgoing
      → length p ≤ 65519
      → (pass : Passes N c.transport b p)
      → ((c' : Connection S N)
          → c'.outgoing ≡ outgoing
          → c'.transport ≡ pass.sender
          → c'.writing ≡ true
          → Sends tasks c' pass.receiver)
      → Sends (writer ∷ tasks) c b
  unfolding closed put write_next
  writes_one tasks c b p outgoing w o fits pass rest =
      go (write_frame_bytes S pass.ciphertext c.write_half) refl
    where
      small : length pass.ciphertext ≤ max_payload + 16
      small = omega (arith, pass.tagged)

      step :
          (m : Result (Unit {0}) IoError × S.WriteHalf)
          → write_frame_bytes S pass.ciphertext c.write_half ≡ m
          → write_round S N c
            ≡ put S N (record c { outgoing = outgoing; transport = pass.sender }) m
      step m h =
          write_round_lem c (payload p ∷ outgoing) w o
          ∙ ap (closed S N (record c { outgoing = outgoing })) (
              encrypt_frame-ok N p pass.ciphertext c.transport pass.sender (ground arith)
                pass.encrypts)
          ∙ ap (put S N (record c { outgoing = outgoing; transport = pass.sender })) h

      still_open :
          (half : S.WriteHalf)
          → write_frame_bytes S pass.ciphertext c.write_half ≡ (ok tt, half)
          → R.IsOpen c.write_half
          → R.IsOpen half
      still_open half h open_now =
          let (w', written, after) =
            write_frame_bytes-IsOpen R pass.ciphertext c.write_half open_now in
          let same : w' ≡ half = cc in subst R.IsOpen same after

      go :
          (m : Result (Unit {0}) IoError × S.WriteHalf)
          → write_frame_bytes S pass.ciphertext c.write_half ≡ m
          → Sends (writer ∷ tasks) c b
      go (ok u, half) h =
          let (part, full) =
            write_frame_bytes-Written R pass.ciphertext c.write_half half (ok u) h in
          let all : part.part ≡ frame pass.ciphertext =
            sym (append-nil part.part) ∙ ap (◌++◌ part.part) (sym (full refl)) ∙ part.split in
          let c' = record c { outgoing = outgoing; transport = pass.sender; write_half = half } in
          one_frame tasks c c' b pass.receiver pass.ciphertext p outgoing (step (ok u, half) h) o
            refl fits small pass.decrypts
            (part.sends ∙ ap (λ (l : Bytes). S.sent c.write_half ++ l) all)
            (λ open_now. still_open half h open_now) (rest c' refl refl w)
      go (err e, half) h =
          let (part, _) = write_frame_bytes-Written R pass.ciphertext c.write_half half (err e) h in
          let c' = record c {
            outgoing = outgoing;
            transport = pass.sender;
            write_half = S.shutdown half;
            writing = false;
          } in
          breaks_off tasks c c' b pass.receiver pass.ciphertext p outgoing part.lost part.part
            (step (err e, half) h) o fits small pass.decrypts part.split
            (R.sent-shutdown half ∙ part.sends) refl
            (λ open_now.
              let (w', written, _) =
                write_frame_bytes-IsOpen R pass.ciphertext c.write_half open_now in
              absurd (cc))
