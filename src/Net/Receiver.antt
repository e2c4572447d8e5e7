-- ===== src/Net/Receiver.antt =====
-- What the reader of a connection hands on, whatever the writer does between its rounds.
use project_sapphire.Base.{
  ℕ, suc, ◌≡◌, ◌≤◌, refl, sym, ap, subst, ◌∙◌, Bool, true, false, List, [], ◌∷◌, ◌++◌, Result, ok,
  err, length, inl, inr, arith,
}
use mathlib.Core.List.{append_assoc, append-nil}
use project_sapphire.Core.{Bytes}
use project_sapphire.Net.Sockets.{Sockets, IsReliable, IoError}
use project_sapphire.Net.Noise.{Noise, IsLawfulNoise}
use project_sapphire.Net.Codec.{decrypt_frame, read_frame_bytes}
use project_sapphire.Net.Frames.{
  read_frame_bytes-frame, read_frame_bytes-short, read_frame_bytes-empty,
}
use project_sapphire.Net.Wire.{Wire, empty, cut, next, encrypt-Wire}
use project_sapphire.Net.Connection.{
  Connection, Incoming, Task, reader, writer, drive_connection, read_round, write_round, send,
  arrived, opened, hand_on,
}
use project_sapphire.Net.Rounds.{
  write_round_keeps, idle, send-cases, nil_of_length, decrypt_frame-ok,
}

abbrev pub reader_rounds : List Task → ℕ
reader_rounds [] = 0
reader_rounds (reader ∷ tasks) = suc (reader_rounds tasks)
reader_rounds (writer ∷ tasks) = reader_rounds tasks

module _ {S : Sockets} {N : Noise} where
  -- What a run of both tasks hands on of the texts that are on the wire.
  pub record Delivers (tasks : List Task) (c : Connection S N) (texts : List Bytes) : Type 0 where
    pub got : List Bytes
    pub missed : List Bytes
    pub split : got ++ missed ≡ texts
    pub queue : (drive_connection S N tasks c).incoming.queue ≡ c.incoming.queue ++ got
    pub complete :
        length texts ≤ c.incoming.stays → length texts ≤ reader_rounds tasks → missed ≡ []

  read_round_lem :
      (c : Connection S N)
      → c.reading ≡ true
      → read_round S N c ≡ arrived S N c (read_frame_bytes S c.read_half)
  unfolding read_round
  read_round_lem c h = rw h refl

  -- A round in which the reader leaves its loop.
  arrived-fails :
      (c : Connection S N) (m : Result Bytes IoError × S.ReadHalf) {e : IoError}
      → m.0 ≡ err e
      → ((arrived S N c m).incoming ≡ c.incoming) × ((arrived S N c m).reading ≡ false)
  unfolding arrived
  arrived-fails c (err e, half) h = (refl, refl)
  arrived-fails c (ok ct, half) h = absurd (cc)

  arrived-ok :
      (c : Connection S N) (ct text : Bytes) (half : S.ReadHalf) (t : N.TransportState)
      → decrypt_frame N ct c.transport ≡ (ok text, t)
      → arrived S N c (ok ct, half)
        ≡ hand_on S N (record c { read_half = half; transport = t }) (send text c.incoming)
  unfolding arrived opened
  arrived-ok c ct text half t h = ap (opened S N (record c { read_half = half })) h

  nothing :
      (tasks : List Task) (c : Connection S N) (texts : List Bytes)
      → (drive_connection S N tasks c).incoming ≡ c.incoming
      → (length texts ≤ c.incoming.stays → length texts ≤ reader_rounds tasks → texts ≡ [])
      → Delivers tasks c texts
  nothing tasks c texts h complete = record {
    got = [];
    missed = texts;
    split = refl;
    queue = ap (λ (i : Incoming). i.queue) h ∙ sym (append-nil c.incoming.queue);
    complete = complete;
  }

  -- The reader meets an error, with nothing whole on the wire.
  breaks :
      (tasks : List Task) (c : Connection S N)
      → c.reading ≡ true
      → (e : IoError) → (read_frame_bytes S c.read_half).0 ≡ err e
      → Delivers (reader ∷ tasks) c []
  unfolding drive_connection
  breaks tasks c r e h =
      let fell = arrived-fails c (read_frame_bytes S c.read_half) h in
      nothing (reader ∷ tasks) c []
        (ap (λ (c' : Connection S N). (drive_connection S N tasks c').incoming) (read_round_lem c r)
          ∙ idle tasks (arrived S N c (read_frame_bytes S c.read_half)) c.incoming fell)
        (λ _ _. refl)

  -- A writer's round between those of the reader.
  after_writer :
      (tasks : List Task) (c : Connection S N) (texts : List Bytes)
      → (write_round S N c).incoming ≡ c.incoming
      → Delivers tasks (write_round S N c) texts
      → Delivers (writer ∷ tasks) c texts
  unfolding drive_connection
  after_writer tasks c texts same d = record {
    got = d.got;
    missed = d.missed;
    split = d.split;
    queue = d.queue ∙ ap (λ (i : Incoming). i.queue ++ d.got) same;
    complete = λ room few. d.complete (subst (λ i. length texts ≤ i.stays) (sym same) room) few;
  }

  -- The first text is handed on.
  one_more :
      (tasks : List Task) (c c' : Connection S N) (text : Bytes) (texts : List Bytes)
      → read_round S N c ≡ c'
      → c.incoming.stays ≡ suc c'.incoming.stays
      → c'.incoming.queue ≡ c.incoming.queue ++ (text ∷ [])
      → Delivers tasks c' texts
      → Delivers (reader ∷ tasks) c (text ∷ texts)
  unfolding drive_connection
  one_more tasks c c' text texts e stays queue d = record {
    got = text ∷ d.got;
    missed = d.missed;
    split = ap (◌∷◌ text) d.split;
    queue =
        ap (λ (k : Connection S N). (drive_connection S N tasks k).incoming.queue) e
        ∙ d.queue
        ∙ ap (λ (q : List Bytes). q ++ d.got) queue
        ∙ append_assoc c.incoming.queue (text ∷ []) d.got;
    complete = λ room few. d.complete (omega arith) (omega arith);
  }

  -- The receiver has gone.
  gone :
      (tasks : List Task) (c : Connection S N) (text : Bytes) (texts : List Bytes)
      → (c' : Connection S N) → read_round S N c ≡ c'
      → (c'.incoming ≡ c.incoming) × (c'.reading ≡ false)
      → c.incoming.stays ≡ 0
      → Delivers (reader ∷ tasks) c (text ∷ texts)
  unfolding drive_connection
  gone tasks c text texts c' e fell none_left =
      nothing (reader ∷ tasks) c (text ∷ texts)
        (ap (λ (k : Connection S N). (drive_connection S N tasks k).incoming) e
          ∙ idle tasks c' c.incoming fell)
        (λ room few. absurd (omega arith))

  -- The texts on the wire are handed on in order, up to where the rounds, the wire or the receiver
  -- end, whatever the writer does meanwhile.
  pub receives :
      (tasks : List Task) (c : Connection S N) {t : N.TransportState} {texts : List Bytes}
      {all : Bytes}
      → IsReliable S
      → IsLawfulNoise N
      → Wire N t texts all
      → c.transport ≡ t
      → S.arriving c.read_half ≡ all
      → c.reading ≡ true
      → Delivers tasks c texts
  unfolding drive_connection
  receives [] c {texts = texts} R L w et ea r =
      nothing [] c texts refl (λ room few. nil_of_length texts few)
  receives (writer ∷ tasks) c {t = t0} {texts = texts} R L w et ea r =
      let P : N.TransportState → S.ReadHalf → Incoming → Bool → Type 0 =
        λ t half i b. Wire N t texts (S.arriving half) × (i ≡ c.incoming) × (b ≡ true) in
      let here : Wire N c.transport texts (S.arriving c.read_half) =
        subst (λ t'. Wire N t' texts (S.arriving c.read_half)) (sym et)
          (subst (λ bytes. Wire N t0 texts bytes) (sym ea) w) in
      let kept =
        write_round_keeps P (λ text space t half i b h. (encrypt-Wire N L text space h.0, h.1, h.2))
          c (here, refl, r) in
      after_writer tasks c texts kept.1
        (receives tasks (write_round S N c) R L kept.0 refl refl kept.2)
  receives (reader ∷ tasks) c R L empty et ea r =
      let (e, failed) = read_frame_bytes-empty R c.read_half ea in breaks tasks c r e failed
  receives (reader ∷ tasks) c R L (cut ct part lost s some_lost small) et ea r =
      let (e, failed) = read_frame_bytes-short R ct part lost c.read_half ea s some_lost small in
      breaks tasks c r e failed
  receives (reader ∷ tasks) c R L
        (next {t' = t'} ct text {texts = texts} {rest = rest} opens small ea' w) et ea r =
      let (half, reads, leaves) = read_frame_bytes-frame R ct rest c.read_half (ea ∙ ea') small in
      let decrypts : decrypt_frame N ct c.transport ≡ (ok text, t') =
        decrypt_frame-ok N ct (ap (N.decrypt ct (length ct)) et ∙ opens) in
      let step =
        read_round_lem c r ∙ ap (arrived S N c) reads ∙ arrived-ok c ct text half t' decrypts in
      let c1 = record c { read_half = half; transport = t' } in
      elim (send-cases text c.incoming) [
        | inl (none_left, refused) ↦
            gone tasks c text texts (record c1 { reading = false })
              (step ∙ ap (hand_on S N c1) refused) (refl, refl) none_left
        | inr (i, stays, queue, taken) ↦
            let c' = record c1 { incoming = i } in
            one_more tasks c c' text texts (step ∙ ap (hand_on S N c1) taken) stays queue
              (receives tasks c' R L w refl leaves r)
      ]
