-- ===== src/Net/Sender.antt =====
-- What the writer of a connection puts on the wire, whatever the reader does between its rounds.
use project_sapphire.Base.{
  ℕ, zero, suc, ◌≡◌, ◌≤◌, refl, sym, ap, subst, ◌∙◌, Bool, true, false, List, [], ◌∷◌, length,
  arith, ltb, Bool-cases, inl, inr,
}
use project_sapphire.Net.Sockets.{Sockets, IsReliable}
use project_sapphire.Net.Noise.{Noise, IsLawfulNoise}
use project_sapphire.Net.Codec.{max_payload}
use project_sapphire.Net.Connection.{
  Connection, Received, payload, lagged, Task, reader, writer, drive_connection, read_round, closed,
  write_next,
}
use project_sapphire.Net.Rounds.{read_round_keeps, finished}
use project_sapphire.Net.Sendable.{
  writer_rounds, sendable, encrypt_frame-too_long, write_round_lem, sendable-too_long, sendable-nil,
}
use project_sapphire.Net.Sending.{Sends, none_sent, skips, writes_one}

module _ {S : Sockets} {N : Noise} (R : IsReliable S) where
  -- The payloads that fit are sent in order, each as a frame that the other end can open, up to where
  -- the rounds end or a write fails, whatever the reader does meanwhile.
  pub sends_lem :
      (tasks : List Task) (c : Connection S N) (k : ℕ) (b : N.TransportState)
      (outgoing : List Received)
      → (L : IsLawfulNoise N) → L.Paired k c.transport b
      → length outgoing ≤ k
      → c.outgoing ≡ outgoing
      → c.writing ≡ true
      → Sends R tasks c b
  unfolding drive_connection write_next closed
  sends_lem [] c k b outgoing L paired short o w = none_sent R [] c b refl (sendable-nil c.outgoing)
  sends_lem (reader ∷ tasks) c k b outgoing L paired short o w =
      let P : N.TransportState → S.WriteHalf → List Received → Bool → Type 0 =
        λ t half l v. L.Paired k t b × (half ≡ c.write_half) × (l ≡ c.outgoing) × (v ≡ true) in
      let (paired', half, same, w') =
        read_round_keeps P
          (λ ct space t half l v h. (L.decrypt-Paired k t b ct space h.0, h.1, h.2, h.3)) c
          (paired, refl, refl, w) in
      skips R reader tasks c (read_round S N c) b refl half (ap sendable same)
        (λ few. subst (λ l. length l ≤ writer_rounds tasks) (sym same) few)
        (sends_lem tasks (read_round S N c) k b outgoing L paired' short (same ∙ o) w')
  sends_lem (writer ∷ tasks) c k b [] L paired short o w =
      none_sent R (writer ∷ tasks) c b
        (ap (λ (k : Connection S N). S.sent (drive_connection S N tasks k).write_half)
            (write_round_lem c [] w o)
          ∙ finished tasks (record c { writing = false }) _ (refl, refl))
        (λ few. ap sendable o)
  sends_lem (writer ∷ tasks) c k b (lagged n ∷ outgoing) L paired short o w =
      skips R writer tasks c (record c { outgoing = outgoing }) b (write_round_lem c _ w o) refl
        (ap sendable (sym o)) (λ few. omega (arith, ap length o))
        (sends_lem tasks (record c { outgoing = outgoing }) k b outgoing L paired (omega arith) refl
          w)
  sends_lem (writer ∷ tasks) c zero b (payload p ∷ outgoing) L paired short o w =
      absurd (omega arith)
  sends_lem (writer ∷ tasks) c (suc k) b (payload p ∷ outgoing) L paired short o w =
      elim (Bool-cases (ltb max_payload (length p))) [
        | inl long ↦
            skips R writer tasks c (record c { outgoing = outgoing }) b
              (write_round_lem c _ w o
                ∙ ap (closed S N (record c { outgoing = outgoing }))
                    (encrypt_frame-too_long N p c.transport long))
              refl (sym (sendable-too_long p outgoing (ground arith)) ∙ ap sendable (sym o))
              (λ few. omega (arith, ap length o))
              (sends_lem tasks (record c { outgoing = outgoing }) (suc k) b outgoing L paired
                (omega arith) refl w)
        | inr fits ↦
            let (pass, paired') = L.pass k c.transport b p paired (ground arith) in
            writes_one R tasks c b p outgoing w o (ground arith) pass (λ c' o' t' w'.
              sends_lem tasks c' k pass.receiver outgoing L
                (subst (λ t. L.Paired k t pass.receiver) (sym t') paired') (omega arith) o' w')
      ]
