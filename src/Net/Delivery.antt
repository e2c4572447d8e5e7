-- ===== src/Net/Delivery.antt =====
-- Two ends of a connection: what one side broadcasts, and what the other side's reader hands on. The
-- tasks of each side take their rounds in any order.
use mathlib.Core.List.{append_assoc, append-nil}
use project_sapphire.Base.{
  ℕ, ◌≡◌, ◌≤◌, refl, sym, ap, subst, ◌∙◌, true, List, [], ◌∷◌, ◌++◌, length,
}
use project_sapphire.Core.{Bytes}
use project_sapphire.Net.Sockets.{Sockets, IsReliable}
use project_sapphire.Net.Noise.{Noise, IsLawfulNoise}
use project_sapphire.Net.Wire.{Wire-prefix, Begins}
use project_sapphire.Net.Connection.{Connection, Task, drive_connection}
use project_sapphire.Net.Receiver.{reader_rounds, receives}
use project_sapphire.Net.Sendable.{writer_rounds, sendable}
use project_sapphire.Net.Sender.{sends_lem}

append-cancel : (xs ys zs : Bytes) → xs ++ ys ≡ xs ++ zs → ys ≡ zs
append-cancel [] ys zs e = e
append-cancel (x ∷ xs) ys zs e = append-cancel xs ys zs (cc)

nothing_left : (xs ys zs : List Bytes) → xs ++ ys ≡ zs → ys ≡ [] → xs ≡ zs
nothing_left xs ys zs e n = sym (append-nil xs) ∙ ap (◌++◌ xs) (sym n) ∙ e

module _ {S : Sockets} {N : Noise} (R : IsReliable S) where
  -- What arrives of the texts that were sent, and when that is all.
  Arrives : (mine theirs : List Task) (a b : Connection S N) (lost : Bytes) → Type 0
  Arrives mine theirs a b lost =
      (all : Begins N (sendable a.outgoing)) × ((drive_connection S N theirs b).incoming.queue
        ≡ b.incoming.queue ++ all.got)
      × (R.IsOpen a.write_half
          → lost ≡ []
          → length a.outgoing ≤ writer_rounds mine
          → length (sendable a.outgoing) ≤ reader_rounds theirs
          → length (sendable a.outgoing) ≤ b.incoming.stays
          → all.missed ≡ [])

  arrives :
      (mine theirs : List Task) (a b : Connection S N) (k : ℕ) (lost : Bytes)
      → (L : IsLawfulNoise N) → L.Paired k a.transport b.transport
      → length a.outgoing ≤ k
      → a.writing ≡ true
      → b.reading ≡ true
      → S.sent (drive_connection S N mine a).write_half
        ≡ S.sent a.write_half ++ (S.arriving b.read_half ++ lost)
      → Arrives mine theirs a b lost
  unfolding Arrives
  arrives mine theirs a b k lost L paired short w r wire =
      let s = sends_lem R mine a k b.transport a.outgoing L paired short refl w in
      let same : s.bytes ≡ S.arriving b.read_half ++ lost =
        append-cancel (S.sent a.write_half) s.bytes _ (sym s.sends ∙ wire) in
      let (some_texts, wire', full) = Wire-prefix N (S.arriving b.read_half) lost s.wire same in
      let d = receives theirs b R L wire' refl refl r in
      (
        record {
          got = d.got;
          missed = d.missed ++ (some_texts.missed ++ s.begins.missed);
          split =
              sym (append_assoc d.got d.missed (some_texts.missed ++ s.begins.missed))
              ∙ ap (λ (l : List Bytes). l ++ (some_texts.missed ++ s.begins.missed)) d.split
              ∙ sym (append_assoc some_texts.got some_texts.missed s.begins.missed)
              ∙ ap (λ (l : List Bytes). l ++ s.begins.missed) some_texts.split
              ∙ s.begins.split;
        },
        d.queue,
        λ open_now none_lost rounds theirs_rounds room.
            let none_unsent = s.complete open_now rounds in
            let none_cut = full none_lost in
            let whole : some_texts.got ≡ sendable a.outgoing =
              nothing_left _ _ _ some_texts.split none_cut
              ∙ nothing_left _ _ _ s.begins.split none_unsent in
            let heard : d.missed ≡ [] =
              d.complete (subst (λ l. length l ≤ b.incoming.stays) (sym whole) room)
                (subst (λ l. length l ≤ reader_rounds theirs) (sym whole) theirs_rounds) in
            rw heard (rw none_cut none_unsent),
      )

  -- Let `a` and `b` be the ends of an authenticated connection in step for as many messages as `a`
  -- has to send, both in their loops, and let what still arrives at `b` be what `a` sends, up to a
  -- tail that may be lost. In whatever orders the two ends run their tasks, `b` hands on the payloads
  -- of at most 65519 bytes that `a` was given to send, in that order, whole and without gaps, up to
  -- one after which it hands on nothing.
  pub delivered_in_order :
      (mine theirs : List Task) (a b : Connection S N) (k : ℕ) (lost : Bytes)
      → (L : IsLawfulNoise N) → L.Paired k a.transport b.transport
      → length a.outgoing ≤ k
      → a.writing ≡ true
      → b.reading ≡ true
      → S.sent (drive_connection S N mine a).write_half
        ≡ S.sent a.write_half ++ (S.arriving b.read_half ++ lost)
      → (all : Begins N (sendable a.outgoing)) × ((drive_connection S N theirs b).incoming.queue
          ≡ b.incoming.queue ++ all.got)
  unfolding Arrives
  delivered_in_order mine theirs a b k lost L paired short w r wire =
      let (all, queue, _) = arrives mine theirs a b k lost L paired short w r wire in (all, queue)

  -- If moreover the connection stays open to `a`, nothing is lost on the way, each end gives its task
  -- a round for each message, and the receiver of `b`'s payloads stays for all of them, then `b` hands
  -- on every payload of at most 65519 bytes that `a` was given to send.
  pub delivered_all :
      (mine theirs : List Task) (a b : Connection S N) (k : ℕ)
      → (L : IsLawfulNoise N) → L.Paired k a.transport b.transport
      → length a.outgoing ≤ k
      → a.writing ≡ true
      → b.reading ≡ true
      → S.sent (drive_connection S N mine a).write_half
        ≡ S.sent a.write_half ++ S.arriving b.read_half
      → R.IsOpen a.write_half
      → length a.outgoing ≤ writer_rounds mine
      → length (sendable a.outgoing) ≤ reader_rounds theirs
      → length (sendable a.outgoing) ≤ b.incoming.stays
      → (drive_connection S N theirs b).incoming.queue ≡ b.incoming.queue ++ sendable a.outgoing
  unfolding Arrives
  delivered_all mine theirs a b k L paired short w r wire open_now rounds their_rounds room =
      let (all, queue, complete) =
        arrives mine theirs a b k [] L paired short w r
          (wire ∙ ap (◌++◌ (S.sent a.write_half)) (sym (append-nil (S.arriving b.read_half)))) in
      queue
      ∙ ap (◌++◌ b.incoming.queue)
          (nothing_left _ _ _ all.split (complete open_now refl rounds their_rounds room))
