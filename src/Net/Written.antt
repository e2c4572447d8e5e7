-- ===== src/Net/Written.antt =====
-- What `write_frame_bytes` puts on the wire, also where it ends early.
use project_sapphire.Base.{◌≡◌, refl, sym, ap, subst, ◌∙◌, [], ◌++◌, Result, ok, err, length}
use project_sapphire.Core.{Bytes}
use project_sapphire.Net.Sockets.{Sockets, IsReliable, Writes, continue, IoError}
use project_sapphire.Net.Codec.{to_be_bytes, write_frame_bytes}
use project_sapphire.Net.Frames.{frame}
use mathlib.Core.List.{append_assoc, append-nil}

module _ {S : Sockets} (R : IsReliable S) where
  open S use {sent}

  -- A write that ends with this result: the whole is sent where it is no error.
  abbrev pub Written : S.WriteHalf → S.WriteHalf → Bytes → Result (Unit {0}) IoError → Type 0
  Written w w' bs result = (p : Writes S w w' bs) × (result ≡ ok tt → p.lost ≡ [])

  whole :
      (bs : Bytes) (w w' : S.WriteHalf) (result : Result (Unit {0}) IoError)
      → sent w' ≡ sent w ++ bs
      → Written w w' bs result
  whole bs w w' result h =
      (record { part = bs; lost = []; split = append-nil bs; sends = h }, λ _. refl)

  -- The first of two writes ends early, or the second does.
  stops : (bs more : Bytes) (w w' : S.WriteHalf) → Writes S w w' bs → Writes S w w' (bs ++ more)
  stops bs more w w' p = record {
    part = p.part;
    lost = p.lost ++ more;
    split = sym (append_assoc p.part p.lost more) ∙ ap (λ (l : Bytes). l ++ more) p.split;
    sends = p.sends;
  }

  goes_on :
      (bs more : Bytes) (w w1 w' : S.WriteHalf)
      → sent w1 ≡ sent w ++ bs
      → Writes S w1 w' more
      → Writes S w w' (bs ++ more)
  goes_on bs more w w1 w' h p = record {
    part = bs ++ p.part;
    lost = p.lost;
    split = append_assoc bs p.part p.lost ∙ ap (◌++◌ bs) p.split;
    sends = p.sends ∙ (rw h (append_assoc (sent w) bs p.part));
  }

  sent-flush-eq :
      (w w' : S.WriteHalf) (result : Result (Unit {0}) IoError)
      → S.flush w ≡ (result, w')
      → sent w' ≡ sent w
  sent-flush-eq w w' result h =
      ap (λ (p : Result (Unit {0}) IoError × S.WriteHalf). sent p.1) (sym h) ∙ R.sent-flush w

  body_written :
      (ct : Bytes) (w w1 w' : S.WriteHalf) (result : Result (Unit {0}) IoError)
      (m : Result (Unit {0}) IoError × S.WriteHalf)
      → sent w1 ≡ sent w ++ to_be_bytes (length ct)
      → S.write_all ct w1 ≡ m
      → continue m (λ _. S.flush) ≡ (result, w')
      → Written w w' (frame ct) result
  body_written ct w w1 w' result (err e, w2) s h k =
      let same : w2 ≡ w' = cc in
      (
        goes_on (to_be_bytes (length ct)) ct w w1 w' s
            (R.write_failed ct w1 w' e (subst (λ x. S.write_all ct w1 ≡ (err e, x)) same h)),
        λ p. cc,
      )
  body_written ct w w1 w' result (ok _, w2) s h k = whole (frame ct) w w' result (
      sent-flush-eq w2 w' result k
      ∙ R.write_done ct w1 w2 h
      ∙ rw s (append_assoc (sent w) (to_be_bytes (length ct)) ct))

  head_written :
      (ct : Bytes) (w w' : S.WriteHalf) (result : Result (Unit {0}) IoError)
      (m : Result (Unit {0}) IoError × S.WriteHalf)
      → S.write_all (to_be_bytes (length ct)) w ≡ m
      → continue m (λ _ w1. continue (S.write_all ct w1) (λ _. S.flush)) ≡ (result, w')
      → Written w w' (frame ct) result
  head_written ct w w' result (err e, w1) h k =
      let head = to_be_bytes (length ct) in
      let same : w1 ≡ w' = cc in
      (
        stops head ct w w'
            (R.write_failed head w w' e (subst (λ x. S.write_all head w ≡ (err e, x)) same h)),
        λ p. cc,
      )
  head_written ct w w' result (ok _, w1) h k =
      body_written ct w w1 w' result _ (R.write_done (to_be_bytes (length ct)) w w1 h) refl k

  -- What reaches the wire of a frame is a part that it begins with, the whole where no error is met.
  pub write_frame_bytes-Written :
      (ct : Bytes) (w w' : S.WriteHalf) (result : Result (Unit {0}) IoError)
      → write_frame_bytes S ct w ≡ (result, w')
      → Written w w' (frame ct) result
  unfolding write_frame_bytes
  write_frame_bytes-Written ct w w' result h = head_written ct w w' result _ refl h

  -- An open connection takes every frame.
  pub write_frame_bytes-IsOpen :
      (ct : Bytes) (w : S.WriteHalf)
      → R.IsOpen w
      → (w' : S.WriteHalf) × (write_frame_bytes S ct w ≡ (ok tt, w')) × R.IsOpen w'
  unfolding write_frame_bytes
  write_frame_bytes-IsOpen ct w o =
      let (w1, a, o1) = R.write-IsOpen (to_be_bytes (length ct)) w o in
      let (w2, b, o2) = R.write-IsOpen ct w1 o1 in
      let (w3, c, o3) = R.flush-IsOpen w2 o2 in (w3, rw a (rw b c), o3)
