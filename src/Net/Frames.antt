-- ===== src/Net/Frames.antt =====
-- What `write_frame_bytes` puts on the wire, and what `read_frame_bytes` makes of it.
use project_sapphire.Base.{
  ℕ, ◌+◌, ◌^◌, ◌≡◌, ◌≢◌, ◌≤◌, ◌<◌, refl, ap, ◌∙◌, [], ◌++◌, Result, ok, err, length, length-append,
  take, drop, take-append-drop, length-take, append-split, length_pos, Bool-cases, inl, inr, arith,
  ltb, false,
}
use project_sapphire.Core.{Bytes}
use project_sapphire.Net.Sockets.{Sockets, IsReliable, Reads, continue-eq-ok, fails, IoError}
use project_sapphire.Net.Codec.{max_payload, to_be_bytes, from_be_bytes, read_frame_bytes}
use mathlib.Core.List.{append_assoc}

-- A frame on the wire: the length in four bytes, and the ciphertext.
abbrev pub frame : Bytes → Bytes
frame ct = to_be_bytes (length ct) ++ ct

pub from_be_bytes-to_be_bytes : (n : ℕ) → n < 2 ^ 32 → from_be_bytes (to_be_bytes n) ≡ n
unfolding from_be_bytes to_be_bytes
from_be_bytes-to_be_bytes n h = ground arith

pub length-to_be_bytes : (n : ℕ) → length (to_be_bytes n) ≡ 4
unfolding to_be_bytes
length-to_be_bytes n = ground arith

module _ {S : Sockets} (R : IsReliable S) where
  open S use {arriving, sent}

  -- Behind the four bytes of a length that is small enough, that many bytes are read.
  body_lem :
      (bs rest : Bytes) (r : S.ReadHalf)
      → arriving r ≡ to_be_bytes (length bs) ++ rest
      → length bs ≤ max_payload + 16
      → (r1 : S.ReadHalf) × (arriving r1 ≡ rest)
        × (read_frame_bytes S r ≡ S.read_exact (length bs) r1)
  unfolding read_frame_bytes
  body_lem bs rest r h small =
      let n = length bs in
      let first = R.read_next (to_be_bytes n) rest r h in
      let head : S.read_exact 4 r ≡ (ok (to_be_bytes n), first.after) =
        rw (← (length-to_be_bytes n)) first.reads in
      let fits : ltb (max_payload + 16) n ≡ false = ground arith in
      let same : from_be_bytes (to_be_bytes n) ≡ n = from_be_bytes-to_be_bytes n (omega arith) in
      (first.after, first.leaves, rw head (rw same (rw fits refl)))

  -- The next whole frame is read, and no more.
  pub read_frame_bytes-frame :
      (ct rest : Bytes) (r : S.ReadHalf)
      → arriving r ≡ frame ct ++ rest
      → length ct ≤ max_payload + 16
      → (r' : S.ReadHalf) × (read_frame_bytes S r ≡ (ok ct, r')) × (arriving r' ≡ rest)
  read_frame_bytes-frame ct rest r h small =
      let (r1, leaves, steps) =
        body_lem ct (ct ++ rest) r (h ∙ append_assoc (to_be_bytes (length ct)) ct rest) small in
      let second = R.read_next ct rest r1 leaves in
      (second.after, steps ∙ second.reads, second.leaves)

  read_all :
      (n : ℕ) (r : S.ReadHalf)
      → n ≤ length (arriving r)
      → Reads S r (take n (arriving r)) (drop n (arriving r))
  read_all n r h = R.read_next _ _ r (take-append-drop n (arriving r))

  -- A read that succeeds fills its buffer.
  pub length-read_exact :
      (n : ℕ) (r r' : S.ReadHalf) (bs : Bytes) → S.read_exact n r ≡ (ok bs, r') → length bs ≡ n
  length-read_exact n r r' bs h = elim (Bool-cases (ltb (length (arriving r)) n)) [
    | inl short ↦ let (e, failed) = R.read_past_end n r (ground arith) in cc
    | inr enough ↦
        let full = length-take n (arriving r) (ground arith) in
        let got = read_all n r (ground arith) in
        let same : bs ≡ take n (arriving r) = cc (full, got.reads) in ap length same ∙ full
  ]

  -- No frame that is read is longer than 65535 bytes.
  pub read_frame_bytes-bounded :
      (r r' : S.ReadHalf) (ct : Bytes) → read_frame_bytes S r ≡ (ok ct, r') → length ct ≤ 65535
  unfolding read_frame_bytes
  read_frame_bytes-bounded r r' ct h =
      let (len_buf, r1, _, body) = continue-eq-ok (S.read_exact 4 r) _ h in
      ground (arith, length-read_exact (from_be_bytes len_buf) r1 r' ct)

  -- A read of a part of a frame fails.
  pub read_frame_bytes-short :
      (ct part lost : Bytes) (r : S.ReadHalf)
      → arriving r ≡ part
      → part ++ lost ≡ frame ct
      → lost ≢ []
      → length ct ≤ max_payload + 16
      → (e : IoError) × ((read_frame_bytes S r).0 ≡ err e)
  unfolding read_frame_bytes
  read_frame_bytes-short ct part lost r h split some_lost small =
      elim (Bool-cases (ltb (length part) 4)) [
        | inl short ↦
            let (e, failed) = R.read_past_end 4 r (ground (arith, ap length h)) in
            (e, fails (S.read_exact 4 r) _ failed)
        | inr enough ↦
            let four = length-to_be_bytes (length ct) in
            let (body, a, b) =
              append-split part lost (to_be_bytes (length ct)) ct split (ground arith) in
            let (r1, leaves, steps) = body_lem ct body r (h ∙ a) small in
            let (e, failed) = R.read_past_end (length ct) r1 (
              omega (
                arith,
                ap length leaves,
                ap length b,
                length-append body lost,
                length_pos lost some_lost,
              )) in
            (e, ap (λ (p : Result Bytes IoError × S.ReadHalf). p.0) steps ∙ failed)
      ]

  -- Nothing is read where nothing arrives.
  pub read_frame_bytes-empty :
      (r : S.ReadHalf) → arriving r ≡ [] → (e : IoError) × ((read_frame_bytes S r).0 ≡ err e)
  unfolding read_frame_bytes
  read_frame_bytes-empty r h =
      let (e, failed) = R.read_past_end 4 r (ground (arith, ap length h)) in
      (e, fails (S.read_exact 4 r) _ failed)
