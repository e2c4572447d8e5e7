-- ===== src/Net/Wire.antt =====
-- Bytes on the wire as what they mean to the end that reads them: whole frames, each of which opens
-- in turn, and at most one broken frame behind them.
use project_sapphire.Base.{
  ℕ, ◌+◌, ◌≡◌, ◌≢◌, ◌≤◌, refl, sym, ap, ◌∙◌, List, [], ◌∷◌, ◌++◌, ok, length, length-append, ltb,
  true, append-split, Bool-cases, inl, inr, arith,
}
use project_sapphire.Core.{Bytes}
use project_sapphire.Net.Noise.{Noise, IsLawfulNoise}
use project_sapphire.Net.Codec.{max_payload}
use project_sapphire.Net.Frames.{frame}
use mathlib.Core.List.{append_assoc}

append-eq-nil : (xs ys : Bytes) → xs ++ ys ≡ [] → ys ≡ []
append-eq-nil [] ys e = e
append-eq-nil (x ∷ xs) ys e = cc

append-eq-nil_left : (xs ys : Bytes) → xs ++ ys ≡ [] → xs ≡ []
append-eq-nil_left [] ys e = refl
append-eq-nil_left (x ∷ xs) ys e = cc

shorter :
    (whole part rest : Bytes)
    → ltb (length part) (length whole) ≡ true
    → length whole ≡ length part + length rest
    → rest ≢ []
shorter whole part rest h e n = ground (arith, ap length n)

module _ (N : Noise) where
  open N use {TransportState, encrypt, decrypt}

  pub data Wire : TransportState → List Bytes → Bytes → Type 0 where
    empty : {t : TransportState} → Wire t [] []
    cut :
        {t : TransportState} (ct part lost : Bytes)
        → part ++ lost ≡ frame ct
        → lost ≢ []
        → length ct ≤ max_payload + 16
        → Wire t [] part
    next :
        {t t' : TransportState} (ct text : Bytes) {texts : List Bytes} {rest all : Bytes}
        → decrypt ct (length ct) t ≡ (ok text, t')
        → length ct ≤ max_payload + 16
        → all ≡ frame ct ++ rest
        → Wire t' texts rest
        → Wire t (text ∷ texts) all

  -- A part of the texts, in order.
  pub record Begins (texts : List Bytes) : Type 0 where
    pub got : List Bytes
    pub missed : List Bytes
    pub split : got ++ missed ≡ texts

  -- What arrives where a connection breaks.
  pub Wire-prefix :
      {t : TransportState} {texts : List Bytes} {all : Bytes} (some_bytes lost : Bytes)
      → Wire t texts all
      → all ≡ some_bytes ++ lost
      → (b : Begins texts) × Wire t b.got some_bytes × (lost ≡ [] → b.missed ≡ [])
  Wire-prefix [] lost empty e = (record { got = []; missed = []; split = refl }, empty, λ _. refl)
  Wire-prefix (b ∷ bs) lost empty e = cc
  Wire-prefix some_bytes lost (cut ct part rest s r small) e = (
    record { got = []; missed = []; split = refl },
    cut ct some_bytes (lost ++ rest)
        (sym (append_assoc some_bytes lost rest) ∙ ap (λ (l : Bytes). l ++ rest) (sym e) ∙ s)
        (λ none. r (append-eq-nil lost rest none)) small,
    λ _. refl,
  )
  Wire-prefix some_bytes lost (next ct text {texts = texts} {rest = rest} opens small e' w) e =
      elim (Bool-cases (ltb (length some_bytes) (length (frame ct)))) [
        | inl short ↦
            let (ws, a, b) =
              append-split (frame ct) rest some_bytes lost (sym e' ∙ e) (ground arith) in
            let apart : length (frame ct) ≡ length some_bytes + length ws =
              ap length a ∙ length-append some_bytes ws in
            let more = shorter (frame ct) some_bytes ws short apart in
            (
              record { got = []; missed = text ∷ texts; split = refl },
              cut ct some_bytes ws (sym a) more small,
              λ n. absurd (more (append-eq-nil_left ws rest (sym b ∙ n))),
            )
        | inr long ↦
            let (ws, a, b) =
              append-split some_bytes lost (frame ct) rest (sym e ∙ e') (ground arith) in
            let (begins, w', full) = Wire-prefix ws lost w b in
            (
              record {
                got = text ∷ begins.got;
                missed = begins.missed;
                split = ap (◌∷◌ text) begins.split;
              },
              next ct text opens small a w',
              full,
            )
      ]

  -- The other direction of the transport does not matter.
  pub encrypt-Wire :
      {t : TransportState} {texts : List Bytes} {all : Bytes}
      → IsLawfulNoise N
      → (text : Bytes) (space : ℕ) → Wire t texts all
      → Wire (encrypt text space t).1 texts all
  encrypt-Wire L text space empty = empty
  encrypt-Wire L text space (cut ct part lost s r small) = cut ct part lost s r small
  encrypt-Wire L text space (next {t = t} ct text' opens small e w) =
      next ct text' (L.decrypt-encrypt_other t text ct (length ct) space ∙ rw opens refl) small e
        (encrypt-Wire L text space w)
