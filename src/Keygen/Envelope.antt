-- ===== src/Keygen/Envelope.antt =====
-- sapphire-chain/src/dkg_envelope.rs: `seal` and `open`. The crate crypto_box, X25519 with
-- XChaCha20-Poly1305, is a parameter, with the two generators that it draws from.
use project_sapphire.Base.{
  ◌+◌, ◌≡◌, ◌↔◌, ◌<◌, Option, some, ◌++◌, Result, ok, err, ok_or, length, take, drop, ltb,
  if◌then◌else◌, arith, length-append, take-append, drop-append, ◌∙◌, false,
}
use project_sapphire.Core.{Bytes}
use project_sapphire.Chain.Tx.{EncPublicKey, Sealed}

pub record CryptoBox (Rng : Type 0) : Type 1 where
  pub SecretKey : Type 0
  pub generate : Rng → SecretKey × Rng
  pub public_key : SecretKey → Bytes
  -- The generator of the operating system.
  pub OsRng : Type 0
  pub generate_nonce : OsRng → Bytes × OsRng
  -- The public key of the other side, one's own secret key, the nonce, the text.
  pub encrypt : Bytes → SecretKey → Bytes → Bytes → Bytes
  pub decrypt : Bytes → SecretKey → Bytes → Bytes → Option Bytes

-- Keys have 32 bytes and nonces 24, and each side decrypts what the other has encrypted.
pub record IsLawfulBox {Rng : Type 0} (B : CryptoBox Rng) : Type 0 where
  pub length-public_key : (s : B.SecretKey) → length (B.public_key s) ≡ 32
  pub length-nonce : (os : B.OsRng) → length (B.generate_nonce os).0 ≡ 24
  pub decrypt-encrypt :
      (mine theirs : B.SecretKey) (nonce text : Bytes)
      → B.decrypt (B.public_key mine) theirs nonce (B.encrypt (B.public_key theirs) mine nonce text)
        ≡ some text

pub data EnvelopeError : Type 0 where
  too_short : EnvelopeError
  decrypt : EnvelopeError

module _ {Rng : Type 0} (B : CryptoBox Rng) where
  open B use {SecretKey, OsRng}

  -- `seal`
  unfoldable pub seal_envelope : Rng → OsRng → EncPublicKey → Bytes → Sealed × Rng × OsRng
  seal_envelope rng os recipient plaintext =
      let (ephemeral_secret, rng') = B.generate rng in
      let (nonce, os') = B.generate_nonce os in
      let ct = B.encrypt recipient.key ephemeral_secret nonce plaintext in
      (record { envelope = B.public_key ephemeral_secret ++ (nonce ++ ct) }, rng', os')

  -- `open`
  unfoldable pub open_envelope : SecretKey → Sealed → Result Bytes EnvelopeError
  open_envelope secret sealed =
      if ltb (length sealed.envelope) (32 + 24)
      then err too_short
      else (let rest = drop 32 sealed.envelope in
          ok_or (B.decrypt (take 32 sealed.envelope) secret (take 24 rest) (drop 24 rest)) decrypt)

module _ {Rng : Type 0} (B : CryptoBox Rng) where
  open B use {SecretKey, OsRng}

  framed :
      (key nonce ct : Bytes)
      → length key ≡ 32
      → length nonce ≡ 24
      → (secret : SecretKey)
      → open_envelope B secret (record { envelope = key ++ (nonce ++ ct) })
        ≡ ok_or (B.decrypt key secret nonce ct) decrypt
  unfolding open_envelope
  framed key nonce ct k n secret =
      let a : take 32 (key ++ (nonce ++ ct)) ≡ key = rw (← k) (take-append key (nonce ++ ct)) in
      let b : drop 32 (key ++ (nonce ++ ct)) ≡ nonce ++ ct =
        rw (← k) (drop-append key (nonce ++ ct)) in
      let c : take 24 (nonce ++ ct) ≡ nonce = rw (← n) (take-append nonce ct) in
      let d : drop 24 (nonce ++ ct) ≡ ct = rw (← n) (drop-append nonce ct) in
      let long : ltb (length (key ++ (nonce ++ ct))) (32 + 24) ≡ false =
        ground (arith, length-append key (nonce ++ ct), length-append nonce ct) in
      rw (long, a, b, c, d)

  -- What is sealed to a public key opens with its secret key, to the same text.
  pub open_envelope-seal_envelope :
      (rng : Rng) (os : OsRng) (secret : SecretKey) (plaintext : Bytes)
      → IsLawfulBox B
      → open_envelope B secret
          (seal_envelope B rng os (record { key = B.public_key secret }) plaintext).0
        ≡ ok plaintext
  unfolding seal_envelope
  open_envelope-seal_envelope rng os secret plaintext L =
      let (ephemeral, _) = B.generate rng in
      let (nonce, _) = B.generate_nonce os in
      let ct = B.encrypt (B.public_key secret) ephemeral nonce plaintext in
      framed (B.public_key ephemeral) nonce ct (L.length-public_key ephemeral) (L.length-nonce os)
        secret
      ∙ rw (L.decrypt-encrypt ephemeral secret nonce plaintext)

  -- Exactly the envelopes shorter than a key and a nonce are too short.
  pub open_envelope-too_short_iff :
      (secret : SecretKey) (sealed : Sealed)
      → (open_envelope B secret sealed ≡ err too_short) ↔ (length sealed.envelope < 56)
  unfolding open_envelope
  open_envelope-too_short_iff secret sealed = ground arith
