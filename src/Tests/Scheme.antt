-- ===== src/Tests/Scheme.antt =====
-- A small scheme over numbers, which has the laws that the theorems ask for.
use project_sapphire.Base.{
  ℕ, ◌+◌, ◌≡◌, refl, Bool, true, false, ◌↔◌, [], ◌∷◌, Result, ok, err, length, eqb, eqb→eq, eq→eqb,
  arith, if◌then◌else◌, nat_ord,
}
use project_sapphire.Base.Map.{Map}
use project_sapphire.Core.{Bytes}
use project_sapphire.Frost.{Ciphersuite, IsLawful}

pub data Fault : Type 0 where
  zero_share : Fault

-- No share is zero.
unfoldable pub all_nonzero : Map ℕ ℕ → Bool
all_nonzero [] = true
all_nonzero ((i, share) ∷ shares) = if eqb share 0 then false else all_nonzero shares

abbrev pub signature_of : Map ℕ ℕ × Bytes → Map ℕ ℕ → ℕ → ℕ → Result ℕ Fault
signature_of (commitments, message) shares pkp key =
    if all_nonzero shares then ok (key + length message) else err zero_share

-- A package is its key, and always has the shares of validators 1, 2 and 3. A signature is the sum
-- of the key and the length of the message.
abbrev pub scheme : Ciphersuite ℕ
scheme = record {
  debug = λ i. "validator";
  VerifyingKey = ℕ;
  VerifyingShare = ℕ;
  PublicKeyPackage = ℕ;
  verifying_key = λ p. p;
  verifying_shares = λ p. (1, 11) ∷ (2, 12) ∷ (3, 13) ∷ [];
  verifying_key_eq = eqb;
  verifying_share_eq = eqb;
  Round1Package = ℕ;
  SigningCommitments = ℕ;
  SigningPackage = Map ℕ ℕ × Bytes;
  signing_package = λ commitments message. (commitments, message);
  message = λ pkg. pkg.1;
  SignatureShare = ℕ;
  Signature = ℕ;
  verify = λ key message signature. eqb signature (key + length message);
  FrostError = Fault;
  error_text = λ e. "zero share";
  Randomizer = ℕ;
  RandomizedParams = ℕ;
  from_randomizer = λ key randomizer. key + randomizer;
  randomized_verifying_key = λ params. params;
  aggregate = signature_of;
  Rng = ℕ;
  fill_bytes = λ n rng. (rng ∷ [], rng + 1);
  KeyPackage = ℕ;
  identifier = λ key_package. key_package;
  SigningNonces = ℕ;
  commit = λ key_package rng. (rng, rng + 100, rng + 1);
  sign = λ pkg nonces key_package randomizer. ok (nonces + randomizer);
}

eqb_iff : (a b : ℕ) → (eqb a b ≡ true) ↔ (a ≡ b)
eqb_iff a b = (eqb→eq a b, eq→eqb a b)

signature_of-verifies :
    (pkg : Map ℕ ℕ × Bytes) (shares : Map ℕ ℕ) (pkp key signature : ℕ)
    → signature_of pkg shares pkp key ≡ ok signature
    → eqb signature (key + length pkg.1) ≡ true
signature_of-verifies pkg shares pkp key signature h = ground arith

pub scheme-IsLawful : IsLawful scheme
scheme-IsLawful = record {
  verifying_key_eq_iff = eqb_iff;
  verifying_share_eq_iff = eqb_iff;
  verifying_shares-IsSorted = λ p. ((refl, (refl, tt)), ((refl, tt), (tt, tt)));
  message-signing_package = λ commitments message. refl;
  aggregate-verifies = signature_of-verifies;
}
