-- ===== src/Frost.antt =====
-- What the program uses of `frost_core` and `frost_rerandomized`, over identifiers of a type `I`
-- with a total order. These crates are not part of the repository: their types and functions are
-- the fields of a record, and the laws that the theorems rest on are those of `IsLawful`.
use project_sapphire.Base.{ℕ, ◌≡◌, ◌↔◌, Bool, true, String, Result, ok, Ord}
use project_sapphire.Base.Map.{Map}
use project_sapphire.Base.Map.Sorted.{IsSorted}
use project_sapphire.Core.{Bytes}

pub record Ciphersuite (I : Type 0) : Type 1 where
  -- `{:?}` of an identifier
  pub debug : I → String
  -- `frost_core::keys`
  pub VerifyingKey : Type 0
  pub VerifyingShare : Type 0
  pub PublicKeyPackage : Type 0
  pub verifying_key : PublicKeyPackage → VerifyingKey
  pub verifying_shares : PublicKeyPackage → Map I VerifyingShare
  pub verifying_key_eq : VerifyingKey → VerifyingKey → Bool
  pub verifying_share_eq : VerifyingShare → VerifyingShare → Bool
  -- `frost_core::keys::dkg::round1::Package`
  pub Round1Package : Type 0
  -- `frost_core::{round1, round2}`
  pub SigningCommitments : Type 0
  pub SigningPackage : Type 0
  pub signing_package : Map I SigningCommitments → Bytes → SigningPackage
  pub message : SigningPackage → Bytes
  pub SignatureShare : Type 0
  pub Signature : Type 0
  pub verify : VerifyingKey → Bytes → Signature → Bool
  pub FrostError : Type 0
  pub error_text : FrostError → String
  -- `frost_rerandomized`
  pub Randomizer : Type 0
  pub RandomizedParams : Type 0
  pub from_randomizer : VerifyingKey → Randomizer → RandomizedParams
  pub randomized_verifying_key : RandomizedParams → VerifyingKey
  pub aggregate :
      SigningPackage
      → Map I SignatureShare
      → PublicKeyPackage
      → RandomizedParams
      → Result Signature FrostError
  -- A signer's own side: `KeyPackage`, `round1::commit` and `frost_rerandomized::sign`. The random
  -- generator is a value that each use of it replaces.
  pub Rng : Type 0
  pub fill_bytes : ℕ → Rng → Bytes × Rng
  pub KeyPackage : Type 0
  pub identifier : KeyPackage → I
  pub SigningNonces : Type 0
  pub commit : KeyPackage → Rng → SigningNonces × SigningCommitments × Rng
  pub sign :
      SigningPackage → SigningNonces → KeyPackage → Randomizer → Result SignatureShare FrostError

module _ {I : Type 0} ⦃o : Ord I⦄ (C : Ciphersuite I) where
  open C use {
    verifying_shares, verifying_key_eq, verifying_share_eq, signing_package, message, verify,
    aggregate, randomized_verifying_key, PublicKeyPackage, VerifyingKey, VerifyingShare,
    SigningCommitments, SigningPackage, SignatureShare, Signature, RandomizedParams,
  }

  -- Equality tests decide equality, a package keeps its message, and `aggregate` hands out a
  -- signature only after it has verified it under the randomized key.
  pub record IsLawful : Type 0 where
    pub verifying_key_eq_iff : (a b : VerifyingKey) → (verifying_key_eq a b ≡ true) ↔ (a ≡ b)
    pub verifying_share_eq_iff : (a b : VerifyingShare) → (verifying_share_eq a b ≡ true) ↔ (a ≡ b)
    pub verifying_shares-IsSorted : (p : PublicKeyPackage) → IsSorted (verifying_shares p)
    pub message-signing_package :
        (cs : Map I SigningCommitments) (m : Bytes) → message (signing_package cs m) ≡ m
    pub aggregate-verifies :
        (pkg : SigningPackage) (shares : Map I SignatureShare) (pkp : PublicKeyPackage)
        (params : RandomizedParams) (signature : Signature)
        → aggregate pkg shares pkp params ≡ ok signature
        → verify (randomized_verifying_key params) (message pkg) signature ≡ true
