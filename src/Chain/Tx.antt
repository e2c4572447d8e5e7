-- ===== src/Chain/Tx.antt =====
-- sapphire-chain/src/tx.rs, and the two wrappers of sapphire-chain/src/dkg_envelope.rs.
use project_sapphire.Base.{List}
use project_sapphire.Base.Map.{Map}
use project_sapphire.Core.{Bytes, MpcParams, Uuid}
use project_sapphire.Frost.{Ciphersuite}

-- `EncPublicKey(pub [u8; 32])`
pub record EncPublicKey : Type 0 where
  pub key : Bytes

-- `Sealed(pub Vec<u8>)`
pub record Sealed : Type 0 where
  pub envelope : Bytes

module _ {I : Type 0} (C : Ciphersuite I) where
  open C use {PublicKeyPackage, Round1Package, Randomizer, SigningCommitments, SignatureShare}

  pub data Tx : Type 0 where
    -- params, pkp, validators
    init_group : MpcParams → PublicKeyPackage → List I → Tx
    -- params, validators
    dkg_begin : MpcParams → Map I EncPublicKey → Tx
    -- from, package
    dkg_round1 : I → Round1Package → Tx
    -- from, to, sealed
    dkg_round2 : I → I → Sealed → Tx
    -- from, pkp
    dkg_finalize : I → PublicKeyPackage → Tx
    -- request_id, message, randomizer
    submit_request : Uuid → Bytes → Randomizer → Tx
    -- request_id, validator, commitments
    submit_commitment : Uuid → I → SigningCommitments → Tx
    -- request_id, validator, share
    submit_share : Uuid → I → SignatureShare → Tx
