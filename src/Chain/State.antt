-- ===== src/Chain/State.antt =====
-- sapphire-chain/src/state.rs: the state, its parts and the errors.
use project_sapphire.Base.{ℕ, ◌+◌, ◌-◌, ◌*◌, ◌%◌, Bool, String, Option, none, [], length, eqb}
use project_sapphire.Base.Map.{Map, Set}
use project_sapphire.Core.{Bytes, MpcParams, Uuid, usize_mod}
use project_sapphire.Frost.{Ciphersuite}
use project_sapphire.Chain.Tx.{EncPublicKey, Sealed}

module _ {I : Type 0} (C : Ciphersuite I) where
  open C use {
    PublicKeyPackage, Round1Package, Randomizer, SigningCommitments, SigningPackage, SignatureShare,
    Signature,
  }

  pub data RequestStatus : Type 0 where
    -- commitments
    awaiting_commitments : Map I SigningCommitments → RequestStatus
    -- signing_package, participants, shares
    signing : SigningPackage → Set I → Map I SignatureShare → RequestStatus
    -- participants, signature
    completed : Set I → Signature → RequestStatus
    -- reason
    failed : String → RequestStatus

  pub record RequestEntry : Type 0 where
    pub request_id : Uuid
    pub message : Bytes
    pub randomizer : Randomizer
    pub status : RequestStatus

  pub record DkgCeremony : Type 0 where
    pub params : MpcParams
    pub validators : Map I EncPublicKey
    pub round1 : Map I Round1Package
    pub round2 : Map (I × I) Sealed
    pub finalize : Map I PublicKeyPackage

  pub record GroupConfig : Type 0 where
    pub params : MpcParams
    pub pkp : PublicKeyPackage
    pub validators : Set I

  pub record State : Type 0 where
    pub ceremony : Option DkgCeremony
    pub group : Option GroupConfig
    pub requests : Map Uuid RequestEntry

  -- `State::default`
  abbrev pub initial : State
  initial = record { ceremony = none; group = none; requests = [] }

-- The arithmetic of `usize`, which wraps in a release build. In a debug build the subtraction
-- panics at `total = 0`; elsewhere nothing wraps.
abbrev pub ordered_pair_count : ℕ → ℕ
ordered_pair_count total = total * ((total + (usize_mod - 1)) % usize_mod) % usize_mod

module _ {I : Type 0} {C : Ciphersuite I} where
  unfoldable pub r1_complete : DkgCeremony C → Bool
  r1_complete c = eqb (length c.round1) c.params.total

  unfoldable pub r2_complete : DkgCeremony C → Bool
  r2_complete c = eqb (length c.round2) (ordered_pair_count c.params.total)

  unfoldable pub finalize_complete : DkgCeremony C → Bool
  finalize_complete c = eqb (length c.finalize) c.params.total

pub data ApplyError : Type 0 where
  already_initialized : ApplyError
  not_initialized : ApplyError
  validator_set_mismatch : ApplyError
  ceremony_already_in_progress : ApplyError
  no_ceremony : ApplyError
  bad_dkg_validator_count : ApplyError
  round1_not_complete : ApplyError
  round2_not_complete : ApplyError
  duplicate_round1 : String → ApplyError
  duplicate_round2 : String → String → ApplyError
  duplicate_finalize : String → ApplyError
  self_addressed_round2 : String → ApplyError
  unknown_dkg_validator : String → ApplyError
  pkp_mismatch : String → ApplyError
  duplicate_request : Uuid → ApplyError
  unknown_request : Uuid → ApplyError
  unknown_validator : String → ApplyError
  duplicate_commitment : ApplyError
  duplicate_share : ApplyError
  not_awaiting_commitments : ApplyError
  not_signing : ApplyError
  not_selected_participant : ApplyError
  -- Declared by the program, and made nowhere.
  aggregation_failed : String → ApplyError
