-- ===== src/Cli/Keygen.antt =====
-- sapphire-cli/src/main.rs: `cmd_keygen`, over a disk that is a parameter.
pub mod Stored
use project_sapphire.Base.{ℕ, ◌+◌, Option, [], ◌∷◌, String, Ord, Result, ok, err}
use project_sapphire.Base.Map.{Map}
use project_sapphire.Core.{Error, MpcParams, new_params}
use project_sapphire.Frost.{Ciphersuite}
use project_sapphire.Node.Signer.{KeyShareBundle}
use project_sapphire.Keygen.Participant.{DkgScheme}
use project_sapphire.Keygen.Ceremony.{
  Attempt, GroupKeys, returned, failed, panicked, generate_with_dkg,
}

-- The files of the output directory.
pub data FileName : Type 0 where
  -- share-{i}.json
  share : ℕ → FileName
  -- group-pubkey.json
  group_pubkey : FileName

module _ {I : Type 0} (C : Ciphersuite I) where
  pub data Document : Type 0 where
    bundle : KeyShareBundle C → Document
    public_key : C.PublicKeyPackage → Document

  -- The calls of std::fs and of serde_json's writer, each with the disk as it leaves it. What a file
  -- holds is not read by the code.
  pub record Disk : Type 1 where
    pub State : Type 0
    pub create_dir_all : State → Result (Unit {0}) String × State
    pub create : FileName → State → Result (Unit {0}) String × State
    pub to_writer_pretty : FileName → Document → State → Result (Unit {0}) String × State
    pub content : FileName → State → Option Document

-- `?` on a call of the disk.
abbrev pub continue :
    {T : Type 0}
    → Result (Unit {0}) String × T
    → (T → Result (Unit {0}) String × T)
    → Result (Unit {0}) String × T
continue (err e, s) next = (err e, s)
continue (ok _, s) next = next s

-- How the command ends: with what `main` returns, or with the panic of the key generation.
pub data Ending : Type 0 where
  finished : Ending
  invalid : Error → Ending
  disk_failed : String → Ending
  crashed : Ending

abbrev pub ending_of : Result (Unit {0}) String → Ending
ending_of (ok _) = finished
ending_of (err e) = disk_failed e

module _ {I : Type 0} {C : Ciphersuite I} (K : Disk C) where
  abbrev pub write_file : FileName → Document C → K.State → Result (Unit {0}) String × K.State
  write_file name document disk =
      continue (K.create name disk) (λ disk. K.to_writer_pretty name document disk)

  -- The loop over the key packages, from the number of the next file.
  unfoldable pub write_shares :
      Map I C.KeyPackage → ℕ → C.PublicKeyPackage → K.State → Result (Unit {0}) String × K.State
  write_shares [] i pkp disk = (ok tt, disk)
  write_shares ((id, kp) ∷ key_packages) i pkp disk =
      continue
        (write_file (share i) (bundle (record { key_package = kp; public_key_package = pkp })) disk)
        (λ disk. write_shares key_packages (i + 1) pkp disk)

  unfoldable pub write_all :
      Map I C.KeyPackage → C.PublicKeyPackage → K.State → Result (Unit {0}) String × K.State
  write_all key_packages pkp disk = continue (K.create_dir_all disk) (λ disk.
      continue (write_shares key_packages 1 pkp disk)
        (λ disk. write_file group_pubkey (public_key pkp) disk))

module _ {I : Type 0} ⦃o : Ord I⦄ {C : Ciphersuite I} (D : DkgScheme C) (K : Disk C) where
  -- What follows the key generation.
  unfoldable pub save : Attempt (GroupKeys D) → K.State → Ending × K.State
  save (failed e) disk = (invalid e, disk)
  save panicked disk = (crashed, disk)
  save (returned (key_packages, pkp)) disk =
      let (written, disk') = write_all K key_packages pkp disk in (ending_of written, disk')

  unfoldable pub cmd_keygen :
      (ℕ → Result I C.FrostError) → ℕ → ℕ → C.Rng → K.State → Ending × K.State
  cmd_keygen try_into threshold total rng disk = elim (new_params threshold total) [
    | err e ↦ (invalid e, disk)
    | ok params ↦ save (generate_with_dkg D try_into params rng).0 disk
  ]
