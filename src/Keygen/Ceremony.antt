-- ===== src/Keygen/Ceremony.antt =====
-- sapphire-keygen/src/dkg.rs: `generate_with_dkg`, the three rounds of a key generation in one process.
-- An `expect` that fails is an outcome of its own.
use project_sapphire.Base.{
  ℕ, zero, suc, ◌+◌, Option, none, some, [], ◌∷◌, Ord, Result, ok, err, if◌then◌else◌, ◌==◌,
}
use project_sapphire.Base.Map.{Map, get, insert, remove}
use project_sapphire.Core.{MpcParams, Error, frost}
use project_sapphire.Frost.{Ciphersuite}
use project_sapphire.Keygen.Participant.{DkgScheme}

pub data Attempt (A : Type 0) : Type 0 where
  returned : A → Attempt A
  failed : Error → Attempt A
  panicked : Attempt A

infixl 5 ◌>>=◌
abbrev pub ◌>>=◌ : {A B : Type 0} → Attempt A → (A → Attempt B) → Attempt B
returned a >>= next = next a
failed e >>= next = failed e
panicked >>= next = panicked

-- `Option::expect`
abbrev pub expect : {A : Type 0} → Option A → Attempt A
expect none = panicked
expect (some a) = returned a

module _ {I : Type 0} ⦃o : Ord I⦄ {C : Ciphersuite I} (D : DkgScheme C) where
  open C use {Round1Package, KeyPackage, PublicKeyPackage, FrostError, Rng, error_text}

  -- `map_err(Error::from)?`
  abbrev pub from_frost : {A : Type 0} → Result A FrostError → Attempt A
  from_frost (ok a) = returned a
  from_frost (err e) = failed (frost (error_text e))

  -- Secret and public packages of round 1.
  abbrev pub Packages1 : Type 0
  Packages1 = Map I D.Secret1 × Map I Round1Package

  -- Packages of round 2, by recipient and sender.
  abbrev pub Inbox : Type 0
  Inbox = Map I (Map I D.Round2Package)

  -- `Identifier::try_from(u16)` is a parameter.
  module _ (try_into : ℕ → Result I FrostError) where
    -- The loop of round 1, by the participants that are left and the next one's number.
    unfoldable pub deal1 : ℕ → ℕ → MpcParams → Packages1 → Rng → Attempt Packages1 × Rng
    deal1 zero i params dealt rng = (returned dealt, rng)
    deal1 (suc left) i params (secrets_r1, publics_r1) rng = elim (try_into i) [
      | err e ↦ (failed (frost (error_text e)), rng)
      | ok id ↦
          let (made, rng') = D.part1 id params.total params.threshold rng in
          elim made [
            | err e ↦ (failed (frost (error_text e)), rng')
            | ok (secret_pkg, public_pkg) ↦
                deal1 left (i + 1) params
                  (insert id secret_pkg secrets_r1, insert id public_pkg publics_r1) rng'
          ]
    ]

  -- The packages of everyone but this one.
  unfoldable pub others_r1 : I → Map I Round1Package → Map I Round1Package
  others_r1 id [] = []
  others_r1 id ((other, pkg) ∷ publics_r1) =
      let rest = others_r1 id publics_r1 in if other == id then rest else (other, pkg) ∷ rest

  -- The empty inboxes.
  unfoldable pub preallocate : Map I Round1Package → Inbox → Inbox
  preallocate [] inbox = inbox
  preallocate ((id, pkg) ∷ publics_r1) inbox = preallocate publics_r1 (insert id [] inbox)

  -- The loop that hands the packages of one sender to their recipients.
  unfoldable pub distribute : I → Map I D.Round2Package → Inbox → Attempt Inbox
  distribute id [] inbox_r2 = returned inbox_r2
  distribute id ((recipient, pkg) ∷ sent_r2) inbox_r2 = do
    box ← expect (get recipient inbox_r2)
    distribute id sent_r2 (insert recipient (insert id pkg box) inbox_r2)

  -- The loop of round 2 over the secrets of round 1.
  unfoldable pub deal2 :
      Map I Round1Package
      → Map I D.Secret1
      → Map I D.Secret2
      → Inbox
      → Attempt (Map I D.Secret2 × Inbox)
  unfolding distribute
  deal2 publics_r1 [] secrets_r2 inbox_r2 = returned (secrets_r2, inbox_r2)
  deal2 publics_r1 ((id, secret_r1) ∷ secrets_r1) secrets_r2 inbox_r2 = do
    (secret_r2, sent_r2) ← from_frost (D.part2 secret_r1 (others_r1 id publics_r1))
    inbox ← distribute id sent_r2 inbox_r2
    deal2 publics_r1 secrets_r1 (insert id secret_r2 secrets_r2) inbox

  -- The check that the participants agree.
  unfoldable pub agree :
      Option PublicKeyPackage → PublicKeyPackage → Attempt (Option PublicKeyPackage)
  agree none pkp = returned (some pkp)
  agree (some existing) pkp =
      if C.verifying_key_eq (C.verifying_key existing) (C.verifying_key pkp)
      then returned (some existing)
      else failed (frost "DKG inconsistency: participants disagree on group verifying key")

  -- The loop of round 3 over the secrets of round 2.
  unfoldable pub deal3 :
      Map I Round1Package
      → Map I D.Secret2
      → Inbox
      → Map I KeyPackage
      → Option PublicKeyPackage
      → Attempt (Map I KeyPackage × Option PublicKeyPackage)
  unfolding agree
  deal3 publics_r1 [] inbox_r2 key_packages group_pkp = returned (key_packages, group_pkp)
  deal3 publics_r1 ((id, secret_r2) ∷ secrets_r2) inbox_r2 key_packages group_pkp = do
    received_r2 ← expect (get id inbox_r2)
    (key_pkg, pkp) ← from_frost (D.part3 secret_r2 (others_r1 id publics_r1) received_r2)
    group ← agree group_pkp pkp
    deal3 publics_r1 secrets_r2 (remove id inbox_r2) (insert id key_pkg key_packages) group

  -- `GroupKeys`
  abbrev pub GroupKeys : Type 0
  GroupKeys = Map I KeyPackage × PublicKeyPackage

  -- Rounds 2 and 3.
  unfoldable pub conclude : Packages1 → Attempt GroupKeys
  unfolding preallocate deal2 deal3
  conclude (secrets_r1, publics_r1) = do
    (secrets_r2, inbox_r2) ← deal2 publics_r1 secrets_r1 [] (preallocate publics_r1 [])
    (key_packages, group_pkp) ← deal3 publics_r1 secrets_r2 inbox_r2 [] none
    pkp ← expect group_pkp
    returned (key_packages, pkp)

  module _ (try_into : ℕ → Result I FrostError) where
    unfoldable pub generate_with_dkg : MpcParams → Rng → Attempt GroupKeys × Rng
    unfolding deal1 conclude
    generate_with_dkg params rng =
        let (dealt, rng') = deal1 try_into params.total 1 params ([], []) rng in
        (dealt >>= conclude, rng')
