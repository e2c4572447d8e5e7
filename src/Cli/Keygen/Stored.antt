-- ===== src/Cli/Keygen/Stored.antt =====
-- What is on the disk after `keygen`, and how the command can end.
use project_sapphire.Base.{
  ℕ, ◌+◌, ◌≡◌, ◌≢◌, ◌<◌, ◌≤◌, refl, ◌∙◌, some, [], ◌∷◌, String, Ord, Result, ok, err, arith,
  Result-cases, inl, inr, ap,
}
use project_sapphire.Base.Map.{Map}
use project_sapphire.Core.{MpcParams, new_params, new_params-ok_iff}
use project_sapphire.Frost.{Ciphersuite, IsLawful}
use project_sapphire.Keygen.Participant.{DkgScheme}
use project_sapphire.Keygen.Ceremony.{
  returned, failed, panicked, generate_with_dkg, GroupKeys, Attempt,
}
use project_sapphire.Keygen.Rounds.{IsAddressed}
use project_sapphire.Keygen.Generate.{
  Generated, generate_with_dkg-Generated, generate_with_dkg-panics_iff,
}
use project_sapphire.Cli.Keygen.{
  FileName, share, group_pubkey, Document, bundle, public_key, Disk, continue, Ending, finished,
  crashed, ending_of, write_file, write_shares, write_all, save, cmd_keygen,
}

continue-eq-ok :
    {T : Type 0} (m : Result (Unit {0}) String × T) (next : T → Result (Unit {0}) String × T)
    {s' : T}
    → continue m next ≡ (ok tt, s')
    → (s : T) × (m ≡ (ok tt, s)) × (next s ≡ (ok tt, s'))
continue-eq-ok (err e, s) next h = cc
continue-eq-ok (ok _, s) next h = (s, refl, h)

share-ne-share : (j i : ℕ) → j < i → share j ≢ share i
share-ne-share j i below p = let q : j ≡ i = cc in omega arith

share-ne-group_pubkey : (j : ℕ) → share j ≢ group_pubkey
share-ne-group_pubkey j p = cc

ending_of-finished : (r : Result (Unit {0}) String) → ending_of r ≡ finished → r ≡ ok tt
ending_of-finished (ok _) h = refl
ending_of-finished (err e) h = cc

ending_of-ne-crashed : (r : Result (Unit {0}) String) → ending_of r ≢ crashed
ending_of-ne-crashed (ok _) h = cc
ending_of-ne-crashed (err e) h = cc

module _ {I : Type 0} {C : Ciphersuite I} (K : Disk C) where
  -- A file that was created and written holds its document, and no other file changes.
  pub record IsReliable : Type 0 where
    pub content-write :
        (name : FileName) (document : Document C) (disk disk' : K.State)
        → write_file K name document disk ≡ (ok tt, disk')
        → (K.content name disk' ≡ some document)
          × ((other : FileName) → other ≢ name → K.content other disk' ≡ K.content other disk)

  -- The files from a number on hold these key packages, each with the group's public keys.
  abbrev pub AreStored : Map I C.KeyPackage → ℕ → C.PublicKeyPackage → K.State → Type 0
  AreStored [] i pkp disk = Unit {0}
  AreStored ((id, kp) ∷ key_packages) i pkp disk =
      (K.content (share i) disk
        ≡ some (bundle (record { key_package = kp; public_key_package = pkp })))
      × AreStored key_packages (i + 1) pkp disk

  write_shares-keeps :
      (key_packages : Map I C.KeyPackage) (i j : ℕ) (pkp : C.PublicKeyPackage)
      (disk disk' : K.State)
      → IsReliable
      → j < i
      → write_shares K key_packages i pkp disk ≡ (ok tt, disk')
      → K.content (share j) disk' ≡ K.content (share j) disk
  unfolding write_shares
  write_shares-keeps [] i j pkp disk disk' R below h = cc
  write_shares-keeps ((id, kp) ∷ key_packages) i j pkp disk disk' R below h =
      let (mid, first, rest) = continue-eq-ok _ _ h in
      write_shares-keeps key_packages (i + 1) j pkp mid disk' R (omega arith) rest
      ∙ (R.content-write (share i) _ disk mid first).1 (share j) (share-ne-share j i below)

  write_shares-AreStored :
      (key_packages : Map I C.KeyPackage) (i : ℕ) (pkp : C.PublicKeyPackage) (disk disk' : K.State)
      → IsReliable
      → write_shares K key_packages i pkp disk ≡ (ok tt, disk')
      → AreStored key_packages i pkp disk'
  unfolding write_shares
  write_shares-AreStored [] i pkp disk disk' R h = tt
  write_shares-AreStored ((id, kp) ∷ key_packages) i pkp disk disk' R h =
      let (mid, first, rest) = continue-eq-ok _ _ h in
      (
        write_shares-keeps key_packages (i + 1) i pkp mid disk' R (omega arith) rest
            ∙ (R.content-write (share i) _ disk mid first).0,
        write_shares-AreStored key_packages (i + 1) pkp mid disk' R rest,
      )

  AreStored-write :
      (key_packages : Map I C.KeyPackage) (i : ℕ) (pkp : C.PublicKeyPackage) (disk disk' : K.State)
      → ((j : ℕ) → K.content (share j) disk' ≡ K.content (share j) disk)
      → AreStored key_packages i pkp disk
      → AreStored key_packages i pkp disk'
  AreStored-write [] i pkp disk disk' same stored = tt
  AreStored-write ((id, kp) ∷ key_packages) i pkp disk disk' same stored =
      (same i ∙ stored.0, AreStored-write key_packages (i + 1) pkp disk disk' same stored.1)

  pub write_all-AreStored :
      (key_packages : Map I C.KeyPackage) (pkp : C.PublicKeyPackage) (disk disk' : K.State)
      → IsReliable
      → write_all K key_packages pkp disk ≡ (ok tt, disk')
      → AreStored key_packages 1 pkp disk' × (K.content group_pubkey disk' ≡ some (public_key pkp))
  unfolding write_all
  write_all-AreStored key_packages pkp disk disk' R h =
      let (made, _, h') =
        continue-eq-ok (K.create_dir_all disk)
          (λ disk.
            continue (write_shares K key_packages 1 pkp disk)
              (λ disk. write_file K group_pubkey (public_key pkp) disk))
          h in
      let (shared, shares, last) =
        continue-eq-ok (write_shares K key_packages 1 pkp made)
          (λ disk. write_file K group_pubkey (public_key pkp) disk) h' in
      let (held, others) = R.content-write group_pubkey _ shared disk' last in
      (
        AreStored-write key_packages 1 pkp shared disk'
            (λ j. others (share j) (share-ne-group_pubkey j))
            (write_shares-AreStored key_packages 1 pkp made shared R shares),
        held,
      )

module _ {I : Type 0} ⦃o : Ord I⦄ {C : Ciphersuite I} (D : DkgScheme C) (K : Disk C)
    (try_into : ℕ → Result I C.FrostError) where
  -- What a finished `keygen` leaves behind.
  pub record Saved (threshold total : ℕ) (rng : C.Rng) (disk' : K.State) : Type 0 where
    params : MpcParams
    keys : GroupKeys D
    accepted : new_params threshold total ≡ ok params
    generated : Generated D try_into params keys
    shares : AreStored K keys.0 1 keys.1 disk'
    group : K.content group_pubkey disk' ≡ some (public_key keys.1)

  -- The ending, and the disk where it is `finished`.
  Ends : ℕ → ℕ → C.Rng → Ending × K.State → Type 0
  Ends threshold total rng (ending, disk') =
      (ending ≢ crashed) × (ending ≡ finished → Saved threshold total rng disk')

  save-Ends :
      (threshold total : ℕ) (params : MpcParams) (rng : C.Rng) (disk : K.State)
      (r : Attempt (GroupKeys D))
      → IsLawful C
      → IsAddressed D
      → IsReliable K
      → new_params threshold total ≡ ok params
      → 1 ≤ params.total
      → (generate_with_dkg D try_into params rng).0 ≡ r
      → Ends threshold total rng (save D K r disk)
  unfolding save Ends
  save-Ends threshold total params rng disk (failed e) L A R accepted some_there h =
      ((λ p. cc), (λ p. cc))
  save-Ends threshold total params rng disk panicked L A R accepted some_there h =
      let nobody : params.total ≡ 0 =
        (generate_with_dkg-panics_iff D try_into params rng L A).0 h in
      absurd (omega arith)
  save-Ends threshold total params rng disk (returned keys) L A R accepted some_there h = (
    ending_of-ne-crashed (write_all K keys.0 keys.1 disk).0,
    (λ p.
        let written : (write_all K keys.0 keys.1 disk).0 ≡ ok tt = ending_of-finished _ p in
        let whole : write_all K keys.0 keys.1 disk ≡ (ok tt, (write_all K keys.0 keys.1 disk).1) =
          ap (λ r. (r, (write_all K keys.0 keys.1 disk).1)) written in
        let (stored, group) = write_all-AreStored K keys.0 keys.1 disk _ R whole in
        record {
          params = params;
          keys = keys;
          accepted = accepted;
          generated = generate_with_dkg-Generated D try_into params rng keys L A some_there h;
          shares = stored;
          group = group;
        }),
  )

  -- The command never panics, whatever numbers it is given; and where it finishes, the disk holds
  -- one share file for each key package of a key generation with all its participants, numbered
  -- from 1 in the order of the packages, each with the group's public keys, which have a file too.
  pub cmd_keygen-Saved :
      (threshold total : ℕ) (rng : C.Rng) (disk : K.State)
      → IsLawful C
      → IsAddressed D
      → IsReliable K
      → let (ending, disk') = cmd_keygen D K try_into threshold total rng disk in
        (ending ≢ crashed) × (ending ≡ finished → Saved threshold total rng disk')
  unfolding cmd_keygen Ends
  cmd_keygen-Saved threshold total rng disk L A R =
      elim (Result-cases (new_params threshold total)) [
        | inr (e, refused) ↦ rw (refused, cmd_keygen) ((λ p. cc), (λ p. cc))
        | inl (params, accepted) ↦
            let (positive, above, same) = (new_params-ok_iff threshold total params).0 accepted in
            let some_there : 1 ≤ params.total = rw same omega arith in
            rw (accepted, cmd_keygen)
              (save-Ends threshold total params rng disk _ L A R accepted some_there refl)
      ]
