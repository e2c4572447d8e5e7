-- ===== src/Chain/Validity.antt =====
-- What holds of every state that the chain reaches.
pub mod Status
pub mod Ceremony
pub mod Preserved
use project_sapphire.Base.{
  ℕ, ◌-◌, ◌*◌, ◌≤◌, ◌<◌, ◌≡◌, true, Option, none, some, [], ◌⊎◌, Ord, length, ok, err, String,
  pair_ord,
}
use project_sapphire.Base.Map.{Map, Set, key_set, get, contains_key}
use project_sapphire.Base.Map.Sorted.{IsSorted}
use project_sapphire.Base.Map.Counting.{KeysWithin, ordered_pairs}
use project_sapphire.Core.{Bytes, MpcParams, Uuid, uuid_ord, u16_mod}
use project_sapphire.Frost.{Ciphersuite}
use project_sapphire.Chain.Tx.{Tx, init_group, dkg_begin}
use project_sapphire.Chain.State.{
  RequestStatus, awaiting_commitments, signing, completed, failed, RequestEntry, DkgCeremony,
  GroupConfig, State,
}

-- The range of two `u16` fields.
abbrev pub InRange : MpcParams → Type 0
InRange p = (p.threshold < u16_mod) × (p.total < u16_mod)

module _ {I : Type 0} ⦃o : Ord I⦄ (C : Ciphersuite I) where
  open C use {PublicKeyPackage, verifying_key, verifying_shares}

  -- All packages have the same key and the same shares.
  abbrev pub Agreed : Map I PublicKeyPackage → Type 0
  Agreed m =
      (i j : I) (p q : PublicKeyPackage)
      → get i m ≡ some p
      → get j m ≡ some q
      → (verifying_key p ≡ verifying_key q) × (verifying_shares p ≡ verifying_shares q)

module _ {I : Type 0} ⦃o : Ord I⦄ {C : Ciphersuite I} where
  open C use {
    PublicKeyPackage, Randomizer, SigningCommitments, SigningPackage, SignatureShare, Signature,
    verifying_key, verifying_shares, signing_package, from_randomizer, aggregate, error_text,
  }

  -- What the types of the program give: `u16` fields in range, a `BTreeMap` in order.
  abbrev pub IsTyped : Tx C → Type 0
  IsTyped (init_group params pkp validators) = InRange params
  IsTyped (dkg_begin params validators) = InRange params × IsSorted validators
  IsTyped _ = Unit {0}

  -- The signing package of a request over commitments of just these participants, and a share of
  -- each of them.
  pub record IsSession (g : GroupConfig C) (message : Bytes) (pkg : SigningPackage)
      (participants : Set I) : Type 0 where
    pub participants-IsSorted : IsSorted participants
    pub participants_within : KeysWithin participants g.validators
    pub as_many : length participants ≡ g.params.threshold
    pub commitments : Map I SigningCommitments
    pub committed : key_set commitments ≡ participants
    pub packed : pkg ≡ signing_package commitments message

  -- All participants have given their share, and the shares are what was aggregated.
  pub record IsAggregated (g : GroupConfig C) (message : Bytes) (randomizer : Randomizer)
      (participants : Set I) : Type 0 where
    pub pkg : SigningPackage
    pub session : IsSession g message pkg participants
    pub shares : Map I SignatureShare
    pub contributed : key_set shares ≡ participants

  abbrev pub IsStatus : GroupConfig C → Bytes → Randomizer → RequestStatus C → Type 0
  -- Fewer commitments than the threshold, all of validators.
  IsStatus g message randomizer (awaiting_commitments commitments) =
      IsSorted commitments
      × KeysWithin commitments g.validators
      × ((commitments ≡ []) ⊎ (length commitments < g.params.threshold))
  -- A session with some, but not all, of its shares.
  IsStatus g message randomizer (signing pkg participants shares) =
      IsSession g message pkg participants
      × IsSorted shares
      × KeysWithin shares participants
      × ((shares ≡ []) ⊎ (length shares < length participants))
  -- The outcome is that of `aggregate` on the shares of all participants.
  IsStatus g message randomizer (completed participants signature) =
      (a : IsAggregated g message randomizer participants) × (aggregate a.pkg a.shares g.pkp
          (from_randomizer (verifying_key g.pkp) randomizer)
        ≡ ok signature)
  IsStatus g message randomizer (failed reason) =
      (participants : Set I) × (a : IsAggregated g message randomizer participants)
      × (e : C.FrostError) × (aggregate a.pkg a.shares g.pkp
            (from_randomizer (verifying_key g.pkp) randomizer)
          ≡ err e)
      × (reason ≡ error_text e)

  pub record IsGroup (g : GroupConfig C) : Type 0 where
    pub range : InRange g.params
    pub validators-IsSorted : IsSorted g.validators

  pub record IsEntry (g : GroupConfig C) (request_id : Uuid) (e : RequestEntry C) : Type 0 where
    pub own_id : e.request_id ≡ request_id
    pub status-IsStatus : IsStatus g e.message e.randomizer e.status

  -- A ceremony that has not been promoted.
  pub record IsCeremony (c : DkgCeremony C) : Type 0 where
    pub range : InRange c.params
    pub count : length c.validators ≡ c.params.total
    pub validators-IsSorted : IsSorted c.validators
    pub round1-IsSorted : IsSorted c.round1
    pub round2-IsSorted : IsSorted c.round2
    pub finalize-IsSorted : IsSorted c.finalize
    pub round1_within : KeysWithin c.round1 c.validators
    pub round2_within : KeysWithin c.round2 (ordered_pairs (key_set c.validators))
    pub finalize_within : KeysWithin c.finalize c.validators
    pub round2_after : (c.round2 ≡ []) ⊎ (length c.round1 ≡ c.params.total)
    pub finalize_after :
        (c.finalize ≡ []) ⊎ (length c.round2 ≡ c.params.total * (c.params.total - 1))
    pub unfinished : (c.finalize ≡ []) ⊎ (length c.finalize < c.params.total)
    pub agreed : Agreed C c.finalize

  pub record IsValid (s : State C) : Type 0 where
    pub exclusive : (s.group ≡ none) ⊎ (s.ceremony ≡ none)
    pub requests-IsSorted : IsSorted s.requests
    pub no_requests : s.group ≡ none → s.requests ≡ []
    pub group-IsGroup : (g : GroupConfig C) → s.group ≡ some g → IsGroup g
    pub ceremony-IsCeremony : (c : DkgCeremony C) → s.ceremony ≡ some c → IsCeremony c
    pub entry-IsEntry :
        (g : GroupConfig C) (request_id : Uuid) (e : RequestEntry C)
        → s.group ≡ some g
        → get request_id s.requests ≡ some e
        → IsEntry g request_id e
