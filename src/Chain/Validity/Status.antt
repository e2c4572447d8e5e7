-- ===== src/Chain/Validity/Status.antt =====
-- Commitments and shares keep a request's status valid.
use project_sapphire.Base.{
  ℕ, suc, ◌%◌, ◌≤◌, ◌<◌, ◌≡◌, refl, true, false, ◌⊎◌, inl, inr, Ord, length, take, length-take, ok,
  err, arith, leb, eqb, eqb→eq, ne_of_eqb, if◌then◌else◌, Bool-cases, Result, ◌∙◌,
}
use project_sapphire.Base.Map.{Map, Set, key_set, contains_key, insert}
use project_sapphire.Base.Map.Sorted.{
  IsSorted, insert-IsSorted, length-insert, key_set-IsSorted, length-key_set,
}
use project_sapphire.Base.Map.Counting.{KeysWithin, length-le_of_KeysWithin}
use project_sapphire.Base.Map.Within.{
  nil-KeysWithin, insert-KeysWithin, key_set-KeysWithin, take-IsSorted, take-KeysWithin,
  key_set_of_length,
}
use project_sapphire.Core.{Bytes, u16_mod}
use project_sapphire.Frost.{Ciphersuite}
use project_sapphire.Chain.State.{RequestStatus, awaiting_commitments, signing, GroupConfig}
use project_sapphire.Chain.Apply.{advance, record_commitment, settle, conclude, record_share}
use project_sapphire.Chain.Effects.{record_commitment-effect, record_share-effect}
use project_sapphire.Chain.Validity.{IsSession, IsAggregated, IsStatus, IsGroup}

-- Below the threshold, one more commitment does not wrap the 16-bit count.
count_fits : (t n : ℕ) → t < u16_mod → ((n ≡ 0) ⊎ (n < t)) → suc n % u16_mod ≡ suc n
count_fits t n h k = omega arith

module _ {I : Type 0} ⦃o : Ord I⦄ {C : Ciphersuite I} where
  open C use {
    PublicKeyPackage, Randomizer, SigningCommitments, SigningPackage, SignatureShare, Signature,
    signing_package, aggregate, from_randomizer, verifying_key,
  }

  -- The first `threshold` commitments make a session.
  take-IsSession :
      (g : GroupConfig C) (message : Bytes) (commitments : Map I SigningCommitments)
      → IsSorted commitments
      → KeysWithin commitments g.validators
      → g.params.threshold ≤ length commitments
      → let chosen = take g.params.threshold commitments in
        IsSession g message (signing_package chosen message) (key_set chosen)
  take-IsSession g message commitments sorted within enough =
      let t = g.params.threshold in
      let chosen = take t commitments in
      record {
        participants-IsSorted = key_set-IsSorted chosen (take-IsSorted t commitments sorted);
        participants_within =
            key_set-KeysWithin chosen g.validators
              (λ k m. within k (take-KeysWithin t commitments k m));
        as_many = length-key_set chosen ∙ length-take t commitments enough;
        commitments = chosen;
        committed = refl;
        packed = refl;
      }

  count-advance-IsStatus :
      (g : GroupConfig C) (message : Bytes) (randomizer : Randomizer)
      (commitments : Map I SigningCommitments)
      → IsSorted commitments
      → KeysWithin commitments g.validators
      → length commitments % u16_mod ≡ length commitments
      → IsStatus g message randomizer (advance g message commitments)
  unfolding advance
  count-advance-IsStatus g message randomizer commitments sorted within fits =
      elim (Bool-cases (leb g.params.threshold (length commitments % u16_mod))) [
        | inl e ↦
            rw (e, advance)
              (
                take-IsSession g message commitments sorted within (ground arith),
                tt,
                nil-KeysWithin _ _,
                inl refl,
              )
        | inr e ↦ rw (e, advance) (sorted, within, inr (ground arith))
      ]

  advance-IsStatus :
      (g : GroupConfig C) (message : Bytes) (randomizer : Randomizer) (validator : I)
      (c : SigningCommitments) (commitments : Map I SigningCommitments)
      → IsGroup g
      → contains_key validator g.validators ≡ true
      → contains_key validator commitments ≡ false
      → IsStatus g message randomizer (awaiting_commitments commitments)
      → IsStatus g message randomizer (advance g message (insert validator c commitments))
  advance-IsStatus g message randomizer validator c commitments group known fresh status =
      count-advance-IsStatus g message randomizer (insert validator c commitments)
        (insert-IsSorted validator c commitments status.0)
        (insert-KeysWithin validator c commitments g.validators known status.1)
        (rw (length-insert validator c commitments fresh)
          (count_fits g.params.threshold (length commitments) group.range.0 (ground arith)))

  pub record_commitment-IsStatus :
      (g : GroupConfig C) (message : Bytes) (randomizer : Randomizer) (validator : I)
      (c : SigningCommitments) (old new : RequestStatus C)
      → IsGroup g
      → contains_key validator g.validators ≡ true
      → record_commitment g message validator c old ≡ ok new
      → IsStatus g message randomizer old
      → IsStatus g message randomizer new
  record_commitment-IsStatus g message randomizer validator c old new group known h status =
      let (commitments, before, fresh, after) =
        record_commitment-effect g message validator c old new h in
      rw after (
        advance-IsStatus g message randomizer validator c commitments group known fresh
          (rw before at status))

  settle-IsStatus :
      (g : GroupConfig C) (message : Bytes) (randomizer : Randomizer) (participants : Set I)
      (a : IsAggregated g message randomizer participants) (r : Result Signature C.FrostError)
      → aggregate a.pkg a.shares g.pkp (from_randomizer (verifying_key g.pkp) randomizer) ≡ r
      → IsStatus g message randomizer (settle participants r)
  unfolding settle
  settle-IsStatus g message randomizer participants a (ok signature) h = (a, h)
  settle-IsStatus g message randomizer participants a (err e) h = (participants, a, e, h, refl)

  conclude-IsStatus :
      (g : GroupConfig C) (message : Bytes) (randomizer : Randomizer) (pkg : SigningPackage)
      (participants : Set I) (shares : Map I SignatureShare)
      → IsSession g message pkg participants
      → key_set shares ≡ participants
      → IsStatus g message randomizer (conclude g randomizer pkg participants shares)
  unfolding conclude
  conclude-IsStatus g message randomizer pkg participants shares session contributed =
      settle-IsStatus g message randomizer participants
        (record { pkg = pkg; session = session; shares = shares; contributed = contributed }) _ refl

  share-IsStatus :
      (g : GroupConfig C) (message : Bytes) (randomizer : Randomizer) (pkg : SigningPackage)
      (participants : Set I) (shares : Map I SignatureShare)
      → IsSession g message pkg participants
      → IsSorted shares
      → KeysWithin shares participants
      → IsStatus g message randomizer (
          if eqb (length shares) (length participants)
          then conclude g randomizer pkg participants shares
          else signing pkg participants shares)
  share-IsStatus g message randomizer pkg participants shares session sorted within =
      elim (Bool-cases (eqb (length shares) (length participants))) [
        | inl e ↦ rw e (
            conclude-IsStatus g message randomizer pkg participants shares session (
              key_set_of_length shares participants sorted session.participants-IsSorted within
                (eqb→eq _ _ e)))
        | inr e ↦ rw e (
          session,
          sorted,
          within,
          inr (
              omega (
                arith,
                length-le_of_KeysWithin shares participants sorted session.participants-IsSorted
                    within,
                ne_of_eqb (length shares) (length participants) e,
              )),
        )
      ]

  pub record_share-IsStatus :
      (g : GroupConfig C) (message : Bytes) (randomizer : Randomizer) (validator : I)
      (share : SignatureShare) (old new : RequestStatus C)
      → record_share g randomizer validator share old ≡ ok new
      → IsStatus g message randomizer old
      → IsStatus g message randomizer new
  record_share-IsStatus g message randomizer validator share old new h status =
      let (pkg, participants, shares, before, chosen, fresh, after) =
        record_share-effect g randomizer validator share old new h in
      let (session, sorted, within, few) : IsStatus g message randomizer
          (signing pkg participants shares) =
        rw before at status in
      rw after (
        share-IsStatus g message randomizer pkg participants (insert validator share shares) session
          (insert-IsSorted validator share shares sorted)
          (insert-KeysWithin validator share shares participants chosen within))
