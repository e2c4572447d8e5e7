-- ===== src/Chain/Rounds.antt =====
-- What the counts of the key generation rounds mean, and when a ceremony becomes a group.
use project_sapphire.Base.{
  ◌<◌, ◌≡◌, refl, true, none, some, [], ◌∷◌, ◌⊎◌, inl, inr, ◌↔◌, Ord, pair_ord, ok, arith, ◌≢◌,
  ==_iff, length, eqb, eqb→eq, eq→eqb, ne_of_eqb, Bool-cases, sym, ◌∙◌,
}
use project_sapphire.Base.Map.{Map, get, contains_key, insert, key_set}
use project_sapphire.Base.Map.Laws.{contains-key_set, contains-get, get-insert_self}
use project_sapphire.Base.Map.Sorted.{IsSorted, insert-IsSorted}
use project_sapphire.Base.Map.Counting.{
  KeysWithin, length-le_of_KeysWithin, KeysWithin-of_length, contains-ordered_pairs,
}
use project_sapphire.Base.Map.Within.{insert-KeysWithin}
use project_sapphire.Frost.{Ciphersuite, IsLawful}
use project_sapphire.Chain.Tx.{dkg_finalize}
use project_sapphire.Chain.State.{
  DkgCeremony, GroupConfig, State, r1_complete, r2_complete, finalize_complete,
}
use project_sapphire.Chain.Apply.{promote, apply_tx}
use project_sapphire.Chain.Effects.{dkg_finalize-effect}
use project_sapphire.Chain.Validity.{Agreed, IsCeremony, IsValid}
use project_sapphire.Chain.Validity.Ceremony.{
  pairs, pairs-IsSorted, length-pairs, ordered_pair_count-eq, contains-round1, contains-round2,
  insert-Agreed,
}

module _ {I : Type 0} ⦃o : Ord I⦄ {C : Ciphersuite I} where
  open C use {PublicKeyPackage, verifying_key, verifying_shares}

  pairs_listed :
      (c : DkgCeremony C)
      → ((i j : I)
          → contains_key i c.validators ≡ true
          → contains_key j c.validators ≡ true
          → i ≢ j
          → contains_key (i, j) c.round2 ≡ true)
      → KeysWithin (pairs c) c.round2
  pairs_listed c all (i, j) listed =
      let facts = contains-ordered_pairs i j (key_set c.validators) in
      all i j (ground (arith, facts, contains-key_set i c.validators))
        (ground (arith, facts, contains-key_set j c.validators))
        (λ p. ground (arith, facts, ==_iff j i))

  -- In a valid ceremony the two counts say what the comments say of them: round 1 is complete
  -- exactly when every validator has a package in it, and round 2 exactly when every ordered pair
  -- of two different validators has an envelope.
  pub rounds_complete_iff :
      (c : DkgCeremony C)
      → IsCeremony c
      → ((r1_complete c ≡ true)
          ↔ ((i : I) → contains_key i c.validators ≡ true → contains_key i c.round1 ≡ true))
        × ((r2_complete c ≡ true) ↔ (
            (i j : I)
            → contains_key i c.validators ≡ true
            → contains_key j c.validators ≡ true
            → i ≢ j
            → contains_key (i, j) c.round2 ≡ true))
  unfolding r1_complete r2_complete
  rounds_complete_iff c v =
      let count = ordered_pair_count-eq c.params.total v.range.1 in
      (
        (
          λ full i known. contains-round1 c i v (eqb→eq _ _ full) known,
          λ all. eq→eqb _ _ (
              omega (
                arith,
                length-le_of_KeysWithin c.round1 c.validators v.round1-IsSorted
                    v.validators-IsSorted v.round1_within,
                length-le_of_KeysWithin c.validators c.round1 v.validators-IsSorted
                    v.round1-IsSorted all,
                v.count,
              )),
        ),
        (
          λ full i j ki kj differ.
              contains-round2 c (i, j) v (eqb→eq _ _ full ∙ count)
                (rw
                  (
                    contains-ordered_pairs i j (key_set c.validators),
                    contains-key_set,
                    contains-key_set,
                    ki,
                    kj,
                  )
                  (ground (arith, ==_iff j i, differ))),
          λ all. eq→eqb _ _ (
              omega (
                arith,
                count,
                length-pairs c v,
                length-le_of_KeysWithin c.round2 (pairs c) v.round2-IsSorted (pairs-IsSorted c v)
                    v.round2_within,
                length-le_of_KeysWithin (pairs c) c.round2 (pairs-IsSorted c v) v.round2-IsSorted
                    (pairs_listed c all),
              )),
        ),
      )

  promoted :
      (s : State C) (c : DkgCeremony C) (m : Map I PublicKeyPackage) (i : I) (q : PublicKeyPackage)
      → get i m ≡ some q
      → (k : I) × (p : PublicKeyPackage) × (get k m ≡ some p)
        × (promote s c m ≡ record s {
          ceremony = none;
          group = some (record { params = c.params; pkp = p; validators = key_set c.validators });
        })
  unfolding promote get
  promoted s c [] i q h = cc
  promoted s c ((k, p) ∷ rest) i q h = (k, p, ground (arith, o.cmp_self k), refl)

  -- Every validator of the ceremony has submitted a package, and all of them agree with the group's.
  pub record IsAgreedGroup (c : DkgCeremony C) (packages : Map I PublicKeyPackage)
      (g : GroupConfig C) : Type 0 where
    pub same_params : g.params ≡ c.params
    pub same_validators : g.validators ≡ key_set c.validators
    pub everyone :
        (i : I)
        → contains_key i c.validators ≡ true
        → (p : PublicKeyPackage) × (get i packages ≡ some p)
          × (verifying_key p ≡ verifying_key g.pkp)
          × (verifying_shares p ≡ verifying_shares g.pkp)

  full-IsAgreedGroup :
      (c : DkgCeremony C) (packages : Map I PublicKeyPackage) (k : I) (p : PublicKeyPackage)
      → IsSorted packages
      → IsSorted c.validators
      → KeysWithin packages c.validators
      → length packages ≡ length c.validators
      → Agreed C packages
      → get k packages ≡ some p
      → IsAgreedGroup c packages
          (record { params = c.params; pkp = p; validators = key_set c.validators })
  full-IsAgreedGroup c packages k p sp sv within full agreed chosen = record {
    same_params = refl;
    same_validators = refl;
    everyone = λ i known.
        let (q, there) =
          contains-get i packages
            (KeysWithin-of_length packages c.validators sp sv within full i known) in
        let (keys, shares) = agreed i k q p there chosen in (q, there, keys, shares);
  }

  -- An accepted finalization either adds a package to a ceremony that still lacks one, or ends the
  -- ceremony: then the group has the ceremony's parameters and validators, every validator has
  -- submitted a package, and each agrees with the group's in its key and its shares.
  pub dkg_finalize-promotes :
      (s t : State C) (from : I) (pkp : PublicKeyPackage)
      → IsLawful C
      → IsValid s
      → apply_tx s (dkg_finalize from pkp) ≡ ok t
      → (c : DkgCeremony C) × (s.ceremony ≡ some c)
        × (let packages = insert from pkp c.finalize in
            ((length packages < c.params.total)
              × (t ≡ record s { ceremony = some (record c { finalize = packages }) }))
            ⊎ ((g : GroupConfig C) × IsAgreedGroup c packages g
                × (t ≡ record s { ceremony = none; group = some g })))
  unfolding apply_tx finalize_complete
  dkg_finalize-promotes s t from pkp L v h =
      let (c, at_work, ready, known, fresh, agrees, made) = dkg_finalize-effect s t from pkp h in
      let now : IsCeremony c = v.ceremony-IsCeremony c at_work in
      let packages = insert from pkp c.finalize in
      let sorted : IsSorted packages = insert-IsSorted from pkp c.finalize now.finalize-IsSorted in
      let within : KeysWithin packages c.validators =
        insert-KeysWithin from pkp c.finalize c.validators known now.finalize_within in
      let few =
        length-le_of_KeysWithin packages c.validators sorted now.validators-IsSorted within in
      (
        c,
        at_work,
        elim (Bool-cases (eqb (length packages) c.params.total)) [
          | inl full ↦
              let (k, p, chosen, result) =
                promoted s (record c { finalize = packages }) packages from pkp
                  (get-insert_self from pkp c.finalize) in
              inr (
                record { params = c.params; pkp = p; validators = key_set c.validators },
                full-IsAgreedGroup c packages k p sorted now.validators-IsSorted within
                    (eqb→eq _ _ full ∙ sym now.count)
                    (insert-Agreed L from pkp c.finalize agrees now.agreed) chosen,
                made ∙ rw full result,
              )
          | inr waits ↦ inl (
            omega (arith, few, now.count, ne_of_eqb (length packages) c.params.total waits),
            made ∙ rw waits,
          )
        ],
      )
