-- ===== src/Chain/Validity/Ceremony.antt =====
-- The rounds of key generation keep the ceremony valid, and a promotion makes a valid group.
use native.Mathlib.Nat.{mul-le-mul}
use project_sapphire.Base.{
  ℕ, zero, suc, ◌+◌, ◌-◌, ◌*◌, ◌%◌, ◌≤◌, ◌<◌, ◌≡◌, refl, true, false, some, [], ◌∷◌, inl, inr, Ord,
  pair_ord, length, arith, eqb→eq, ne_of_eqb, sym, ap, ◌∙◌, ◌==◌,
}
use project_sapphire.Base.Map.{Map, Set, key_set, get, contains_key, insert}
use project_sapphire.Base.Map.Laws.{get-insert, contains-key_set}
use project_sapphire.Base.Map.Sorted.{
  IsSorted, insert-IsSorted, key_set-IsSorted, length-key_set, map_eq_iff,
}
use project_sapphire.Base.Map.Counting.{
  KeysWithin, length-le_of_KeysWithin, KeysWithin-of_length, ordered_pairs, contains-ordered_pairs,
  length-ordered_pairs, ordered_pairs-IsSorted,
}
use project_sapphire.Base.Map.Within.{nil-KeysWithin, insert-KeysWithin}
use project_sapphire.Core.{MpcParams, u16_mod}
use project_sapphire.Frost.{Ciphersuite, IsLawful}
use project_sapphire.Chain.Tx.{EncPublicKey, Sealed}
use project_sapphire.Chain.State.{
  DkgCeremony, r1_complete, r2_complete, finalize_complete, ordered_pair_count,
}
use project_sapphire.Chain.Apply.{agrees_with_first}
use project_sapphire.Chain.Validity.{InRange, Agreed, IsCeremony}

square_lt : (n : ℕ) → n < u16_mod → n * (n - 1) < 4294967296
square_lt n h =
    let bound : n * (n - 1) ≤ 65535 * 65535 =
      mul-le-mul {n₂ = 65535} {m₂ = 65535} (omega arith) (omega arith) in
    omega arith

-- On 16-bit totals the wrapping product is the number of ordered pairs.
pub ordered_pair_count-eq : (n : ℕ) → n < u16_mod → ordered_pair_count n ≡ n * (n - 1)
ordered_pair_count-eq zero h = refl
ordered_pair_count-eq (suc n) h =
    let e : (suc n + 18446744073709551615) % 18446744073709551616 ≡ n = omega arith in
    let p : suc n - 1 ≡ n = omega arith in rw (e, p) (omega (arith, rw p at (square_lt (suc n) h)))

module _ {I : Type 0} ⦃o : Ord I⦄ {C : Ciphersuite I} where
  open C use {PublicKeyPackage, Round1Package, verifying_key, verifying_shares, verifying_share_eq}

  abbrev pub pairs : DkgCeremony C → Set (I × I)
  pairs c = ordered_pairs (key_set c.validators)

  key_count : (c : DkgCeremony C) → IsCeremony c → length (key_set c.validators) ≡ c.params.total
  key_count c v = length-key_set c.validators ∙ v.count

  pub pairs-IsSorted : (c : DkgCeremony C) → IsCeremony c → IsSorted (pairs c)
  pairs-IsSorted c v =
      ordered_pairs-IsSorted (key_set c.validators)
        (key_set-IsSorted c.validators v.validators-IsSorted)

  pub length-pairs :
      (c : DkgCeremony C) → IsCeremony c → length (pairs c) ≡ c.params.total * (c.params.total - 1)
  length-pairs c v =
      length-ordered_pairs (key_set c.validators)
        (key_set-IsSorted c.validators v.validators-IsSorted)
      ∙ ap (λ (n : ℕ). n * (n - 1)) (key_count c v)

  -- Round 1 is complete when every validator has its package.
  pub contains-round1 :
      (c : DkgCeremony C) (i : I)
      → IsCeremony c
      → length c.round1 ≡ c.params.total
      → contains_key i c.validators ≡ true
      → contains_key i c.round1 ≡ true
  contains-round1 c i v full known =
      KeysWithin-of_length c.round1 c.validators v.round1-IsSorted v.validators-IsSorted
        v.round1_within (full ∙ sym v.count) i known

  -- Round 2 is complete when every ordered pair has its envelope.
  pub contains-round2 :
      (c : DkgCeremony C) (p : I × I)
      → IsCeremony c
      → length c.round2 ≡ c.params.total * (c.params.total - 1)
      → contains_key p (pairs c) ≡ true
      → contains_key p c.round2 ≡ true
  contains-round2 c p v full known =
      KeysWithin-of_length c.round2 (pairs c) v.round2-IsSorted (pairs-IsSorted c v) v.round2_within
        (full ∙ sym (length-pairs c v)) p known

  pub round1-IsCeremony :
      (c : DkgCeremony C) (from : I) (pkg : Round1Package)
      → IsCeremony c
      → contains_key from c.validators ≡ true
      → contains_key from c.round1 ≡ false
      → IsCeremony (record c { round1 = insert from pkg c.round1 })
  round1-IsCeremony c from pkg v known fresh = record {
    range = v.range;
    count = v.count;
    validators-IsSorted = v.validators-IsSorted;
    round1-IsSorted = insert-IsSorted from pkg c.round1 v.round1-IsSorted;
    round2-IsSorted = v.round2-IsSorted;
    finalize-IsSorted = v.finalize-IsSorted;
    round1_within = insert-KeysWithin from pkg c.round1 c.validators known v.round1_within;
    round2_within = v.round2_within;
    finalize_within = v.finalize_within;
    round2_after = ground (arith, contains-round1 c from v);
    finalize_after = v.finalize_after;
    unfinished = v.unfinished;
    agreed = v.agreed;
  }

  contains-pair :
      (c : DkgCeremony C) (from to : I)
      → (from == to) ≡ false
      → contains_key from c.validators ≡ true
      → contains_key to c.validators ≡ true
      → contains_key (from, to) (pairs c) ≡ true
  contains-pair c from to h kf kt = ground (
    arith,
    contains-ordered_pairs from to (key_set c.validators),
    contains-key_set from c.validators,
    contains-key_set to c.validators,
    o.cmp_swap from to,
  )

  pub round2-IsCeremony :
      (c : DkgCeremony C) (from to : I) (sealed : Sealed)
      → IsCeremony c
      → r1_complete c ≡ true
      → (from == to) ≡ false
      → contains_key from c.validators ≡ true
      → contains_key to c.validators ≡ true
      → contains_key (from, to) c.round2 ≡ false
      → IsCeremony (record c { round2 = insert (from, to) sealed c.round2 })
  unfolding r1_complete
  round2-IsCeremony c from to sealed v ready h kf kt fresh =
      let listed : contains_key (from, to) (pairs c) ≡ true = contains-pair c from to h kf kt in
      record {
        range = v.range;
        count = v.count;
        validators-IsSorted = v.validators-IsSorted;
        round1-IsSorted = v.round1-IsSorted;
        round2-IsSorted = insert-IsSorted (from, to) sealed c.round2 v.round2-IsSorted;
        finalize-IsSorted = v.finalize-IsSorted;
        round1_within = v.round1_within;
        round2_within =
            insert-KeysWithin (from, to) sealed c.round2 (pairs c) listed v.round2_within;
        finalize_within = v.finalize_within;
        round2_after = inr (eqb→eq _ _ ready);
        finalize_after = ground (arith, contains-round2 c (from, to) v);
        unfinished = v.unfinished;
        agreed = v.agreed;
      }

  agrees_with_all :
      IsLawful C
      → (pkp : PublicKeyPackage) (m : Map I PublicKeyPackage) → agrees_with_first C pkp m ≡ true
      → Agreed C m
      → (j : I) (q : PublicKeyPackage) → get j m ≡ some q
      → (verifying_key pkp ≡ verifying_key q) × (verifying_shares pkp ≡ verifying_shares q)
  unfolding agrees_with_first get
  agrees_with_all L pkp [] h a j q e = cc
  agrees_with_all L pkp ((k, first) ∷ rest) h a j q e =
      let heads : get k ((k, first) ∷ rest) ≡ some first = ground (arith, o.cmp_self k) in
      ground (
        arith,
        a k j first q heads,
        L.verifying_key_eq_iff (verifying_key first) (verifying_key pkp),
        map_eq_iff verifying_share_eq L.verifying_share_eq_iff (verifying_shares first)
            (verifying_shares pkp),
      )

  pub insert-Agreed :
      IsLawful C
      → (from : I) (pkp : PublicKeyPackage) (m : Map I PublicKeyPackage)
      → agrees_with_first C pkp m ≡ true
      → Agreed C m
      → Agreed C (insert from pkp m)
  insert-Agreed L from pkp m h a i j p q ei ej = ground (
    arith,
    get-insert i from pkp m,
    get-insert j from pkp m,
    agrees_with_all L pkp m h a i p,
    agrees_with_all L pkp m h a j q,
    a i j p q,
  )

  pub finalize-IsCeremony :
      IsLawful C
      → (c : DkgCeremony C) (from : I) (pkp : PublicKeyPackage) → IsCeremony c
      → r2_complete c ≡ true
      → contains_key from c.validators ≡ true
      → contains_key from c.finalize ≡ false
      → agrees_with_first C pkp c.finalize ≡ true
      → finalize_complete (record c { finalize = insert from pkp c.finalize }) ≡ false
      → IsCeremony (record c { finalize = insert from pkp c.finalize })
  unfolding r2_complete finalize_complete
  finalize-IsCeremony L c from pkp v ready known fresh agrees open_still =
      let within : KeysWithin (insert from pkp c.finalize) c.validators =
        insert-KeysWithin from pkp c.finalize c.validators known v.finalize_within in
      let sorted : IsSorted (insert from pkp c.finalize) =
        insert-IsSorted from pkp c.finalize v.finalize-IsSorted in
      record {
        range = v.range;
        count = v.count;
        validators-IsSorted = v.validators-IsSorted;
        round1-IsSorted = v.round1-IsSorted;
        round2-IsSorted = v.round2-IsSorted;
        finalize-IsSorted = sorted;
        round1_within = v.round1_within;
        round2_within = v.round2_within;
        finalize_within = within;
        round2_after = v.round2_after;
        finalize_after = inr (eqb→eq _ _ ready ∙ ordered_pair_count-eq c.params.total v.range.1);
        unfinished = inr (
            omega (
              arith,
              length-le_of_KeysWithin (insert from pkp c.finalize) c.validators sorted
                  v.validators-IsSorted within,
              v.count,
              ne_of_eqb (length (insert from pkp c.finalize)) c.params.total open_still,
            ));
        agreed = insert-Agreed L from pkp c.finalize agrees v.agreed;
      }

  pub begin-IsCeremony :
      (params : MpcParams) (validators : Map I EncPublicKey)
      → InRange params
      → IsSorted validators
      → length validators ≡ params.total
      → IsCeremony {C = C} (record {
        params = params;
        validators = validators;
        round1 = [];
        round2 = [];
        finalize = [];
      })
  unfolding get
  begin-IsCeremony params validators range sorted count = record {
    range = range;
    count = count;
    validators-IsSorted = sorted;
    round1-IsSorted = tt;
    round2-IsSorted = tt;
    finalize-IsSorted = tt;
    round1_within = nil-KeysWithin _ _;
    round2_within = nil-KeysWithin _ _;
    finalize_within = nil-KeysWithin _ _;
    round2_after = inl refl;
    finalize_after = inl refl;
    unfinished = inl refl;
    agreed = λ i j p q ei ej. cc;
  }
