-- ===== src/Base/Order.antt =====
-- Rust's `Ord`: three-way comparison with its laws, for numbers, pairs and byte strings.
use Prim.Native.Nat.{ℕ, compare, Ordering}
use Prim.Native.Nat.Ordering.{lt, eq, gt}
use mathlib.Core.Path.{◌≡◌, refl}
use mathlib.Core.Logic.{◌≢◌, ◌↔◌, ◌⊎◌}
use mathlib.Core.Bool.{Bool, true, false}
use mathlib.Core.List.{List, [], ◌∷◌}
use native.Mathlib.Omega.{arith}

-- `Ordering::reverse`
abbrev pub reverse : Ordering → Ordering
reverse lt = gt
reverse eq = eq
reverse gt = lt

-- `Ordering::then`
abbrev pub and_then : Ordering → Ordering → Ordering
and_then eq o = o
and_then lt o = lt
and_then gt o = gt

-- What the documentation of the trait asks of `cmp`; its `==` is read as `≡`.
pub record Ord {ℓ} (K : Type ℓ) : Type ℓ where
  pub cmp : K → K → Ordering
  pub cmp_self : (a : K) → cmp a a ≡ eq
  pub eq_of_cmp : (a b : K) → cmp a b ≡ eq → a ≡ b
  pub cmp_swap : (a b : K) → cmp b a ≡ reverse (cmp a b)
  pub cmp_trans : (a b c : K) → cmp a b ≡ lt → cmp b c ≡ lt → cmp a c ≡ lt

pub compare_swap : (a b : ℕ) → compare b a ≡ reverse (compare a b)
compare_swap a b = ground arith

pub compare_trans : (a b c : ℕ) → compare a b ≡ lt → compare b c ≡ lt → compare a c ≡ lt
compare_trans a b c h k = ground arith

pub compare_self : (a : ℕ) → compare a a ≡ eq
compare_self a = ground arith

pub eq_of_compare : (a b : ℕ) → compare a b ≡ eq → a ≡ b
eq_of_compare a b h = ground arith

instance abbrev pub nat_ord : Ord ℕ
nat_ord = record {
  cmp = compare;
  cmp_self = compare_self;
  eq_of_cmp = eq_of_compare;
  cmp_swap = compare_swap;
  cmp_trans = compare_trans;
}

module _ {ℓ κ} {A : Type ℓ} {B : Type κ} ⦃a : Ord A⦄ ⦃b : Ord B⦄ where
  abbrev pub pair_cmp : A × B → A × B → Ordering
  pair_cmp (x, x') (y, y') = and_then (a.cmp x y) (b.cmp x' y')

  pub pair_cmp_self : (p : A × B) → pair_cmp p p ≡ eq
  pair_cmp_self (x, x') = rw (a.cmp_self x) (b.cmp_self x')

  pub eq_of_pair_cmp : (p q : A × B) → pair_cmp p q ≡ eq → p ≡ q
  eq_of_pair_cmp (x, x') (y, y') h = ground (arith, a.eq_of_cmp x y, b.eq_of_cmp x' y')

  pub pair_cmp_swap : (p q : A × B) → pair_cmp q p ≡ reverse (pair_cmp p q)
  pair_cmp_swap (x, x') (y, y') = ground (arith, a.cmp_swap x y, b.cmp_swap x' y')

  pub pair_cmp_trans : (p q r : A × B) → pair_cmp p q ≡ lt → pair_cmp q r ≡ lt → pair_cmp p r ≡ lt
  pair_cmp_trans (x, x') (y, y') (z, z') h k = grind (
    arith,
    a.eq_of_cmp x y,
    a.eq_of_cmp y z,
    a.cmp_trans x y z,
    a.cmp_self x,
    b.cmp_trans x' y' z',
  )

  -- Tuples compare lexicographically.
  instance abbrev pub pair_ord : Ord (A × B)
  pair_ord = record {
    cmp = pair_cmp;
    cmp_self = pair_cmp_self;
    eq_of_cmp = eq_of_pair_cmp;
    cmp_swap = pair_cmp_swap;
    cmp_trans = pair_cmp_trans;
  }

module _ {ℓ} {A : Type ℓ} ⦃a : Ord A⦄ where
  abbrev pub list_cmp : List A → List A → Ordering
  list_cmp [] [] = eq
  list_cmp [] (y ∷ ys) = lt
  list_cmp (x ∷ xs) [] = gt
  list_cmp (x ∷ xs) (y ∷ ys) = and_then (a.cmp x y) (list_cmp xs ys)

  pub list_cmp_self : (xs : List A) → list_cmp xs xs ≡ eq
  list_cmp_self [] = refl
  list_cmp_self (x ∷ xs) = rw (a.cmp_self x) (list_cmp_self xs)

  pub eq_of_list_cmp : (xs ys : List A) → list_cmp xs ys ≡ eq → xs ≡ ys
  eq_of_list_cmp [] [] h = refl
  eq_of_list_cmp [] (y ∷ ys) h = cc
  eq_of_list_cmp (x ∷ xs) [] h = cc
  eq_of_list_cmp (x ∷ xs) (y ∷ ys) h = ground (arith, a.eq_of_cmp x y, eq_of_list_cmp xs ys)

  pub list_cmp_swap : (xs ys : List A) → list_cmp ys xs ≡ reverse (list_cmp xs ys)
  list_cmp_swap [] [] = refl
  list_cmp_swap [] (y ∷ ys) = refl
  list_cmp_swap (x ∷ xs) [] = refl
  list_cmp_swap (x ∷ xs) (y ∷ ys) = ground (arith, a.cmp_swap x y, list_cmp_swap xs ys)

  pub list_cmp_trans :
      (xs ys zs : List A) → list_cmp xs ys ≡ lt → list_cmp ys zs ≡ lt → list_cmp xs zs ≡ lt
  list_cmp_trans [] [] zs h k = cc
  list_cmp_trans [] (y ∷ ys) [] h k = cc
  list_cmp_trans [] (y ∷ ys) (z ∷ zs) h k = refl
  list_cmp_trans (x ∷ xs) [] zs h k = cc
  list_cmp_trans (x ∷ xs) (y ∷ ys) [] h k = cc
  list_cmp_trans (x ∷ xs) (y ∷ ys) (z ∷ zs) h k = grind (
    arith,
    a.eq_of_cmp x y,
    a.eq_of_cmp y z,
    a.cmp_trans x y z,
    a.cmp_self x,
    list_cmp_trans xs ys zs,
  )

  -- Slices and arrays compare lexicographically.
  instance abbrev pub list_ord : Ord (List A)
  list_ord = record {
    cmp = list_cmp;
    cmp_self = list_cmp_self;
    eq_of_cmp = eq_of_list_cmp;
    cmp_swap = list_cmp_swap;
    cmp_trans = list_cmp_trans;
  }

module _ {ℓ} {K : Type ℓ} ⦃o : Ord K⦄ where
  infix 50 ◌==◌
  abbrev pub ◌==◌ : K → K → Bool
  a == b = elim (o.cmp a b) [ eq ↦ true | _ ↦ false ]

  pub ==_refl : (a : K) → (a == a) ≡ true
  ==_refl a = rw (o.cmp_self a, ◌==◌)

  pub ==_iff : (a b : K) → ((a == b) ≡ true) ↔ (a ≡ b)
  ==_iff a b = ground (arith, o.eq_of_cmp a b, ==_refl a)

  -- Of two keys that differ exactly one is the greater.
  pub one_greater :
      (a b : K)
      → a ≢ b
      → ((o.cmp b a ≡ gt) × (o.cmp a b ≢ gt)) ⊎ ((o.cmp b a ≢ gt) × (o.cmp a b ≡ gt))
  one_greater a b n = ground (arith, o.cmp_swap a b, o.eq_of_cmp a b)
