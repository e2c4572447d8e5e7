-- ===== src/Base/Map/Within.antt =====
-- Which keys an insertion, a key set and the first entries of a map have.
use Prim.Native.Nat.{ℕ, zero, suc}
use mathlib.Core.Path.{◌≡◌, refl, ◌∙◌, sym}
use mathlib.Core.HLevel.{Unit-prop}
use mathlib.Core.Bool.{true}
use mathlib.Core.List.{[], ◌∷◌}
use native.Mathlib.Omega.{arith}
use project_sapphire.Base.Lists.{length, take}
use project_sapphire.Base.Order.{Ord, ==_iff}
use project_sapphire.Base.Map.{Map, Set, key_set, get, contains_key, insert}
use project_sapphire.Base.Map.Laws.{contains-insert, contains-key_set}
use project_sapphire.Base.Map.Sorted.{Above, IsSorted, Above-trans, get_of_Above, key_set-IsSorted}
use project_sapphire.Base.Map.Counting.{KeysWithin, KeysWithin-of_length, contains-head}

module _ {ℓ κ μ} {K : Type ℓ} {V : Type κ} {W : Type μ} ⦃o : Ord K⦄ where
  pub insert-KeysWithin :
      (k : K) (v : V) (a : Map K V) (b : Map K W)
      → contains_key k b ≡ true
      → KeysWithin a b
      → KeysWithin (insert k v a) b
  insert-KeysWithin k v a b here h j m = ground (arith, contains-insert j k v a, ==_iff j k, h j)

  pub key_set-KeysWithin : (a : Map K V) (b : Map K W) → KeysWithin a b → KeysWithin (key_set a) b
  key_set-KeysWithin a b h j m = h j (sym (contains-key_set j a) ∙ m)

  pub KeysWithin-key_set : (a : Map K V) (b : Map K W) → KeysWithin a b → KeysWithin a (key_set b)
  KeysWithin-key_set a b h j m = contains-key_set j b ∙ h j m

pub nil-KeysWithin {ℓ κ μ} :
    {K : Type ℓ} ⦃o : Ord K⦄ (V : Type κ) {W : Type μ} (b : Map K W) → KeysWithin {V = V} [] b
unfolding contains_key get
nil-KeysWithin V b k h = cc

module _ {ℓ κ} {K : Type ℓ} {V : Type κ} ⦃o : Ord K⦄ where
  pub take-Above : (k : K) (n : ℕ) (m : Map K V) → Above k m → Above k (take n m)
  take-Above k zero m a = tt
  take-Above k (suc n) [] a = tt
  take-Above k (suc n) ((j, v) ∷ m) a = (a.0, take-Above k n m a.1)

  pub take-IsSorted : (n : ℕ) (m : Map K V) → IsSorted m → IsSorted (take n m)
  take-IsSorted zero m s = tt
  take-IsSorted (suc n) [] s = tt
  take-IsSorted (suc n) ((j, v) ∷ m) s = (take-Above j n m s.0, take-IsSorted n m s.1)

  pub take-KeysWithin : (n : ℕ) (m : Map K V) → KeysWithin (take n m) m
  unfolding contains_key get
  take-KeysWithin zero m k h = cc
  take-KeysWithin (suc n) [] k h = h
  take-KeysWithin (suc n) ((j, v) ∷ m) k h = ground (arith, take-KeysWithin n m k)

module _ {ℓ} {K : Type ℓ} ⦃o : Ord K⦄ where
  head-eq :
      (x y : K) (u w : Unit {0}) (a b : Set K)
      → Above x a
      → Above y b
      → contains_key x ((y, w) ∷ b) ≡ true
      → contains_key y ((x, u) ∷ a) ≡ true
      → x ≡ y
  unfolding contains_key get
  head-eq x y u w a b sa sb hx hy = ground (
    arith,
    o.eq_of_cmp x y,
    o.cmp_swap x y,
    Above-trans x y b,
    Above-trans y x a,
    get_of_Above x b,
    get_of_Above y a,
  )

  tails_within :
      (x y : K) (u w : Unit {0}) (a b : Set K)
      → x ≡ y
      → Above x a
      → KeysWithin {V = Unit {0}} {W = Unit {0}} ((x, u) ∷ a) ((y, w) ∷ b)
      → KeysWithin a b
  unfolding contains_key get
  tails_within x y u w a b e above h k m =
      ground (arith, h k, ==_iff k x, ==_iff k y, get_of_Above x a above)

  -- Sets in order with the same members are equal.
  pub Set-ext : (a b : Set K) → IsSorted a → IsSorted b → KeysWithin a b → KeysWithin b a → a ≡ b
  unfolding contains_key get
  Set-ext [] [] sa sb h k = refl
  Set-ext [] ((y, u) ∷ b) sa sb h k = let e = k y (contains-head y u b) in cc
  Set-ext ((x, u) ∷ a) [] sa sb h k = let e = h x (contains-head x u a) in cc
  Set-ext ((x, u) ∷ a) ((y, w) ∷ b) sa sb h k =
      let p : x ≡ y =
        head-eq x y u w a b sa.0 sb.0 (h x (contains-head x u a)) (k y (contains-head y w b)) in
      let tails : a ≡ b =
        Set-ext a b sa.1 sb.1 (tails_within x y u w a b p sa.0 h)
          (tails_within y x w u b a (sym p) sb.0 k) in
      cc (Unit-prop u w)

  -- As many members as a set that holds them all.
  pub key_set_of_length {κ} :
      {V : Type κ} (m : Map K V) (s : Set K)
      → IsSorted m
      → IsSorted s
      → KeysWithin m s
      → length m ≡ length s
      → key_set m ≡ s
  key_set_of_length m s sm ss h e =
      Set-ext (key_set m) s (key_set-IsSorted m sm) ss (key_set-KeysWithin m s h)
        (KeysWithin-key_set s m (KeysWithin-of_length m s sm ss h e))
