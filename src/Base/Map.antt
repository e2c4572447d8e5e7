-- ===== src/Base/Map.antt =====
-- `BTreeMap` and `BTreeSet` of the standard library: association lists in key order.
pub mod Laws
pub mod Sorted
pub mod Counting
pub mod Within
use Prim.Native.Nat.{Ordering}
use mathlib.Core.Bool.{Bool, true, false, not, ◌&&◌, ◌||◌}
use mathlib.Core.Option.{Option, none, some}
use mathlib.Core.List.{List, [], ◌∷◌, map}
use project_sapphire.Base.Tests.{is_some, if◌then◌else◌}
use project_sapphire.Base.Order.{Ord, ◌==◌}

abbrev pub Map {ℓ κ} : Type ℓ → Type κ → Type (ℓ ⊔ κ)
Map K V = List (K × V)

-- `BTreeSet<K>` is `BTreeMap<K, ()>`.
abbrev pub Set {ℓ} : Type ℓ → Type ℓ
Set K = Map K (Unit {0})

module _ {ℓ κ} {K : Type ℓ} {V : Type κ} where
  -- `.keys().copied().collect::<BTreeSet<_>>()` of a map, which is in order already.
  unfoldable pub key_set : Map K V → Set K
  key_set [] = []
  key_set ((k, v) ∷ m) = (k, tt) ∷ key_set m

  -- `.keys()`
  unfoldable pub keys : Map K V → List K
  keys [] = []
  keys ((k, v) ∷ m) = k ∷ keys m

module _ {ℓ κ} {K : Type ℓ} {V : Type κ} ⦃o : Ord K⦄ where
  unfoldable pub get : K → Map K V → Option V
  get k [] = none
  get k ((j, v) ∷ m) = if k == j then some v else get k m

  unfoldable pub contains_key : K → Map K V → Bool
  contains_key k m = is_some (get k m)

  -- The key that is there stays, and its value is replaced.
  unfoldable pub insert : K → V → Map K V → Map K V
  insert k v [] = (k, v) ∷ []
  insert k v ((j, w) ∷ m) =
      let rest = insert k v m in
      elim (o.cmp k j) [
        | Ordering.lt ↦ (k, v) ∷ (j, w) ∷ m
        | Ordering.eq ↦ (j, v) ∷ m
        | Ordering.gt ↦ (j, w) ∷ rest
      ]

  unfoldable pub remove : K → Map K V → Map K V
  remove k [] = []
  remove k ((j, w) ∷ m) = let rest = remove k m in if k == j then rest else (j, w) ∷ rest

module _ {ℓ} {K : Type ℓ} ⦃o : Ord K⦄ where
  -- `.into_iter().collect::<BTreeSet<_>>()`
  unfoldable pub collect_set : List K → Set K
  unfolding insert
  collect_set [] = []
  collect_set (k ∷ ks) = insert k tt (collect_set ks)

  -- `==` of two sets
  unfoldable pub set_eq : Set K → Set K → Bool
  set_eq [] [] = true
  set_eq [] (b ∷ bs) = false
  set_eq (a ∷ as') [] = false
  set_eq ((a, _) ∷ as') ((b, _) ∷ bs) = a == b && set_eq as' bs

module _ {ℓ κ} {K : Type ℓ} {V : Type κ} ⦃o : Ord K⦄ (same : V → V → Bool) where
  -- `==` of two maps, by the `==` of their values
  unfoldable pub map_eq : Map K V → Map K V → Bool
  map_eq [] [] = true
  map_eq [] (b ∷ n) = false
  map_eq (a ∷ m) [] = false
  map_eq ((j, v) ∷ m) ((k, w) ∷ n) = j == k && same v w && map_eq m n
