-- ===== src/Base/Map/Sorted.antt =====
-- The key order of a map, and counting its keys: insertions, removals and the pigeonhole principle.
use Prim.Native.Nat.{suc}
use Prim.Native.Nat.Ordering.{lt}
use mathlib.Core.Path.{◌≡◌, refl, ap}
use mathlib.Core.Logic.{◌↔◌, inl, inr}
use mathlib.Core.Bool.{Bool, true, false}
use mathlib.Core.Option.{none}
use mathlib.Core.List.{List, [], ◌∷◌}
use native.Mathlib.Omega.{arith}
use project_sapphire.Base.Tests.{Bool-cases}
use project_sapphire.Base.Lists.{length}
use project_sapphire.Base.Order.{Ord, ◌==◌, ==_iff}
use project_sapphire.Base.Map.{
  Map, Set, key_set, get, contains_key, insert, remove, collect_set, set_eq, map_eq,
}

module _ {ℓ κ} {K : Type ℓ} {V : Type κ} ⦃o : Ord K⦄ where
  -- Every key of the map comes after `k`.
  abbrev pub Above : K → Map K V → Type 0
  Above k [] = Unit {0}
  Above k ((j, v) ∷ m) = (o.cmp k j ≡ lt) × Above k m

  abbrev pub IsSorted : Map K V → Type 0
  IsSorted [] = Unit {0}
  IsSorted ((k, v) ∷ m) = Above k m × IsSorted m

  pub Above-trans : (i j : K) (m : Map K V) → o.cmp i j ≡ lt → Above j m → Above i m
  Above-trans i j [] h a = tt
  Above-trans i j ((k, v) ∷ m) h a = (o.cmp_trans i j k h a.0, Above-trans i j m h a.1)

  pub get_of_Above : (k : K) (m : Map K V) → Above k m → get k m ≡ none
  unfolding get
  get_of_Above k [] a = refl
  get_of_Above k ((j, v) ∷ m) a = ground (arith, get_of_Above k m a.1)

  insert-Above :
      (i k : K) (v : V) (m : Map K V) → o.cmp i k ≡ lt → Above i m → Above i (insert k v m)
  unfolding insert
  insert-Above i k v [] h a = (h, tt)
  insert-Above i k v ((j, w) ∷ m) h a = ground (arith, insert-Above i k v m h a.1)

  pub insert-IsSorted : (k : K) (v : V) (m : Map K V) → IsSorted m → IsSorted (insert k v m)
  unfolding insert
  insert-IsSorted k v [] s = (tt, tt)
  insert-IsSorted k v ((j, w) ∷ m) s =
      ground
        (arith, o.cmp_swap k j, Above-trans k j m, insert-IsSorted k v m s.1, insert-Above j k v m)

  remove-Above : (i k : K) (m : Map K V) → Above i m → Above i (remove k m)
  unfolding remove
  remove-Above i k [] a = tt
  remove-Above i k ((j, w) ∷ m) a = ground (arith, remove-Above i k m a.1)

  pub remove-IsSorted : (k : K) (m : Map K V) → IsSorted m → IsSorted (remove k m)
  unfolding remove
  remove-IsSorted k [] s = tt
  remove-IsSorted k ((j, w) ∷ m) s = ground (arith, remove-IsSorted k m s.1, remove-Above j k m s.0)

  remove_of_none : (k : K) (m : Map K V) → get k m ≡ none → remove k m ≡ m
  unfolding remove get
  remove_of_none k [] h = refl
  remove_of_none k ((j, w) ∷ m) h = ground (arith, remove_of_none k m)

  -- A new key makes the map longer by one.
  pub length-insert :
      (k : K) (v : V) (m : Map K V)
      → contains_key k m ≡ false
      → length (insert k v m) ≡ suc (length m)
  unfolding contains_key get insert
  length-insert k v [] h = refl
  length-insert k v ((j, w) ∷ m) h = ground (arith, length-insert k v m)

  -- A key that is there goes, and no other.
  pub length-remove :
      (k : K) (m : Map K V)
      → IsSorted m
      → contains_key k m ≡ true
      → suc (length (remove k m)) ≡ length m
  unfolding contains_key get remove
  length-remove k [] s h = cc
  length-remove k ((j, w) ∷ m) s h = elim (Bool-cases (k == j)) [
    | inl e ↦ rw e (
        ap suc (
          ap length
            (remove_of_none k m (get_of_Above k m (let p : k ≡ j = (==_iff k j).0 e in rw p s.0)))))
    | inr e ↦ ground (arith, length-remove k m s.1)
  ]

module _ {ℓ κ} {K : Type ℓ} {V : Type κ} ⦃o : Ord K⦄ where
  key_set-Above : (i : K) (m : Map K V) → Above i m → Above i (key_set m)
  unfolding key_set
  key_set-Above i [] a = tt
  key_set-Above i ((k, v) ∷ m) a = (a.0, key_set-Above i m a.1)

  pub key_set-IsSorted : (m : Map K V) → IsSorted m → IsSorted (key_set m)
  unfolding key_set
  key_set-IsSorted [] s = tt
  key_set-IsSorted ((k, v) ∷ m) s = (key_set-Above k m s.0, key_set-IsSorted m s.1)

  pub length-key_set : (m : Map K V) → length (key_set m) ≡ length m
  unfolding key_set
  length-key_set [] = refl
  length-key_set ((k, v) ∷ m) = ap suc (length-key_set m)

module _ {ℓ} {K : Type ℓ} ⦃o : Ord K⦄ where
  pub collect_set-IsSorted : (ks : List K) → IsSorted (collect_set ks)
  unfolding collect_set
  collect_set-IsSorted [] = tt
  collect_set-IsSorted (k ∷ ks) = insert-IsSorted k tt (collect_set ks) (collect_set-IsSorted ks)

  -- Equal as sets is equal as lists.
  pub set_eq_iff : (a b : Set K) → (set_eq a b ≡ true) ↔ (a ≡ b)
  unfolding set_eq
  set_eq_iff [] [] = (λ h. refl, λ h. refl)
  set_eq_iff [] (b ∷ bs) = (λ h. cc, λ h. cc)
  set_eq_iff (a ∷ rest) [] = (λ h. cc, λ h. cc)
  set_eq_iff ((a, _) ∷ rest) ((b, _) ∷ bs) = ground (arith, ==_iff a b, set_eq_iff rest bs)

module _ {ℓ κ} {K : Type ℓ} {V : Type κ} ⦃o : Ord K⦄ (same : V → V → Bool) where
  pub map_eq_iff :
      ((v w : V) → (same v w ≡ true) ↔ (v ≡ w))
      → (m n : Map K V) → (map_eq same m n ≡ true) ↔ (m ≡ n)
  unfolding map_eq
  map_eq_iff h [] [] = (λ _. refl, λ _. refl)
  map_eq_iff h [] (b ∷ n) = (λ e. cc, λ e. cc)
  map_eq_iff h (a ∷ m) [] = (λ e. cc, λ e. cc)
  map_eq_iff h ((j, v) ∷ m) ((k, w) ∷ n) = ground (arith, ==_iff j k, h v w, map_eq_iff h m n)
