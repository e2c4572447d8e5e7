-- ===== src/Base/Map/Laws.antt =====
-- Lookups in a map after an insertion or a removal. These need no order of the list.
use mathlib.Core.Path.{◌≡◌, refl, ◌∙◌}
use mathlib.Core.Bool.{true, false, ◌||◌}
use mathlib.Core.Option.{none, some}
use mathlib.Core.List.{[], ◌∷◌}
use native.Mathlib.Omega.{arith}
use project_sapphire.Base.Tests.{if◌then◌else◌}
use project_sapphire.Base.Order.{Ord, ◌==◌, ==_refl}
use project_sapphire.Base.Map.{Map, key_set, get, contains_key, insert, remove}

module _ {ℓ κ} {K : Type ℓ} {V : Type κ} ⦃o : Ord K⦄ where
  pub get-nil : (k : K) → get {V = V} k [] ≡ none
  unfolding get
  get-nil k = refl

  pub get-insert :
      (j k : K) (v : V) (m : Map K V) → get j (insert k v m) ≡ (if j == k then some v else get j m)
  unfolding get insert
  get-insert j k v [] = refl
  get-insert j k v ((i, w) ∷ m) = ground (
    arith,
    o.eq_of_cmp k i,
    o.eq_of_cmp j i,
    o.eq_of_cmp j k,
    o.cmp_self j,
    o.cmp_self k,
    get-insert j k v m,
  )

  pub get-insert_self : (k : K) (v : V) (m : Map K V) → get k (insert k v m) ≡ some v
  get-insert_self k v m = get-insert k k v m ∙ rw (==_refl k)

  pub get-remove : (j k : K) (m : Map K V) → get j (remove k m) ≡ (if j == k then none else get j m)
  unfolding get remove
  get-remove j k [] = ground arith
  get-remove j k ((i, w) ∷ m) =
      ground (arith, o.eq_of_cmp k i, o.eq_of_cmp j k, o.cmp_self j, get-remove j k m)

  pub contains-insert :
      (j k : K) (v : V) (m : Map K V) → contains_key j (insert k v m) ≡ (j == k || contains_key j m)
  unfolding contains_key
  contains-insert j k v m = rw (get-insert j k v m) (ground arith)

  pub contains-get : (k : K) (m : Map K V) → contains_key k m ≡ true → (v : V) × (get k m ≡ some v)
  unfolding contains_key
  contains-get k m h = ground arith

  pub contains_of_get : (k : K) (m : Map K V) (v : V) → get k m ≡ some v → contains_key k m ≡ true
  unfolding contains_key
  contains_of_get k m v h = rw h

  pub contains-key_set : (k : K) (m : Map K V) → contains_key k (key_set m) ≡ contains_key k m
  unfolding contains_key get key_set
  contains-key_set k [] = refl
  contains-key_set k ((j, v) ∷ m) = ground (arith, contains-key_set k m)

  -- Two insertions under different keys commute.
  pub insert_comm :
      (j k : K) (v w : V) (m : Map K V)
      → (j == k) ≡ false
      → insert j v (insert k w m) ≡ insert k w (insert j v m)
  unfolding insert
  insert_comm j k v w [] h = ground (arith, o.cmp_swap j k)
  insert_comm j k v w ((i, u) ∷ m) h = ground (
    arith,
    o.cmp_swap j k,
    o.cmp_swap j i,
    o.cmp_swap k i,
    o.cmp_trans j k i,
    o.cmp_trans k j i,
    o.cmp_trans j i k,
    o.cmp_trans k i j,
    o.eq_of_cmp j i,
    o.eq_of_cmp k i,
    o.cmp_self k,
    o.cmp_self j,
    insert_comm j k v w m,
  )
