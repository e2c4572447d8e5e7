-- ===== src/Base/Map/Counting.antt =====
-- The pigeonhole principle on the keys of ordered maps, and the count of ordered pairs.
use Prim.Native.Nat.{suc, ◌-◌, ◌*◌, ◌≤◌}
use Prim.Native.Nat.Ordering.{lt}
use mathlib.Core.Path.{◌≡◌, refl, ap}
use mathlib.Core.Bool.{true, not, ◌&&◌, ◌||◌}
use mathlib.Core.List.{[], ◌∷◌, ◌++◌}
use native.Mathlib.Omega.{arith}
use project_sapphire.Base.Lists.{length, length-append}
use project_sapphire.Base.Order.{Ord, ◌==◌, ==_iff, pair_ord}
use project_sapphire.Base.Map.{Map, Set, get, contains_key, remove}
use project_sapphire.Base.Map.Laws.{get-remove}
use project_sapphire.Base.Map.Sorted.{Above, IsSorted, get_of_Above, remove-IsSorted, length-remove}

module _ {ℓ κ} {K : Type ℓ} {V : Type κ} ⦃o : Ord K⦄ where
  pub contains-head : (k : K) (v : V) (a : Map K V) → contains_key k ((k, v) ∷ a) ≡ true
  unfolding contains_key get
  contains-head k v a = ground (arith, o.cmp_self k)

  pub contains-tail :
      (k j : K) (v : V) (a : Map K V) → contains_key k a ≡ true → contains_key k ((j, v) ∷ a) ≡ true
  unfolding contains_key get
  contains-tail k j v a h = ground arith

module _ {ℓ κ μ} {K : Type ℓ} {V : Type κ} {W : Type μ} ⦃o : Ord K⦄ where
  -- Every key of the one is a key of the other.
  abbrev pub KeysWithin : Map K V → Map K W → Type ℓ
  KeysWithin a b = (k : K) → contains_key k a ≡ true → contains_key k b ≡ true

  tail-KeysWithin :
      (k : K) (v : V) (a : Map K V) (b : Map K W)
      → Above k a
      → KeysWithin ((k, v) ∷ a) b
      → KeysWithin a (remove k b)
  unfolding contains_key get
  tail-KeysWithin k v a b above h j m =
      rw (get-remove j k b) (ground (arith, h j, ==_iff j k, get_of_Above k a above, m))

  -- No more keys than those that they lie within.
  pub length-le_of_KeysWithin :
      (a : Map K V) (b : Map K W) → IsSorted a → IsSorted b → KeysWithin a b → length a ≤ length b
  length-le_of_KeysWithin [] b sa sb h = omega arith
  length-le_of_KeysWithin ((k, v) ∷ a) b sa sb h = omega (
    arith,
    length-remove k b sb (h k (contains-head k v a)),
    length-le_of_KeysWithin a (remove k b) sa.1 (remove-IsSorted k b sb)
        (tail-KeysWithin k v a b sa.0 h),
  )

  -- As many keys as those that they lie within are all of them.
  pub KeysWithin-of_length :
      (a : Map K V) (b : Map K W)
      → IsSorted a
      → IsSorted b
      → KeysWithin a b
      → length a ≡ length b
      → (k : K) → contains_key k b ≡ true
      → contains_key k a ≡ true
  unfolding contains_key get
  KeysWithin-of_length [] [] sa sb h e k m = m
  KeysWithin-of_length [] (x ∷ b) sa sb h e k m = absurd (omega arith)
  KeysWithin-of_length ((j, v) ∷ a) b sa sb h e k m = ground (
    arith,
    get-remove k j b,
    KeysWithin-of_length a (remove j b) sa.1 (remove-IsSorted j b sb)
        (tail-KeysWithin j v a b sa.0 h)
        (omega (arith, length-remove j b sb (h j (contains-head j v a)))) k,
  )

module _ {ℓ} {K : Type ℓ} ⦃o : Ord K⦄ where
  -- The pairs of `a` with each key of a set.
  pub row : K → Set K → Set (K × K)
  row a [] = []
  row a ((b, _) ∷ bs) = ((a, b), tt) ∷ row a bs

  -- Every ordered pair of two different keys, the first of the one set, the second of the other.
  pub grid : Set K → Set K → Set (K × K)
  grid [] bs = []
  grid ((a, _) ∷ as') bs = row a (remove a bs) ++ grid as' bs

  abbrev pub ordered_pairs : Set K → Set (K × K)
  ordered_pairs s = grid s s

  contains-append :
      (k : K × K) (a b : Set (K × K))
      → contains_key k (a ++ b) ≡ (contains_key k a || contains_key k b)
  unfolding contains_key get
  contains-append k [] b = refl
  contains-append k (x ∷ a) b = ground (arith, contains-append k a b)

  contains-row :
      (a x y : K) (bs : Set K) → contains_key (x, y) (row a bs) ≡ (x == a && contains_key y bs)
  unfolding contains_key get row
  contains-row a x y [] = ground arith
  contains-row a x y ((b, _) ∷ bs) = ground (arith, contains-row a x y bs)

  contains-remove :
      (j k : K) (bs : Set K) → contains_key j (remove k bs) ≡ (not (j == k) && contains_key j bs)
  unfolding contains_key
  contains-remove j k bs = rw (get-remove j k bs) (ground arith)

  contains-grid :
      (x y : K) (as' bs : Set K)
      → contains_key (x, y) (grid as' bs)
        ≡ (contains_key x as' && (not (y == x) && contains_key y bs))
  unfolding grid contains_key get
  contains-grid x y [] bs = refl
  contains-grid x y ((a, _) ∷ as') bs =
      rw (contains-append, contains-row, contains-remove, contains-grid x y as' bs)
        (ground (arith, ==_iff x a))

  length-row : (a : K) (bs : Set K) → length (row a bs) ≡ length bs
  unfolding row
  length-row a [] = refl
  length-row a ((b, _) ∷ bs) = ap suc (length-row a bs)

  length-grid :
      (as' bs : Set K)
      → IsSorted bs
      → KeysWithin as' bs
      → length (grid as' bs) ≡ length as' * (length bs - 1)
  unfolding grid
  length-grid [] bs s h = omega arith
  length-grid ((a, u) ∷ as') bs s h = grind (
    arith,
    length-append (row a (remove a bs)) (grid as' bs),
    length-row a (remove a bs),
    length-remove a bs s (h a (contains-head a u as')),
    length-grid as' bs s (λ k m. h k (contains-tail k a u as' m)),
  )

  Above-row :
      (a b : K) (bs : Set K) (ps : Set (K × K))
      → Above b bs
      → Above (a, b) ps
      → Above (a, b) (row a bs ++ ps)
  unfolding row
  Above-row a b [] ps s h = h
  Above-row a b ((c, _) ∷ bs) ps s h = (rw (o.cmp_self a) s.0, Above-row a b bs ps s.1 h)

  row-IsSorted :
      (a : K) (bs : Set K) (ps : Set (K × K))
      → IsSorted bs
      → ((b : K) → Above (a, b) ps)
      → IsSorted ps
      → IsSorted (row a bs ++ ps)
  unfolding row
  row-IsSorted a [] ps s h sp = sp
  row-IsSorted a ((b, _) ∷ bs) ps s h sp =
      (Above-row a b bs ps s.0 (h b), row-IsSorted a bs ps s.1 h sp)

  Above-row-lt :
      (a b c : K) (bs : Set K) (ps : Set (K × K))
      → o.cmp a c ≡ lt
      → Above (a, b) ps
      → Above (a, b) (row c bs ++ ps)
  unfolding row
  Above-row-lt a b c [] ps s h = h
  Above-row-lt a b c ((d, _) ∷ bs) ps s h = (rw s refl, Above-row-lt a b c bs ps s h)

  Above-grid : (a b : K) (cs bs : Set K) → Above a cs → Above (a, b) (grid cs bs)
  unfolding grid
  Above-grid a b [] bs s = tt
  Above-grid a b ((c, _) ∷ cs) bs s =
      Above-row-lt a b c (remove c bs) (grid cs bs) s.0 (Above-grid a b cs bs s.1)

  grid-IsSorted : (cs bs : Set K) → IsSorted cs → IsSorted bs → IsSorted (grid cs bs)
  unfolding grid
  grid-IsSorted [] bs s t = tt
  grid-IsSorted ((c, _) ∷ cs) bs s t =
      row-IsSorted c (remove c bs) (grid cs bs) (remove-IsSorted c bs t)
        (λ b. Above-grid c b cs bs s.0) (grid-IsSorted cs bs s.1 t)

  pub contains-ordered_pairs :
      (x y : K) (s : Set K)
      → contains_key (x, y) (ordered_pairs s)
        ≡ (contains_key x s && (not (y == x) && contains_key y s))
  contains-ordered_pairs x y s = contains-grid x y s s

  pub length-ordered_pairs :
      (s : Set K) → IsSorted s → length (ordered_pairs s) ≡ length s * (length s - 1)
  length-ordered_pairs s h = length-grid s s h (λ k m. m)

  pub ordered_pairs-IsSorted : (s : Set K) → IsSorted s → IsSorted (ordered_pairs s)
  ordered_pairs-IsSorted s h = grid-IsSorted s s h h
