-- ===== src/Keygen/First.antt =====
-- Round 1 of a key generation: whose packages there are, and that part 1 made them.
use project_sapphire.Base.{
  ℕ, zero, suc, ◌+◌, ◌≡◌, ◌≤◌, ◌<◌, refl, ◌⊎◌, inl, inr, true, some, [], Ord, Result, ok, arith,
  ◌==◌, ==_iff, Result-cases, Bool-cases, eqb, eqb→eq, ne_of_eqb,
}
use project_sapphire.Base.Map.{Map, get, contains_key, insert}
use project_sapphire.Base.Map.Laws.{contains-insert, get-insert}
use project_sapphire.Base.Map.Sorted.{IsSorted, insert-IsSorted}
use project_sapphire.Core.{MpcParams}
use project_sapphire.Frost.{Ciphersuite}
use project_sapphire.Keygen.Participant.{DkgScheme}
use project_sapphire.Keygen.Ceremony.{deal1, Packages1}
use project_sapphire.Keygen.Rounds.{Ensures, Ensures-mono}

module _ {I : Type 0} ⦃o : Ord I⦄ where
  pub get-nil : {V : Type 0} (k : I) (v : V) → get k [] ≡ some v → ⊥
  unfolding get
  get-nil k v h = cc

module _ {I : Type 0} ⦃o : Ord I⦄ {C : Ciphersuite I} (D : DkgScheme C)
    (try_into : ℕ → Result I C.FrostError) where
  -- The identifier of one of `n` participants from number `i` on.
  abbrev pub IsNumbered : ℕ → ℕ → I → Type 0
  IsNumbered i n id = (j : ℕ) × (i ≤ j) × (j < i + n) × (try_into j ≡ ok id)

  -- Part 1 made this secret for the participant, with the package that is published under its name.
  abbrev pub IsFirst : MpcParams → Map I C.Round1Package → I → D.Secret1 → Type 0
  IsFirst params publics k secret =
      (pkg : C.Round1Package) × (rng : C.Rng) × ((D.part1 k params.total params.threshold rng).0
        ≡ ok (secret, pkg))
      × (get k publics ≡ some pkg)

  pub record Dealt1 (params : MpcParams) (i n : ℕ) (before dealt : Packages1 D) : Type 0 where
    pub same : (k : I) → contains_key k dealt.0 ≡ contains_key k dealt.1
    pub numbered :
        (k : I)
        → contains_key k dealt.1 ≡ true
        → (contains_key k before.1 ≡ true) ⊎ IsNumbered i n k
    pub present :
        (k : I)
        → (contains_key k before.1 ≡ true) ⊎ IsNumbered i n k
        → contains_key k dealt.1 ≡ true
    pub sorted : IsSorted dealt.0
    pub first :
        (k : I) (secret : D.Secret1)
        → get k dealt.0 ≡ some secret
        → ((get k before.0 ≡ some secret) × (get k dealt.1 ≡ get k before.1))
          ⊎ IsFirst params dealt.1 k secret

  -- One participant more, from either end of the range.
  next-IsNumbered :
      (i n : ℕ) (id k : I) (pkg : C.Round1Package) (publics : Map I C.Round1Package)
      → try_into i ≡ ok id
      → (contains_key k (insert id pkg publics) ≡ true) ⊎ IsNumbered (i + 1) n k
      → (contains_key k publics ≡ true) ⊎ IsNumbered i (suc n) k
  next-IsNumbered i n id k pkg publics named (inr (j, a, b, e)) =
      inr (j, omega arith, omega arith, e)
  next-IsNumbered i n id k pkg publics named (inl was) = elim (Bool-cases (k == id)) [
    | inl e ↦
        let here : k ≡ id = (==_iff k id).0 e in inr (i, omega arith, omega arith, rw here named)
    | inr e ↦ inl (ground (arith, contains-insert k id pkg publics))
  ]

  next_present :
      (i n : ℕ) (id k : I) (pkg : C.Round1Package) (publics : Map I C.Round1Package)
      → try_into i ≡ ok id
      → (contains_key k publics ≡ true) ⊎ IsNumbered i (suc n) k
      → (contains_key k (insert id pkg publics) ≡ true) ⊎ IsNumbered (i + 1) n k
  next_present i n id k pkg publics named (inl was) =
      inl (ground (arith, contains-insert k id pkg publics))
  next_present i n id k pkg publics named (inr (j, a, b, e)) = elim (Bool-cases (eqb j i)) [
    | inl same ↦
        let j_is : j ≡ i = eqb→eq j i same in
        let here : k ≡ id = cc in
        inl (ground (arith, contains-insert k id pkg publics, ==_iff k id))
    | inr other ↦ let apart = ne_of_eqb j i other in inr (j, ground arith, omega arith, e)
  ]

  next-IsFirst :
      (params : MpcParams) (id k : I) (secret made : D.Secret1) (pkg : C.Round1Package)
      (secrets : Map I D.Secret1) (publics last_publics : Map I C.Round1Package) (rng : C.Rng)
      → (D.part1 id params.total params.threshold rng).0 ≡ ok (made, pkg)
      → ((get k (insert id made secrets) ≡ some secret)
          × (get k last_publics ≡ get k (insert id pkg publics)))
        ⊎ IsFirst params last_publics k secret
      → ((get k secrets ≡ some secret) × (get k last_publics ≡ get k publics))
        ⊎ IsFirst params last_publics k secret
  next-IsFirst params id k secret made pkg secrets publics last_publics rng part (inr later) =
      inr later
  next-IsFirst params id k secret made pkg secrets publics last_publics rng part (inl (a, b)) =
      elim (Bool-cases (k == id)) [
        | inl e ↦
            let here : k ≡ id = (==_iff k id).0 e in
            let is : made ≡ secret = ground (arith, get-insert k id made secrets) in
            inr (pkg, rng, rw (here, ← is) part, ground (arith, get-insert k id pkg publics))
        | inr e ↦ inl (
          ground (arith, get-insert k id made secrets),
          ground (arith, get-insert k id pkg publics),
        )
      ]

  pub deal1-Ensures :
      (n i : ℕ) (params : MpcParams) (secrets : Map I D.Secret1) (publics : Map I C.Round1Package)
      (rng : C.Rng)
      → ((k : I) → contains_key k secrets ≡ contains_key k publics)
      → IsSorted secrets
      → Ensures
          (Dealt1 params i n (secrets, publics))
          (deal1 D try_into n i params (secrets, publics) rng).0
  unfolding deal1
  deal1-Ensures zero i params secrets publics rng h s = record {
    same = h;
    numbered = λ k m. inl m;
    present = λ k m. elim m [ inl m' ↦ m' | inr (j, a, b, _) ↦ absurd (omega arith) ];
    sorted = s;
    first = λ k secret there. inl (there, refl);
  }
  deal1-Ensures (suc n) i params secrets publics rng h s = elim (Result-cases (try_into i)) [
    | inr (e, refused) ↦ rw (refused, deal1) tt
    | inl (id, named) ↦ elim (Result-cases (D.part1 id params.total params.threshold rng).0) [
      | inr (e, refused) ↦ rw (named, deal1) (rw (refused, deal1) tt)
      | inl ((secret, pkg), made) ↦
          let rng' = (D.part1 id params.total params.threshold rng).1 in
          let secrets' = insert id secret secrets in
          let publics' = insert id pkg publics in
          rw (named, deal1)
            (rw (made, deal1)
              (Ensures-mono (Dealt1 params (i + 1) n (secrets', publics')) _ _
                (deal1-Ensures n (i + 1) params secrets' publics' rng'
                  (λ k. ground (
                    arith,
                    contains-insert k id secret secrets,
                    contains-insert k id pkg publics,
                    h k,
                  ))
                  (insert-IsSorted id secret secrets s))
                (λ dealt d. record {
                  same = d.same;
                  numbered = λ k m. next-IsNumbered i n id k pkg publics named (d.numbered k m);
                  present = λ k m. d.present k (next_present i n id k pkg publics named m);
                  sorted = d.sorted;
                  first = λ k found there.
                      next-IsFirst params id k found secret pkg secrets publics dealt.1 rng made
                        (d.first k found there);
                })))
    ]
  ]

  pub Dealt1-IsFirst :
      (params : MpcParams) (dealt : Packages1 D)
      → Dealt1 params 1 params.total ([], []) dealt
      → (k : I) (secret : D.Secret1) → get k dealt.0 ≡ some secret
      → IsFirst params dealt.1 k secret
  Dealt1-IsFirst params dealt d k secret there = elim (d.first k secret there) [
    | inl (old, _) ↦ absurd (get-nil k secret old)
    | inr first ↦ first
  ]
