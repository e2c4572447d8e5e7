-- ===== src/Keygen/Posted.antt =====
-- Which packages of round 2 an inbox is to hold, said without the loops of the key generation.
use project_sapphire.Base.{
  ◌≡◌, refl, Option, none, some, [], ◌∷◌, Ord, ok, err, arith, ◌==◌, ==_iff, Bool-cases, inl, inr,
  if◌then◌else◌,
}
use project_sapphire.Base.Map.{Map, get, insert}
use project_sapphire.Base.Map.Laws.{get-insert}
use project_sapphire.Base.Map.Sorted.{Above, get_of_Above}
use project_sapphire.Frost.{Ciphersuite}
use project_sapphire.Keygen.Participant.{DkgScheme}
use project_sapphire.Keygen.Ceremony.{Inbox, others_r1, preallocate}

abbrev pub or_else : {A : Type 0} → Option A → Option A → Option A
or_else (some a) other = some a
or_else none other = other

pub or_else-none : {A : Type 0} (a : Option A) → or_else a none ≡ a
or_else-none (some a) = refl
or_else-none none = refl

module _ {I : Type 0} ⦃o : Ord I⦄ where
  -- The package for `k`; where a list had several, the last.
  unfoldable pub latest : {V : Type 0} → I → Map I V → Option V
  latest k [] = none
  latest k ((recipient, pkg) ∷ sent) =
      or_else (latest k sent) (if k == recipient then some pkg else none)

module _ {I : Type 0} ⦃o : Ord I⦄ {C : Ciphersuite I} (D : DkgScheme C) where
  open C use {Round1Package}

  -- What the inbox of `k` holds from `s`.
  unfoldable pub inbox_at : Inbox D → I → I → Option D.Round2Package
  inbox_at inbox k s = elim (get k inbox) [ some box ↦ get s box | none ↦ none ]

  -- What part 2 makes for `k` of the secret of `s` and of everyone else's packages.
  unfoldable pub posted : Map I Round1Package → Map I D.Secret1 → I → I → Option D.Round2Package
  posted publics secrets k s = elim (get s secrets) [
    | none ↦ none
    | some secret ↦ elim (D.part2 secret (others_r1 D s publics)) [
      | ok (secret2, sent) ↦ latest k sent
      | err e ↦ none
    ]
  ]

  -- Everyone's packages but those of `id`.
  pub get-others_r1 :
      (j id : I) (publics : Map I Round1Package)
      → get j (others_r1 D id publics) ≡ (if j == id then none else get j publics)
  unfolding others_r1 get
  get-others_r1 j id [] = ground arith
  get-others_r1 j id ((other, pkg) ∷ publics) =
      ground (arith, get-others_r1 j id publics, ==_iff other id, ==_iff j id, ==_iff j other)

  pub inbox_at-insert :
      (k s r : I) (box : Map I D.Round2Package) (inbox : Inbox D)
      → inbox_at (insert r box inbox) k s ≡ (if k == r then get s box else inbox_at inbox k s)
  unfolding inbox_at
  inbox_at-insert k s r box inbox = rw (get-insert k r box inbox, inbox_at) (ground arith)

  pub inbox_at-preallocate :
      (publics : Map I Round1Package) (inbox : Inbox D)
      → ((k s : I) → inbox_at inbox k s ≡ none)
      → (k s : I) → inbox_at (preallocate D publics inbox) k s ≡ none
  unfolding preallocate get
  inbox_at-preallocate [] inbox h k s = h k s
  inbox_at-preallocate ((id, pkg) ∷ publics) inbox h k s =
      inbox_at-preallocate publics (insert id [] inbox)
        (λ k s. ground (arith, inbox_at-insert k s id [] inbox, h k s)) k s

  pub inbox_at_box :
      (k s : I) (box : Map I D.Round2Package) (inbox : Inbox D)
      → get k inbox ≡ some box
      → inbox_at inbox k s ≡ get s box
  unfolding inbox_at
  inbox_at_box k s box inbox h = rw (h, inbox_at) refl

  -- What is handed on to `r` from `id`.
  pub inbox_at-handed :
      (k s r id : I) (pkg : D.Round2Package) (box : Map I D.Round2Package) (inbox : Inbox D)
      → get r inbox ≡ some box
      → inbox_at (insert r (insert id pkg box) inbox) k s ≡ (
          if k == r then (if s == id then some pkg else inbox_at inbox k s) else inbox_at inbox k s)
  inbox_at-handed k s r id pkg box inbox found = ground (
    arith,
    inbox_at-insert k s r (insert id pkg box) inbox,
    get-insert s id pkg box,
    inbox_at_box r s box inbox found,
    ==_iff k r,
  )

  -- The packages that the first sender posts, and then those of the others.
  pub posted-cons :
      (publics : Map I Round1Package) (id : I) (secret : D.Secret1) (secrets : Map I D.Secret1)
      (secret2 : D.Secret2) (sent : Map I D.Round2Package) (k s : I)
      → D.part2 secret (others_r1 D id publics) ≡ ok (secret2, sent)
      → posted publics ((id, secret) ∷ secrets) k s
        ≡ (if s == id then latest k sent else posted publics secrets k s)
  unfolding posted get
  posted-cons publics id secret secrets secret2 sent k s made = elim (Bool-cases (s == id)) [
    | inl e ↦
        let here : s ≡ id = (==_iff s id).0 e in
        let made_s : D.part2 secret (others_r1 D s publics) ≡ ok (secret2, sent) = rw here made in
        rw (e, posted, made_s) refl
    | inr e ↦ rw (e, posted) refl
  ]

  pub posted-Above :
      (publics : Map I Round1Package) (id : I) (secrets : Map I D.Secret1) (k : I)
      → Above id secrets
      → posted publics secrets k id ≡ none
  unfolding posted
  posted-Above publics id secrets k above = rw (get_of_Above id secrets above, posted) refl

  pub nothing-posted :
      (publics : Map I Round1Package) (k s : I) (held : Option D.Round2Package)
      → held ≡ or_else (posted publics [] k s) held
  unfolding posted get
  nothing-posted publics k s held = refl
