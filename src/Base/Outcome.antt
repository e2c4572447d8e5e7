-- ===== src/Base/Outcome.antt =====
-- Rust's `Result`, with the `?` operator as bind.
use mathlib.Core.Path.{◌≡◌, refl}
use mathlib.Core.Logic.{◌⊎◌, inl, inr}
use mathlib.Core.Bool.{Bool, true, false}
use mathlib.Core.Option.{Option, none, some}

pub data Result {ℓ κ} (A : Type ℓ) (E : Type κ) : Type (ℓ ⊔ κ) where
  ok : A → Result A E
  err : E → Result A E

infixl 5 ◌>>=◌ ◌>>◌
abbrev pub ◌>>=◌ {ℓ κ μ} :
    {A : Type ℓ} {B : Type κ} {E : Type μ} → Result A E → (A → Result B E) → Result B E
err failure >>= next = err failure
ok value >>= next = next value

abbrev pub ◌>>◌ {κ μ} : {B : Type κ} {E : Type μ} → Result (Unit {0}) E → Result B E → Result B E
check >> rest = check >>= λ _. rest

-- `if !test { return Err(e); }`
abbrev pub ensure {μ} : {E : Type μ} → Bool → E → Result (Unit {0}) E
ensure false failure = err failure
ensure true failure = ok tt

-- `Option::ok_or`
abbrev pub ok_or {ℓ μ} : {A : Type ℓ} {E : Type μ} → Option A → E → Result A E
ok_or none e = err e
ok_or (some a) e = ok a

-- `Result::map_err`
abbrev pub map_err {ℓ κ μ} :
    {A : Type ℓ} {E : Type κ} {F : Type μ} → (E → F) → Result A E → Result A F
map_err f (ok a) = ok a
map_err f (err e) = err (f e)

-- `Result::is_ok`
abbrev pub is_ok {ℓ μ} : {A : Type ℓ} {E : Type μ} → Result A E → Bool
is_ok (ok a) = true
is_ok (err e) = false

pub Result-cases {ℓ κ} :
    {A : Type ℓ} {E : Type κ} (r : Result A E) → ((a : A) × (r ≡ ok a)) ⊎ ((e : E) × (r ≡ err e))
Result-cases (ok a) = inl (a, refl)
Result-cases (err e) = inr (e, refl)

module _ {ℓ κ μ} {A : Type ℓ} {B : Type κ} {E : Type μ} where
  -- Inversion of a successful chain.
  pub >>=-eq-ok :
      (r : Result A E) (next : A → Result B E) {y : B}
      → (r >>= next) ≡ ok y
      → (x : A) × (r ≡ ok x) × (next x ≡ ok y)
  >>=-eq-ok (err failure) next h = cc
  >>=-eq-ok (ok x) next h = (x, refl, h)

pub ensure-eq-ok {κ μ} :
    {B : Type κ} {E : Type μ} (b : Bool) (e : E) (k : Result B E) {x : B}
    → (ensure b e >> k) ≡ ok x
    → (b ≡ true) × (k ≡ ok x)
ensure-eq-ok true e k h = (refl, h)
ensure-eq-ok false e k h = cc

pub ok_or-eq-ok {ℓ κ μ} :
    {A : Type ℓ} {B : Type κ} {E : Type μ} (o : Option A) (e : E) (f : A → Result B E) {x : B}
    → (ok_or o e >>= f) ≡ ok x
    → (a : A) × (o ≡ some a) × (f a ≡ ok x)
ok_or-eq-ok none e f h = cc
ok_or-eq-ok (some a) e f h = (a, refl, h)

pub map_err-eq-ok {ℓ κ μ} :
    {A : Type ℓ} {E : Type κ} {F : Type μ} (f : E → F) (r : Result A E) {a : A}
    → map_err f r ≡ ok a
    → r ≡ ok a
map_err-eq-ok f (ok a) h = cc
map_err-eq-ok f (err e) h = cc

-- What holds of an error, and what of a value.
abbrev pub EndsIn {ℓ κ} :
    {A : Type ℓ} {E : Type κ} → (E → Type 0) → (A → Type 0) → Result A E → Type 0
EndsIn Q P (ok a) = P a
EndsIn Q P (err e) = Q e

pub >>=-EndsIn {ℓ κ μ} :
    {A : Type ℓ} {B : Type κ} {E : Type μ} (Q : E → Type 0) (P : A → Type 0) (R : B → Type 0)
    (r : Result A E) (next : A → Result B E)
    → EndsIn Q P r
    → ((a : A) → P a → EndsIn Q R (next a))
    → EndsIn Q R (r >>= next)
>>=-EndsIn Q P R (ok a) next h step = step a h
>>=-EndsIn Q P R (err e) next h step = h

pub EndsIn-mono {ℓ μ} :
    {A : Type ℓ} {E : Type μ} (Q : E → Type 0) (P R : A → Type 0) (r : Result A E)
    → EndsIn Q P r
    → ((a : A) → P a → R a)
    → EndsIn Q R r
EndsIn-mono Q P R (ok a) h f = f a h
EndsIn-mono Q P R (err e) h f = h

module _ {ℓ μ} {A : Type ℓ} {E : Type μ} (Q : E → Type 0) where
  pub map_err-EndsIn {ν} :
      {F : Type ν} (f : F → E) (P : A → Type 0) (r : Result A F)
      → ((e : F) → Q (f e))
      → ((a : A) → r ≡ ok a → P a)
      → EndsIn Q P (map_err f r)
  map_err-EndsIn f P (ok a) bad good = good a refl
  map_err-EndsIn f P (err e) bad good = bad e

  pub ok_or-EndsIn :
      (e : E) (P : A → Type 0) (o : Option A)
      → (o ≡ none → Q e)
      → ((a : A) → o ≡ some a → P a)
      → EndsIn Q P (ok_or o e)
  ok_or-EndsIn e P none bad good = bad refl
  ok_or-EndsIn e P (some a) bad good = good a refl

pub EndsIn-both {ℓ μ} :
    {A : Type ℓ} {E : Type μ} (Q : E → Type 0) (P R : A → Type 0) (r : Result A E)
    → EndsIn Q P r
    → EndsIn Q R r
    → EndsIn Q (λ a. P a × R a) r
EndsIn-both Q P R (ok a) p h = (p, h)
EndsIn-both Q P R (err e) p h = h

pub EndsIn-widen {ℓ μ} :
    {A : Type ℓ} {E : Type μ} (Q R : E → Type 0) (P : A → Type 0) (r : Result A E)
    → EndsIn Q P r
    → ((e : E) → Q e → R e)
    → EndsIn R P r
EndsIn-widen Q R P (ok a) h wide = h
EndsIn-widen Q R P (err e) h wide = wide e h

-- What is returned is known to be.
pub EndsIn-run :
    {A E : Type 0} (Q : E → Type 0) (P : A → Type 0) (r : Result A E)
    → EndsIn Q P r
    → EndsIn Q (λ a. P a × (r ≡ ok a)) r
EndsIn-run Q P (ok a) h = (h, refl)
EndsIn-run Q P (err e) h = h
