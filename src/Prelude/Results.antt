-- ===== src/Prelude/Results.antt =====
-- Go's pair of a value and an `error`, where exactly one of the two counts.
use mathlib.Core.Logic.{◌⊎◌, inl, inr}
use mathlib.Core.Path.{◌≡◌, refl}
use native.Mathlib.Omega.{arith}

pub data Result {ℓ} (E A : Type ℓ) : Type ℓ where
  ok : A → Result E A
  err : E → Result E A

infixl 5 ◌>>=◌ ◌>>◌
abbrev pub ◌>>=◌ {ℓ} : {E A B : Type ℓ} → Result E A → (A → Result E B) → Result E B
ok a >>= f = f a
err e >>= f = err e

abbrev pub ◌>>◌ {ℓ} : {E B : Type ℓ} → Result E (Unit {ℓ}) → Result E B → Result E B
m >> k = m >>= λ _. k

-- `if err != nil { return fmt.Errorf("…: %w", err) }`
abbrev pub wrap_err {ℓ} : {E E' A : Type ℓ} → (E → E') → Result E A → Result E' A
wrap_err f (ok a) = ok a
wrap_err f (err e) = err (f e)

pub Result-cases {ℓ} :
    {E A : Type ℓ} (r : Result E A) → ((a : A) × (r ≡ ok a)) ⊎ ((e : E) × (r ≡ err e))
Result-cases (ok a) = inl (a, refl)
Result-cases (err e) = inr (e, refl)

-- A block that succeeds has succeeded at each of its steps.
pub >>=-eq-ok {ℓ} :
    {E A B : Type ℓ} (first : Result E A) (next : A → Result E B) {out : B}
    → (first >>= next) ≡ ok out
    → (mid : A) × (first ≡ ok mid) × (next mid ≡ ok out)
>>=-eq-ok (ok mid) next done = (mid, refl, done)
>>=-eq-ok (err e) next done = absurd (ground arith)

pub wrap_err-eq-ok {ℓ} :
    {E E' A : Type ℓ} (f : E → E') (r : Result E A) {a : A} → wrap_err f r ≡ ok a → r ≡ ok a
wrap_err-eq-ok f (ok a) h = cc
wrap_err-eq-ok f (err e) h = absurd (ground arith)

pub ok-injective {ℓ} : {E A : Type ℓ} {a b : A} → ◌≡◌ {A = Result E A} (ok a) (ok b) → a ≡ b
ok-injective h = cc
