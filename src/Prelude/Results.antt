-- ===== src/Prelude/Results.antt =====
-- Go's `(value, error)` results, with the errors of a component as a parameter.
use mathlib.Core.Logic.{◌⊎◌, inl, inr}
use mathlib.Core.Path.{◌≡◌, refl}
use mathlib.Core.Option.{Option, none, some}

pub data Result {ℓ κ} (E : Type ℓ) (A : Type κ) : Type (ℓ ⊔ κ) where
  ok : A → Result E A
  err : E → Result E A

module _ {ℓ} {E : Type ℓ} where
  abbrev pub or_fail {κ} : {A : Type κ} → Option A → E → Result E A
  or_fail (some value) failure = ok value
  or_fail none failure = err failure

  -- what `if err != nil { return err }` between two calls does
  infixl 5 ◌>>=◌
  abbrev pub ◌>>=◌ {κ μ} : {A : Type κ} {B : Type μ} → Result E A → (A → Result E B) → Result E B
  err failure >>= next = err failure
  ok value >>= next = next value

  infixl 5 ◌>>◌
  abbrev pub ◌>>◌ {κ} : {B : Type κ} → Result E (Unit {0}) → Result E B → Result E B
  first >> second = first >>= λ _. second

  module _ {κ} {A : Type κ} where
    pub Result-cases : (r : Result E A) → ((a : A) × (r ≡ ok a)) ⊎ ((e : E) × (r ≡ err e))
    Result-cases (ok value) = inl (value, refl)
    Result-cases (err failure) = inr (failure, refl)

    -- A chain that succeeds succeeds at its first step, and then at the others.
    pub bind_ok {μ} :
        {B : Type μ} (first : Result E A) (next : A → Result E B) (b : B)
        → (first >>= next) ≡ ok b
        → (value : A) × (first ≡ ok value) × (next value ≡ ok b)
    bind_ok (ok value) next b done = (value, refl, done)
    bind_ok (err failure) next b done = cc
