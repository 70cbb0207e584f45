-- ===== src/Common/Results.antt =====
-- What a Rust function that returns `Result<A, E>` does: it returns, it fails with an error, or
-- it panics (a slice index out of range, an `unwrap` of nothing, an arithmetic overflow).
use mathlib.Core.Path.{◌≡◌, refl}
use mathlib.Core.Bool.{Bool, true, false}
use mathlib.Core.Logic.{◌⊎◌, inl, inr}
use mathlib.Core.Option.{Option, none, some}

pub data Outcome (E : Type 0) (A : Type 0) : Type 0 where
  panic : Outcome E A
  err : (error : E) → Outcome E A
  ok : (value : A) → Outcome E A

-- Rust's `?`.
infixl 5 ◌>>=◌ ◌>>◌
abbrev pub ◌>>=◌ : {E A B : Type 0} → Outcome E A → (A → Outcome E B) → Outcome E B
panic >>= next = panic
err error >>= next = err error
ok value >>= next = next value

abbrev pub ◌>>◌ : {E B : Type 0} → Outcome E (Unit {0}) → Outcome E B → Outcome E B
first >> second = first >>= λ _. second

module _ {E : Type 0} where
  -- A slice access or addition that panics unless the test holds.
  abbrev pub panic_unless : Bool → Outcome E (Unit {0})
  panic_unless false = panic
  panic_unless true = ok tt

  -- `if test { return Err(error) }`
  abbrev pub fail_if : Bool → E → Outcome E (Unit {0})
  fail_if false error = ok tt
  fail_if true error = err error

  abbrev pub map_ok : {A B : Type 0} → (A → B) → Outcome E A → Outcome E B
  map_ok f panic = panic
  map_ok f (err error) = err error
  map_ok f (ok value) = ok (f value)

  -- `Option::ok_or`
  abbrev pub ok_or : {A : Type 0} → E → Option A → Outcome E A
  ok_or error (some value) = ok value
  ok_or error none = err error

  -- To split on a computed outcome and keep the equation.
  pub Outcome-cases :
      {A : Type 0} (m : Outcome E A)
      → ((value : A) × (m ≡ ok value)) ⊎ ((error : E) × (m ≡ err error)) ⊎ (m ≡ panic)
  Outcome-cases panic = inr (inr refl)
  Outcome-cases (err error) = inr (inl (error, refl))
  Outcome-cases (ok value) = inl (value, refl)

  pub >>=-eq-ok :
      {A B : Type 0} (m : Outcome E A) (next : A → Outcome E B) {b : B}
      → (m >>= next) ≡ ok b
      → (value : A) × (m ≡ ok value) × (next value ≡ ok b)
  >>=-eq-ok panic next h = cc
  >>=-eq-ok (err error) next h = cc
  >>=-eq-ok (ok value) next h = (value, refl, h)
