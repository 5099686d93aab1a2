-- ===== src/Base/Outcome.antt =====
-- How a Rust function ends: with `Ok`, with `Err`, or by a panic.
use mathlib.Core.Path.{◌≡◌, refl}
use mathlib.Core.Bool.{Bool, true, false}
use mathlib.Core.Logic.{◌⊎◌, inl, inr}
use mathlib.Core.Option.{Option, none, some}

pub data Result (E : Type 0) (A : Type 0) : Type 0 where
  ok : A → Result E A
  err : E → Result E A
  panic : Result E A

module _ {E : Type 0} where
  infixl 5 ◌>>=◌ ◌>>◌
  -- `?`: an error or a panic ends the function.
  abbrev pub ◌>>=◌ : {A B : Type 0} → Result E A → (A → Result E B) → Result E B
  ok a >>= f = f a
  err e >>= f = err e
  panic >>= f = panic

  abbrev pub ◌>>◌ : {B : Type 0} → Result E (Unit {0}) → Result E B → Result E B
  m >> k = m >>= λ _. k

  -- An early `return Err(e)` under a test.
  abbrev pub fail_if : Bool → E → Result E (Unit {0})
  fail_if true e = err e
  fail_if false e = ok tt

  -- `ok_or`
  abbrev pub ok_or : {A : Type 0} → Option A → E → Result E A
  ok_or none e = err e
  ok_or (some a) e = ok a

  -- `Option::unwrap`
  abbrev pub unwrap : {A : Type 0} → Option A → Result E A
  unwrap none = panic
  unwrap (some a) = ok a

  -- `Result::unwrap`, where an error becomes a panic.
  abbrev pub unwrap_result : {A : Type 0} → Result E A → Result E A
  unwrap_result (ok a) = ok a
  unwrap_result (err e) = panic
  unwrap_result panic = panic

  pub Result-cases :
      {A : Type 0} (r : Result E A)
      → ((a : A) × (r ≡ ok a)) ⊎ (((e : E) × (r ≡ err e)) ⊎ (r ≡ panic))
  Result-cases (ok a) = inl (a, refl)
  Result-cases (err e) = inr (inl (e, refl))
  Result-cases panic = inr (inr refl)

  -- Inversion of a successful bind.
  pub >>=-eq-ok :
      {A B : Type 0} (r : Result E A) (k : A → Result E B) {y : B}
      → (r >>= k) ≡ ok y
      → (x : A) × (r ≡ ok x) × (k x ≡ ok y)
  >>=-eq-ok panic k h = cc
  >>=-eq-ok (err e) k h = cc
  >>=-eq-ok (ok x) k h = (x, refl, h)

-- The conversion that `?` applies to an error of another type.
abbrev pub map_err : {D E A : Type 0} → (D → E) → Result D A → Result E A
map_err f (ok a) = ok a
map_err f (err e) = err (f e)
map_err f panic = panic
