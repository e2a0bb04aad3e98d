-- ===== src/Prelude/Results.antt =====
-- What a Go call gives back: a value, a non-nil error, or a run-time panic. The value beside a
-- non-nil error is not kept.
use mathlib.Core.Path.{◌≡◌, refl}

-- The error variables of the packages and of the standard library that the code returns or
-- compares. `fuel_exhausted` has no counterpart in Go: it stands for a loop of the model that ran
-- out of rounds.
pub data Error : Type 0 where
  eof buffer_full read_failed corrupt_input : Error
  invalid_token invalid_named_parameter : Error
  invalid_message incomplete_message invalid_feature_encoding message_too_long : Error
  invalid_command_name invalid_type : Error
  invalid_status_code invalid_severity_code invalid_error_code invalid_digit : Error
  invalid_string syntax_error range_error : Error
  unknown_type_name no_default_mapper unknown_mapper_name : Error
  fuel_exhausted : Error

-- `panic` is not caught anywhere in the code.
pub data Result {ℓ} (A : Type ℓ) : Type ℓ where
  panic : Result A
  err : (reason : Error) → Result A
  ok : (value : A) → Result A

module _ {ℓ κ} {A : Type ℓ} {B : Type κ} where
  -- The call that follows one that has to return a value.
  infixl 5 ◌>>=◌
  abbrev pub ◌>>=◌ : Result A → (A → Result B) → Result B
  panic >>= k = panic
  err reason >>= k = err reason
  ok value >>= k = k value

  -- Inversion of a chain of calls that returned a value.
  pub >>=-eq-ok :
      (m : Result A) (k : A → Result B) {b : B}
      → (m >>= k) ≡ ok b
      → (a : A) × (m ≡ ok a) × (k a ≡ ok b)
  >>=-eq-ok panic k h = cc
  >>=-eq-ok (err reason) k h = cc
  >>=-eq-ok (ok value) k h = (value, refl, h)

-- A call goes on alike with functions that are alike.
pub >>=_pointwise {ℓ κ} :
    {A : Type ℓ} {B : Type κ} {f g : A → Result B} (r : Result A)
    → ((a : A) → f a ≡ g a)
    → (r >>= f) ≡ (r >>= g)
>>=_pointwise (ok a) h = h a
>>=_pointwise (err e) h = refl
>>=_pointwise panic h = refl

-- A call behind a chain, put into the chain.
pub >>=_behind {ℓ κ ν} :
    {A : Type ℓ} {B : Type κ} {C : Type ν} (r : Result A) (f : A → Result C) (g : A → Result B)
    (k : B → Result C)
    → ((a : A) → f a ≡ (g a >>= k))
    → (r >>= f) ≡ (r >>= g >>= k)
>>=_behind (ok a) f g k h = h a
>>=_behind (err e) f g k h = refl
>>=_behind panic f g k h = refl

-- A call that gives back what it was given.
pub >>=_ok {ℓ} :
    {A : Type ℓ} (r : Result A) (f : A → Result A) → ((a : A) → f a ≡ ok a) → (r >>= f) ≡ r
>>=_ok (ok a) f h = h a
>>=_ok (err e) f h = refl
>>=_ok panic f h = refl
