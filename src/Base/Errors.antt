-- ===== src/Base/Errors.antt =====
-- Go's error values: a sentinel of the program, an error of an external library with its text, and
-- an error that `fmt.Errorf` wraps by `%w`, with what it adds to the message.
use mathlib.Core.Path.{◌≡◌, refl}
use mathlib.Core.Bool.{Bool, false}
use mathlib.Core.Path.{◌≡◌, refl}
use mathlib.Core.Logic.{◌⊎◌, inl, inr}
use crypto_asset_tracker_mic.Base.Equality.{Eq, ◌==◌, Text}

pub data GoError {ℓ} (S : Type ℓ) : Type ℓ where
  sentinel : S → GoError S
  external : Text → GoError S
  wrapped : Text → GoError S → GoError S

-- `errors.Is` against a sentinel.
unfoldable pub errors_is {ℓ} : {S : Type ℓ} ⦃e : Eq S⦄ → GoError S → S → Bool
errors_is (sentinel s) t = s == t
errors_is (external m) t = false
errors_is (wrapped m e) t = errors_is e t

-- A pair of a value and an error.
pub data Result {ℓ κ} (S : Type ℓ) (A : Type κ) : Type (ℓ ⊔ κ) where
  ok : A → Result S A
  err : GoError S → Result S A

pub Result-cases {ℓ κ} :
    {S : Type ℓ} {A : Type κ} (r : Result S A)
    → ((a : A) × (r ≡ ok a)) ⊎ ((e : GoError S) × (r ≡ err e))
Result-cases (ok a) = inl (a, refl)
Result-cases (err e) = inr (e, refl)
