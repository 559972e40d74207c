-- ===== src/Base/Places.antt =====
-- The element at an index of a list, and the list with that element replaced or taken out.
use Prim.Native.Nat.{ℕ, zero, suc, ◌≤◌}
use mathlib.Core.Path.{◌≡◌, refl, subst}
use mathlib.Core.List.{List, [], ◌∷◌}
use mathlib.Core.Option.{Option, none, some}
use native.Mathlib.Omega.{arith}
use crypto_asset_tracker_mic.Base.Lists.{length, All}

module _ {A : Type 0} where
  abbrev pub get_elem? : List A → ℕ → Option A
  get_elem? [] i = none
  get_elem? (x ∷ xs) zero = some x
  get_elem? (x ∷ xs) (suc i) = get_elem? xs i

  abbrev pub or_out : Option A → List A → List A
  or_out none xs = xs
  or_out (some x) xs = x ∷ xs

  unfoldable pub put_at : ℕ → Option A → List A → List A
  put_at i o [] = []
  put_at zero o (x ∷ xs) = or_out o xs
  put_at (suc i) o (x ∷ xs) = x ∷ put_at i o xs

  pub length-put_at : (i : ℕ) (o : Option A) (xs : List A) → length (put_at i o xs) ≤ length xs
  unfolding put_at
  length-put_at i o [] = omega arith
  length-put_at zero none (x ∷ xs) = omega arith
  length-put_at zero (some y) (x ∷ xs) = omega arith
  length-put_at (suc i) o (x ∷ xs) = omega (arith, length-put_at i o xs)

  pub put_at-nil : (i : ℕ) (o : Option A) (xs : List A) → xs ≡ [] → put_at i o xs ≡ []
  unfolding put_at
  put_at-nil i o [] h = refl
  put_at-nil i o (x ∷ xs) h = cc

  pub All-put_at :
      (P : A → Type 0) (i : ℕ) (o : Option A) (xs : List A)
      → ((x : A) → o ≡ some x → P x)
      → All P xs
      → All P (put_at i o xs)
  unfolding put_at
  All-put_at P i o [] g h = tt
  All-put_at P zero none (x ∷ xs) g h = h.1
  All-put_at P zero (some y) (x ∷ xs) g h = (g y refl, h.1)
  All-put_at P (suc i) o (x ∷ xs) g h = (h.0, All-put_at P i o xs g h.1)

  pub All-get_elem? :
      (P : A → Type 0) (xs : List A) (i : ℕ) (x : A) → All P xs → get_elem? xs i ≡ some x → P x
  All-get_elem? P [] i x h e = absurd (cc)
  All-get_elem? P (y ∷ ys) zero x h e = let same : y ≡ x = cc in subst P same h.0
  All-get_elem? P (y ∷ ys) (suc i) x h e = All-get_elem? P ys i x h.1 e
