-- ===== src/Base/Lists.antt =====
-- Lists measured by native numbers, and filtered by Boolean tests that run.
use Prim.Native.Nat.{ℕ, suc, ◌+◌, ◌≤◌}
use mathlib.Core.Path.{◌≡◌, refl, subst}
use mathlib.Core.Logic.{inl, inr}
use mathlib.Core.Bool.{Bool, true, false, not}
use mathlib.Core.List.{List, [], ◌∷◌, ◌++◌, map}
use mathlib.Core.Option
use mathlib.Core.Option.{Option, none, some}
use native.Mathlib.Omega.{arith}
use crypto_asset_tracker_mic.Base.Tests.{if◌then◌else◌, Bool-cases}

module _ {ℓ} {A : Type ℓ} where
  abbrev pub length : List A → ℕ
  length [] = 0
  length (x ∷ xs) = suc (length xs)

  pub length-append : (xs ys : List A) → length (xs ++ ys) ≡ length xs + length ys
  length-append [] ys = omega arith
  length-append (x ∷ xs) ys = omega (arith, length-append xs ys)

  -- How many elements pass a test.
  abbrev pub tally : (A → Bool) → List A → ℕ
  tally q [] = 0
  tally q (x ∷ xs) = (if q x then 1 else 0) + tally q xs

  pub tally-append : (q : A → Bool) (xs ys : List A) → tally q (xs ++ ys) ≡ tally q xs + tally q ys
  tally-append q [] ys = omega arith
  tally-append q (x ∷ xs) ys = omega (arith, tally-append q xs ys)

  abbrev pub All {κ} : (A → Type κ) → List A → Type κ
  All P [] = Unit
  All P (x ∷ xs) = P x × All P xs

  pub All-append {κ} :
      (P : A → Type κ) (front back : List A) → All P front → All P back → All P (front ++ back)
  All-append P [] back _ second = second
  All-append P (a ∷ front) back (now, others) second = (now, All-append P front back others second)

  -- The entries that pass a test, and the first of them.
  abbrev pub keep : (A → Bool) → List A → List A
  keep p [] = []
  keep p (x ∷ xs) = if p x then x ∷ keep p xs else keep p xs

  abbrev pub first : (A → Bool) → List A → Option A
  first p [] = none
  first p (x ∷ xs) = if p x then some x else first p xs

  pub keep-append : (p : A → Bool) (xs ys : List A) → keep p (xs ++ ys) ≡ keep p xs ++ keep p ys
  keep-append p [] ys = refl
  keep-append p (x ∷ xs) ys = ground (arith, keep-append p xs ys)

  pub length-keep-le : (p : A → Bool) (xs : List A) → length (keep p xs) ≤ length xs
  length-keep-le p [] = omega arith
  length-keep-le p (x ∷ xs) = ground (arith, length-keep-le p xs)

  pub All-keep {κ} : (P : A → Type κ) (p : A → Bool) (xs : List A) → All P xs → All P (keep p xs)
  All-keep P p [] h = tt
  All-keep P p (x ∷ xs) h = ground (arith, All-keep P p xs h.1)

  pub All-mono {κ ι} :
      (P : A → Type κ) (Q : A → Type ι) (xs : List A) → ((x : A) → P x → Q x) → All P xs → All Q xs
  All-mono P Q [] f h = tt
  All-mono P Q (x ∷ xs) f h = (f x h.0, All-mono P Q xs f h.1)

  -- A first entry passes the test.
  pub first-passes : (p : A → Bool) (xs : List A) (x : A) → first p xs ≡ some x → p x ≡ true
  first-passes p [] x h = cc
  first-passes p (y ∷ xs) x h = ground (arith, first-passes p xs x)

  -- No entry passes the test.
  abbrev pub Absent : (A → Bool) → List A → Type 0
  Absent p xs = All (λ x. p x ≡ false) xs

  pub first-Absent : (p : A → Bool) (xs : List A) → Absent p xs → first p xs ≡ none
  first-Absent p [] h = refl
  first-Absent p (x ∷ xs) h = ground (arith, first-Absent p xs h.1)

  pub Absent-first : (p : A → Bool) (xs : List A) → first p xs ≡ none → Absent p xs
  Absent-first p [] h = tt
  Absent-first p (x ∷ xs) h = ground (arith, Absent-first p xs)

  -- Nothing that passes is left when what passes is removed.
  pub first-keep-not : (p : A → Bool) (xs : List A) → first p (keep (λ x. not (p x)) xs) ≡ none
  first-keep-not p [] = refl
  first-keep-not p (x ∷ xs) = ground (arith, first-keep-not p xs)

  pub first-append_none :
      (p : A → Bool) (xs ys : List A) → first p xs ≡ none → first p (xs ++ ys) ≡ first p ys
  first-append_none p [] ys h = refl
  first-append_none p (x ∷ xs) ys h = ground (arith, first-append_none p xs ys)

  -- What holds of all entries holds of the first that passes.
  pub All-first {κ} :
      (P : A → Type κ) (p : A → Bool) (xs : List A) (x : A) → All P xs → first p xs ≡ some x → P x
  All-first P p [] x h e = cc
  All-first P p (y ∷ xs) x h e = elim (Bool-cases (p y)) [
    | inl hit ↦ subst P (ground arith) h.0
    | inr miss ↦ All-first P p xs x h.1 (ground arith)
  ]

  -- A last entry that fails the test is not seen.
  pub first-append_miss :
      (p : A → Bool) (xs : List A) (y : A) → p y ≡ false → first p (xs ++ y ∷ []) ≡ first p xs
  first-append_miss p [] y h = ground arith
  first-append_miss p (x ∷ xs) y h = ground (arith, first-append_miss p xs y h)

  -- A change that the test does not notice.
  pub first-map :
      (p : A → Bool) (f : A → A) (xs : List A)
      → All (λ x. p (f x) ≡ p x) xs
      → first p (map f xs) ≡ Option.map f (first p xs)
  first-map p f [] h = ground arith
  first-map p f (x ∷ xs) h = ground (arith, first-map p f xs h.1)
