-- ===== src/Base/Dicts.antt =====
-- `map[K]V` as an association list; `delete` drops every binding of its key.
use mathlib.Core.Path.{◌≡◌, refl}
use mathlib.Core.Bool.{Bool, true, false, ◌||◌, ◌&&◌, not}
use mathlib.Core.List.{List, [], ◌∷◌}
use mathlib.Core.Option
use mathlib.Core.Option.{Option, none, some}
use native.Mathlib.Omega.{arith}
use crypto_asset_tracker_mic.Base.Tests.{if◌then◌else◌}
use crypto_asset_tracker_mic.Base.Equality.{Eq, ◌==◌, eq_iff}
use crypto_asset_tracker_mic.Base.Sets.{contains}

abbrev pub Dict {ℓ κ} : Type ℓ → Type κ → Type (ℓ ⊔ κ)
Dict K V = List (K × V)

module _ {ℓ κ} {K : Type ℓ} {V : Type κ} ⦃e : Eq K⦄ where
  unfoldable pub lookup : K → Dict K V → Option V
  lookup key [] = none
  lookup key ((at, value) ∷ rest) = if at == key then some value else lookup key rest

  unfoldable pub delete : K → Dict K V → Dict K V
  delete key [] = []
  delete key ((at, value) ∷ rest) =
      if at == key then delete key rest else (at, value) ∷ delete key rest

  unfoldable pub insert : K → V → Dict K V → Dict K V
  insert key new [] = (key, new) ∷ []
  insert key new ((at, value) ∷ rest) =
      if at == key then (key, new) ∷ rest else (at, value) ∷ insert key new rest

  unfoldable pub has : K → Dict K V → Bool
  unfolding lookup
  has k m = elim (lookup k m) [ none ↦ false | some v ↦ true ]

  pub lookup-insert :
      (written read : K) (new : V) (d : Dict K V)
      → lookup read (insert written new d) ≡ (if written == read then some new else lookup read d)
  unfolding lookup insert
  lookup-insert written read new ((at, value) ∷ rest) = ground (
    arith,
    lookup-insert written read new rest,
    eq_iff at read,
    eq_iff at written,
    eq_iff written read,
  )
  lookup-insert written read new [] = refl

  pub lookup-delete :
      (k j : K) (m : Dict K V) → lookup j (delete k m) ≡ (if k == j then none else lookup j m)
  unfolding lookup delete
  lookup-delete k j [] = ground arith
  lookup-delete k j ((i, w) ∷ m) =
      ground (arith, eq_iff k j, eq_iff i k, eq_iff i j, lookup-delete k j m)

  -- A write through a pointer that the map holds.
  unfoldable pub modify : K → (V → V) → Dict K V → Dict K V
  modify k f [] = []
  modify k f ((j, v) ∷ m) = if j == k then (j, f v) ∷ modify k f m else (j, v) ∷ modify k f m

  pub lookup-modify :
      (k j : K) (f : V → V) (m : Dict K V)
      → lookup j (modify k f m) ≡ (if k == j then Option.map f (lookup j m) else lookup j m)
  unfolding lookup modify
  lookup-modify k j f [] = ground arith
  lookup-modify k j f ((i, w) ∷ m) =
      ground (arith, eq_iff k j, eq_iff i k, eq_iff i j, lookup-modify k j f m)

  unfoldable pub keys : Dict K V → List K
  keys [] = []
  keys ((j, v) ∷ m) = j ∷ keys m

  pub contains-keys : (k : K) (m : Dict K V) → contains k (keys m) ≡ has k m
  unfolding keys has contains
  contains-keys k [] = refl
  contains-keys k ((j, v) ∷ m) = ground (arith, contains-keys k m)

  pub has-insert : (k j : K) (v : V) (m : Dict K V) → has j (insert k v m) ≡ (k == j || has j m)
  unfolding has
  has-insert k j v m = ground (arith, lookup-insert k j v m)

  pub has-delete : (k j : K) (m : Dict K V) → has j (delete k m) ≡ (not (k == j) && has j m)
  unfolding has
  has-delete k j m = ground (arith, lookup-delete k j m)
