-- ===== src/Base/Sets.antt =====
-- `map[K]struct{}` as a list of keys.
use mathlib.Core.Path.{◌≡◌}
use mathlib.Core.Bool.{Bool, false, ◌||◌, ◌&&◌, not}
use mathlib.Core.List.{List, [], ◌∷◌}
use native.Mathlib.Omega.{arith}
use crypto_asset_tracker_mic.Base.Tests.{if◌then◌else◌}
use crypto_asset_tracker_mic.Base.Equality.{Eq, ◌==◌, eq_iff}

module _ {ℓ} {K : Type ℓ} ⦃e : Eq K⦄ where
  unfoldable pub contains : K → List K → Bool
  contains k [] = false
  contains k (j ∷ m) = j == k || contains k m

  unfoldable pub add : K → List K → List K
  unfolding contains
  add k m = if contains k m then m else k ∷ m

  unfoldable pub remove : K → List K → List K
  remove k [] = []
  remove k (j ∷ m) = if j == k then remove k m else j ∷ remove k m

  pub contains-add : (k j : K) (m : List K) → contains j (add k m) ≡ (k == j || contains j m)
  unfolding contains add
  contains-add k j m = ground (arith, eq_iff k j)

  pub contains-remove :
      (k j : K) (m : List K) → contains j (remove k m) ≡ (not (k == j) && contains j m)
  unfolding contains remove
  contains-remove k j [] = ground arith
  contains-remove k j (i ∷ m) =
      ground (arith, contains-remove k j m, eq_iff i k, eq_iff i j, eq_iff k j)
