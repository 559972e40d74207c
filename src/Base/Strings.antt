-- ===== src/Base/Strings.antt =====
-- The `strings` functions that the program calls, over bytes; `to_lower` is that of ASCII texts.
use mathlib.Core.Path.{◌≡◌, refl, sym, ap, ◌∙◌}
use mathlib.Core.Bool.{Bool, true, false, ◌&&◌, ◌||◌}
use mathlib.Core.List.{List, [], ◌∷◌, ◌++◌, map}
use Prim.Native.Nat.{ℕ, ◌+◌}
use native.Mathlib.Omega.{arith}
use crypto_asset_tracker_mic.Base.Tests.{if◌then◌else◌, leb, nat_beq, nat_beq_iff, if_cases}
use crypto_asset_tracker_mic.Base.Equality.{Text}

unfoldable pub lower_byte : ℕ → ℕ
lower_byte c = if leb b'A' c && leb c b'Z' then c + 32 else c

-- `strings.ToLower`.
unfoldable pub to_lower : Text → Text
unfolding lower_byte
to_lower s = map lower_byte s

lower_byte_idem : (c : ℕ) → lower_byte (lower_byte c) ≡ lower_byte c
unfolding lower_byte
lower_byte_idem c = ground arith

pub to_lower_idem : (s : Text) → to_lower (to_lower s) ≡ to_lower s
unfolding to_lower
to_lower_idem [] = refl
to_lower_idem (c ∷ s) = cc (lower_byte_idem c, to_lower_idem s)

-- `strings.HasPrefix` and `strings.Contains`.
unfoldable pub starts_with : Text → Text → Bool
starts_with [] s = true
starts_with (p ∷ ps) [] = false
starts_with (p ∷ ps) (c ∷ s) = nat_beq p c && starts_with ps s

unfoldable pub is_substring : Text → Text → Bool
unfolding starts_with
is_substring p [] = starts_with p []
is_substring p (c ∷ s) = starts_with p (c ∷ s) || is_substring p s

-- `strings.Split` at a byte: the first field and the others.
unfoldable pub split_at : ℕ → Text → Text × List Text
split_at sep [] = ([], [])
split_at sep (c ∷ s) =
    let (field, fields) = split_at sep s in
    if nat_beq c sep then ([], field ∷ fields) else (c ∷ field, fields)

-- The fields with a separator between any two.
abbrev pub join : ℕ → Text → List Text → Text
join sep field [] = field
join sep field (next ∷ fields) = field ++ sep ∷ join sep next fields

join-cons :
    (sep c : ℕ) (field : Text) (fields : List Text)
    → join sep (c ∷ field) fields ≡ c ∷ join sep field fields
join-cons sep c field [] = refl
join-cons sep c field (next ∷ fields) = refl

pub join-split_at : (sep : ℕ) (s : Text) → join sep (split_at sep s).0 (split_at sep s).1 ≡ s
unfolding split_at
join-split_at sep [] = refl
join-split_at sep (c ∷ s) =
    if_cases {A = Text × List Text} (λ r. join sep r.0 r.1 ≡ c ∷ s) (nat_beq c sep)
      (λ here. rw (join-split_at sep s) (ap (λ x. x ∷ s) (sym ((nat_beq_iff c sep).0 here))))
      (λ _.
        join-cons sep c (split_at sep s).0 (split_at sep s).1
        ∙ ap (λ x. c ∷ x) (join-split_at sep s))

-- `s == ""`.
abbrev pub is_empty : Text → Bool
is_empty [] = true
is_empty (c ∷ s) = false
