-- ===== src/Profile/Whole.antt =====
-- Whole numbers as decimals, for concrete runs: a number is written by one byte, its value.
use crypto_asset_tracker_mic.Base.{[], ◌∷◌, Option, none, some, Text}
use crypto_asset_tracker_mic.Base.Int.{ℤ, pos, ◌+ℤ◌, ◌*ℤ◌, is_negative, is_zero, pos_part}
use crypto_asset_tracker_mic.Profile.Models.{Decimal}

abbrev read : Text → Option ℤ
read [] = none
read (n ∷ _) = some (pos n)

abbrev pub whole : Decimal
whole = record {
  Number = ℤ;
  zero = pos 0;
  add = ◌+ℤ◌;
  mul = ◌*ℤ◌;
  is_negative = is_negative;
  is_zero = is_zero;
  of_text = read;
  to_text = λ n. pos_part n ∷ [];
}
