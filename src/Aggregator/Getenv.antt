-- ===== src/Aggregator/Getenv.antt =====
-- Aggregator/lib/getenv/getenv.go: settings from the environment, which is an argument. The same
-- functions stand in Kafka-ClickHouse/lib/getenv and Socket/lib/getenv.
use crypto_asset_tracker_mic.Base.{
  ℕ, ◌&&◌, ◌*◌, ◌+◌, ◌-◌, ◌^◌, List, [], ◌∷◌, Option, none, some, if◌then◌else◌, ltb, leb, nat_beq,
  Text, split_at,
}
use crypto_asset_tracker_mic.Base.Int.{ℤ, pos, negsuc}

unfoldable pub get_string : Text → Text → Text
get_string [] default = default
get_string (c ∷ s) default = c ∷ s

-- The number of a text of digits, read on from `n`.
unfoldable pub digits : ℕ → Text → Option ℕ
digits n [] = some n
digits n (c ∷ s) =
    let rest = digits (n * 10 + (c - b'0')) s in if leb b'0' c && leb c b'9' then rest else none

abbrev pub at_least_one : Text → Option ℕ
at_least_one [] = none
at_least_one (c ∷ s) = digits 0 (c ∷ s)

-- The number in the range of a 64-bit `int`.
abbrev pub positive : Option ℕ → Option ℤ
positive none = none
positive (some n) = if ltb n (2 ^ 63) then some (pos n) else none

abbrev pub negative : Option ℕ → Option ℤ
negative none = none
negative (some n) =
    if nat_beq n 0 then some (pos 0) else if leb n (2 ^ 63) then some (negsuc (n - 1)) else none

-- `strconv.Atoi`.
unfoldable pub atoi : Text → Option ℤ
unfolding digits
atoi [] = none
atoi (c ∷ s) =
    if nat_beq c b'-'
    then negative (at_least_one s)
    else if nat_beq c b'+'
    then positive (at_least_one s)
    else positive (at_least_one (c ∷ s))

abbrev pub or_default : {A : Type 0} → A → Option A → A
or_default d none = d
or_default d (some a) = a

unfoldable pub get_int : Text → ℤ → ℤ
unfolding atoi
get_int [] default = default
get_int (c ∷ s) default = or_default default (atoi (c ∷ s))

-- `time.ParseDuration` is an argument.
unfoldable pub get_time : (Text → Option ℤ) → Text → ℤ → ℤ
get_time parse [] default = default
get_time parse (c ∷ s) default = or_default default (parse (c ∷ s))

-- `strings.Split` at commas.
unfoldable pub get_slice : Text → List Text → List Text
unfolding split_at
get_slice [] default = default
get_slice (c ∷ s) default = (split_at b',' (c ∷ s)).0 ∷ (split_at b',' (c ∷ s)).1
