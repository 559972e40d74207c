-- ===== src/Profile/Http/Tests.antt =====
-- Runs of the middleware and of the handlers.
use crypto_asset_tracker_mic.Base.{
  is_empty, true, false, [], ◌++◌, Option, none, some, ◌≡◌, refl, Text, codes, split_at, errors_is,
}
use crypto_asset_tracker_mic.Profile.Whole.{whole}
use crypto_asset_tracker_mic.Profile.Coins.{
  update_coin_quantity, upsert, upsert_existing, upsert_missing, get_coin, coin_read, coin_added,
  coin_saved, is_exactly, upsert_reply,
}
use crypto_asset_tracker_mic.Profile.Coins.Tests.{memory, portfolio}
use crypto_asset_tracker_mic.Profile.Middleware.{
  SigningMethod, hmac, ParsedToken, parse_failed, parsed, key_for, refused, auth_middleware,
  check_parts, claimed,
}
use crypto_asset_tracker_mic.Profile.Http.{update_coin, change_by, changed_reply, fails}
use crypto_asset_tracker_mic.Profile.Middleware.Access.{auth_middleware-Sound}

everything : Unit {0}
unfolding auth_middleware check_parts claimed split_at update_coin change_by changed_reply errors_is
    update_coin_quantity upsert upsert_existing upsert_missing get_coin coin_read coin_added
    coin_saved is_exactly upsert_reply
everything = tt

-- A parser that accepts what is signed by the secret.
abbrev of_key : Option Text → ParsedToken
of_key none = parse_failed
of_key (some secret) = parsed true (some secret) (some (codes "ann"))

abbrev parser : Text → (SigningMethod → Option Text) → ParsedToken
parser token key = of_key (key hmac)

missing_scheme :
    auth_middleware parser (codes "s") (codes "t0k3n")
    ≡ refused (codes "invalid auth header format")
unfolding everything
missing_scheme = refl

empty_quantity :
    (update_coin whole
      (λ t. some t)
      []
      memory
      (codes "ann")
      (some (record { symbol = codes "btc"; quantity = [] }))
      portfolio).0
    ≡ fails whole 400 (codes "quantity is required")
unfolding everything
empty_quantity = refl

auth_middleware-Sound_example :
    (token : Text) × (codes "Bearer t0k3n" ≡ codes "Bearer " ++ token)
    × (is_empty token ≡ false)
    × (parser token (key_for (codes "s")) ≡ parsed true (some (codes "s")) (some (codes "ann")))
unfolding everything
auth_middleware-Sound_example =
    auth_middleware-Sound parser (codes "s") (codes "Bearer t0k3n") (codes "s") (codes "ann") refl
