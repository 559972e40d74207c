-- ===== src/Profile/Server.antt =====
-- Profile/internal/grpc/profile/server.go: the gRPC handlers over the services. `uuid.Parse` is an
-- argument.
pub mod Refusals
pub mod Tests
use crypto_asset_tracker_mic.Base.{
  is_empty, ℕ, Bool, true, false, List, [], ◌∷◌, ◌++◌, map, Option, none, some, if◌then◌else◌, Text,
  codes, GoError, errors_is, Result, ok, err,
}
use crypto_asset_tracker_mic.Profile.Models.{
  Decimal, Uuid, User, Coin, Sentinel, sentinel_eq, not_found, insufficient_funds,
}
use crypto_asset_tracker_mic.Profile.Users.{UserDb, get_user_profile}
use crypto_asset_tracker_mic.Profile.Coins.{CoinDb, update_coin_quantity, delete_coin}

pub data Code : Type 0 where
  invalid_argument missing internal_error failed_precondition : Code

-- A response, or a status with its message.
pub data Reply (A : Type 0) : Type 0 where
  response : A → Reply A
  status : Code → Text → Reply A

pub record ProfileResponse : Type 0 where
  pub user_id : Text
  pub name : Text
  pub coins : List (Text × Text)

module _ (D : Decimal) (parse_uuid : Text → Option Uuid) where
  unfoldable pub profile_reply : Result Sentinel (User D) → Reply ProfileResponse
  profile_reply (ok u) = response (record {
    user_id = u.id;
    name = u.name;
    coins = map (λ (c : Coin D). (c.symbol, D.to_text c.quantity)) u.coins;
  })
  profile_reply (err e) =
      if errors_is e not_found
      then status missing (codes "user not found")
      else status internal_error (codes "failed to get user profile")

  unfoldable pub get_profile : (db : UserDb D) → Text → db.State → Reply ProfileResponse
  get_profile db id s = elim (parse_uuid id) [
    | none ↦ status invalid_argument (codes "invalid user ID")
    | some user ↦ profile_reply (get_user_profile D db user s)
  ]

  unfoldable pub update_reply : Result Sentinel (Coin D) → Reply Bool
  update_reply (ok c) = response true
  update_reply (err e) =
      if errors_is e insufficient_funds
      then status failed_precondition (codes "insufficient funds")
      else status internal_error (codes "failed to process request")

  unfoldable pub delete_reply : Result Sentinel (Unit {0}) → Reply Bool
  delete_reply (ok u) = response true
  delete_reply (err e) =
      if errors_is e not_found
      then status missing (codes "coin not found in portfolio")
      else status internal_error (codes "failed to process request")

  module _ (db : CoinDb D) where
    open db use {State}

    -- The end of the handler, from the parsed quantity on; `details` is the parser's error.
    unfoldable pub update_parsed : Text → Uuid → Text → Option D.Number → State → Reply Bool × State
    update_parsed details user symbol none s =
        (status invalid_argument (codes "invalid quantity format: " ++ details), s)
    update_parsed details user symbol (some q) s =
        if D.is_zero q
        then (status invalid_argument (codes "quantity cannot be zero"), s)
        else let (r, s') = update_coin_quantity D db user symbol q s in (update_reply r, s')

    unfoldable pub update_of : Text → Option Uuid → Text → Text → State → Reply Bool × State
    update_of details none symbol quantity s =
        (status invalid_argument (codes "invalid user ID"), s)
    update_of details (some user) symbol quantity s =
        if is_empty symbol
        then (status invalid_argument (codes "invalid symbol"), s)
        else update_parsed details user symbol (D.of_text quantity) s

    unfoldable pub update_coin_handler : Text → Text → Text → Text → State → Reply Bool × State
    update_coin_handler details id symbol quantity s =
        update_of details (parse_uuid id) symbol quantity s

    unfoldable pub delete_of : Option Uuid → Text → State → Reply Bool × State
    delete_of none symbol s = (status invalid_argument (codes "invalid user ID"), s)
    delete_of (some user) symbol s =
        if is_empty symbol
        then (status invalid_argument (codes "symbol is required"), s)
        else let (r, s') = delete_coin D db user symbol s in (delete_reply r, s')

    unfoldable pub delete_coin_handler : Text → Text → State → Reply Bool × State
    delete_coin_handler id symbol s = delete_of (parse_uuid id) symbol s
