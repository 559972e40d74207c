-- ===== src/Profile/Http.antt =====
-- Profile/internal/handler/http/handler.go: the HTTP API. What gin binds of a request's body and the
-- client of Authorization are arguments.
pub mod Tests
use crypto_asset_tracker_mic.Base.{
  is_empty, ℕ, Bool, true, false, ◌||◌, not, List, [], ◌∷◌, Option, none, some, if◌then◌else◌, Text,
  text_eq, ◌==◌, codes, split_at, GoError, errors_is, Result, ok, err,
}
use crypto_asset_tracker_mic.Profile.Models.{
  Decimal, Uuid, User, Coin, Sentinel, sentinel_eq, not_found, already_exists, insufficient_funds,
}
use crypto_asset_tracker_mic.Profile.Users.{UserDb, create_user_profile, get_user_profile}
use crypto_asset_tracker_mic.Profile.Coins.{CoinDb, update_coin_quantity, delete_coin}

pub data GrpcCode : Type 0 where
  code_ok invalid_argument unauthenticated permission_denied missing already_there internal_error
        other_code :
      GrpcCode

unfoldable pub grpc_code_to_http : GrpcCode → ℕ
grpc_code_to_http code_ok = 200
grpc_code_to_http invalid_argument = 400
grpc_code_to_http unauthenticated = 401
grpc_code_to_http permission_denied = 403
grpc_code_to_http missing = 404
grpc_code_to_http already_there = 409
grpc_code_to_http internal_error = 500
grpc_code_to_http other_code = 500

pub record AuthRequest : Type 0 where
  pub name : Text
  pub password : Text

pub record CoinRequest : Type 0 where
  pub symbol : Text
  pub quantity : Text

-- An answer of the client of Authorization.
pub data Called (A : Type 0) : Type 0 where
  returned : A → Called A
  failed : GrpcCode → Text → Called A

module _ (D : Decimal) where
  pub data Body : Type 0 where
    error_body message_body access_token : Text → Body
    user_body : User D → Body
    coin_body : Coin D → Body

  pub record HttpReply : Type 0 where
    pub code : ℕ
    pub body : Body

  abbrev pub fails : ℕ → Text → HttpReply
  fails code text = record { code = code; body = error_body text }

  abbrev pub tells : ℕ → Text → HttpReply
  tells code text = record { code = code; body = message_body text }

  -- `uuid.Parse` with its error ignored gives the nil identifier.
  abbrev pub or_nil : Uuid → Option Uuid → Uuid
  or_nil nil none = nil
  or_nil nil (some id) = id

  module _ (parse_uuid : Text → Option Uuid) (nil : Uuid) (users : UserDb D) where
    -- After the account is made: the profile's failure is logged only.
    unfoldable pub registered : Text → Called Text → users.State → HttpReply × users.State
    registered name (failed code text) s = (fails (grpc_code_to_http code) text, s)
    registered name (returned id) s = elim (parse_uuid id) [
      | none ↦ (fails 500 (codes "internal server error"), s)
      | some user ↦ (
        tells 201 (codes "user created successfully"),
        (create_user_profile D users user name s).1,
      )
    ]

    unfoldable pub register :
        (Text → Text → Called Text) → Option AuthRequest → users.State → HttpReply × users.State
    register auth none s = (fails 400 (codes "invalid request body"), s)
    register auth (some req) s = registered req.name (auth req.name req.password) s

    -- The reply, and the refresh token that is set as a cookie.
    unfoldable pub logged_in : Called (Text × Text) → HttpReply × Option Text
    logged_in (failed code text) = (fails (grpc_code_to_http code) text, none)
    logged_in (returned (access, refresh)) =
        (record { code = 200; body = access_token access }, some refresh)

    unfoldable pub login :
        (Text → Text → Called (Text × Text)) → Option AuthRequest → HttpReply × Option Text
    login auth none = (fails 400 (codes "invalid request body"), none)
    login auth (some req) = logged_in (auth req.name req.password)

    -- The profile of a client that connects: the stored one, or a new one; none is a 500.
    unfoldable pub created_profile :
        Result Sentinel (User D) × users.State → Option (User D) × users.State
    created_profile (ok u, s) = (some u, s)
    created_profile (err e, s) = (none, s)

    unfoldable pub profile_for :
        Uuid → Text → Result Sentinel (User D) → users.State → Option (User D) × users.State
    profile_for id name (ok u) s = (some u, s)
    profile_for id name (err e) s =
        if errors_is e not_found
        then created_profile (create_user_profile D users id name s)
        else (none, s)

    unfoldable pub ws_profile : Text → Text → users.State → Option (User D) × users.State
    ws_profile id name s =
        let user = or_nil nil (parse_uuid id) in
        profile_for user name (get_user_profile D users user s) s

    unfoldable pub shown : Result Sentinel (User D) → HttpReply
    shown (ok u) = record { code = 200; body = user_body u }
    shown (err e) =
        if errors_is e not_found
        then fails 404 (codes "user profile not found")
        else fails 500 (codes "internal server error")

    unfoldable pub get_profile : Option Text → users.State → HttpReply
    get_profile none s = fails 401 (codes "unauthorized")
    get_profile (some id) s = elim (parse_uuid id) [
      | none ↦ fails 401 (codes "invalid user id in token")
      | some user ↦ shown (get_user_profile D users user s)
    ]

    unfoldable pub made : Result Sentinel (User D) → HttpReply
    made (ok u) = tells 201 (codes "profile created successfully")
    made (err e) =
        if errors_is e already_exists
        then tells 200 (codes "profile already exists")
        else fails 500 (codes "could not create profile")

    unfoldable pub create_profile : Text → Option Text → users.State → HttpReply × users.State
    create_profile id none s = (fails 401 (codes "user name not found in token"), s)
    create_profile id (some name) s =
        let (r, s') = create_user_profile D users (or_nil nil (parse_uuid id)) name s in
        (made r, s')

  module _ (parse_uuid : Text → Option Uuid) (nil : Uuid) (coins : CoinDb D) where
    unfoldable pub changed_reply : Result Sentinel (Coin D) → HttpReply
    changed_reply (ok c) = record { code = 200; body = coin_body c }
    changed_reply (err e) =
        if errors_is e insufficient_funds
        then fails 409 (codes "insufficient funds")
        else fails 500 (codes "could not update coin")

    unfoldable pub change_by : Text → Text → Option D.Number → coins.State → HttpReply × coins.State
    change_by id symbol none s = (fails 400 (codes "invalid quantity format"), s)
    change_by id symbol (some q) s =
        let (r, s') = update_coin_quantity D coins (or_nil nil (parse_uuid id)) symbol q s in
        (changed_reply r, s')

    unfoldable pub update_coin : Text → Option CoinRequest → coins.State → HttpReply × coins.State
    update_coin id none s = (fails 400 (codes "invalid request body"), s)
    update_coin id (some req) s =
        if is_empty req.quantity
        then (fails 400 (codes "quantity is required"), s)
        else change_by id req.symbol (D.of_text req.quantity) s

    unfoldable pub deleted_reply : Result Sentinel (Unit {0}) → HttpReply
    deleted_reply (ok u) = tells 200 (codes "coin successfully deleted")
    deleted_reply (err e) =
        if errors_is e not_found
        then fails 404 (codes "coin not found in portfolio")
        else fails 500 (codes "could not delete coin")

    unfoldable pub remove_coin : Text → Option CoinRequest → coins.State → HttpReply × coins.State
    remove_coin id none s = (fails 400 (codes "invalid request body, 'symbol' is required"), s)
    remove_coin id (some req) s =
        let (r, s') = delete_coin D coins (or_nil nil (parse_uuid id)) req.symbol s in
        (deleted_reply r, s')
