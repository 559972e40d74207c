-- ===== src/Authorization/Server.antt =====
-- Authorization/internal/grpc/auth/server.go: the gRPC handlers.
pub mod Credentials
use crypto_asset_tracker_mic.Base.{
  is_empty, ℕ, Bool, true, false, List, [], ◌∷◌, if◌then◌else◌, Text, codes, GoError, errors_is,
  Result, ok, err,
}
use crypto_asset_tracker_mic.Authorization.Models.{
  Sentinel, sentinel_eq, user_exists, recording_wnf, Uuid, User, TokenConfig, Tokens, Crypto,
  AuthDb,
}
use crypto_asset_tracker_mic.Authorization.Users.{register_user, login_user}
use crypto_asset_tracker_mic.Authorization.Tokens.{generate_token_in_tx, refresh_token, logout}

pub data Code : Type 0 where
  invalid_argument already_exists unauthenticated internal : Code

-- A response, or a status with its message.
pub data Reply (A : Type 0) : Type 0 where
  response : A → Reply A
  status : Code → Text → Reply A

unfoldable pub register_reply : Result Sentinel Uuid → Reply Uuid
register_reply (ok id) = response id
register_reply (err e) =
    if errors_is e user_exists
    then status already_exists (codes "user with this name already exists")
    else status internal (codes "failed to register user")

unfoldable pub tokens_reply : Result Sentinel Tokens → Reply Tokens
tokens_reply (ok t) = response t
tokens_reply (err e) = status internal (codes "failed to generate tokens")

unfoldable pub refresh_reply : Result Sentinel Tokens → Reply Tokens
refresh_reply (ok t) = response t
refresh_reply (err e) = status unauthenticated (codes "invalid or expired token")

unfoldable pub logout_reply : Result Sentinel (Unit {0}) → Reply Bool
logout_reply (ok u) = response true
logout_reply (err e) = status internal (codes "failed to logout")

module _ (db : AuthDb) (crypto : Crypto) (cfg : TokenConfig) where
  open db use {State}

  unfoldable pub register : Uuid → Text → Text → State → Reply Uuid × State
  register fresh name password s =
      if is_empty name
      then (status invalid_argument (codes "name is required"), s)
      else if is_empty password
      then (status invalid_argument (codes "password is required"), s)
      else let (r, s') = register_user db crypto fresh name password s in (register_reply r, s')

  unfoldable pub issue :
      (ℕ → ℕ) → Result Sentinel (List ℕ) → Result Sentinel User → State → Reply Tokens × State
  issue clock random (err e) s =
      if errors_is e recording_wnf
      then (status unauthenticated (codes "invalid credentials"), s)
      else (status internal (codes "login failed"), s)
  issue clock random (ok user) s =
      let (r, s') = generate_token_in_tx db crypto cfg clock random user.id user.name s in
      (tokens_reply r, s')

  unfoldable pub login :
      (ℕ → ℕ) → Result Sentinel (List ℕ) → Text → Text → State → Reply Tokens × State
  login clock random name password s =
      if is_empty name
      then (status invalid_argument (codes "name is required"), s)
      else if is_empty password
      then (status invalid_argument (codes "password is required"), s)
      else issue clock random (login_user db crypto name password s) s

  unfoldable pub refresh : (ℕ → ℕ) → Result Sentinel (List ℕ) → Text → State → Reply Tokens × State
  refresh clock random token s =
      if is_empty token
      then (status invalid_argument (codes "refresh token is required"), s)
      else let (r, s') = refresh_token db crypto cfg clock random token s in (refresh_reply r, s')

  unfoldable pub close : Text → State → Reply Bool × State
  close token s =
      if is_empty token
      then (status invalid_argument (codes "refresh token is required"), s)
      else let (r, s') = logout db crypto cfg token s in (logout_reply r, s')
