-- ===== src/Authorization/Tokens.antt =====
-- Authorization/internal/api/repository/token_repo.go and api/service/token_service.go: sessions
-- and their refresh tokens. The i-th reading of the clock in a call is `clock i`, and what the
-- source of random bytes answers is an argument.
pub mod Rotation
pub mod Expiry
use crypto_asset_tracker_mic.Base.{
  ℕ, Bool, zero, suc, ◌+◌, ◌/◌, ◌&&◌, not, List, if◌then◌else◌, ltb, Text, text_eq, ◌==◌, codes,
  GoError, sentinel, wrapped, external, errors_is, Result, ok, err, Read, row, record_not_found,
  read_failed, Write, stored, write_failed, Deleted, rows_affected, delete_failed,
}
use crypto_asset_tracker_mic.Authorization.Models.{
  Sentinel, sentinel_eq, db_error, recording_wnd, recording_wnf, invalid_token, Uuid, User, Session,
  TokenConfig, Claims, Tokens, Crypto, hash_token, generate_random_string, AuthDb,
}
use crypto_asset_tracker_mic.Authorization.Users.{database_error, get_user_by_id}

unfoldable pub session_stored : Write Session → Result Sentinel (Unit {0})
session_stored (stored n) = ok tt
session_stored (write_failed text) = err (database_error text)

unfoldable pub session_read : Read Session → Result Sentinel Session
session_read (row n) = ok n
session_read record_not_found = err (sentinel recording_wnf)
session_read (read_failed text) = err (database_error text)

unfoldable pub session_deleted : Deleted → Result Sentinel (Unit {0})
session_deleted (delete_failed text) = err (database_error text)
session_deleted (rows_affected zero) = err (sentinel recording_wnd)
session_deleted (rows_affected (suc n)) = ok tt

-- `DeleteExpiredToken` and `DeleteAllUserSessions` do not look at the number of rows.
unfoldable pub sessions_deleted : Deleted → Result Sentinel (Unit {0})
sessions_deleted (delete_failed text) = err (database_error text)
sessions_deleted (rows_affected n) = ok tt

abbrev pub has_token : Text → Session → Bool
has_token hash n = n.refresh_token == hash

abbrev pub expired : ℕ → Session → Bool
expired now n = ltb n.expires_at now

abbrev pub of_user : Uuid → Session → Bool
of_user id n = n.user_id == id

-- `Time.Unix`: seconds.
abbrev pub unix : ℕ → ℕ
unix t = t / 1000000000

module _ (db : AuthDb) where
  open db use {State}

  unfoldable pub store_refresh_token : Session → State → Result Sentinel (Unit {0}) × State
  store_refresh_token n s = let (w, s') = db.create_session n s in (session_stored w, s')

  unfoldable pub get_by_refresh_token_hash : Text → State → Result Sentinel Session
  get_by_refresh_token_hash hash s = session_read (db.first_session (has_token hash) s)

  unfoldable pub delete_by_refresh_token_hash : Text → State → Result Sentinel (Unit {0}) × State
  delete_by_refresh_token_hash hash s =
      let (d, s') = db.delete_sessions (has_token hash) s in (session_deleted d, s')

  unfoldable pub delete_expired_token : (ℕ → ℕ) → State → Result Sentinel (Unit {0}) × State
  delete_expired_token clock s =
      let (d, s') = db.delete_sessions (expired (clock 0)) s in (sessions_deleted d, s')

  unfoldable pub delete_all_user_sessions : Uuid → State → Result Sentinel (Unit {0}) × State
  delete_all_user_sessions id s =
      let (d, s') = db.delete_sessions (of_user id) s in (sessions_deleted d, s')

  module _ (crypto : Crypto) (cfg : TokenConfig) where
    unfoldable pub session_reply : Text → Text → Result Sentinel (Unit {0}) → Result Sentinel Tokens
    session_reply access refresh (ok u) = ok (access, refresh)
    session_reply access refresh (err e) =
        err (wrapped (codes "failed to store refresh token session: ") e)

    unfoldable pub open_session :
        ℕ → Uuid → Text → Result Sentinel Text → State → Result Sentinel Tokens × State
    open_session now user_id access (err e) s =
        (err (wrapped (codes "failed to generate refresh token: ") e), s)
    open_session now user_id access (ok refresh) s =
        let (r, s') =
          store_refresh_token
            (record {
              id = 0;
              user_id = user_id;
              refresh_token = hash_token crypto refresh;
              expires_at = now + cfg.refresh_token;
            })
            s in
        (session_reply access refresh r, s')

    unfoldable pub with_access :
        ℕ
        → Uuid
        → Result Sentinel (List ℕ)
        → Result Sentinel Text
        → State
        → Result Sentinel Tokens × State
    with_access now user_id random (err e) s =
        (err (wrapped (codes "failed to sign access token: ") e), s)
    with_access now user_id random (ok access) s =
        open_session now user_id access (generate_random_string random) s

    unfoldable pub generate_token_in_tx :
        (ℕ → ℕ) → Result Sentinel (List ℕ) → Uuid → Text → State → Result Sentinel Tokens × State
    generate_token_in_tx clock random user_id name s =
        let claims : Claims = record {
          sub = user_id;
          name = name;
          exp = unix (clock 0 + cfg.access_token);
          iat = unix (clock 1);
        } in
        with_access (clock 2) user_id random (crypto.sign cfg.secret claims) s

    unfoldable pub regenerated : Result Sentinel Tokens → Result Sentinel Tokens
    regenerated (ok t) = ok t
    regenerated (err e) = err (wrapped (codes "failed to generate new tokens: ") e)

    -- The steps of the transaction of `RefreshToken`, the last first.
    unfoldable pub replace_session :
        (ℕ → ℕ)
        → Result Sentinel (List ℕ)
        → User
        → Result Sentinel (Unit {0})
        → State
        → Result Sentinel Tokens × State
    replace_session clock random user (err e) s =
        (err (wrapped (codes "failed to delete old session: ") e), s)
    replace_session clock random user (ok u) s =
        let (r, s') = generate_token_in_tx (λ i. clock (suc i)) random user.id user.name s in
        (regenerated r, s')

    unfoldable pub refresh_for :
        (ℕ → ℕ)
        → Result Sentinel (List ℕ)
        → Text
        → Result Sentinel User
        → State
        → Result Sentinel Tokens × State
    refresh_for clock random hash (err e) s =
        (err (wrapped (codes "inconsistent state: session not found but user not: ") e), s)
    refresh_for clock random hash (ok user) s =
        let (d, s') = delete_by_refresh_token_hash hash s in replace_session clock random user d s'

    unfoldable pub refresh_session :
        (ℕ → ℕ)
        → Result Sentinel (List ℕ)
        → Text
        → Result Sentinel Session
        → State
        → Result Sentinel Tokens × State
    refresh_session clock random hash (err e) s = (err (sentinel invalid_token), s)
    refresh_session clock random hash (ok session) s =
        if expired (clock 0) session
        then (err (sentinel invalid_token), s)
        else refresh_for clock random hash (get_user_by_id db session.user_id s) s

    unfoldable pub refresh_in_tx :
        (ℕ → ℕ) → Result Sentinel (List ℕ) → Text → State → Result Sentinel Tokens × State
    refresh_in_tx clock random token s =
        let hash = hash_token crypto token in
        refresh_session clock random hash (get_by_refresh_token_hash hash s) s

    unfoldable pub refresh_token :
        (ℕ → ℕ) → Result Sentinel (List ℕ) → Text → State → Result Sentinel Tokens × State
    refresh_token clock random token s = db.transaction (refresh_in_tx clock random token) s

    unfoldable pub logged_out : Result Sentinel (Unit {0}) → Result Sentinel (Unit {0})
    logged_out (ok u) = ok tt
    logged_out (err e) = if not (errors_is e recording_wnd) then err e else ok tt

    unfoldable pub logout : Text → State → Result Sentinel (Unit {0}) × State
    logout token s =
        let (d, s') = delete_by_refresh_token_hash (hash_token crypto token) s in (logged_out d, s')

    -- The rest of the service hands its calls to the repository.
    unfoldable pub generate_tokens :
        (ℕ → ℕ) → Result Sentinel (List ℕ) → Uuid → Text → State → Result Sentinel Tokens × State
    generate_tokens clock random user_id name s = generate_token_in_tx clock random user_id name s

    abbrev pub get_session_by_token : Text → State → Result Sentinel Session
    get_session_by_token token s = get_by_refresh_token_hash token s

    abbrev pub delete_session_by_token : Text → State → Result Sentinel (Unit {0}) × State
    delete_session_by_token token s = delete_by_refresh_token_hash token s
