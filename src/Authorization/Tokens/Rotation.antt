-- ===== src/Authorization/Tokens/Rotation.antt =====
-- What a refresh does to the sessions.
mod Steps
pub use Steps.*
use crypto_asset_tracker_mic.Base.{
  committed, rolled_back, first-keep-not, ℕ, false, zero, suc, ◌+◌, not, List, [], ◌∷◌, ◌++◌, some,
  none, ◌≡◌, ◌≢◌, refl, ap, ◌∙◌, sym, inl, inr, arith, Text, text_eq, eq_iff, Result, ok, err, Read,
  row, record_not_found, read_failed, ReadLaw, Write, stored, write_failed, CreateLaw, Deleted,
  rows_affected, delete_failed, DeleteLaw, TransactionLaw, GoError, first, keep, Bool-cases,
  first-passes, first-append_none,
}
use crypto_asset_tracker_mic.Authorization.Models.{
  Sentinel, Uuid, User, Session, TokenConfig, Tokens, Crypto, hash_token, AuthDb, AuthDbLaws,
  Completes, tables, generate_random_string,
}
use crypto_asset_tracker_mic.Authorization.Users.{get_user_by_id, user_read, has_id}
use crypto_asset_tracker_mic.Authorization.Tokens.{
  session_stored, session_read, session_deleted, has_token, expired, store_refresh_token,
  get_by_refresh_token_hash, delete_by_refresh_token_hash, session_reply, open_session, with_access,
  generate_token_in_tx, regenerated, replace_session, refresh_for, refresh_session, refresh_in_tx,
  refresh_token,
}

-- If `RefreshToken` returns tokens, the old token had a session that is not expired, all sessions of
-- the old token are gone, and a session of the same user is added for the new token, which expires
-- after the configured time.
pub refresh_token-Rotates :
    (db : AuthDb)
    → AuthDbLaws db
    → (crypto : Crypto) (cfg : TokenConfig) (clock : ℕ → ℕ) (random : Result Sentinel (List ℕ))
      (token : Text) (s : db.State) (t : Tokens)
    → (refresh_token db crypto cfg clock random token s).0 ≡ ok t
    → Rotated crypto cfg clock token t.1
        (db.sessions s)
        (db.sessions (refresh_token db crypto cfg clock random token s).1)
unfolding refresh_token refresh_in_tx get_by_refresh_token_hash
refresh_token-Rotates db laws crypto cfg clock random token s t h =
    let done =
      committed (tables db) s (refresh_in_tx db crypto cfg clock random token s)
        (refresh_token db crypto cfg clock random token s) t
        (laws.transaction_law (refresh_in_tx db crypto cfg clock random token) s) h in
    rw (ap (λ v. v.1) done.1) (
      refresh_session-Rotates db laws crypto cfg clock random token
        (db.first_session (has_token (hash_token crypto token)) s) s t
        (laws.first_session_law (has_token (hash_token crypto token)) s) done.0)

-- A refresh that fails, at whatever point, leaves the accounts and the sessions as they were.
pub refresh_token_failed :
    (db : AuthDb)
    → AuthDbLaws db
    → (crypto : Crypto) (cfg : TokenConfig) (clock : ℕ → ℕ) (random : Result Sentinel (List ℕ))
      (token : Text) (s : db.State) (e : GoError Sentinel)
    → (refresh_token db crypto cfg clock random token s).0 ≡ err e
    → tables db (refresh_token db crypto cfg clock random token s).1 ≡ tables db s
unfolding refresh_token
refresh_token_failed db laws crypto cfg clock random token s e h =
    rolled_back (tables db) s (refresh_in_tx db crypto cfg clock random token s)
      (refresh_token db crypto cfg clock random token s) e
      (laws.transaction_law (refresh_in_tx db crypto cfg clock random token) s) h

old_token_gone :
    (crypto : Crypto) (cfg : TokenConfig) (clock : ℕ → ℕ) (token refresh : Text)
    (before after : List Session)
    → hash_token crypto refresh ≢ hash_token crypto token
    → Rotated crypto cfg clock token refresh before after
    → first (has_token (hash_token crypto token)) after ≡ none
old_token_gone crypto cfg clock token refresh before after fresh
      (old, found, live, (n, e, u, r, x)) =
    rw e (
      first-append_none (has_token (hash_token crypto token)) _ (n ∷ [])
        (first-keep-not (has_token (hash_token crypto token)) before)
      ∙ ground (arith, eq_iff n.refresh_token (hash_token crypto token)))

not_found_again :
    (crypto : Crypto) (cfg : TokenConfig) (clock : ℕ → ℕ) (token refresh : Text)
    (before after : List Session)
    → first (has_token (hash_token crypto token)) before ≡ none
    → ¬ Rotated crypto cfg clock token refresh before after
not_found_again crypto cfg clock token refresh before after gone (old, found, live, new) = cc

-- A refresh token is good for one refresh: once it is exchanged for a token with another hash, every
-- further refresh by it, at any time, fails.
pub refresh_twice :
    (db : AuthDb)
    → AuthDbLaws db
    → (crypto : Crypto) (cfg : TokenConfig) (clock later : ℕ → ℕ)
      (random again : Result Sentinel (List ℕ)) (token : Text) (s : db.State) (t u : Tokens)
    → (refresh_token db crypto cfg clock random token s).0 ≡ ok t
    → hash_token crypto t.1 ≢ hash_token crypto token
    → (refresh_token db crypto cfg later again token
        (refresh_token db crypto cfg clock random token s).1).0
      ≢ ok u
refresh_twice db laws crypto cfg clock later random again token s t u h fresh bad =
    not_found_again crypto cfg later token u.1 _ _
      (old_token_gone crypto cfg clock token t.1 _ _ fresh
        (refresh_token-Rotates db laws crypto cfg clock random token s t h))
      (refresh_token-Rotates db laws crypto cfg later again token _ u bad)
