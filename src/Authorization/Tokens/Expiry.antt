-- ===== src/Authorization/Tokens/Expiry.antt =====
-- Ending sessions: the removal of expired ones, and the logout.
use crypto_asset_tracker_mic.Base.{
  first-keep-not, ℕ, Bool, errors_is, not, List, none, ◌≡◌, Text, text_eq, ok, Deleted,
  rows_affected, delete_failed, DeleteLaw, first, keep,
}
use crypto_asset_tracker_mic.Authorization.Models.{
  Session, TokenConfig, Crypto, hash_token, AuthDb, AuthDbLaws, sentinel_eq,
}
use crypto_asset_tracker_mic.Authorization.Tokens.{
  session_deleted, sessions_deleted, has_token, expired, delete_by_refresh_token_hash,
  delete_expired_token, logged_out, logout,
}

deleted-Keeps :
    (p : Session → Bool) (before after : List Session) (d : Deleted)
    → DeleteLaw p before after d
    → sessions_deleted d ≡ ok tt
    → after ≡ keep (λ n. not (p n)) before
unfolding sessions_deleted
deleted-Keeps p before after (rows_affected k) law h = law.0
deleted-Keeps p before after (delete_failed m) law h = cc

-- The clean-up that succeeds removes the sessions that expired before the time it reads, and keeps
-- all others in their order.
pub delete_expired_token-Keeps :
    (db : AuthDb)
    → AuthDbLaws db
    → (clock : ℕ → ℕ) (s : db.State) → (delete_expired_token db clock s).0 ≡ ok tt
    → db.sessions (delete_expired_token db clock s).1
      ≡ keep (λ n. not (expired (clock 0) n)) (db.sessions s)
unfolding delete_expired_token
delete_expired_token-Keeps db laws clock s h =
    deleted-Keeps (expired (clock 0)) (db.sessions s) _ (db.delete_sessions (expired (clock 0)) s).0
      (laws.delete_sessions_law (expired (clock 0)) s) h

logged_out-Absent :
    (db : AuthDb) (crypto : Crypto) (cfg : TokenConfig) (p : Session → Bool)
    (before after : List Session) (d : Deleted)
    → DeleteLaw p before after d
    → logged_out db crypto cfg (session_deleted d) ≡ ok tt
    → first p after ≡ none
unfolding logged_out session_deleted errors_is
logged_out-Absent db crypto cfg p before after (rows_affected k) law h =
    rw law.0 (first-keep-not p before)
logged_out-Absent db crypto cfg p before after (delete_failed m) law h = cc

-- After a logout that is reported as done no session of the token is left, whether or not there was
-- one.
pub logout-Ends :
    (db : AuthDb)
    → AuthDbLaws db
    → (crypto : Crypto) (cfg : TokenConfig) (token : Text) (s : db.State)
    → (logout db crypto cfg token s).0 ≡ ok tt
    → first (has_token (hash_token crypto token)) (db.sessions (logout db crypto cfg token s).1)
      ≡ none
unfolding logout delete_by_refresh_token_hash
logout-Ends db laws crypto cfg token s h =
    logged_out-Absent db crypto cfg (has_token (hash_token crypto token)) (db.sessions s) _
      (db.delete_sessions (has_token (hash_token crypto token)) s).0
      (laws.delete_sessions_law (has_token (hash_token crypto token)) s) h
