-- ===== src/Authorization/Tokens/Rotation/Steps.antt =====
-- The steps of a refresh, and what each leaves.
use crypto_asset_tracker_mic.Base.{
  ℕ, false, zero, suc, ◌+◌, not, List, [], ◌∷◌, ◌++◌, some, ◌≡◌, refl, ap, ◌∙◌, sym, inl, inr, Text,
  text_eq, eq_iff, Result, ok, err, Read, row, record_not_found, read_failed, ReadLaw, Write,
  stored, write_failed, CreateLaw, Deleted, rows_affected, delete_failed, DeleteLaw, first, keep,
  Bool-cases, first-passes,
}
use crypto_asset_tracker_mic.Authorization.Models.{
  Sentinel, Uuid, User, Session, TokenConfig, Tokens, Crypto, hash_token, AuthDb, AuthDbLaws,
  Completes, generate_random_string,
}
use crypto_asset_tracker_mic.Authorization.Users.{get_user_by_id, user_read, has_id}
use crypto_asset_tracker_mic.Authorization.Tokens.{
  session_stored, session_read, session_deleted, has_token, expired, store_refresh_token,
  delete_by_refresh_token_hash, session_reply, open_session, with_access, generate_token_in_tx,
  regenerated, replace_session, refresh_for, refresh_session,
}

-- A session of the user, for the refresh token and until the time, is added.
abbrev pub Issued : Crypto → Uuid → Text → ℕ → List Session → List Session → Type 0
Issued crypto user_id refresh expires before after =
    (n : Session) × (after ≡ before ++ n ∷ [])
    × (n.user_id ≡ user_id)
    × (n.refresh_token ≡ hash_token crypto refresh)
    × (n.expires_at ≡ expires)

-- The session of the old token is found and not expired; the sessions of the old token are gone,
-- and one for the new token is added for the same user.
abbrev pub Rotated :
    Crypto → TokenConfig → (ℕ → ℕ) → Text → Text → List Session → List Session → Type 0
Rotated crypto cfg clock token refresh before after =
    (old : Session) × (first (has_token (hash_token crypto token)) before ≡ some old)
    × (expired (clock 0) old ≡ false)
    × Issued crypto old.user_id refresh (clock 3 + cfg.refresh_token)
        (keep (λ n. not (has_token (hash_token crypto token) n)) before) after

module _ (db : AuthDb) (laws : AuthDbLaws db) (crypto : Crypto) (cfg : TokenConfig) where
  session_reply-Issued :
      (now : ℕ) (user_id : Uuid) (access refresh : Text) (n : Session) (before after : List Session)
      (w : Write Session) (t : Tokens)
      → (n.user_id ≡ user_id)
      → (n.refresh_token ≡ hash_token crypto refresh)
      → (n.expires_at ≡ now + cfg.refresh_token)
      → CreateLaw Completes n before after w
      → session_reply db crypto cfg access refresh (session_stored w) ≡ ok t
      → Issued crypto user_id t.1 (now + cfg.refresh_token) before after
  unfolding session_reply session_stored
  session_reply-Issued now user_id access refresh n before after (stored n') t u r x law h = (
    n',
    law.0,
    law.1.0 ∙ u,
    law.1.1
        ∙ (r
            ∙ ap
                (λ (z : Result Sentinel Tokens).
                  hash_token crypto (elim z [ ok y ↦ y.1 | err e ↦ refresh ]))
                h),
    law.1.2 ∙ x,
  )
  session_reply-Issued now user_id access refresh n before after (write_failed m) t u r x law h = cc

  open_session-Issued :
      (now : ℕ) (user_id : Uuid) (access : Text) (r : Result Sentinel Text) (s : db.State)
      (t : Tokens)
      → (open_session db crypto cfg now user_id access r s).0 ≡ ok t
      → Issued crypto user_id t.1
          (now + cfg.refresh_token)
          (db.sessions s)
          (db.sessions (open_session db crypto cfg now user_id access r s).1)
  unfolding open_session store_refresh_token
  open_session-Issued now user_id access (err e) s t h = cc
  open_session-Issued now user_id access (ok refresh) s t h =
      let n : Session = record {
        id = 0;
        user_id = user_id;
        refresh_token = hash_token crypto refresh;
        expires_at = now + cfg.refresh_token;
      } in
      session_reply-Issued now user_id access refresh n (db.sessions s) _ (db.create_session n s).0
        t refl refl refl (laws.create_session_law n s) h

  with_access-Issued :
      (now : ℕ) (user_id : Uuid) (random : Result Sentinel (List ℕ)) (r : Result Sentinel Text)
      (s : db.State) (t : Tokens)
      → (with_access db crypto cfg now user_id random r s).0 ≡ ok t
      → Issued crypto user_id t.1
          (now + cfg.refresh_token)
          (db.sessions s)
          (db.sessions (with_access db crypto cfg now user_id random r s).1)
  unfolding with_access
  with_access-Issued now user_id random (err e) s t h = cc
  with_access-Issued now user_id random (ok access) s t h =
      open_session-Issued now user_id access (generate_random_string random) s t h

  regenerated_ok :
      (r : Result Sentinel Tokens) (t : Tokens) → regenerated db crypto cfg r ≡ ok t → r ≡ ok t
  unfolding regenerated
  regenerated_ok (ok a) t h = h
  regenerated_ok (err e) t h = cc

  replace_session-Issued :
      (clock : ℕ → ℕ) (random : Result Sentinel (List ℕ)) (user : User)
      (d : Result Sentinel (Unit {0})) (s : db.State) (t : Tokens)
      → (replace_session db crypto cfg clock random user d s).0 ≡ ok t
      → Issued crypto user.id t.1
          (clock 3 + cfg.refresh_token)
          (db.sessions s)
          (db.sessions (replace_session db crypto cfg clock random user d s).1)
  unfolding replace_session generate_token_in_tx
  replace_session-Issued clock random user (err e) s t h = cc
  replace_session-Issued clock random user (ok u) s t h =
      with_access-Issued (clock 3) user.id random (crypto.sign cfg.secret _) s t
        (regenerated_ok _ t h)

  -- A deletion that is reported as done removed the sessions of the token.
  replaced-Issued :
      (clock : ℕ → ℕ) (random : Result Sentinel (List ℕ)) (user : User) (hash : Text) (d : Deleted)
      (before : List Session) (s : db.State) (t : Tokens)
      → DeleteLaw (has_token hash) before (db.sessions s) d
      → (replace_session db crypto cfg clock random user (session_deleted d) s).0 ≡ ok t
      → Issued crypto user.id t.1
          (clock 3 + cfg.refresh_token)
          (keep (λ n. not (has_token hash n)) before)
          (db.sessions (replace_session db crypto cfg clock random user (session_deleted d) s).1)
  unfolding session_deleted replace_session
  replaced-Issued clock random user hash (delete_failed m) before s t law h = cc
  replaced-Issued clock random user hash (rows_affected zero) before s t law h = cc
  replaced-Issued clock random user hash (rows_affected (suc k)) before s t law h =
      rw (sym law.0) (replace_session-Issued clock random user (ok tt) s t h)

  refresh_for-Issued :
      (clock : ℕ → ℕ) (random : Result Sentinel (List ℕ)) (hash : Text) (id : Uuid) (r : Read User)
      (s : db.State) (t : Tokens)
      → ReadLaw (has_id id) (db.users s) r
      → (refresh_for db crypto cfg clock random hash (user_read r) s).0 ≡ ok t
      → Issued crypto id t.1
          (clock 3 + cfg.refresh_token)
          (keep (λ n. not (has_token hash n)) (db.sessions s))
          (db.sessions (refresh_for db crypto cfg clock random hash (user_read r) s).1)
  unfolding refresh_for user_read delete_by_refresh_token_hash
  refresh_for-Issued clock random hash id (row user) s t law h =
      rw (sym ((eq_iff user.id id).0 (first-passes (has_id id) (db.users s) user law))) (
        replaced-Issued clock random user hash (db.delete_sessions (has_token hash) s).0
          (db.sessions s) (db.delete_sessions (has_token hash) s).1 t
          (laws.delete_sessions_law (has_token hash) s) h)
  refresh_for-Issued clock random hash id record_not_found s t law h = cc
  refresh_for-Issued clock random hash id (read_failed m) s t law h = cc

  pub refresh_session-Rotates :
      (clock : ℕ → ℕ) (random : Result Sentinel (List ℕ)) (token : Text) (r : Read Session)
      (s : db.State) (t : Tokens)
      → ReadLaw (has_token (hash_token crypto token)) (db.sessions s) r
      → (refresh_session db crypto cfg clock random (hash_token crypto token) (session_read r) s).0
        ≡ ok t
      → Rotated crypto cfg clock token t.1 (db.sessions s) (
          db.sessions
            (refresh_session db crypto cfg clock random
              (hash_token crypto token)
              (session_read r)
              s).1)
  unfolding refresh_session session_read get_user_by_id
  refresh_session-Rotates clock random token (row old) s t law h =
      elim (Bool-cases (expired (clock 0) old)) [
        | inl late ↦ cc (rw late at h)
        | inr intime ↦ rw intime (
          old,
          law,
          intime,
          refresh_for-Issued clock random (hash_token crypto token) old.user_id
              (db.first_user (has_id old.user_id) s) s t
              (laws.first_user_law (has_id old.user_id) s) (rw intime at h),
        )
      ]
  refresh_session-Rotates clock random token record_not_found s t law h = cc
  refresh_session-Rotates clock random token (read_failed m) s t law h = cc
