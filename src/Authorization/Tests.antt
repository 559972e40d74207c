-- ===== src/Authorization/Tests.antt =====
-- A database in memory that meets the laws, and runs of the service on it.
use crypto_asset_tracker_mic.Base.{
  ℕ, suc, Bool, not, List, [], ◌∷◌, ◌++◌, Option, none, some, ◌≡◌, ◌≢◌, ◌⊎◌, refl, inl, Text,
  text_eq, ◌==◌, eq_iff, codes, Result, ok, err, Read, row, record_not_found, ReadLaw,
  TransactionLaw, stored, rows_affected, first, keep, length, errors_is,
}
use crypto_asset_tracker_mic.Authorization.Models.{
  Sentinel, User, Session, TokenConfig, Tokens, Crypto, hash_token, AuthDb, AuthDbLaws, tables,
  BcryptLaw,
}
use crypto_asset_tracker_mic.Authorization.Users.{
  database_error, get_user_by_name, get_user_by_id, register_user, login_user, user_read,
  user_created, user_deleted, create_user, registered, create_account, register_new, check_password,
}
use crypto_asset_tracker_mic.Authorization.Users.Accounts.{login_after_register}
use crypto_asset_tracker_mic.Authorization.Tokens.{
  refresh_token, logout, delete_expired_token, refresh_in_tx, refresh_session, refresh_for,
  replace_session, regenerated, generate_token_in_tx, with_access, open_session, session_reply,
  store_refresh_token, get_by_refresh_token_hash, delete_by_refresh_token_hash, session_stored,
  session_read, session_deleted, sessions_deleted, logged_out,
}
use crypto_asset_tracker_mic.Authorization.Tokens.Rotation.{
  Rotated, refresh_token-Rotates, refresh_twice,
}

unfoldable pub everything : Unit {0}
unfolding get_user_by_name get_user_by_id register_user login_user user_read user_created
    user_deleted create_user registered create_account register_new check_password refresh_token
    logout delete_expired_token refresh_in_tx refresh_session refresh_for replace_session
    regenerated generate_token_in_tx with_access open_session session_reply store_refresh_token
    get_by_refresh_token_hash delete_by_refresh_token_hash session_stored session_read
    session_deleted sessions_deleted logged_out errors_is
everything = tt

pub record Store : Type 0 where
  pub users : List User
  pub sessions : List Session
  pub next_id : ℕ

abbrev found : {R : Type 0} → Option R → Read R
found none = record_not_found
found (some r) = row r

abbrev atomically : Result Sentinel Tokens × Store → Store → Result Sentinel Tokens × Store
atomically (ok t, inner) before = (ok t, inner)
atomically (err e, inner) before = (err e, before)

abbrev pub memory : AuthDb
memory = record {
  State = Store;
  users = λ t. t.users;
  sessions = λ t. t.sessions;
  create_user = λ u t. (stored u, record t { users = t.users ++ u ∷ [] });
  first_user = λ p t. found (first p t.users);
  delete_users = λ p t.
      (rows_affected (length (keep p t.users)), record t { users = keep (λ r. not (p r)) t.users });
  create_session = λ n t.
      let n' : Session = record n { id = t.next_id } in
      (
        stored n',
        record { users = t.users; sessions = t.sessions ++ n' ∷ []; next_id = suc t.next_id },
      );
  first_session = λ p t. found (first p t.sessions);
  delete_sessions = λ p t. (
    rows_affected (length (keep p t.sessions)),
    record t { sessions = keep (λ r. not (p r)) t.sessions },
  );
  transaction = λ body t. atomically (body t) t;
}

found-ReadLaw :
    {R : Type 0} (p : R → Bool) (rows : List R) (o : Option R)
    → first p rows ≡ o
    → ReadLaw p rows (found o)
found-ReadLaw p rows none e = e
found-ReadLaw p rows (some c) e = e

atomically-law :
    (r : Result Sentinel Tokens × Store) (t : Store)
    → TransactionLaw (tables memory) t r (atomically r t)
atomically-law (ok c, inner) t = inl (refl, refl)
atomically-law (err e, inner) t = (refl, refl)

pub memory-laws : AuthDbLaws memory
memory-laws = record {
  create_user_law = λ u t. (refl, refl);
  first_user_law = λ p t. found-ReadLaw p t.users (first p t.users) refl;
  delete_users_law = λ p t. (refl, refl);
  create_session_law = λ n t. (refl, (refl, refl, refl));
  create_session_users = λ n t. refl;
  first_session_law = λ p t. found-ReadLaw p t.sessions (first p t.sessions) refl;
  delete_sessions_law = λ p t. (refl, refl);
  delete_sessions_users = λ p t. refl;
  transaction_law = λ body t. atomically-law (body t) t;
}

-- Stand-ins for the libraries: a hash that is the text itself.
abbrev plain : Crypto
plain = record {
  sign = λ secret c. ok (c.sub ++ c.name);
  sha256 = λ t. t;
  generate_from_password = λ p. ok p;
  matches = λ h p. h == p;
}

plain-BcryptLaw : BcryptLaw plain
plain-BcryptLaw p h e = (eq_iff h p).1 (cc e)

abbrev week : TokenConfig
week = record { secret = codes "k"; access_token = 15; refresh_token = 100 }

abbrev ann : User
ann = record { id = codes "1"; name = codes "ann"; password = codes "pw" }

abbrev old_token : Text
old_token = codes "old"

abbrev current : Session
current = record {
  id = 1;
  user_id = codes "1";
  refresh_token = hash_token plain old_token;
  expires_at = 50;
}

abbrev pub store : Store
store = record { users = ann ∷ []; sessions = current ∷ []; next_id = 2 }

abbrev clock : ℕ → ℕ
clock i = 10

abbrev new_tokens : Tokens
new_tokens = (codes "1ann", codes "TWFu")

refreshed :
    (refresh_token memory plain week clock (ok (codes "Man")) old_token store).0 ≡ ok new_tokens
unfolding everything
refreshed = refl

refresh_token-Rotates_example :
    Rotated plain week clock old_token
      (codes "TWFu")
      store.sessions
      (refresh_token memory plain week clock (ok (codes "Man")) old_token store).1.sessions
refresh_token-Rotates_example =
    refresh_token-Rotates memory memory-laws plain week clock (ok (codes "Man")) old_token store
      new_tokens refreshed

refresh_twice_example :
    (refresh_token memory plain week clock
      (ok (codes "Moo"))
      old_token
      (refresh_token memory plain week clock (ok (codes "Man")) old_token store).1).0
    ≢ ok new_tokens
refresh_twice_example =
    refresh_twice memory memory-laws plain week clock clock (ok (codes "Man")) (ok (codes "Moo"))
      old_token store new_tokens new_tokens refreshed (λ e. cc e)

registered_bob :
    (register_user memory plain (codes "2") (codes "bob") (codes "x") store).0 ≡ ok (codes "2")
unfolding everything
registered_bob = refl

login_after_register_example :
    ((u : User) × (login_user memory plain
          (codes "bob")
          (codes "x")
          (register_user memory plain (codes "2") (codes "bob") (codes "x") store).1
        ≡ ok u)
      × (u.id ≡ codes "2")
      × (u.name ≡ codes "bob"))
    ⊎ ((m : Text) × (login_user memory plain
            (codes "bob")
            (codes "x")
            (register_user memory plain (codes "2") (codes "bob") (codes "x") store).1
          ≡ err (database_error m)))
login_after_register_example =
    login_after_register memory memory-laws plain plain-BcryptLaw (codes "2") (codes "bob")
      (codes "x") store (codes "2") registered_bob
