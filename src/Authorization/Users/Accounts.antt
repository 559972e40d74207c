-- ===== src/Authorization/Users/Accounts.antt =====
-- Registering an account and logging in to it.
use crypto_asset_tracker_mic.Base.{
  errors_is, true, false, List, [], ◌∷◌, ◌++◌, none, some, ◌≡◌, ◌⊎◌, inl, inr, refl, ap, ◌∙◌, sym,
  arith, Text, text_eq, ◌==◌, eq_iff, eq_refl, Result, ok, err, Read, row, record_not_found,
  read_failed, ReadLaw, Write, stored, write_failed, CreateLaw, first, All, All-append, Absent,
  Absent-first, first-append_none,
}
use crypto_asset_tracker_mic.Authorization.Models.{
  Sentinel, sentinel_eq, Uuid, User, Crypto, BcryptLaw, AuthDb, AuthDbLaws,
}
use crypto_asset_tracker_mic.Authorization.Users.{
  database_error, user_created, user_read, has_name, create_user, get_user_by_name, registered,
  create_account, register_new, register_user, check_password, login_user,
}

-- An account of the name, with a hash of the password, is added at the end.
abbrev pub Added : Crypto → Uuid → Text → Text → List User → List User → Type 0
Added crypto id name password before after =
    (hash : Text) × (crypto.generate_from_password password ≡ ok hash)
    × (after ≡ before ++ record { id = id; name = name; password = hash } ∷ [])

module _ (db : AuthDb) (laws : AuthDbLaws db) (crypto : Crypto) where
  registered-Added :
      (fresh : Uuid) (name password hash : Text) (before after : List User) (w : Write User)
      (id : Uuid)
      → crypto.generate_from_password password ≡ ok hash
      → CreateLaw
          (λ a b. b ≡ a)
          (record { id = fresh; name = name; password = hash })
          before
          after
          w
      → registered db crypto (user_created w) ≡ ok id
      → (id ≡ fresh) × Added crypto fresh name password before after
  unfolding registered user_created
  registered-Added fresh name password hash before after (stored u) id g law h =
      let same : u.id ≡ fresh = ap (λ (v : User). v.id) law.1 in
      (cc, (hash, g, law.0 ∙ ap (λ v. before ++ v ∷ []) law.1))
  registered-Added fresh name password hash before after (write_failed m) id g law h = cc

  create_account-Added :
      (fresh : Uuid) (name password : Text) (r : Result Sentinel Text) (s : db.State) (id : Uuid)
      → crypto.generate_from_password password ≡ r
      → (create_account db crypto fresh name r s).0 ≡ ok id
      → (id ≡ fresh)
        × Added crypto fresh name password
            (db.users s)
            (db.users (create_account db crypto fresh name r s).1)
  unfolding create_account create_user
  create_account-Added fresh name password (err e) s id g h = cc
  create_account-Added fresh name password (ok hash) s id g h =
      let u : User = record { id = fresh; name = name; password = hash } in
      registered-Added fresh name password hash (db.users s) _ (db.create_user u s).0 id g
        (laws.create_user_law u s) h

  register_new-Added :
      (fresh : Uuid) (name password : Text) (r : Read User) (s : db.State) (id : Uuid)
      → ReadLaw (has_name name) (db.users s) r
      → (register_new db crypto fresh name password (user_read r) s).0 ≡ ok id
      → (id ≡ fresh)
        × (first (has_name name) (db.users s) ≡ none)
        × Added crypto fresh name password
            (db.users s)
            (db.users (register_new db crypto fresh name password (user_read r) s).1)
  unfolding register_new user_read errors_is
  register_new-Added fresh name password (row u) s id law h = cc
  register_new-Added fresh name password record_not_found s id law h =
      let made =
        create_account-Added fresh name password (crypto.generate_from_password password) s id refl
          h in
      (made.0, law, made.1)
  register_new-Added fresh name password (read_failed m) s id law h = cc

-- If `RegisterUser` returns an identifier, it is the fresh one, there was no account of the name, and
-- one with that identifier, the name and a hash of the password is added.
pub register_user-Added :
    (db : AuthDb)
    → AuthDbLaws db
    → (crypto : Crypto) (fresh : Uuid) (name password : Text) (s : db.State) (id : Uuid)
    → (register_user db crypto fresh name password s).0 ≡ ok id
    → (id ≡ fresh)
      × (first (has_name name) (db.users s) ≡ none)
      × Added crypto fresh name password
          (db.users s)
          (db.users (register_user db crypto fresh name password s).1)
unfolding register_user get_user_by_name
register_user-Added db laws crypto fresh name password s id h =
    register_new-Added db laws crypto fresh name password (db.first_user (has_name name) s) s id
      (laws.first_user_law (has_name name) s) h

-- The account that a read finds is the registered one.
login_read-RoundTrip :
    (db : AuthDb) (crypto : Crypto) (name password : Text) (account : User) (r : Read User)
    (users : List User)
    → ReadLaw (has_name name) users r
    → first (has_name name) users ≡ some account
    → crypto.matches account.password password ≡ true
    → (check_password db crypto password (user_read r) ≡ ok account)
      ⊎ ((m : Text) × (check_password db crypto password (user_read r) ≡ err (database_error m)))
unfolding check_password user_read
login_read-RoundTrip db crypto name password account (row u) users law found good =
    let same : u ≡ account = cc in inl (rw same (rw good))
login_read-RoundTrip db crypto name password account record_not_found users law found good = cc
login_read-RoundTrip db crypto name password account (read_failed m) users law found good =
    inr (m, refl)

added-found :
    (crypto : Crypto) (fresh : Uuid) (name hash : Text) (before after : List User)
    → first (has_name name) before ≡ none
    → (after ≡ before ++ record { id = fresh; name = name; password = hash } ∷ [])
    → first (has_name name) after ≡ some (record { id = fresh; name = name; password = hash })
added-found crypto fresh name hash before after free e = rw e (
    first-append_none (has_name name) before
      (record { id = fresh; name = name; password = hash } ∷ []) free
    ∙ rw (eq_refl name) refl)

-- After a registration that succeeds, a login by the same name and password finds the new account,
-- unless the read of the database fails.
pub login_after_register :
    (db : AuthDb)
    → AuthDbLaws db
    → (crypto : Crypto) → BcryptLaw crypto
    → (fresh : Uuid) (name password : Text) (s : db.State) (id : Uuid)
    → (register_user db crypto fresh name password s).0 ≡ ok id
    → ((u : User) × (login_user db crypto name password
            (register_user db crypto fresh name password s).1
          ≡ ok u)
        × (u.id ≡ id)
        × (u.name ≡ name))
      ⊎ ((m : Text) × (login_user db crypto name password
              (register_user db crypto fresh name password s).1
            ≡ err (database_error m)))
unfolding login_user get_user_by_name
login_after_register db laws crypto bcrypt fresh name password s id h =
    let (same, free, (hash, g, e)) =
      register_user-Added db laws crypto fresh name password s id h in
    let s' = (register_user db crypto fresh name password s).1 in
    elim (login_read-RoundTrip db crypto name password _ (db.first_user (has_name name) s')
      (db.users s') (laws.first_user_law (has_name name) s')
      (added-found crypto fresh name hash (db.users s) (db.users s') free e)
      (bcrypt password hash g)) [
        | inl found ↦ inl (_, found, sym same, refl)
        | inr failed ↦ inr failed
      ]

-- Every name has at most one account.
abbrev pub DistinctNames : List User → Type 0
DistinctNames [] = Unit
DistinctNames (u ∷ us) = All (λ v. (v.name == u.name) ≡ false) us × DistinctNames us

DistinctNames-append :
    (us : List User) (u : User)
    → Absent (has_name u.name) us
    → DistinctNames us
    → DistinctNames (us ++ u ∷ [])
DistinctNames-append [] u free h = (tt, tt)
DistinctNames-append (v ∷ us) u free h = (
  All-append (λ (x : User). (x.name == v.name) ≡ false) us (u ∷ []) h.0
      (ground (arith, eq_iff u.name v.name, eq_iff v.name u.name, free.0), tt),
  DistinctNames-append us u free.1 h.1,
)

-- A registration that succeeds keeps the names of the accounts distinct.
pub register_user-DistinctNames :
    (db : AuthDb)
    → AuthDbLaws db
    → (crypto : Crypto) (fresh : Uuid) (name password : Text) (s : db.State) (id : Uuid)
    → DistinctNames (db.users s)
    → (register_user db crypto fresh name password s).0 ≡ ok id
    → DistinctNames (db.users (register_user db crypto fresh name password s).1)
register_user-DistinctNames db laws crypto fresh name password s id distinct h =
    let (same, free, (hash, g, e)) =
      register_user-Added db laws crypto fresh name password s id h in
    rw e (
      DistinctNames-append (db.users s) (record { id = fresh; name = name; password = hash })
        (Absent-first (has_name name) (db.users s) free) distinct)
