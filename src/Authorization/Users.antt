-- ===== src/Authorization/Users.antt =====
-- Authorization/internal/api/repository/user_repo.go and api/service/user_service.go: the accounts.
pub mod Accounts
use crypto_asset_tracker_mic.Base.{
  ℕ, Bool, zero, suc, if◌then◌else◌, Text, text_eq, ◌==◌, [], GoError, sentinel, wrapped, external,
  errors_is, Result, ok, err, Read, row, record_not_found, read_failed, Write, stored, write_failed,
  Deleted, rows_affected, delete_failed,
}
use crypto_asset_tracker_mic.Authorization.Models.{
  Sentinel, sentinel_eq, db_error, recording_wnd, recording_wnf, user_exists, Uuid, User,
  before_create, Crypto, AuthDb,
}

-- `fmt.Errorf("%w: %s", errs.ErrDB, text)`.
abbrev pub database_error : Text → GoError Sentinel
database_error text = wrapped text (sentinel db_error)

unfoldable pub user_created : Write User → Result Sentinel User
user_created (stored u) = ok u
user_created (write_failed text) = err (database_error text)

unfoldable pub user_read : Read User → Result Sentinel User
user_read (row u) = ok u
user_read record_not_found = err (sentinel recording_wnf)
user_read (read_failed text) = err (database_error text)

-- `DeleteUserByID` looks at the number of rows first: a failure affects none.
unfoldable pub user_deleted : Deleted → Result Sentinel (Unit {0})
user_deleted (delete_failed text) = err (sentinel recording_wnd)
user_deleted (rows_affected zero) = err (sentinel recording_wnd)
user_deleted (rows_affected (suc n)) = ok tt

abbrev pub has_name : Text → User → Bool
has_name name u = u.name == name

abbrev pub has_id : Uuid → User → Bool
has_id id u = u.id == id

module _ (db : AuthDb) where
  open db use {State}

  -- `fresh` is what `uuid.New` returns in the hook.
  unfoldable pub create_user : Uuid → User → State → Result Sentinel User × State
  create_user fresh user s =
      let (w, s') = db.create_user (before_create fresh user) s in (user_created w, s')

  unfoldable pub get_user_by_name : Text → State → Result Sentinel User
  get_user_by_name name s = user_read (db.first_user (has_name name) s)

  unfoldable pub get_user_by_id : Uuid → State → Result Sentinel User
  get_user_by_id id s = user_read (db.first_user (has_id id) s)

  unfoldable pub delete_user_by_id : Uuid → State → Result Sentinel (Unit {0}) × State
  delete_user_by_id id s = let (d, s') = db.delete_users (has_id id) s in (user_deleted d, s')

  module _ (crypto : Crypto) where
    unfoldable pub registered : Result Sentinel User → Result Sentinel Uuid
    registered (ok u) = ok u.id
    registered (err e) = err e

    unfoldable pub create_account :
        Uuid → Text → Result Sentinel Text → State → Result Sentinel Uuid × State
    create_account fresh name (err e) s = (err e, s)
    create_account fresh name (ok hash) s =
        let (r, s') = create_user fresh (record { id = []; name = name; password = hash }) s in
        (registered r, s')

    unfoldable pub register_new :
        Uuid → Text → Text → Result Sentinel User → State → Result Sentinel Uuid × State
    register_new fresh name password (ok u) s = (err (sentinel user_exists), s)
    register_new fresh name password (err e) s =
        if errors_is e recording_wnf
        then create_account fresh name (crypto.generate_from_password password) s
        else (err e, s)

    unfoldable pub register_user : Uuid → Text → Text → State → Result Sentinel Uuid × State
    register_user fresh name password s =
        register_new fresh name password (get_user_by_name name s) s

    unfoldable pub check_password : Text → Result Sentinel User → Result Sentinel User
    check_password password (err e) = err e
    check_password password (ok u) =
        if crypto.matches u.password password then ok u else err (sentinel recording_wnf)

    unfoldable pub login_user : Text → Text → State → Result Sentinel User
    login_user name password s = check_password password (get_user_by_name name s)
