-- ===== src/Profile/Users.antt =====
-- Profile/internal/repository/users_repo.go and service/users_service.go: the profiles.
use crypto_asset_tracker_mic.Base.{
  Bool, ◌||◌, zero, suc, [], ◌∷◌, ◌++◌, if◌then◌else◌, Text, text_eq, codes, ◌==◌, sentinel,
  external, Result, ok, err, Read, row, record_not_found, read_failed, Write, stored, write_failed,
  Deleted, rows_affected, delete_failed, is_substring,
}
use crypto_asset_tracker_mic.Profile.Models.{
  Decimal, Uuid, User, Sentinel, not_found, already_exists, internal,
}

-- What the repository calls of the database, with the coins of a user loaded.
pub record UserDb (D : Decimal) : Type 1 where
  pub State : Type 0
  pub create : User D → State → Write (User D) × State
  pub first_where : (User D → Bool) → State → Read (User D)
  pub delete_where : (User D → Bool) → State → Deleted × State

-- The text that the code looks for: the last letter of its third word is U+0435, in UTF-8.
abbrev pub duplicate_key : Text
duplicate_key = codes "duplicate key valu" ++ 208 ∷ 181 ∷ codes " violates unique constraint"

module _ (D : Decimal) where
  unfoldable pub user_created : Write (User D) → Result Sentinel (User D)
  unfolding is_substring
  user_created (stored u) = ok u
  user_created (write_failed text) =
      if is_substring (codes "UNIQUE constraint failed") text || is_substring duplicate_key text
      then err (sentinel already_exists)
      else err (sentinel internal)

  unfoldable pub user_read : Read (User D) → Result Sentinel (User D)
  user_read (row u) = ok u
  user_read record_not_found = err (sentinel not_found)
  user_read (read_failed text) = err (external text)

  unfoldable pub user_deleted : Deleted → Result Sentinel (Unit {0})
  user_deleted (delete_failed text) = err (external text)
  user_deleted (rows_affected zero) = err (sentinel not_found)
  user_deleted (rows_affected (suc n)) = ok tt

  abbrev pub has_id : Uuid → User D → Bool
  has_id id u = u.id == id

  module _ (db : UserDb D) where
    open db use {State}

    unfoldable pub create_user_profile : Uuid → Text → State → Result Sentinel (User D) × State
    create_user_profile id name s =
        let (w, s') = db.create (record { id = id; name = name; coins = [] }) s in
        (user_created w, s')

    unfoldable pub get_user_profile : Uuid → State → Result Sentinel (User D)
    get_user_profile id s = user_read (db.first_where (has_id id) s)

    unfoldable pub delete_user_profile : Uuid → State → Result Sentinel (Unit {0}) × State
    delete_user_profile id s = let (d, s') = db.delete_where (has_id id) s in (user_deleted d, s')
