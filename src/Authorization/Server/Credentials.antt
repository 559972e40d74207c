-- ===== src/Authorization/Server/Credentials.antt =====
-- What a login tells someone who does not know the password.
use crypto_asset_tracker_mic.Base.{
  is_empty, ℕ, false, List, ◌≡◌, ◌⊎◌, inl, inr, refl, Text, codes, Result, err, sentinel, errors_is,
  row, record_not_found,
}
use crypto_asset_tracker_mic.Authorization.Models.{
  Sentinel, sentinel_eq, recording_wnf, User, TokenConfig, Crypto, AuthDb,
}
use crypto_asset_tracker_mic.Authorization.Users.{
  has_name, user_read, get_user_by_name, check_password, login_user,
}
use crypto_asset_tracker_mic.Authorization.Server.{issue, login, status, unauthenticated}

-- There is no account of the name, or there is one and the password does not fit it.
abbrev pub WrongCredentials : (db : AuthDb) → Crypto → Text → Text → db.State → Type 0
WrongCredentials db crypto name password s =
    (db.first_user (has_name name) s ≡ record_not_found)
    ⊎ ((u : User) × (db.first_user (has_name name) s ≡ row u)
        × (crypto.matches u.password password ≡ false))

not_found_login :
    (db : AuthDb) (crypto : Crypto) (name password : Text) (s : db.State)
    → WrongCredentials db crypto name password s
    → login_user db crypto name password s ≡ err (sentinel recording_wnf)
unfolding login_user get_user_by_name user_read check_password
not_found_login db crypto name password s (inl e) = rw (e, user_read, check_password) refl
not_found_login db crypto name password s (inr (u, e, wrong)) =
    rw (e, user_read, check_password) (rw wrong refl)

-- A login by a name and a password that are not empty, with an unknown name or a wrong password, gets
-- the same reply in both cases, and changes nothing.
pub login_hides_accounts :
    (db : AuthDb) (crypto : Crypto) (cfg : TokenConfig) (clock : ℕ → ℕ)
    (random : Result Sentinel (List ℕ)) (name password : Text) (s : db.State)
    → is_empty name ≡ false
    → is_empty password ≡ false
    → WrongCredentials db crypto name password s
    → login db crypto cfg clock random name password s
      ≡ (status unauthenticated (codes "invalid credentials"), s)
unfolding login issue errors_is
login_hides_accounts db crypto cfg clock random name password s n p wrong =
    rw (n, p, not_found_login db crypto name password s wrong) refl
