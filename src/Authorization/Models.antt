-- ===== src/Authorization/Models.antt =====
-- Authorization/internal/models/models.go, lib/errs/errors.go, lib/hashcrypto/hash.go and the
-- settings of internal/config/config.go; the database and the cryptographic libraries as parameters.
use crypto_asset_tracker_mic.Base.{
  ℕ, Bool, true, false, ◌+◌, ◌-◌, ◌*◌, ◌/◌, ◌%◌, List, [], ◌∷◌, ◌≡◌, ◌↔◌, refl, if◌then◌else◌, ltb,
  nat_beq, Eq, Text, Result, ok, err, Read, Write, Deleted, ReadLaw, CreateLaw, DeleteLaw,
  TransactionLaw,
}

pub data Sentinel : Type 0 where
  db_error recording_wnc recording_wnd recording_wnf user_exists invalid_token session_not_found :
      Sentinel

abbrev pub sentinel_beq : Sentinel → Sentinel → Bool
sentinel_beq db_error db_error = true
sentinel_beq recording_wnc recording_wnc = true
sentinel_beq recording_wnd recording_wnd = true
sentinel_beq recording_wnf recording_wnf = true
sentinel_beq user_exists user_exists = true
sentinel_beq invalid_token invalid_token = true
sentinel_beq session_not_found session_not_found = true
sentinel_beq _ _ = false

pub sentinel_beq_iff : (a b : Sentinel) → (sentinel_beq a b ≡ true) ↔ (a ≡ b)
sentinel_beq_iff db_error db_error = ((λ _. refl), (λ _. refl))
sentinel_beq_iff recording_wnc recording_wnc = ((λ _. refl), (λ _. refl))
sentinel_beq_iff recording_wnd recording_wnd = ((λ _. refl), (λ _. refl))
sentinel_beq_iff recording_wnf recording_wnf = ((λ _. refl), (λ _. refl))
sentinel_beq_iff user_exists user_exists = ((λ _. refl), (λ _. refl))
sentinel_beq_iff invalid_token invalid_token = ((λ _. refl), (λ _. refl))
sentinel_beq_iff session_not_found session_not_found = ((λ _. refl), (λ _. refl))
sentinel_beq_iff _ _ = ((λ h. cc), (λ h. cc))

instance abbrev pub sentinel_eq : Eq Sentinel
sentinel_eq = record { same = sentinel_beq; same_iff = sentinel_beq_iff }

-- A user's identifier, by its canonical text.
abbrev pub Uuid : Type 0
Uuid = Text

pub record User : Type 0 where
  pub id : Uuid
  pub name : Text
  pub password : Text

-- Times are nanoseconds. The associated user, which no query loads, is left out.
pub record Session : Type 0 where
  pub id : ℕ
  pub user_id : Uuid
  pub refresh_token : Text
  pub expires_at : ℕ

-- The hook that gorm runs before it inserts a user: it sets the new identifier.
abbrev pub before_create : Uuid → User → User
before_create fresh user = record user { id = fresh }

pub record TokenConfig : Type 0 where
  pub secret : Text
  pub access_token : ℕ
  pub refresh_token : ℕ

pub record Claims : Type 0 where
  pub sub : Text
  pub name : Text
  pub exp : ℕ
  pub iat : ℕ

-- An access token and a refresh token.
abbrev pub Tokens : Type 0
Tokens = Text × Text

-- The libraries for JWT, SHA-256 and bcrypt; `matches` is a comparison without an error.
pub record Crypto : Type 0 where
  pub sign : Text → Claims → Result Sentinel Text
  pub sha256 : Text → List ℕ
  pub generate_from_password : Text → Result Sentinel Text
  pub matches : Text → Text → Bool

-- bcrypt accepts the password that a hash was made of.
abbrev pub BcryptLaw : Crypto → Type 0
BcryptLaw c =
    (password hash : Text)
    → c.generate_from_password password ≡ ok hash
    → c.matches hash password ≡ true

-- `%x`: two lower-case digits per byte.
abbrev pub hex_digit : ℕ → ℕ
hex_digit n = if ltb n 10 then n + 48 else n + 87

abbrev pub hex : List ℕ → Text
hex [] = []
hex (b ∷ bs) = hex_digit (b / 16) ∷ hex_digit (b % 16) ∷ hex bs

abbrev pub hash_token : Crypto → Text → Text
hash_token c token = hex (c.sha256 token)

-- `base64.URLEncoding`.
abbrev pub url_char : ℕ → ℕ
url_char n =
    if ltb n 26
    then n + 65
    else if ltb n 52
    then n + 71
    else if ltb n 62
    then n - 4
    else if nat_beq n 62
    then b'-'
    else b'_'

abbrev pub base64 : List ℕ → Text
base64 [] = []
base64 (a ∷ []) = url_char (a / 4) ∷ url_char ((a % 4) * 16) ∷ b'=' ∷ b'=' ∷ []
base64 (a ∷ b ∷ []) =
    url_char (a / 4) ∷ url_char ((a % 4) * 16 + b / 16) ∷ url_char ((b % 16) * 4) ∷ b'=' ∷ []
base64 (a ∷ b ∷ c ∷ rest) =
    url_char (a / 4)
    ∷ url_char ((a % 4) * 16 + b / 16)
    ∷ url_char ((b % 16) * 4 + c / 64)
    ∷ url_char (c % 64)
    ∷ base64 rest

-- `rand.Read`'s outcome is an argument: the bytes or an error.
abbrev pub generate_random_string : Result Sentinel (List ℕ) → Result Sentinel Text
generate_random_string (ok bytes) = ok (base64 bytes)
generate_random_string (err e) = err e

pub record AuthDb : Type 1 where
  pub State : Type 0
  pub users : State → List User
  pub sessions : State → List Session
  pub create_user : User → State → Write User × State
  pub first_user : (User → Bool) → State → Read User
  pub delete_users : (User → Bool) → State → Deleted × State
  pub create_session : Session → State → Write Session × State
  pub first_session : (Session → Bool) → State → Read Session
  pub delete_sessions : (Session → Bool) → State → Deleted × State
  pub transaction :
      (State → Result Sentinel Tokens × State) → State → Result Sentinel Tokens × State

-- The database assigns the key of a session and keeps the other fields.
abbrev pub Completes : Session → Session → Type 0
Completes s s' =
    (s'.user_id ≡ s.user_id) × (s'.refresh_token ≡ s.refresh_token) × (s'.expires_at ≡ s.expires_at)

abbrev pub tables : (db : AuthDb) → db.State → List User × List Session
tables db s = (db.users s, db.sessions s)

pub record AuthDbLaws (db : AuthDb) : Type 0 where
  pub create_user_law :
      (u : User) (s : db.State)
      → CreateLaw
          (λ a b. b ≡ a)
          u
          (db.users s)
          (db.users (db.create_user u s).1)
          (db.create_user u s).0
  pub first_user_law : (p : User → Bool) (s : db.State) → ReadLaw p (db.users s) (db.first_user p s)
  pub delete_users_law :
      (p : User → Bool) (s : db.State)
      → DeleteLaw p (db.users s) (db.users (db.delete_users p s).1) (db.delete_users p s).0
  pub create_session_law :
      (n : Session) (s : db.State)
      → CreateLaw Completes n
          (db.sessions s)
          (db.sessions (db.create_session n s).1)
          (db.create_session n s).0
  pub create_session_users :
      (n : Session) (s : db.State) → db.users (db.create_session n s).1 ≡ db.users s
  pub first_session_law :
      (p : Session → Bool) (s : db.State) → ReadLaw p (db.sessions s) (db.first_session p s)
  pub delete_sessions_law :
      (p : Session → Bool) (s : db.State)
      → DeleteLaw p
          (db.sessions s)
          (db.sessions (db.delete_sessions p s).1)
          (db.delete_sessions p s).0
  pub delete_sessions_users :
      (p : Session → Bool) (s : db.State) → db.users (db.delete_sessions p s).1 ≡ db.users s
  pub transaction_law :
      (body : db.State → Result Sentinel Tokens × db.State) (s : db.State)
      → TransactionLaw (tables db) s (body s) (db.transaction body s)
