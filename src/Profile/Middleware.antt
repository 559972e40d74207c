-- ===== src/Profile/Middleware.antt =====
-- Profile/internal/handler/middleware/middleware.go: who gets to the HTTP API. The JWT library is an
-- argument.
pub mod Access
use crypto_asset_tracker_mic.Base.{
  is_empty, ℕ, Bool, true, false, not, List, [], ◌∷◌, Option, none, some, if◌then◌else◌, Text,
  text_eq, ◌==◌, codes, split_at,
}

-- How a token is signed, and what its parser returns: an error, or a token with whether it is valid
-- and the claims `sub` and `name` where they are texts.
pub data SigningMethod : Type 0 where
  hmac other_method : SigningMethod

pub data ParsedToken : Type 0 where
  parse_failed : ParsedToken
  parsed : Bool → Option Text → Option Text → ParsedToken

-- The function that the middleware gives the parser.
abbrev pub key_for : Text → SigningMethod → Option Text
key_for secret hmac = some secret
key_for secret other_method = none

-- The request passes with an identifier and a name, or is refused with 401 and an error.
pub data Gate : Type 0 where
  passes : Text → Text → Gate
  refused : Text → Gate

unfoldable pub claimed : ParsedToken → Gate
claimed parse_failed = refused (codes "invalid token")
claimed (parsed false sub name) = refused (codes "token is not valid")
claimed (parsed true none name) = refused (codes "invalid token payload")
claimed (parsed true (some sub) none) = refused (codes "invalid token payload")
claimed (parsed true (some sub) (some name)) = passes sub name

-- The parts of the header between spaces.
unfoldable pub check_parts : (Text → ParsedToken) → Text → List Text → Gate
check_parts parse scheme [] = refused (codes "invalid auth header format")
check_parts parse scheme (token ∷ part ∷ parts) = refused (codes "invalid auth header format")
check_parts parse scheme (token ∷ []) =
    if not (scheme == codes "Bearer")
    then refused (codes "invalid auth header format")
    else if is_empty token
    then refused (codes "token is empty")
    else claimed (parse token)

unfoldable pub auth_middleware :
    (Text → (SigningMethod → Option Text) → ParsedToken) → Text → Text → Gate
unfolding split_at
auth_middleware jwt_parse secret header =
    if is_empty header
    then refused (codes "auth header is empty")
    else check_parts (λ token. jwt_parse token (key_for secret)) (split_at b' ' header).0
        (split_at b' ' header).1
