-- ===== src/Profile/Middleware/Access.antt =====
-- Who gets past the middleware.
use crypto_asset_tracker_mic.Base.{
  is_empty, true, false, List, [], ◌∷◌, ◌++◌, Option, none, some, ◌≡◌, refl, sym, ap, ◌∙◌, inl, inr,
  Text, text_eq, ◌==◌, eq_iff, codes, split_at, join, join-split_at, Bool-cases,
}
use crypto_asset_tracker_mic.Profile.Middleware.{
  SigningMethod, ParsedToken, parse_failed, parsed, key_for, passes, claimed, check_parts,
  auth_middleware,
}

-- The token is one that the parser takes, with these claims.
abbrev pub Vouched : (Text → ParsedToken) → Text → Text → Text → Text → Type 0
Vouched parse scheme token id name =
    (scheme ≡ codes "Bearer")
    × (is_empty token ≡ false)
    × (parse token ≡ parsed true (some id) (some name))

claimed-parsed :
    (p : ParsedToken) (id name : Text)
    → claimed p ≡ passes id name
    → p ≡ parsed true (some id) (some name)
unfolding claimed
claimed-parsed parse_failed id name h = cc
claimed-parsed (parsed false sub n) id name h = cc
claimed-parsed (parsed true none n) id name h = cc
claimed-parsed (parsed true (some sub) none) id name h = cc
claimed-parsed (parsed true (some sub) (some n)) id name h = cc

one_part :
    (parse : Text → ParsedToken) (scheme token id name : Text)
    → check_parts parse scheme (token ∷ []) ≡ passes id name
    → Vouched parse scheme token id name
unfolding check_parts
one_part parse scheme token id name h = elim (Bool-cases (scheme == codes "Bearer")) [
  | inr other ↦ cc (rw other at h)
  | inl bearer ↦ elim (Bool-cases (is_empty token)) [
    | inl nothing ↦ cc (rw (bearer, nothing) at h)
    | inr some_token ↦ (
      (eq_iff scheme (codes "Bearer")).0 bearer,
      some_token,
      claimed-parsed (parse token) id name (rw (bearer, some_token) at h),
    )
  ]
]

-- The header has exactly two parts.
parts-Vouched :
    (parse : Text → ParsedToken) (scheme : Text) (parts : List Text) (id name : Text)
    → check_parts parse scheme parts ≡ passes id name
    → (token : Text) × (join b' ' scheme parts ≡ scheme ++ b' ' ∷ token)
      × Vouched parse scheme token id name
unfolding check_parts
parts-Vouched parse scheme [] id name h = cc
parts-Vouched parse scheme (token ∷ part ∷ parts) id name h = cc
parts-Vouched parse scheme (token ∷ []) id name h =
    (token, refl, one_part parse scheme token id name h)

-- A request that passes with an identifier and a name has a header that is the word Bearer, a space
-- and a token that is not empty, and the parser, which is given the secret for HMAC methods only, finds
-- that token valid with just these claims.
pub auth_middleware-Sound :
    (jwt_parse : Text → (SigningMethod → Option Text) → ParsedToken) (secret header id name : Text)
    → auth_middleware jwt_parse secret header ≡ passes id name
    → (token : Text) × (header ≡ codes "Bearer " ++ token)
      × (is_empty token ≡ false)
      × (jwt_parse token (key_for secret) ≡ parsed true (some id) (some name))
unfolding auth_middleware
auth_middleware-Sound jwt_parse secret header id name h = elim (Bool-cases (is_empty header)) [
  | inl nothing ↦ cc (rw nothing at h)
  | inr something ↦
      (let (token, e, (scheme, more, good)) =
          parts-Vouched (λ token. jwt_parse token (key_for secret)) (split_at b' ' header).0
            (split_at b' ' header).1 id name (rw something at h) in
        (
          token,
          sym (join-split_at b' ' header) ∙ e ∙ ap (λ z. z ++ b' ' ∷ token) scheme,
          more,
          good,
        ))
]
