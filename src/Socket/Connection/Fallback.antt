-- ===== src/Socket/Connection/Fallback.antt =====
-- When the address changes.
use crypto_asset_tracker_mic.Base.{
  ℕ, true, [], ◌∷◌, ◌++◌, Option, none, some, ◌≡◌, refl, arith, inl, inr, nat_beq, nat_beq_iff,
  Text, codes, starts_with, is_substring, Bool-cases,
}
use crypto_asset_tracker_mic.Socket.Connection.{com_host, fallback_url, fallback_for_451}

starts_with-prefix : (p q s : Text) → starts_with (p ++ q) s ≡ true → starts_with p s ≡ true
unfolding starts_with
starts_with-prefix [] q s h = refl
starts_with-prefix (a ∷ p) q [] h = cc
starts_with-prefix (a ∷ p) q (c ∷ s) h = ground (arith, starts_with-prefix p q s)

is_substring-prefix : (p q s : Text) → is_substring (p ++ q) s ≡ true → is_substring p s ≡ true
unfolding is_substring
is_substring-prefix p q [] h = starts_with-prefix p q [] h
is_substring-prefix p q (c ∷ s) h =
    ground (arith, starts_with-prefix p q (c ∷ s), is_substring-prefix p q s)

fallback_url-Com :
    (url fallback : Text) → fallback_url url ≡ some fallback → is_substring com_host url ≡ true
unfolding fallback_url
fallback_url-Com url fallback h = ground (
  arith,
  is_substring-prefix com_host (codes ":443") url,
  is_substring-prefix com_host (codes ":9443") url,
)

-- The address is replaced only after the answer 451, and only if it names the host
-- stream.binance.com.
pub fallback_for_451-Only :
    (url : Text) (status : Option ℕ) (fallback : Text)
    → fallback_for_451 url status ≡ some fallback
    → (status ≡ some 451) × (is_substring com_host url ≡ true)
unfolding fallback_for_451
fallback_for_451-Only url none fallback h = cc
fallback_for_451-Only url (some status) fallback h = elim (Bool-cases (nat_beq status 451)) [
  | inl e ↦ (cc ((nat_beq_iff status 451).0 e), fallback_url-Com url fallback (rw e at h))
  | inr e ↦ cc (rw e at h)
]
