-- ===== src/Aggregator/StreamManager/Followers.antt =====
-- Who follows what after each call, as a set of pairs of a symbol and a user.
use crypto_asset_tracker_mic.Base.{
  Bool, true, ◌||◌, ◌&&◌, List, [], ◌∷◌, none, some, ◌≡◌, refl, not, arith, if◌then◌else◌, Text,
  text_eq, to_lower, lookup, has, contains, add, remove, eq_iff, ◌==◌, lookup-insert, contains-add,
  contains-remove, Option-cases, inl, inr,
}
use crypto_asset_tracker_mic.Aggregator.StreamManager.{
  System, start, open_followers, subscribe, ensure_started, add_lower, add_coin, cancel,
  cancel_stream, unsubscribe, cancel_if_unused, delete_lower, delete_coin, followers_of,
}

abbrev pub follows : System → Text → Text → Bool
follows s symbol user = contains user (followers_of s symbol)

module _ (s : System) (symbol : Text) where
  -- The sets of followers, call by call.
  pub open_followers-of : (k : Text) → followers_of (open_followers s symbol) k ≡ followers_of s k
  unfolding open_followers followers_of has
  open_followers-of k = ground (arith, lookup-insert symbol k [] s.followers, eq_iff symbol k)

  subscribe-of :
      (user k : Text)
      → followers_of (subscribe s symbol user) k
        ≡ (if symbol == k then add user (followers_of s symbol) else followers_of s k)
  unfolding subscribe followers_of
  subscribe-of user k =
      ground (arith, lookup-insert symbol k (add user (followers_of s symbol)) s.followers)

  ensure_started-followers : (ensure_started s symbol).followers ≡ s.followers
  unfolding ensure_started start
  ensure_started-followers = ground arith

  ensure_started-of : (k : Text) → followers_of (ensure_started s symbol) k ≡ followers_of s k
  unfolding followers_of
  ensure_started-of k = rw ensure_started-followers

  cancel_stream-followers : (cancel_stream s symbol).followers ≡ s.followers
  unfolding cancel_stream cancel
  cancel_stream-followers = ground arith

  pub cancel_if_unused-of :
      (users : List Text) (k : Text)
      → followers_of (cancel_if_unused s symbol users) k ≡ followers_of s k
  unfolding cancel_if_unused followers_of
  cancel_if_unused-of [] k = rw cancel_stream-followers
  cancel_if_unused-of (u ∷ us) k = refl

ensure_started-has :
    (s : System) (symbol : Text) → has symbol (ensure_started s symbol).streams ≡ true
unfolding ensure_started start has
ensure_started-has s symbol =
    ground (arith, lookup-insert symbol symbol s.next_id s.streams, eq_iff symbol symbol)

followers_of-none :
    (s : System) (symbol : Text) → lookup symbol s.followers ≡ none → followers_of s symbol ≡ []
unfolding followers_of
followers_of-none s symbol e = ground arith

pub followers_of-some :
    (s : System) (symbol : Text) (users : List Text)
    → lookup symbol s.followers ≡ some users
    → followers_of s symbol ≡ users
unfolding followers_of
followers_of-some s symbol users e = ground arith

follows-unsubscribe :
    (s : System) (symbol user k u : Text) (users : List Text)
    → followers_of s symbol ≡ users
    → follows (unsubscribe s symbol user users) k u
      ≡ (not (symbol == k && user == u) && follows s k u)
unfolding unsubscribe followers_of
follows-unsubscribe s symbol user k u users e = ground (
  arith,
  lookup-insert symbol k (remove user users) s.followers,
  contains-remove user u users,
  eq_iff symbol k,
  eq_iff user u,
)

follows-add_lower :
    (s : System) (symbol user k u : Text)
    → follows (add_lower s symbol user).0 k u ≡ ((symbol == k && user == u) || follows s k u)
unfolding add_lower
follows-add_lower s symbol user k u = ground (
  arith,
  open_followers-of s symbol k,
  open_followers-of s symbol symbol,
  ensure_started-of (subscribe (open_followers s symbol) symbol user) symbol k,
  subscribe-of (open_followers s symbol) symbol user k,
  contains-add user u (followers_of s symbol),
  eq_iff symbol k,
  eq_iff user u,
)

add_lower-new :
    (s : System) (symbol user : Text) → (add_lower s symbol user).1 ≡ not (follows s symbol user)
unfolding add_lower
add_lower-new s symbol user = ground (arith, open_followers-of s symbol symbol)

follows-delete_lower :
    (s : System) (symbol user k u : Text)
    → follows (delete_lower s symbol user) k u ≡ (not (symbol == k && user == u) && follows s k u)
unfolding delete_lower contains
follows-delete_lower s symbol user k u = elim (Option-cases (lookup symbol s.followers)) [
  | inl e ↦
      rw (e, delete_lower)
        (ground (arith, eq_iff symbol k, eq_iff user u, followers_of-none s symbol e))
  | inr (users, e) ↦
      rw (e, delete_lower)
        (rw (cancel_if_unused-of _ symbol _ k)
          (follows-unsubscribe s symbol user k u users (followers_of-some s symbol users e)))
]

-- `AddCoin` adds exactly the pair of its symbol in lower case and its user to the set of
-- subscriptions, and reports whether the pair is new.
pub follows-add_coin :
    (s : System) (symbol user : Text)
    → ((k u : Text)
        → follows (add_coin s symbol user).0 k u
          ≡ ((to_lower symbol == k && user == u) || follows s k u))
      × ((add_coin s symbol user).1 ≡ not (follows s (to_lower symbol) user))
unfolding add_coin
follows-add_coin s symbol user =
    (follows-add_lower s (to_lower symbol) user, add_lower-new s (to_lower symbol) user)

-- `DeleteCoin` removes exactly the pair of its symbol in lower case and its user from the set of
-- subscriptions, whether or not it was there.
pub follows-delete_coin :
    (s : System) (symbol user k u : Text)
    → follows (delete_coin s symbol user) k u
      ≡ (not (to_lower symbol == k && user == u) && follows s k u)
unfolding delete_coin
follows-delete_coin s symbol user = follows-delete_lower s (to_lower symbol) user

-- After `AddCoin` reports a new subscription, the symbol has a registered stream.
pub add_coin-has_stream :
    (s : System) (symbol user : Text)
    → (add_coin s symbol user).1 ≡ true
    → has (to_lower symbol) (add_coin s symbol user).0.streams ≡ true
unfolding add_coin add_lower
add_coin-has_stream s symbol user h = ground (
  arith,
  ensure_started-has (subscribe (open_followers s (to_lower symbol)) (to_lower symbol) user)
      (to_lower symbol),
)
