-- ===== src/Aggregator/StreamManager/Lost.antt =====
-- When a stream is cancelled, and how a follower can be left without one.
use crypto_asset_tracker_mic.Base.{
  ℕ, Bool, true, false, ◌||◌, List, [], ◌∷◌, none, some, ◌≡◌, refl, not, arith, if◌then◌else◌, Text,
  text_eq, to_lower, lookup, has, contains, eq_iff, ◌==◌, lookup-delete, Option-cases, inl, inr,
  All, map, eq_refl,
}
use crypto_asset_tracker_mic.Aggregator.StreamManager.{
  System, Task, open_followers, subscribe, ensure_started, add_lower, add_coin, cancel, mark,
  cancel_stream, unsubscribe, cancel_if_unused, delete_lower, delete_coin, finish, followers_of,
  Reach,
}
use crypto_asset_tracker_mic.Aggregator.StreamManager.Followers.{
  follows, cancel_if_unused-of, follows-add_coin, follows-delete_coin, add_coin-has_stream,
}
use crypto_asset_tracker_mic.Aggregator.StreamManager.Invariant.{Inv, Reach-Inv}

abbrev pub is_empty : List Text → Bool
is_empty [] = true
is_empty (_ ∷ _) = false

unsubscribe-tasks :
    (s : System) (symbol user : Text) (users : List Text)
    → (unsubscribe s symbol user users).tasks ≡ s.tasks
unfolding unsubscribe
unsubscribe-tasks s symbol user users = ground arith

unsubscribe-streams :
    (s : System) (symbol user : Text) (users : List Text)
    → (unsubscribe s symbol user users).streams ≡ s.streams
unfolding unsubscribe
unsubscribe-streams s symbol user users = ground arith

cancel_if_unused-streams :
    (s : System) (symbol : Text) (users : List Text)
    → (cancel_if_unused s symbol users).streams ≡ s.streams
unfolding cancel_if_unused cancel_stream cancel
cancel_if_unused-streams s symbol [] = ground arith
cancel_if_unused-streams s symbol (u ∷ us) = refl

cancel_if_unused-tasks :
    (s : System) (symbol : Text) (users : List Text) (id : ℕ)
    → lookup symbol s.streams ≡ some id
    → (cancel_if_unused s symbol users).tasks
      ≡ (if is_empty users then map (mark id) s.tasks else s.tasks)
unfolding cancel_if_unused cancel_stream cancel
cancel_if_unused-tasks s symbol [] id e = ground arith
cancel_if_unused-tasks s symbol (u ∷ us) id e = refl

module _ (s : System) (symbol user : Text) where
  delete_lower-streams : (delete_lower s symbol user).streams ≡ s.streams
  unfolding delete_lower
  delete_lower-streams = elim (Option-cases (lookup symbol s.followers)) [
    | inl e ↦ rw (e, delete_lower)
    | inr (users, e) ↦
        rw (e, delete_lower)
          (ground (
            arith,
            cancel_if_unused-streams (unsubscribe s symbol user users) symbol
                (followers_of (unsubscribe s symbol user users) symbol),
            unsubscribe-streams s symbol user users,
          ))
  ]

  delete_lower-tasks :
      (id : ℕ)
      → lookup symbol s.streams ≡ some id
      → (users : List Text) → lookup symbol s.followers ≡ some users
      → (delete_lower s symbol user).tasks ≡ (
          if is_empty (followers_of (delete_lower s symbol user) symbol)
          then map (mark id) s.tasks
          else s.tasks)
  unfolding delete_lower
  delete_lower-tasks id h users e =
      rw (e, delete_lower)
        (ground (
          arith,
          cancel_if_unused-tasks (unsubscribe s symbol user users) symbol
              (followers_of (unsubscribe s symbol user users) symbol) id,
          cancel_if_unused-of (unsubscribe s symbol user users) symbol
              (followers_of (unsubscribe s symbol user users) symbol) symbol,
          unsubscribe-streams s symbol user users,
          unsubscribe-tasks s symbol user users,
        ))

-- `DeleteCoin` cancels the registered stream of a followed symbol exactly if it leaves the symbol
-- without a follower; it touches no other stream, and registers and ends none.
pub delete_coin-cancels :
    (s : System) (symbol user : Text) (id : ℕ) (users : List Text)
    → lookup (to_lower symbol) s.streams ≡ some id
    → lookup (to_lower symbol) s.followers ≡ some users
    → ((delete_coin s symbol user).tasks ≡ (
        if is_empty (followers_of (delete_coin s symbol user) (to_lower symbol))
        then map (mark id) s.tasks
        else s.tasks))
      × ((delete_coin s symbol user).streams ≡ s.streams)
unfolding delete_coin
delete_coin-cancels s symbol user id users h e = (
  delete_lower-tasks s (to_lower symbol) user id h users e,
  delete_lower-streams s (to_lower symbol) user,
)

-- Every goroutine of the symbol has been told to stop.
abbrev pub AllCancelled : Text → List Task → Type 0
AllCancelled symbol ts = All (λ t. (not (t.symbol == symbol) || t.cancelled) ≡ true) ts

mark-AllCancelled :
    (s : System) (symbol : Text) (id : ℕ) (ts : List Task)
    → lookup symbol s.streams ≡ some id
    → All (λ t. lookup t.symbol s.streams ≡ some t.id) ts
    → AllCancelled symbol (map (mark id) ts)
unfolding mark
mark-AllCancelled s symbol id [] e h = tt
mark-AllCancelled s symbol id (t ∷ ts) e h =
    ground (arith, mark-AllCancelled s symbol id ts e h.1, eq_iff t.symbol symbol)

add_lower-tasks :
    (s : System) (symbol user : Text)
    → has symbol s.streams ≡ true
    → (add_lower s symbol user).0.tasks ≡ s.tasks
unfolding add_lower ensure_started subscribe open_followers
add_lower-tasks s symbol user h = ground arith

-- The last follower leaves and another user comes before the stream's goroutine has ended: the call
-- reports a new subscription, but every goroutine of the symbol has been cancelled.
pub resubscribe_gets_cancelled_stream :
    {s : System}
    → Reach s
    → (symbol user newcomer : Text) (id : ℕ) (users : List Text)
    → lookup (to_lower symbol) s.streams ≡ some id
    → lookup (to_lower symbol) s.followers ≡ some users
    → followers_of (delete_coin s symbol user) (to_lower symbol) ≡ []
    → (let again = add_coin (delete_coin s symbol user) symbol newcomer in
        (again.1 ≡ true) × AllCancelled (to_lower symbol) again.0.tasks)
unfolding add_coin has contains
resubscribe_gets_cancelled_stream {s} r symbol user newcomer id users h e left =
    let c = delete_coin-cancels s symbol user id users h e in
    let v : Inv s = Reach-Inv r in
    (
      ground (arith, (follows-add_coin (delete_coin s symbol user) symbol newcomer).1),
      ground (
        arith,
        c,
        add_lower-tasks (delete_coin s symbol user) (to_lower symbol) newcomer,
        mark-AllCancelled s (to_lower symbol) id s.tasks h v.registered,
      ),
    )

-- A repeated subscription changes nothing.
add_lower_known :
    (s : System) (symbol user : Text)
    → follows s symbol user ≡ true
    → add_lower s symbol user ≡ (s, false)
unfolding add_lower open_followers followers_of has contains
add_lower_known s symbol user h = ground arith

add_coin_known :
    (s : System) (symbol user : Text)
    → to_lower symbol ≡ symbol
    → follows s symbol user ≡ true
    → add_coin s symbol user ≡ (s, false)
unfolding add_coin
add_coin_known s symbol user low h = rw low (add_lower_known s symbol user h)

-- When a stream ends while a user follows its symbol, the symbol has no stream any more, the user
-- still counts as a follower, and subscribing again is refused as a repetition and starts nothing; if
-- the user first deletes the coin, subscribing again is a new subscription with a stream.
pub ended_stream_stays_down :
    (s : System) (t : Task) (user : Text)
    → to_lower t.symbol ≡ t.symbol
    → follows s t.symbol user ≡ true
    → (lookup t.symbol (finish s t).streams ≡ none)
      × (follows (finish s t) t.symbol user ≡ true)
      × (add_coin (finish s t) t.symbol user ≡ (finish s t, false))
      × ((add_coin (delete_coin (finish s t) t.symbol user) t.symbol user).1 ≡ true)
      × (has t.symbol (add_coin (delete_coin (finish s t) t.symbol user) t.symbol user).0.streams
          ≡ true)
unfolding finish followers_of
ended_stream_stays_down s t user low h =
    let left = delete_coin (finish s t) t.symbol user in
    let new : (add_coin left t.symbol user).1 ≡ true = ground (
      arith,
      (follows-add_coin left t.symbol user).1,
      follows-delete_coin (finish s t) t.symbol user (to_lower t.symbol) user,
      eq_refl user,
      eq_refl (to_lower t.symbol),
    ) in
    (
      ground (arith, lookup-delete t.symbol t.symbol s.streams, eq_refl t.symbol),
      h,
      add_coin_known (finish s t) t.symbol user low h,
      new,
      rw low at (add_coin-has_stream left t.symbol user new),
    )
