-- ===== src/Following/Leaving.antt =====
-- What is left at Aggregator when the last watcher of a coin leaves Profile.
use crypto_asset_tracker_mic.Base.{
  ℕ, Bool, true, false, List, [], ◌∷◌, ◌++◌, Text, text_eq, nat_eq, ◌==◌, none, some, ◌≡◌, ◌≢◌,
  refl, ◌∙◌, arith, eq_iff, eq_refl, contains, remove, lookup, delete, has, keys, Option-cases, inl,
  inr, contains-remove, contains-keys, lookup-insert, lookup-delete, is_empty, to_lower, Bool-cases,
}
use crypto_asset_tracker_mic.Profile.Models.{Decimal, Uuid}
use crypto_asset_tracker_mic.Profile.Manager.{
  Client, Manager, subscribers_of, Notice, stop_stream, drop_coin, unfollow_coin, unfollow_from,
  unfollow_all_coins, unregister_client,
}
use crypto_asset_tracker_mic.Profile.Manager.Watchers.{watches, watches-unregister_client}
use crypto_asset_tracker_mic.Aggregator.StreamManager.{System, new_stream_manager}
use crypto_asset_tracker_mic.Aggregator.StreamManager.Followers.{follows}
use crypto_asset_tracker_mic.Following.{serve_all, starter, notify_aggregator, served}
use crypto_asset_tracker_mic.Following.Replay.{OneSpelling, started-follows, follows-stop}
use crypto_asset_tracker_mic.Following.Watched.{Named, starter-Named, starter-stop}

serve_all-append :
    (ms ns : List Notice) (s : System) → serve_all (ms ++ ns) s ≡ serve_all ns (serve_all ms s)
unfolding serve_all
serve_all-append [] ns s = refl
serve_all-append (m ∷ ms) ns s = serve_all-append ms ns (notify_aggregator served m s)

-- A stop for another user takes nothing from a user.
follows-other_stop :
    (ns : List Notice) (user symbol k u : Text)
    → user ≢ u
    → follows (serve_all (ns ++ stop_stream user symbol ∷ []) new_stream_manager) k u
      ≡ follows (serve_all ns new_stream_manager) k u
unfolding serve_all
follows-other_stop ns user symbol k u other =
    rw (serve_all-append ns (stop_stream user symbol ∷ []) new_stream_manager) (
      ground (arith, follows-stop user symbol (serve_all ns new_stream_manager) k u, eq_iff user u))

module _ (D : Decimal) (user : Uuid) where
  -- Whether a user follows a symbol at Aggregator once the requests of a manager are served.
  abbrev follows_there : Manager D → Text → Uuid → Bool
  follows_there m k u = follows (serve_all m.notices new_stream_manager) k u

  unfollow_coin-others :
      (m : Manager D) (symbol : Text) (users : List Uuid) (k : Text) (u : Uuid)
      → user ≢ u
      → follows_there (unfollow_coin D m user symbol users) k u ≡ follows_there m k u
  unfolding unfollow_coin drop_coin
  unfollow_coin-others m symbol [] k u other = follows-other_stop m.notices user symbol k u other
  unfollow_coin-others m symbol (v ∷ vs) k u other = refl

  pub unfollow_from-others :
      (ks : List Text) (m : Manager D) (k : Text) (u : Uuid)
      → user ≢ u
      → follows_there (unfollow_from D ks m user) k u ≡ follows_there m k u
  unfolding unfollow_from
  unfollow_from-others [] m k u other = refl
  unfollow_from-others (symbol ∷ ks) m k u other =
      elim (Option-cases (lookup symbol m.coin_subscribers)) [
        | inl e ↦ rw (e, unfollow_from) (unfollow_from-others ks m k u other)
        | inr (users, e) ↦
            rw (e, unfollow_from)
              (unfollow_from-others ks (unfollow_coin D m user symbol (remove user users)) k u other
                ∙ unfollow_coin-others m symbol (remove user users) k u other)
      ]

  -- The channel of the coin is given up, and the last request on the coin was a stop.
  abbrev GivenUp : Text → Manager D → Type 0
  GivenUp k m = (contains k m.active_redis_sub ≡ false) × (starter k m.notices ≡ none)

  unfollow_coin-GivenUp :
      (m : Manager D) (symbol : Text) (users : List Uuid) (k : Text)
      → GivenUp k m
      → GivenUp k (unfollow_coin D m user symbol users)
  unfolding unfollow_coin drop_coin
  unfollow_coin-GivenUp m symbol [] k h = (
    ground (arith, h.0, contains-remove symbol k m.active_redis_sub),
    ground (arith, h.1, starter-stop k m.notices user symbol),
  )
  unfollow_coin-GivenUp m symbol (v ∷ vs) k h = h

  unfollow_from-GivenUp :
      (ks : List Text) (m : Manager D) (k : Text)
      → GivenUp k m
      → GivenUp k (unfollow_from D ks m user)
  unfolding unfollow_from
  unfollow_from-GivenUp [] m k h = h
  unfollow_from-GivenUp (symbol ∷ ks) m k h =
      elim (Option-cases (lookup symbol m.coin_subscribers)) [
        | inl e ↦ rw (e, unfollow_from) (unfollow_from-GivenUp ks m k h)
        | inr (users, e) ↦
            rw (e, unfollow_from)
              (unfollow_from-GivenUp ks (unfollow_coin D m user symbol (remove user users)) k
                (unfollow_coin-GivenUp m symbol (remove user users) k h))
      ]

  -- The only watcher of the coin gives it up.
  last_unfollow-GivenUp :
      (m : Manager D) (symbol k : Text) (users : List Uuid)
      → (symbol == k) ≡ true
      → users ≡ []
      → GivenUp k (unfollow_coin D m user symbol users)
  unfolding unfollow_coin drop_coin
  last_unfollow-GivenUp m symbol k [] same e = (
    ground (arith, same, contains-remove symbol k m.active_redis_sub),
    ground (arith, same, starter-stop k m.notices user symbol),
  )
  last_unfollow-GivenUp m symbol k (v ∷ vs) same e = cc

  unfollow_coin-lookup :
      (m : Manager D) (symbol : Text) (users : List Uuid) (k : Text)
      → (symbol == k) ≡ false
      → lookup k (unfollow_coin D m user symbol users).coin_subscribers
        ≡ lookup k m.coin_subscribers
  unfolding unfollow_coin drop_coin
  unfollow_coin-lookup m symbol [] k other =
      ground (arith, other, lookup-delete symbol k m.coin_subscribers)
  unfollow_coin-lookup m symbol (v ∷ vs) k other =
      ground (arith, other, lookup-insert symbol k (v ∷ vs) m.coin_subscribers)

  remove_only : remove user (user ∷ []) ≡ []
  unfolding remove
  remove_only = ground (arith, eq_refl user)

  pub unfollow_from-last :
      (ks : List Text) (m : Manager D) (k : Text)
      → contains k ks ≡ true
      → lookup k m.coin_subscribers ≡ some (user ∷ [])
      → GivenUp k (unfollow_from D ks m user)
  unfolding unfollow_from contains
  unfollow_from-last [] m k h only = cc
  unfollow_from-last (symbol ∷ ks) m k h only = elim (Bool-cases (symbol == k)) [
    | inl same ↦
        let at : lookup symbol m.coin_subscribers ≡ some (user ∷ []) =
          ground (arith, same, only, eq_iff symbol k) in
        rw (at, unfollow_from)
          (unfollow_from-GivenUp ks (unfollow_coin D m user symbol (remove user (user ∷ []))) k
            (last_unfollow-GivenUp m symbol k (remove user (user ∷ [])) same remove_only))
    | inr other ↦
        let later : contains k ks ≡ true = ground (arith, h, other, eq_iff symbol k) in
        elim (Option-cases (lookup symbol m.coin_subscribers)) [
          | inl e ↦ rw (e, unfollow_from) (unfollow_from-last ks m k later only)
          | inr (users, e) ↦
              rw (e, unfollow_from)
                (unfollow_from-last ks (unfollow_coin D m user symbol (remove user users)) k later
                  (unfollow_coin-lookup m symbol (remove user users) k other ∙ only))
        ]
  ]

-- When the last watcher of a coin leaves and is not the user in whose name its stream was last started,
-- nobody watches the coin at Profile any more, its channel is given up, and the last request on it was
-- a stop; yet Aggregator, having served all requests in order, still counts the user of the start as a
-- follower. The requests name users and spell this symbol in one way only.
pub other_leaver_leaks :
    (D : Decimal) (m : Manager D) (ref : ℕ) (c : Client D) (k : Text) (u : Uuid)
    → is_empty k ≡ false
    → OneSpelling k m.notices
    → Named m.notices
    → starter k m.notices ≡ some u
    → c.user_id ≢ u
    → lookup ref m.heap ≡ some c
    → has c.user_id m.clients ≡ true
    → lookup k m.coin_subscribers ≡ some (c.user_id ∷ [])
    → ((v : Uuid) → watches D (unregister_client D m ref) k v ≡ false)
      × (contains k (unregister_client D m ref).active_redis_sub ≡ false)
      × (starter k (unregister_client D m ref).notices ≡ none)
      × (follows (serve_all (unregister_client D m ref).notices new_stream_manager) (to_lower k) u
          ≡ true)
unfolding unregister_client unfollow_all_coins subscribers_of has contains
other_leaver_leaks D m ref c k u ek one named e other at there only =
    let left : Manager D = record m { clients = delete c.user_id m.clients } in
    let listed : contains k (keys m.coin_subscribers) ≡ true =
      ground (arith, contains-keys k m.coin_subscribers, only) in
    let gone = unfollow_from-last D c.user_id (keys m.coin_subscribers) left k listed only in
    let kept =
      unfollow_from-others D c.user_id (keys m.coin_subscribers) left (to_lower k) u other in
    let before : follows (serve_all m.notices new_stream_manager) (to_lower k) u ≡ true =
      started-follows none m.notices new_stream_manager k u ek
        (starter-Named none k m.notices u named (λ x. cc) e) one e (λ x. cc) in
    (
      (λ v.
          ground
            (arith, watches-unregister_client D m ref c k v at there, only, eq_iff c.user_id v)),
      rw (at, unregister_client) (rw there gone.0),
      rw (at, unregister_client) (rw there gone.1),
      rw (at, unregister_client) (rw there (kept ∙ before)),
    )
