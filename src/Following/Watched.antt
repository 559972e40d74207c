-- ===== src/Following/Watched.antt =====
-- The requests that Profile's manager launches, and what they leave behind at Aggregator.
use crypto_asset_tracker_mic.Base.{
  ℕ, Bool, true, false, List, [], ◌∷◌, ◌++◌, Text, text_eq, nat_eq, ◌==◌, if◌then◌else◌, Option,
  none, some, ◌≡◌, ◌≢◌, refl, arith, eq_iff, contains, remove, lookup, delete, has, keys,
  Option-cases, inl, inr, contains-add, contains-remove, if_cases, Dict, modify, is_empty, to_lower,
  All,
}
use crypto_asset_tracker_mic.Profile.Models.{Decimal, Uuid, Coin, PriceUpdate, PortfolioView}
use crypto_asset_tracker_mic.Profile.Subscriber.{subscribe}
use crypto_asset_tracker_mic.Profile.Manager.{
  Client, Manager, new_manager, Notice, start_stream, stop_stream, watch, activated, activate,
  follow_coin, follow_all, close_old, enter, register_client, drop_coin, unfollow_coin,
  unfollow_from, unfollow_all_coins, unregister_client, Event, registers, unregisters, message,
  deliver, deliver_all, process_redis_message, step, run,
}
use crypto_asset_tracker_mic.Aggregator.StreamManager.{new_stream_manager}
use crypto_asset_tracker_mic.Aggregator.StreamManager.Followers.{follows}
use crypto_asset_tracker_mic.Following.{serve_all, starter_from, starter, user_of}
use crypto_asset_tracker_mic.Following.Replay.{OneSpelling, started-follows}

starter_from-append :
    (last : Option Uuid) (k : Text) (ms ns : List Notice)
    → starter_from last k (ms ++ ns) ≡ starter_from (starter_from last k ms) k ns
unfolding starter_from
starter_from-append last k [] ns = refl
starter_from-append last k (start_stream user symbol ∷ ms) ns =
    starter_from-append (if symbol == k then some user else last) k ms ns
starter_from-append last k (stop_stream user symbol ∷ ms) ns =
    starter_from-append (if symbol == k then none else last) k ms ns

starter-start :
    (k : Text) (ns : List Notice) (user symbol : Text)
    → starter k (ns ++ start_stream user symbol ∷ [])
      ≡ (if symbol == k then some user else starter k ns)
unfolding starter_from
starter-start k ns user symbol = starter_from-append none k ns (start_stream user symbol ∷ [])

pub starter-stop :
    (k : Text) (ns : List Notice) (user symbol : Text)
    → starter k (ns ++ stop_stream user symbol ∷ []) ≡ (if symbol == k then none else starter k ns)
unfolding starter_from
starter-stop k ns user symbol = starter_from-append none k ns (stop_stream user symbol ∷ [])

module _ (D : Decimal) where
  -- Every active coin was last announced by a start.
  abbrev pub Announced : Manager D → Type 0
  Announced m = (k : Text) → contains k m.active_redis_sub ≡ true → starter k m.notices ≢ none

  follow_coin-Announced :
      (a : Text → Bool) (m : Manager D) (user : Uuid) (symbol : Text)
      → Announced m
      → Announced (follow_coin D a m user symbol)
  unfolding follow_coin activate activated watch subscribe
  follow_coin-Announced a m user symbol v k h = ground (
    arith,
    v k,
    starter-start k m.notices user symbol,
    contains-add symbol k m.active_redis_sub,
    eq_iff symbol k,
  )

  follow_all-Announced :
      (a : Text → Bool) (m : Manager D) (user : Uuid) (coins : List (Coin D))
      → Announced m
      → Announced (follow_all D a m user coins)
  unfolding follow_all
  follow_all-Announced a m user [] v = v
  follow_all-Announced a m user (coin ∷ coins) v =
      follow_all-Announced a (follow_coin D a m user coin.symbol) user coins
        (follow_coin-Announced a m user coin.symbol v)

  close_old-Announced : (m : Manager D) (user : Uuid) → Announced m → Announced (close_old D m user)
  unfolding close_old
  close_old-Announced m user v k h = ground (arith, v k)

  register_client-Announced :
      (a : Text → Bool) (m : Manager D) (ref : ℕ)
      → Announced m
      → Announced (register_client D a m ref)
  unfolding register_client enter
  register_client-Announced a m ref v = elim (Option-cases (lookup ref m.heap)) [
    | inl e ↦ rw (e, register_client) v
    | inr (c, e) ↦
        rw (e, register_client)
          (follow_all-Announced a _ c.user_id c.profile.coins (close_old-Announced m c.user_id v))
  ]

  unfollow_coin-Announced :
      (m : Manager D) (user : Uuid) (symbol : Text) (users : List Uuid)
      → Announced m
      → Announced (unfollow_coin D m user symbol users)
  unfolding unfollow_coin drop_coin
  unfollow_coin-Announced m user symbol [] v k h = ground (
    arith,
    v k,
    starter-stop k m.notices user symbol,
    contains-remove symbol k m.active_redis_sub,
    eq_iff symbol k,
  )
  unfollow_coin-Announced m user symbol (u ∷ us) v k h = v k h

  unfollow_from-Announced :
      (ks : List Text) (m : Manager D) (user : Uuid)
      → Announced m
      → Announced (unfollow_from D ks m user)
  unfolding unfollow_from
  unfollow_from-Announced [] m user v = v
  unfollow_from-Announced (symbol ∷ ks) m user v =
      elim (Option-cases (lookup symbol m.coin_subscribers)) [
        | inl e ↦ rw (e, unfollow_from) (unfollow_from-Announced ks m user v)
        | inr (users, e) ↦
            rw (e, unfollow_from)
              (unfollow_from-Announced ks (unfollow_coin D m user symbol (remove user users)) user
                (unfollow_coin-Announced m user symbol (remove user users) v))
      ]

  unregister_client-Announced :
      (m : Manager D) (ref : ℕ) → Announced m → Announced (unregister_client D m ref)
  unfolding unregister_client unfollow_all_coins
  unregister_client-Announced m ref v = elim (Option-cases (lookup ref m.heap)) [
    | inl e ↦ rw (e, unregister_client) v
    | inr (c, e) ↦
        rw (e, unregister_client)
          (if_cases Announced (has c.user_id m.clients)
            (λ _.
              unfollow_from-Announced (keys m.coin_subscribers)
                (record m { clients = delete c.user_id m.clients }) c.user_id v)
            (λ _. v))
  ]

module _ (D : Decimal) (unmarshal : Text → Option (PriceUpdate D))
    (marshal : PortfolioView D → Option Text) where
  deliver_all-Announced :
      (update : PriceUpdate D) (m : Manager D) (users : List Uuid)
      → Announced D m
      → Announced D (deliver_all D marshal update m users)
  unfolding deliver_all
  deliver_all-Announced update m [] v = v
  deliver_all-Announced update m (user ∷ users) v = elim (Option-cases (lookup user m.clients)) [
    | inl e ↦ rw (e, deliver_all) (deliver_all-Announced update m users v)
    | inr (ref, e) ↦
        rw (e, deliver_all)
          (deliver_all-Announced update
            (record m { heap = modify ref (deliver D marshal update) m.heap }) users v)
  ]

  message-Announced :
      (m : Manager D) (payload : Text)
      → Announced D m
      → Announced D (process_redis_message D unmarshal marshal m payload)
  unfolding process_redis_message
  message-Announced m payload v = elim (Option-cases (unmarshal payload)) [
    | inl e ↦ rw (e, process_redis_message) v
    | inr (update, e) ↦ elim (Option-cases (lookup update.symbol m.coin_subscribers)) [
      | inl e' ↦ rw (e, process_redis_message) (rw e' v)
      | inr (users, e') ↦
          rw (e, process_redis_message) (rw e' (deliver_all-Announced update m users v))
    ]
  ]

  run-Announced :
      (m : Manager D) (es : List (Event D))
      → Announced D m
      → Announced D (run D unmarshal marshal m es)
  unfolding run step
  run-Announced m [] v = v
  run-Announced m (registers a ref ∷ es) v =
      run-Announced (register_client D a m ref) es (register_client-Announced D a m ref v)
  run-Announced m (unregisters ref ∷ es) v =
      run-Announced (unregister_client D m ref) es (unregister_client-Announced D m ref v)
  run-Announced m (message payload ∷ es) v =
      run-Announced (process_redis_message D unmarshal marshal m payload) es
        (message-Announced m payload v)

new_manager-Announced : (D : Decimal) (heap : Dict ℕ (Client D)) → Announced D (new_manager D heap)
unfolding contains
new_manager-Announced D heap k h = cc

-- Every request names a user.
abbrev pub Named : List Notice → Type 0
Named ns = All (λ n. is_empty (user_of n) ≡ false) ns

pub starter-Named :
    (last : Option Uuid) (k : Text) (ns : List Notice) (u : Uuid)
    → Named ns
    → (last ≡ some u → is_empty u ≡ false)
    → starter_from last k ns ≡ some u
    → is_empty u ≡ false
unfolding starter_from
starter-Named last k [] u named f h = f h
starter-Named last k (start_stream user symbol ∷ ns) u named f h =
    starter-Named (if symbol == k then some user else last) k ns u named.1
      (λ e. ground (arith, named.0)) h
starter-Named last k (stop_stream user symbol ∷ ns) u named f h =
    starter-Named (if symbol == k then none else last) k ns u named.1 (λ e. ground arith) h

-- After any history of Profile's manager, once Aggregator has served its requests in order, a coin
-- whose Redis channel is active at Profile has a follower at Aggregator, provided that the requests
-- name users and spell this symbol in one way only.
pub active_coin_is_followed :
    (D : Decimal) (unmarshal : Text → Option (PriceUpdate D))
    (marshal : PortfolioView D → Option Text) (heap : Dict ℕ (Client D)) (es : List (Event D))
    (k : Text)
    → is_empty k ≡ false
    → OneSpelling k (run D unmarshal marshal (new_manager D heap) es).notices
    → Named (run D unmarshal marshal (new_manager D heap) es).notices
    → contains k (run D unmarshal marshal (new_manager D heap) es).active_redis_sub ≡ true
    → (u : Uuid) × (follows
          (serve_all (run D unmarshal marshal (new_manager D heap) es).notices new_stream_manager)
          (to_lower k)
          u
        ≡ true)
active_coin_is_followed D unmarshal marshal heap es k ek one named h =
    let m = run D unmarshal marshal (new_manager D heap) es in
    let announced : starter k m.notices ≢ none =
      run-Announced D unmarshal marshal (new_manager D heap) es (new_manager-Announced D heap) k
        h in
    elim (Option-cases (starter k m.notices)) [
      | inl e ↦ absurd (announced e)
      | inr (u, e) ↦ (
        u,
        started-follows none m.notices new_stream_manager k u ek
            (starter-Named none k m.notices u named (λ x. cc) e) one e (λ x. cc),
      )
    ]
