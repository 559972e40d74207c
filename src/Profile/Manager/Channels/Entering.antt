-- ===== src/Profile/Manager/Channels/Entering.antt =====
-- The Redis channels and the watchers, when a client registers.
use crypto_asset_tracker_mic.Base.{
  ℕ, Bool, true, ◌||◌, List, [], ◌∷◌, some, ◌≡◌, ◌≢◌, arith, Text, text_eq, nat_eq, lookup,
  contains, add, has, ◌==◌, eq_iff, lookup-insert, contains-add, Option-cases, inl, inr, has-insert,
}
use crypto_asset_tracker_mic.Profile.Models.{Decimal, Uuid, Coin}
use crypto_asset_tracker_mic.Profile.Subscriber.{subscribe}
use crypto_asset_tracker_mic.Profile.Manager.{
  Manager, subscribers_of, watch, activated, activate, follow_coin, follow_all, close_old, enter,
  register_client,
}
use crypto_asset_tracker_mic.Profile.Manager.Watchers.{
  watches, follow_coin-subscribers, watches-follow_coin,
}

module _ (D : Decimal) where
  -- A channel is marked active exactly if it is subscribed; an active coin has an entry, and no entry
  -- is empty.
  pub record InStep (m : Manager D) : Type 0 where
    pub synced : (k : Text) → contains k m.active_redis_sub ≡ contains k m.subscriber.subscriptions
    pub watched :
        (k : Text) → contains k m.active_redis_sub ≡ true → has k m.coin_subscribers ≡ true
    pub populated : (k : Text) → lookup k m.coin_subscribers ≢ some []

  -- And who stands in an entry is a registered client.
  pub record Inv (m : Manager D) : Type 0 where
    pub in_step : InStep m
    pub online : (k : Text) (u : Uuid) → watches D m k u ≡ true → has u m.clients ≡ true

  follow_coin-clients :
      (a : Text → Bool) (m : Manager D) (user : Uuid) (symbol : Text)
      → (follow_coin D a m user symbol).clients ≡ m.clients
  unfolding follow_coin activate activated watch
  follow_coin-clients a m user symbol = ground arith

  follow_coin-synced :
      (a : Text → Bool) (m : Manager D) (user : Uuid) (symbol k : Text)
      → InStep m
      → contains k (follow_coin D a m user symbol).active_redis_sub
        ≡ contains k (follow_coin D a m user symbol).subscriber.subscriptions
  unfolding follow_coin activate activated watch subscribe
  follow_coin-synced a m user symbol k v = ground (
    arith,
    v.synced symbol,
    v.synced k,
    contains-add symbol k m.active_redis_sub,
    contains-add symbol k m.subscriber.subscriptions,
    eq_iff symbol k,
  )

  follow_coin-active :
      (a : Text → Bool) (m : Manager D) (user : Uuid) (symbol k : Text)
      → contains k (follow_coin D a m user symbol).active_redis_sub ≡ true
      → (symbol == k || contains k m.active_redis_sub) ≡ true
  unfolding follow_coin activate activated watch subscribe
  follow_coin-active a m user symbol k h = ground (arith, contains-add symbol k m.active_redis_sub)

  add-ne-nil : (u : Uuid) (us : List Uuid) → add u us ≢ []
  unfolding add contains
  add-ne-nil u [] = cc
  add-ne-nil u (w ∷ ws) = ground arith

  follow_coin-InStep :
      (a : Text → Bool) (m : Manager D) (user : Uuid) (symbol : Text)
      → InStep m
      → InStep (follow_coin D a m user symbol)
  follow_coin-InStep a m user symbol v = record {
    synced = λ k. follow_coin-synced a m user symbol k v;
    watched = λ k h. ground (
      arith,
      follow_coin-active a m user symbol k h,
      follow_coin-subscribers D a m user symbol,
      has-insert symbol k (add user (subscribers_of D m symbol)) m.coin_subscribers,
      v.watched k,
    );
    populated = λ k. ground (
      arith,
      follow_coin-subscribers D a m user symbol,
      lookup-insert symbol k (add user (subscribers_of D m symbol)) m.coin_subscribers,
      add-ne-nil user (subscribers_of D m symbol),
      v.populated k,
    );
  }

  follow_coin-Inv :
      (a : Text → Bool) (m : Manager D) (user : Uuid) (symbol : Text)
      → has user m.clients ≡ true
      → Inv m
      → Inv (follow_coin D a m user symbol)
  follow_coin-Inv a m user symbol here v = record {
    in_step = follow_coin-InStep a m user symbol v.in_step;
    online = λ k u h. ground (
      arith,
      watches-follow_coin D a m user symbol k u,
      follow_coin-clients a m user symbol,
      v.online k u,
      eq_iff user u,
    );
  }

  follow_all-Inv :
      (a : Text → Bool) (m : Manager D) (user : Uuid) (coins : List (Coin D))
      → has user m.clients ≡ true
      → Inv m
      → Inv (follow_all D a m user coins)
  unfolding follow_all
  follow_all-Inv a m user [] here v = v
  follow_all-Inv a m user (coin ∷ coins) here v =
      follow_all-Inv a (follow_coin D a m user coin.symbol) user coins
        (ground (arith, follow_coin-clients a m user coin.symbol))
        (follow_coin-Inv a m user coin.symbol here v)

  close_old-rest :
      (m : Manager D) (user : Uuid)
      → ((close_old D m user).clients ≡ m.clients)
        × ((close_old D m user).subscriber ≡ m.subscriber)
        × ((close_old D m user).active_redis_sub ≡ m.active_redis_sub)
        × ((close_old D m user).coin_subscribers ≡ m.coin_subscribers)
  unfolding close_old
  close_old-rest m user = ground arith

  -- A state with the same channels and watchers, and at least the same clients.
  pub Inv-transfer :
      (m n : Manager D)
      → n.active_redis_sub ≡ m.active_redis_sub
      → n.subscriber ≡ m.subscriber
      → n.coin_subscribers ≡ m.coin_subscribers
      → ((u : Uuid) → has u m.clients ≡ true → has u n.clients ≡ true)
      → Inv m
      → Inv n
  unfolding subscribers_of
  Inv-transfer m n ea es ec more v = record {
    in_step = record {
      synced = λ k. ground (arith, v.in_step.synced k);
      watched = λ k h. ground (arith, v.in_step.watched k);
      populated = λ k. ground (arith, v.in_step.populated k);
    };
    online = λ k u h. ground (arith, v.online k u, more u);
  }

  enter-Inv :
      (m : Manager D) (ref : ℕ) (user : Uuid) → Inv m → Inv (enter D (close_old D m user) ref user)
  unfolding enter
  enter-Inv m ref user v =
      let same = close_old-rest m user in
      Inv-transfer m (enter D (close_old D m user) ref user) same.2 same.1 same.3
        (λ u h. ground (arith, same.0, has-insert user u ref m.clients)) v

  enter-has : (m : Manager D) (ref : ℕ) (user : Uuid) → has user (enter D m ref user).clients ≡ true
  unfolding enter
  enter-has m ref user = ground (arith, has-insert user user ref m.clients, eq_iff user user)

  pub register_client-Inv :
      (a : Text → Bool) (m : Manager D) (ref : ℕ) → Inv m → Inv (register_client D a m ref)
  unfolding register_client
  register_client-Inv a m ref v = elim (Option-cases (lookup ref m.heap)) [
    | inl e ↦ rw (e, register_client) v
    | inr (c, e) ↦
        rw (e, register_client)
          (follow_all-Inv a _ c.user_id c.profile.coins (enter-has _ ref c.user_id)
            (enter-Inv m ref c.user_id v))
  ]
