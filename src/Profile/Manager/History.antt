-- ===== src/Profile/Manager/History.antt =====
-- What holds after any history of registrations, unregistrations and price messages.
use crypto_asset_tracker_mic.Base.{
  ℕ, true, List, [], ◌∷◌, Option, some, ◌≡◌, refl, arith, Text, text_eq, nat_eq, Dict, lookup,
  contains, has, eq_refl, Option-cases, inl, inr, modify,
}
use crypto_asset_tracker_mic.Profile.Models.{Decimal, Uuid, PriceUpdate, PortfolioView}
use crypto_asset_tracker_mic.Profile.Manager.{
  Client, Manager, new_manager, subscribers_of, Event, registers, unregisters, message, deliver,
  deliver_all, register_client, unregister_client, process_redis_message, step, run,
}
use crypto_asset_tracker_mic.Profile.Manager.Watchers.{watches}
use crypto_asset_tracker_mic.Profile.Manager.Channels.{
  Inv, Inv-transfer, register_client-Inv, unregister_client-Inv,
}

module _ (D : Decimal) (unmarshal : Text → Option (PriceUpdate D))
    (marshal : PortfolioView D → Option Text) where
  deliver_all-Inv :
      (update : PriceUpdate D) (m : Manager D) (users : List Uuid)
      → Inv D m
      → Inv D (deliver_all D marshal update m users)
  unfolding deliver_all
  deliver_all-Inv update m [] v = v
  deliver_all-Inv update m (user ∷ users) v = elim (Option-cases (lookup user m.clients)) [
    | inl e ↦ rw (e, deliver_all) (deliver_all-Inv update m users v)
    | inr (ref, e) ↦
        let next = record m { heap = modify ref (deliver D marshal update) m.heap } in
        rw (e, deliver_all)
          (deliver_all-Inv update next users (Inv-transfer D m next refl refl refl (λ _ h. h) v))
  ]

  process_redis_message-Inv :
      (m : Manager D) (payload : Text)
      → Inv D m
      → Inv D (process_redis_message D unmarshal marshal m payload)
  unfolding process_redis_message
  process_redis_message-Inv m payload v = elim (Option-cases (unmarshal payload)) [
    | inl e ↦ rw (e, process_redis_message) v
    | inr (update, e) ↦ elim (Option-cases (lookup update.symbol m.coin_subscribers)) [
      | inl e' ↦ rw (e, process_redis_message) (rw e' v)
      | inr (users, e') ↦ rw (e, process_redis_message) (rw e' (deliver_all-Inv update m users v))
    ]
  ]

  run-Inv : (m : Manager D) (es : List (Event D)) → Inv D m → Inv D (run D unmarshal marshal m es)
  unfolding run step
  run-Inv m [] v = v
  run-Inv m (registers a ref ∷ es) v =
      run-Inv (register_client D a m ref) es (register_client-Inv D a m ref v)
  run-Inv m (unregisters ref ∷ es) v =
      run-Inv (unregister_client D m ref) es (unregister_client-Inv D m ref v)
  run-Inv m (message payload ∷ es) v =
      run-Inv (process_redis_message D unmarshal marshal m payload) es
        (process_redis_message-Inv m payload v)

  new_manager-Inv : (heap : Dict ℕ (Client D)) → Inv D (new_manager D heap)
  unfolding contains lookup subscribers_of
  new_manager-Inv heap = record {
    in_step = record { synced = λ k. refl; watched = λ k h. cc; populated = λ k h. cc };
    online = λ k u h. cc;
  }

entry-watched :
    (D : Decimal) (m : Manager D) (k : Text) (users : List Uuid)
    → Inv D m
    → lookup k m.coin_subscribers ≡ some users
    → (u : Uuid) × (watches D m k u ≡ true) × (has u m.clients ≡ true)
unfolding subscribers_of contains
entry-watched D m k [] v e = absurd (v.in_step.populated k e)
entry-watched D m k (u ∷ us) v e =
    let here : watches D m k u ≡ true = ground (arith, eq_refl u) in (u, here, v.online k u here)

subscribed-watched :
    (D : Decimal) (m : Manager D) (k : Text)
    → Inv D m
    → contains k m.subscriber.subscriptions ≡ true
    → (u : Uuid) × (watches D m k u ≡ true) × (has u m.clients ≡ true)
unfolding has
subscribed-watched D m k v h = elim (Option-cases (lookup k m.coin_subscribers)) [
  | inl e ↦ absurd (ground (arith, v.in_step.synced k, v.in_step.watched k))
  | inr (users, e) ↦ entry-watched D m k users v e
]

-- After any history the service is subscribed to a Redis channel only if a registered client watches
-- its coin, so a channel is given up with its last watcher.
pub subscribed_only_if_watched :
    (D : Decimal) (unmarshal : Text → Option (PriceUpdate D))
    (marshal : PortfolioView D → Option Text) (heap : Dict ℕ (Client D)) (es : List (Event D))
    (k : Text)
    → contains k (run D unmarshal marshal (new_manager D heap) es).subscriber.subscriptions ≡ true
    → (u : Uuid) × (watches D (run D unmarshal marshal (new_manager D heap) es) k u ≡ true)
      × (has u (run D unmarshal marshal (new_manager D heap) es).clients ≡ true)
subscribed_only_if_watched D unmarshal marshal heap es k h =
    subscribed-watched D _ k
      (run-Inv D unmarshal marshal (new_manager D heap) es
        (new_manager-Inv D unmarshal marshal heap))
      h
