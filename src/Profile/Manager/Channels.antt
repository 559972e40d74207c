-- ===== src/Profile/Manager/Channels.antt =====
-- The Redis channels and the watchers, when a client leaves.
mod Entering
pub use Entering.*
use crypto_asset_tracker_mic.Base.{
  ℕ, Bool, true, ◌||◌, List, [], ◌∷◌, some, ◌≡◌, ◌≢◌, refl, arith, Text, text_eq, nat_eq, lookup,
  delete, contains, add, remove, has, keys, ◌==◌, eq_iff, lookup-insert, lookup-delete,
  contains-add, contains-remove, Option-cases, inl, inr, has-insert, has-delete, if_cases,
}
use crypto_asset_tracker_mic.Profile.Models.{Decimal, Uuid, Coin}
use crypto_asset_tracker_mic.Profile.Subscriber.{subscribe, unsubscribe}
use crypto_asset_tracker_mic.Profile.Manager.{
  Manager, subscribers_of, watch, activated, activate, follow_coin, follow_all, close_old, enter,
  register_client, drop_coin, unfollow_coin, unfollow_from, unfollow_all_coins, unregister_client,
}
use crypto_asset_tracker_mic.Profile.Manager.Watchers.{
  watches, follow_coin-subscribers, watches-follow_coin, watches-unfollow_all_coins,
}

module _ (D : Decimal) where
  unfollow_coin-InStep :
      (m : Manager D) (user : Uuid) (symbol : Text) (users : List Uuid)
      → has symbol m.coin_subscribers ≡ true
      → InStep D m
      → InStep D (unfollow_coin D m user symbol users)
  unfolding unfollow_coin drop_coin unsubscribe
  unfollow_coin-InStep m user symbol [] old v = record {
    synced = λ k. ground (
      arith,
      v.synced symbol,
      v.synced k,
      contains-remove symbol k m.active_redis_sub,
      contains-remove symbol k m.subscriber.subscriptions,
      eq_iff symbol k,
    );
    watched = λ k h. ground (
      arith,
      contains-remove symbol k m.active_redis_sub,
      has-delete symbol k m.coin_subscribers,
      v.watched k,
    );
    populated = λ k. ground (arith, lookup-delete symbol k m.coin_subscribers, v.populated k);
  }
  unfollow_coin-InStep m user symbol (w ∷ ws) old v = record {
    synced = λ k. ground (arith, v.synced k);
    watched = λ k h. ground (arith, has-insert symbol k (w ∷ ws) m.coin_subscribers, v.watched k);
    populated =
        λ k. ground (arith, lookup-insert symbol k (w ∷ ws) m.coin_subscribers, v.populated k);
  }

  unfollow_from-InStep :
      (ks : List Text) (m : Manager D) (user : Uuid)
      → InStep D m
      → InStep D (unfollow_from D ks m user)
  unfolding unfollow_from has
  unfollow_from-InStep [] m user v = v
  unfollow_from-InStep (symbol ∷ ks) m user v =
      elim (Option-cases (lookup symbol m.coin_subscribers)) [
        | inl e ↦ rw (e, unfollow_from) (unfollow_from-InStep ks m user v)
        | inr (users, e) ↦
            rw (e, unfollow_from)
              (unfollow_from-InStep ks (unfollow_coin D m user symbol (remove user users)) user
                (unfollow_coin-InStep m user symbol (remove user users) (ground arith) v))
      ]

  unfollow_coin-clients :
      (m : Manager D) (user : Uuid) (symbol : Text) (users : List Uuid)
      → (unfollow_coin D m user symbol users).clients ≡ m.clients
  unfolding unfollow_coin drop_coin
  unfollow_coin-clients m user symbol [] = refl
  unfollow_coin-clients m user symbol (w ∷ ws) = refl

  pub unfollow_from-clients :
      (ks : List Text) (m : Manager D) (user : Uuid)
      → (unfollow_from D ks m user).clients ≡ m.clients
  unfolding unfollow_from
  unfollow_from-clients [] m user = refl
  unfollow_from-clients (symbol ∷ ks) m user =
      elim (Option-cases (lookup symbol m.coin_subscribers)) [
        | inl e ↦ rw (e, unfollow_from) (unfollow_from-clients ks m user)
        | inr (users, e) ↦
            rw (e, unfollow_from)
              (ground (
                arith,
                unfollow_from-clients ks (unfollow_coin D m user symbol (remove user users)) user,
                unfollow_coin-clients m user symbol (remove user users),
              ))
      ]

  leave-Inv :
      (m : Manager D) (user : Uuid)
      → Inv D m
      → Inv D (unfollow_all_coins D (record m { clients = delete user m.clients }) user)
  unfolding unfollow_all_coins subscribers_of
  leave-Inv m user v =
      let left = record m { clients = delete user m.clients } in
      record {
        in_step = unfollow_from-InStep (keys m.coin_subscribers) left user (record {
          synced = v.in_step.synced;
          watched = v.in_step.watched;
          populated = v.in_step.populated;
        });
        online = λ k u h. ground (
          arith,
          watches-unfollow_all_coins D left user k u,
          unfollow_from-clients (keys m.coin_subscribers) left user,
          has-delete user u m.clients,
          v.online k u,
          eq_iff user u,
        );
      }

  pub unregister_client-Inv :
      (m : Manager D) (ref : ℕ) → Inv D m → Inv D (unregister_client D m ref)
  unfolding unregister_client
  unregister_client-Inv m ref v = elim (Option-cases (lookup ref m.heap)) [
    | inl e ↦ rw (e, unregister_client) v
    | inr (c, e) ↦
        rw (e, unregister_client)
          (if_cases (Inv D) (has c.user_id m.clients) (λ _. leave-Inv m c.user_id v) (λ _. v))
  ]
