-- ===== src/Profile/Manager/Clients.antt =====
-- The channels of the registered clients, and what a reconnection does.
mod Admission
pub use Admission.*
use crypto_asset_tracker_mic.Base.{
  ℕ, ◌≤◌, Bool, true, false, List, [], ◌∷◌, Option, none, some, ◌≡◌, ◌≢◌, refl, sym, ap, arith,
  if◌then◌else◌, Text, text_eq, nat_eq, lookup, delete, modify, ◌==◌, eq_refl, eq_iff, keys,
  Option-cases, Bool-cases, if_cases, ◌∙◌, inl, inr, length, lookup-insert, lookup-delete,
  lookup-modify, has, remove,
}
use mathlib.Core.Option
use crypto_asset_tracker_mic.Profile.Models.{Decimal, Uuid, Coin, PriceUpdate, PortfolioView}
use crypto_asset_tracker_mic.Profile.Manager.{
  Client, Manager, watch, activated, activate, follow_coin, follow_all, close_client, close_old,
  reset_prices, enter, register_client, drop_coin, unfollow_coin, unfollow_from, unfollow_all_coins,
  unregister_client, deliver, deliver_all, process_redis_message, send_cap, Event, registers,
  unregisters, message, step,
}
use crypto_asset_tracker_mic.Profile.Manager.Prices.{deliver-client, deliver-bounded}
use crypto_asset_tracker_mic.Profile.Manager.Channels.{unfollow_from-clients}

module _ (D : Decimal) (unmarshal : Text → Option (PriceUpdate D))
    (marshal : PortfolioView D → Option Text) where
  modify-IsOpen :
      (update : PriceUpdate D) (m : Manager D) (ref : ℕ)
      → IsOpen D m
      → IsOpen D (record m { heap = modify ref (deliver D marshal update) m.heap })
  modify-IsOpen update m ref v = record {
    at = λ u r x k h. elim (Option-cases (lookup r m.heap)) [
      | inl gone ↦ absurd (ground (arith, lookup-modify ref r (deliver D marshal update) m.heap))
      | inr (y, there) ↦ ground (
        arith,
        lookup-modify ref r (deliver D marshal update) m.heap,
        v.at u r y k there,
        ap (λ (d : Client D). d.send_closed) (deliver-client D marshal update y),
        ap (λ (d : Client D). d.user_id) (deliver-client D marshal update y),
        deliver-bounded D marshal update y,
      )
    ];
  }

  deliver_all-IsOpen :
      (update : PriceUpdate D) (m : Manager D) (users : List Uuid)
      → IsOpen D m
      → IsOpen D (deliver_all D marshal update m users)
  unfolding deliver_all
  deliver_all-IsOpen update m [] v = v
  deliver_all-IsOpen update m (user ∷ users) v = elim (Option-cases (lookup user m.clients)) [
    | inl e ↦ rw (e, deliver_all) (deliver_all-IsOpen update m users v)
    | inr (ref, e) ↦
        rw (e, deliver_all)
          (deliver_all-IsOpen update
            (record m { heap = modify ref (deliver D marshal update) m.heap }) users
            (modify-IsOpen update m ref v))
  ]

  process_redis_message-IsOpen :
      (m : Manager D) (payload : Text)
      → IsOpen D m
      → IsOpen D (process_redis_message D unmarshal marshal m payload)
  unfolding process_redis_message
  process_redis_message-IsOpen m payload v = elim (Option-cases (unmarshal payload)) [
    | inl e ↦ rw (e, process_redis_message) v
    | inr (update, e) ↦ elim (Option-cases (lookup update.symbol m.coin_subscribers)) [
      | inl e' ↦ rw (e, process_redis_message) (rw e' v)
      | inr (users, e') ↦
          rw (e, process_redis_message) (rw e' (deliver_all-IsOpen update m users v))
    ]
  ]

-- The client that an event registers is new: open, within its capacity, and not registered yet.
abbrev pub Admissible : (D : Decimal) → Manager D → Event D → Type 0
Admissible D m (registers a ref) =
    ((c : Client D)
      → lookup ref m.heap ≡ some c
      → (c.send_closed ≡ false) × (length c.send ≤ send_cap))
    × ((u : Uuid) → lookup u m.clients ≢ some ref)
Admissible D m (unregisters ref) = Unit
Admissible D m (message payload) = Unit

-- As long as only new clients are registered, every event keeps the registered clients open, within
-- the capacity of their queue, and under their own user: no price is ever sent on a closed channel.
pub step-IsOpen :
    (D : Decimal) (unmarshal : Text → Option (PriceUpdate D))
    (marshal : PortfolioView D → Option Text) (m : Manager D) (e : Event D)
    → Admissible D m e
    → IsOpen D m
    → IsOpen D (step D unmarshal marshal m e)
unfolding step
step-IsOpen D unmarshal marshal m (registers a ref) new v =
    register_client-IsOpen D a m ref new.0 new.1 v
step-IsOpen D unmarshal marshal m (unregisters ref) _ v = unregister_client-IsOpen D m ref v
step-IsOpen D unmarshal marshal m (message payload) _ v =
    process_redis_message-IsOpen D unmarshal marshal m payload v

module _ (D : Decimal) (m : Manager D) (ref : ℕ) (c : Client D)
    (held : lookup ref m.heap ≡ some c) where
  pub register_client-has :
      (a : Text → Bool) → has c.user_id (register_client D a m ref).clients ≡ true
  unfolding register_client has
  register_client-has a =
      rw (held, register_client)
        (ground (
          arith,
          follow_all-heap D a (enter D (close_old D m c.user_id) ref c.user_id) c.user_id
              c.profile.coins,
          enter-at D (close_old D m c.user_id) ref c.user_id c.user_id ref,
          eq_refl c.user_id,
        ))

  pub unregister_client-clients :
      has c.user_id m.clients ≡ true → lookup c.user_id (unregister_client D m ref).clients ≡ none
  unfolding unregister_client unfollow_all_coins
  unregister_client-clients here =
      rw (held, unregister_client)
        (rw here (
          ground (
            arith,
            unfollow_from-clients D (keys m.coin_subscribers)
                (record m { clients = delete c.user_id m.clients }) c.user_id,
            lookup-delete c.user_id c.user_id m.clients,
            eq_refl c.user_id,
          )))
