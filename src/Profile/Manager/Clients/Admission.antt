-- ===== src/Profile/Manager/Clients/Admission.antt =====
-- Whether the registered clients can be sent to, over registration and its end.
use crypto_asset_tracker_mic.Base.{
  ℕ, ◌≤◌, Bool, false, List, [], ◌∷◌, none, some, ◌≡◌, ◌≢◌, refl, sym, arith, if◌then◌else◌, Text,
  text_eq, nat_eq, lookup, delete, ◌==◌, eq_refl, eq_iff, keys, Option-cases, Bool-cases, if_cases,
  ◌∙◌, inl, inr, length, lookup-insert, lookup-delete, lookup-modify, has, remove,
}
use mathlib.Core.Option
use crypto_asset_tracker_mic.Profile.Models.{Decimal, Uuid, Coin}
use crypto_asset_tracker_mic.Profile.Manager.{
  Client, Manager, watch, activated, activate, follow_coin, follow_all, close_client, close_old,
  reset_prices, enter, register_client, drop_coin, unfollow_coin, unfollow_from, unfollow_all_coins,
  unregister_client, send_cap,
}
use crypto_asset_tracker_mic.Profile.Manager.Channels.{unfollow_from-clients}

module _ (D : Decimal) where
  -- A registered client can be sent to: its channel is open and within its capacity, and it is
  -- registered under its own user.
  pub record IsOpen (m : Manager D) : Type 0 where
    pub at :
        (u : Uuid) (ref : ℕ) (c : Client D)
        → lookup u m.clients ≡ some ref
        → lookup ref m.heap ≡ some c
        → (c.send_closed ≡ false) × (c.user_id ≡ u) × (length c.send ≤ send_cap)

  follow_coin-heap :
      (a : Text → Bool) (m : Manager D) (user : Uuid) (symbol : Text)
      → ((follow_coin D a m user symbol).heap ≡ m.heap)
        × ((follow_coin D a m user symbol).clients ≡ m.clients)
  unfolding follow_coin activate activated watch
  follow_coin-heap a m user symbol = ground arith

  pub follow_all-heap :
      (a : Text → Bool) (m : Manager D) (user : Uuid) (coins : List (Coin D))
      → ((follow_all D a m user coins).heap ≡ m.heap)
        × ((follow_all D a m user coins).clients ≡ m.clients)
  unfolding follow_all
  follow_all-heap a m user [] = (refl, refl)
  follow_all-heap a m user (coin ∷ coins) = ground (
    arith,
    follow_all-heap a (follow_coin D a m user coin.symbol) user coins,
    follow_coin-heap a m user coin.symbol,
  )

  IsOpen-transfer :
      (m n : Manager D) → n.heap ≡ m.heap → n.clients ≡ m.clients → IsOpen m → IsOpen n
  IsOpen-transfer m n eh ec v = record {
    at = λ u ref c k h. v.at u ref c (ground arith) (ground arith);
  }

  -- Closing the old client touches no other pointer.
  close_old-other :
      (m : Manager D) (user : Uuid) (r : ℕ)
      → lookup user m.clients ≢ some r
      → lookup r (close_old D m user).heap ≡ lookup r m.heap
  unfolding close_old
  close_old-other m user r other = elim (Option-cases (lookup user m.clients)) [
    | inl e ↦ rw (e, close_old)
    | inr (old, e) ↦
        rw (e, close_old)
          (ground (arith, lookup-modify old r (close_client D) m.heap, eq_iff old r))
  ]

  close_old-missing :
      (m : Manager D) (user : Uuid) (r : ℕ)
      → lookup r m.heap ≡ none
      → lookup r (close_old D m user).heap ≡ none
  unfolding close_old
  close_old-missing m user r gone = elim (Option-cases (lookup user m.clients)) [
    | inl e ↦ rw (e, close_old) gone
    | inr (old, e) ↦ rw (e, close_old) (ground (arith, lookup-modify old r (close_client D) m.heap))
  ]

  close_old-clients : (m : Manager D) (user : Uuid) → (close_old D m user).clients ≡ m.clients
  unfolding close_old
  close_old-clients m user = ground arith

  pub enter-at :
      (m : Manager D) (ref : ℕ) (user : Uuid) (u : Uuid) (r : ℕ)
      → (lookup u (enter D m ref user).clients
          ≡ (if user == u then some ref else lookup u m.clients))
        × (lookup r (enter D m ref user).heap
            ≡ (if ref == r then Option.map (reset_prices D) (lookup r m.heap) else lookup r m.heap))
  unfolding enter
  enter-at m ref user u r =
      (lookup-insert user u ref m.clients, lookup-modify ref r (reset_prices D) m.heap)

  -- Only the user's own registration can point to the old client.
  registered_once :
      (m : Manager D) (u user : Uuid) (r : ℕ) (y : Client D)
      → IsOpen m
      → lookup r m.heap ≡ some y
      → lookup u m.clients ≡ some r
      → user ≢ u
      → lookup user m.clients ≢ some r
  registered_once m u user r y v held at other same =
      other (sym (v.at user r y same held).1 ∙ (v.at u r y at held).1)

  -- A client whose pointer nobody is registered under takes the place of its user's old client.
  enter-IsOpen :
      (m : Manager D) (ref : ℕ) (c : Client D)
      → lookup ref m.heap ≡ some c
      → c.send_closed ≡ false
      → length c.send ≤ send_cap
      → ((u : Uuid) → lookup u m.clients ≢ some ref)
      → IsOpen m
      → IsOpen (enter D (close_old D m c.user_id) ref c.user_id)
  unfolding reset_prices
  enter-IsOpen m ref c held opened small fresh v = record {
    at = λ u r x k h.
        let shape = enter-at (close_old D m c.user_id) ref c.user_id u r in
        elim (Bool-cases (c.user_id == u)) [
          | inl own ↦ ground (
            arith,
            shape,
            eq_iff c.user_id u,
            eq_refl ref,
            eq_iff ref r,
            close_old-other m c.user_id ref (fresh c.user_id),
          )
          | inr other ↦ elim (Option-cases (lookup r m.heap)) [
            | inl gone ↦ absurd (ground (arith, shape, close_old-missing m c.user_id r gone))
            | inr (y, there) ↦
                let at : lookup u m.clients ≡ some r =
                  ground (arith, shape, close_old-clients m c.user_id) in
                let same : lookup r (close_old D m c.user_id).heap ≡ lookup r m.heap =
                  close_old-other m c.user_id r (
                    registered_once m u c.user_id r y v there at
                      (λ e. ground (arith, eq_iff c.user_id u))) in
                v.at u r x at (ground (arith, shape, same, fresh u, eq_iff ref r))
          ]
        ];
  }

  pub register_client-IsOpen :
      (a : Text → Bool) (m : Manager D) (ref : ℕ)
      → ((c : Client D)
          → lookup ref m.heap ≡ some c
          → (c.send_closed ≡ false) × (length c.send ≤ send_cap))
      → ((u : Uuid) → lookup u m.clients ≢ some ref)
      → IsOpen m
      → IsOpen (register_client D a m ref)
  unfolding register_client
  register_client-IsOpen a m ref new fresh v = elim (Option-cases (lookup ref m.heap)) [
    | inl e ↦ rw (e, register_client) v
    | inr (c, e) ↦
        let entered = enter D (close_old D m c.user_id) ref c.user_id in
        let same = follow_all-heap a entered c.user_id c.profile.coins in
        rw (e, register_client)
          (IsOpen-transfer entered (follow_all D a entered c.user_id c.profile.coins) same.0 same.1
            (enter-IsOpen m ref c e (new c e).0 (new c e).1 fresh v))
  ]

  unfollow_coin-heap :
      (m : Manager D) (user : Uuid) (symbol : Text) (users : List Uuid)
      → (unfollow_coin D m user symbol users).heap ≡ m.heap
  unfolding unfollow_coin drop_coin
  unfollow_coin-heap m user symbol [] = refl
  unfollow_coin-heap m user symbol (w ∷ ws) = refl

  pub unfollow_from-heap :
      (ks : List Text) (m : Manager D) (user : Uuid) → (unfollow_from D ks m user).heap ≡ m.heap
  unfolding unfollow_from
  unfollow_from-heap [] m user = refl
  unfollow_from-heap (symbol ∷ ks) m user = elim (Option-cases (lookup symbol m.coin_subscribers)) [
    | inl e ↦ rw (e, unfollow_from) (unfollow_from-heap ks m user)
    | inr (users, e) ↦
        rw (e, unfollow_from)
          (ground (
            arith,
            unfollow_from-heap ks (unfollow_coin D m user symbol (remove user users)) user,
            unfollow_coin-heap m user symbol (remove user users),
          ))
  ]

  leave-IsOpen :
      (m : Manager D) (user : Uuid)
      → IsOpen m
      → IsOpen (unfollow_all_coins D (record m { clients = delete user m.clients }) user)
  unfolding unfollow_all_coins
  leave-IsOpen m user v =
      let left = record m { clients = delete user m.clients } in
      record {
        at = λ u ref c k h.
            v.at u ref c
              (ground (
                arith,
                unfollow_from-clients D (keys m.coin_subscribers) left user,
                lookup-delete user u m.clients,
              ))
              (ground (arith, unfollow_from-heap (keys m.coin_subscribers) left user));
      }

  pub unregister_client-IsOpen :
      (m : Manager D) (ref : ℕ) → IsOpen m → IsOpen (unregister_client D m ref)
  unfolding unregister_client
  unregister_client-IsOpen m ref v = elim (Option-cases (lookup ref m.heap)) [
    | inl e ↦ rw (e, unregister_client) v
    | inr (c, e) ↦
        rw (e, unregister_client)
          (if_cases IsOpen (has c.user_id m.clients) (λ _. leave-IsOpen m c.user_id v) (λ _. v))
  ]
