-- ===== src/Profile/Manager/Reconnect.antt =====
-- A user who opens a second connection: `registerClient` closes the first, whose `Reader` then ends and
-- unregisters.
use crypto_asset_tracker_mic.Base.{
  ℕ, Bool, true, false, Option, none, some, ◌≡◌, refl, arith, if◌then◌else◌, Text, text_eq, nat_eq,
  lookup, has, ◌==◌, eq_refl, eq_iff, Option-cases, inl, inr, lookup-modify,
}
use mathlib.Core.Option
use crypto_asset_tracker_mic.Profile.Models.{Decimal, Uuid}
use crypto_asset_tracker_mic.Profile.Manager.{
  Client, Manager, close_client, close_old, reset_prices, enter, register_client, unregister_client,
}
use crypto_asset_tracker_mic.Profile.Manager.Watchers.{watches, watches-unregister_client}
use crypto_asset_tracker_mic.Profile.Manager.Clients.{
  follow_all-heap, enter-at, register_client-has, unregister_client-clients,
}

module _ (D : Decimal) where
  -- The pointer still leads to a client of the same user.
  abbrev SameUser : Client D → Option (Client D) → Type 0
  SameUser x o = (y : Client D) × (o ≡ some y) × (y.user_id ≡ x.user_id)

  close_old-user :
      (m : Manager D) (user : Uuid) (r : ℕ) (x : Client D)
      → lookup r m.heap ≡ some x
      → SameUser x (lookup r (close_old D m user).heap)
  unfolding close_old close_client
  close_old-user m user r x held = elim (Option-cases (lookup user m.clients)) [
    | inl e ↦ rw (e, close_old) (x, held, refl)
    | inr (old, e) ↦ rw (e, close_old) (rw lookup-modify (closed (old == r)))
  ]
    where
      closed :
          (b : Bool)
          → SameUser x
              (if b then Option.map (close_client D) (lookup r m.heap) else lookup r m.heap)
      closed true = (close_client D x, rw held, refl)
      closed false = (x, held, refl)

  enter-user :
      (m : Manager D) (ref : ℕ) (user : Uuid) (r : ℕ) (x : Client D)
      → lookup r m.heap ≡ some x
      → SameUser x (lookup r (enter D m ref user).heap)
  unfolding enter reset_prices
  enter-user m ref user r x held = rw lookup-modify (entered (ref == r))
    where
      entered :
          (b : Bool)
          → SameUser x
              (if b then Option.map (reset_prices D) (lookup r m.heap) else lookup r m.heap)
      entered true = (reset_prices D x, rw held, refl)
      entered false = (x, held, refl)

  register_client-user :
      (a : Text → Bool) (m : Manager D) (ref r : ℕ) (c x : Client D)
      → lookup ref m.heap ≡ some c
      → lookup r m.heap ≡ some x
      → SameUser x (lookup r (register_client D a m ref).heap)
  unfolding register_client
  register_client-user a m ref r c x new held =
      let (y, at, same) = close_old-user m c.user_id r x held in
      let (z, at', same') = enter-user (close_old D m c.user_id) ref c.user_id r y at in
      rw (new, register_client)
        (
          z,
          ground (
            arith,
            follow_all-heap D a (enter D (close_old D m c.user_id) ref c.user_id) c.user_id
                c.profile.coins,
          ),
          ground arith,
        )

  register_client-at :
      (a : Text → Bool) (m : Manager D) (ref : ℕ) (c : Client D)
      → lookup ref m.heap ≡ some c
      → lookup c.user_id (register_client D a m ref).clients ≡ some ref
  unfolding register_client
  register_client-at a m ref c new =
      rw (new, register_client)
        (ground (
          arith,
          follow_all-heap D a (enter D (close_old D m c.user_id) ref c.user_id) c.user_id
              c.profile.coins,
          enter-at D (close_old D m c.user_id) ref c.user_id c.user_id ref,
          eq_refl c.user_id,
        ))

-- A user reconnects: the new client is registered, but when the old connection's reader unregisters
-- the old client, it is the new one that loses its registration and all its coins.
pub reconnect_evicts_new_client :
    (D : Decimal) (a : Text → Bool) (m : Manager D) (old new : ℕ) (c d : Client D)
    → lookup old m.heap ≡ some c
    → lookup new m.heap ≡ some d
    → c.user_id ≡ d.user_id
    → (lookup d.user_id (register_client D a m new).clients ≡ some new)
      × (lookup d.user_id (unregister_client D (register_client D a m new) old).clients ≡ none)
      × ((k : Text)
          → watches D (unregister_client D (register_client D a m new) old) k d.user_id ≡ false)
reconnect_evicts_new_client D a m old new c d at_old at_new same =
    let m' = register_client D a m new in
    let (x, at, own) = register_client-user D a m new old d c at_new at_old in
    let here : has x.user_id m'.clients ≡ true =
      ground (arith, register_client-has D m new d at_new a) in
    (
      register_client-at D a m new d at_new,
      ground (arith, unregister_client-clients D m' old x at here),
      λ k. ground (
        arith,
        watches-unregister_client D m' old x k d.user_id at here,
        eq_iff x.user_id d.user_id,
      ),
    )
