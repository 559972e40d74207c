-- ===== src/Profile/Manager/Watchers.antt =====
-- Who watches which coin after the clients come and go.
use crypto_asset_tracker_mic.Base.{
  ℕ, Bool, true, false, ◌||◌, ◌&&◌, not, List, [], ◌∷◌, none, some, ◌≡◌, refl, arith, if◌then◌else◌,
  Text, text_eq, nat_eq, lookup, insert, delete, contains, add, remove, has, keys, ◌==◌, eq_iff,
  lookup-insert, lookup-delete, contains-add, contains-remove, contains-keys, Option-cases, inl,
  inr,
}
use crypto_asset_tracker_mic.Profile.Models.{Decimal, Uuid, Coin}
use crypto_asset_tracker_mic.Profile.Manager.{
  Client, Manager, subscribers_of, watch, activated, activate, follow_coin, follow_all, close_old,
  enter, register_client, drop_coin, unfollow_coin, unfollow_from, unfollow_all_coins,
  unregister_client,
}

module _ (D : Decimal) where
  abbrev pub watches : Manager D → Text → Uuid → Bool
  watches m k u = contains u (subscribers_of D m k)

  -- A profile lists a coin of this symbol.
  unfoldable pub lists : List (Coin D) → Text → Bool
  lists [] k = false
  lists (coin ∷ coins) k = coin.symbol == k || lists coins k

  pub subscribers_of-eq :
      (m n : Manager D) (k : Text)
      → m.coin_subscribers ≡ n.coin_subscribers
      → subscribers_of D m k ≡ subscribers_of D n k
  unfolding subscribers_of
  subscribers_of-eq m n k e = rw e

  pub follow_coin-subscribers :
      (a : Text → Bool) (m : Manager D) (user : Uuid) (symbol : Text)
      → (follow_coin D a m user symbol).coin_subscribers
        ≡ insert symbol (add user (subscribers_of D m symbol)) m.coin_subscribers
  unfolding follow_coin activate activated watch
  follow_coin-subscribers a m user symbol = ground arith

  pub watches-follow_coin :
      (a : Text → Bool) (m : Manager D) (user : Uuid) (symbol k : Text) (u : Uuid)
      → watches (follow_coin D a m user symbol) k u ≡ ((symbol == k && user == u) || watches m k u)
  unfolding subscribers_of
  watches-follow_coin a m user symbol k u = ground (
    arith,
    follow_coin-subscribers a m user symbol,
    lookup-insert symbol k (add user (subscribers_of D m symbol)) m.coin_subscribers,
    contains-add user u (subscribers_of D m symbol),
    eq_iff symbol k,
    eq_iff user u,
  )

  pub watches-follow_all :
      (a : Text → Bool) (m : Manager D) (user : Uuid) (coins : List (Coin D)) (k : Text) (u : Uuid)
      → watches (follow_all D a m user coins) k u ≡ ((lists coins k && user == u) || watches m k u)
  unfolding follow_all lists
  watches-follow_all a m user [] k u = refl
  watches-follow_all a m user (coin ∷ coins) k u = ground (
    arith,
    watches-follow_all a (follow_coin D a m user coin.symbol) user coins k u,
    watches-follow_coin a m user coin.symbol k u,
  )

  watches-unfollow_coin :
      (m : Manager D) (user : Uuid) (symbol : Text) (users : List Uuid) (k : Text) (u : Uuid)
      → watches (unfollow_coin D m user symbol users) k u
        ≡ (if symbol == k then contains u users else watches m k u)
  unfolding unfollow_coin drop_coin subscribers_of contains
  watches-unfollow_coin m user symbol [] k u =
      ground (arith, lookup-delete symbol k m.coin_subscribers)
  watches-unfollow_coin m user symbol (v ∷ vs) k u =
      ground (arith, lookup-insert symbol k (v ∷ vs) m.coin_subscribers)

  watches_found :
      (m : Manager D) (symbol : Text) (users : List Uuid)
      → lookup symbol m.coin_subscribers ≡ some users
      → subscribers_of D m symbol ≡ users
  unfolding subscribers_of
  watches_found m symbol users e = ground arith

  watches_missing :
      (m : Manager D) (symbol : Text) (u : Uuid)
      → lookup symbol m.coin_subscribers ≡ none
      → watches m symbol u ≡ false
  unfolding subscribers_of contains
  watches_missing m symbol u e = ground arith

  watches-unfollow_from :
      (ks : List Text) (m : Manager D) (user : Uuid) (k : Text) (u : Uuid)
      → watches (unfollow_from D ks m user) k u
        ≡ (not (contains k ks && user == u) && watches m k u)
  unfolding unfollow_from contains
  watches-unfollow_from [] m user k u = refl
  watches-unfollow_from (symbol ∷ ks) m user k u =
      elim (Option-cases (lookup symbol m.coin_subscribers)) [
        | inl e ↦
            rw (e, unfollow_from)
              (ground (
                arith,
                watches-unfollow_from ks m user k u,
                watches_missing m symbol u e,
                eq_iff symbol k,
              ))
        | inr (users, e) ↦
            rw (e, unfollow_from)
              (ground (
                arith,
                watches-unfollow_from ks (unfollow_coin D m user symbol (remove user users)) user k
                    u,
                watches-unfollow_coin m user symbol (remove user users) k u,
                watches_found m symbol users e,
                contains-remove user u users,
                eq_iff symbol k,
                eq_iff user u,
              ))
      ]

  pub watches-unfollow_all_coins :
      (m : Manager D) (user : Uuid) (k : Text) (u : Uuid)
      → watches (unfollow_all_coins D m user) k u ≡ (not (user == u) && watches m k u)
  unfolding unfollow_all_coins has
  watches-unfollow_all_coins m user k u = ground (
    arith,
    watches-unfollow_from (keys m.coin_subscribers) m user k u,
    contains-keys k m.coin_subscribers,
    watches_missing m k u,
  )

  pub close_old-subscribers :
      (m : Manager D) (user : Uuid) → (close_old D m user).coin_subscribers ≡ m.coin_subscribers
  unfolding close_old
  close_old-subscribers m user = ground arith

  watches-enter :
      (m : Manager D) (ref : ℕ) (user : Uuid) (k : Text) (u : Uuid)
      → watches (enter D (close_old D m user) ref user) k u ≡ watches m k u
  unfolding enter subscribers_of
  watches-enter m ref user k u = ground (arith, close_old-subscribers m user)

-- Registering a client makes its user a watcher of exactly the coins of its profile, in addition to
-- what was watched before; nobody else gains or loses a coin.
pub watches-register_client :
    (D : Decimal) (a : Text → Bool) (m : Manager D) (ref : ℕ) (c : Client D) (k : Text) (u : Uuid)
    → lookup ref m.heap ≡ some c
    → watches D (register_client D a m ref) k u
      ≡ ((lists D c.profile.coins k && c.user_id == u) || watches D m k u)
unfolding register_client
watches-register_client D a m ref c k u e =
    rw (e, register_client)
      (ground (
        arith,
        watches-follow_all D a (enter D (close_old D m c.user_id) ref c.user_id) c.user_id
            c.profile.coins k u,
        watches-enter D m ref c.user_id k u,
      ))

-- Unregistering a client whose user is registered makes the user watch nothing; every other user
-- watches what it watched before.
pub watches-unregister_client :
    (D : Decimal) (m : Manager D) (ref : ℕ) (c : Client D) (k : Text) (u : Uuid)
    → lookup ref m.heap ≡ some c
    → has c.user_id m.clients ≡ true
    → watches D (unregister_client D m ref) k u ≡ (not (c.user_id == u) && watches D m k u)
unfolding unregister_client subscribers_of
watches-unregister_client D m ref c k u e h =
    rw (e, unregister_client)
      (rw h (
        watches-unfollow_all_coins D (record m { clients = delete c.user_id m.clients }) c.user_id k
          u))
