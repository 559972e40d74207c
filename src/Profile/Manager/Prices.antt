-- ===== src/Profile/Manager/Prices.antt =====
-- What a price message does: the portfolio that is shown, and the clients that it reaches.
use crypto_asset_tracker_mic.Base.{
  ℕ, ◌≤◌, true, List, [], ◌∷◌, ◌++◌, map, append-nil, append_assoc, Option, none, some, ◌≡◌, ◌≢◌,
  ◌⊎◌, refl, sym, ap, ◌∙◌, arith, if◌then◌else◌, Text, text_eq, nat_eq, Dict, lookup, insert,
  modify, contains, ◌==◌, eq_refl, eq_iff, Option-cases, inl, inr, Bool-cases, length,
  length-append, lookup-insert, lookup-modify,
}
use crypto_asset_tracker_mic.Profile.Models.{
  Decimal, Uuid, Coin, PriceUpdate, CoinView, PortfolioView,
}
use crypto_asset_tracker_mic.Profile.Manager.{
  Client, Manager, price_of, add_view, value_coins, portfolio, offer, deliver, deliver_all,
  process_redis_message, send_cap, subscribers_of,
}
use crypto_asset_tracker_mic.Profile.Manager.Watchers.{watches}

module _ (D : Decimal) where
  open D use {Number, zero, mul}

  -- The row of a coin when every symbol has a price.
  abbrev pub row : (Text → Number) → Coin D → CoinView D
  row price coin = record {
    symbol = coin.symbol;
    quantity = coin.quantity;
    price = price coin.symbol;
    total = mul coin.quantity (price coin.symbol);
  }

  -- The price that a client was told, and zero while it was told none.
  abbrev pub or_zero : Option Number → Number
  or_zero none = zero
  or_zero (some p) = p

  -- The prices of a client after it was told the price `p` of the symbol `k`.
  abbrev pub told : Text → Number → Dict Text Number → Text → Number
  told k p prices symbol = if k == symbol then p else or_zero (lookup symbol prices)

  -- The totals of rows, summed in their order.
  unfoldable pub sum_totals : Number → List (CoinView D) → Number
  sum_totals acc [] = acc
  sum_totals acc (v ∷ vs) = sum_totals (D.add acc v.total) vs

  value_coins-rows :
      (prices : Dict Text Number) (v : PortfolioView D) (coins : List (Coin D))
      → (value_coins D prices v coins).coins ≡ v.coins ++ map (row (price_of D prices)) coins
  unfolding value_coins add_view
  value_coins-rows prices v [] = sym (append-nil v.coins)
  value_coins-rows prices v (coin ∷ coins) =
      value_coins-rows prices (add_view D prices v coin) coins
      ∙ append_assoc v.coins (row (price_of D prices) coin ∷ [])
          (map (row (price_of D prices)) coins)

  value_coins-total :
      (prices : Dict Text Number) (v : PortfolioView D) (coins : List (Coin D))
      → (value_coins D prices v coins).total_value
        ≡ sum_totals v.total_value (map (row (price_of D prices)) coins)
  unfolding value_coins add_view sum_totals
  value_coins-total prices v [] = refl
  value_coins-total prices v (coin ∷ coins) =
      value_coins-total prices (add_view D prices v coin) coins

  value_coins-user :
      (prices : Dict Text Number) (v : PortfolioView D) (coins : List (Coin D))
      → ((value_coins D prices v coins).user_id ≡ v.user_id)
        × ((value_coins D prices v coins).user_name ≡ v.user_name)
  unfolding value_coins add_view
  value_coins-user prices v [] = (refl, refl)
  value_coins-user prices v (coin ∷ coins) =
      value_coins-user prices (add_view D prices v coin) coins

  price_of-insert :
      (k : Text) (p : Number) (prices : Dict Text Number) (symbol : Text)
      → price_of D (insert k p prices) symbol ≡ told k p prices symbol
  unfolding price_of
  price_of-insert k p prices symbol = elim (Option-cases (lookup symbol prices)) [
    | inl e ↦ ground (arith, e, lookup-insert k symbol p prices)
    | inr (q, e) ↦ ground (arith, e, lookup-insert k symbol p prices)
  ]

  map-row :
      (f g : Text → Number)
      → ((symbol : Text) → f symbol ≡ g symbol)
      → (coins : List (Coin D)) → map (row f) coins ≡ map (row g) coins
  map-row f g h [] = refl
  map-row f g h (coin ∷ coins) = ground (arith, h coin.symbol, map-row f g h coins)

-- The portfolio that a client is sent after it was told the price of a symbol names its user and has
-- one row for each coin of the profile, in order: at the new price if the coin has this symbol, else at
-- the price that it was told before, or zero if none; the value shown is the sum of the rows' totals.
pub portfolio_adds_up :
    (D : Decimal) (c : Client D) (k : Text) (p : D.Number)
    → ((portfolio D (record c { prices = insert k p c.prices })).user_id ≡ c.user_id)
      × ((portfolio D (record c { prices = insert k p c.prices })).user_name ≡ c.profile.name)
      × ((portfolio D (record c { prices = insert k p c.prices })).coins
          ≡ map (row D (told D k p c.prices)) c.profile.coins)
      × ((portfolio D (record c { prices = insert k p c.prices })).total_value
          ≡ sum_totals D D.zero (map (row D (told D k p c.prices)) c.profile.coins))
unfolding portfolio
portfolio_adds_up D c k p =
    let start : PortfolioView D = record {
      user_id = c.user_id;
      user_name = c.profile.name;
      total_value = D.zero;
      coins = [];
    } in
    let prices = insert k p c.prices in
    let priced =
      map-row D (price_of D prices) (told D k p c.prices) (price_of-insert D k p c.prices)
        c.profile.coins in
    let names = value_coins-user D prices start c.profile.coins in
    (
      names.0,
      names.1,
      value_coins-rows D prices start c.profile.coins ∙ priced,
      value_coins-total D prices start c.profile.coins ∙ ap (sum_totals D D.zero) priced,
    )

-- A send touches only the queue, and never overfills it.
offer-queue :
    (D : Decimal) (c : Client D) (o : Option Text)
    → offer D c o ≡ record c { send = (offer D c o).send }
unfolding offer
offer-queue D c none = refl
offer-queue D c (some bytes) = ground arith

offer-bounded :
    (D : Decimal) (c : Client D) (o : Option Text)
    → length c.send ≤ send_cap
    → length (offer D c o).send ≤ send_cap
unfolding offer
offer-bounded D c none h = h
offer-bounded D c (some bytes) h = ground (arith, length-append c.send (bytes ∷ []))

module _ (D : Decimal) (marshal : PortfolioView D → Option Text) (update : PriceUpdate D) where
  -- A delivery records the price and changes nothing else but the queue.
  pub deliver-client :
      (c : Client D)
      → deliver D marshal update c ≡ record c {
        send = (deliver D marshal update c).send;
        prices = insert update.symbol update.price c.prices;
      }
  unfolding deliver
  deliver-client c =
      let priced : Client D = record c { prices = insert update.symbol update.price c.prices } in
      offer-queue D priced (marshal (portfolio D priced))

  pub deliver-bounded :
      (c : Client D)
      → length c.send ≤ send_cap
      → length (deliver D marshal update c).send ≤ send_cap
  unfolding deliver
  deliver-bounded c h =
      let priced : Client D = record c { prices = insert update.symbol update.price c.prices } in
      offer-bounded D priced (marshal (portfolio D priced)) h

  -- The client behind a pointer that no listed user is registered under is left alone.
  deliver_all-other :
      (m : Manager D) (users : List Uuid) (ref : ℕ)
      → ((u : Uuid) → contains u users ≡ true → lookup u m.clients ≢ some ref)
      → lookup ref (deliver_all D marshal update m users).heap ≡ lookup ref m.heap
  unfolding deliver_all contains
  deliver_all-other m [] ref h = refl
  deliver_all-other m (user ∷ users) ref h = elim (Option-cases (lookup user m.clients)) [
    | inl e ↦
        rw (e, deliver_all)
          (deliver_all-other m users ref (λ u k. h u (ground (arith, eq_iff user u))))
    | inr (r, e) ↦
        let next = record m { heap = modify r (deliver D marshal update) m.heap } in
        rw (e, deliver_all)
          (ground (
            arith,
            deliver_all-other next users ref (λ u k. h u (ground (arith, eq_iff user u))),
            lookup-modify r ref (deliver D marshal update) m.heap,
            h user (ground (arith, eq_refl user)),
            eq_iff r ref,
          ))
  ]

  deliver-priced :
      (c : Client D) → lookup update.symbol (deliver D marshal update c).prices ≡ some update.price
  deliver-priced c = ground (
    arith,
    ap (λ (d : Client D). d.prices) (deliver-client c),
    lookup-insert update.symbol update.symbol update.price c.prices,
    eq_refl update.symbol,
  )

  -- The client has the price already, or a listed user is registered under its pointer.
  abbrev Reached : Manager D → List Uuid → ℕ → Client D → Type 0
  Reached m users ref c =
      (lookup update.symbol c.prices ≡ some update.price)
      ⊎ ((u : Uuid) × (contains u users ≡ true) × (lookup u m.clients ≡ some ref))

  -- A listed user who is not registered under the pointer can be passed over.
  Reached-tail :
      (m : Manager D) (user : Uuid) (users : List Uuid) (ref : ℕ) (c : Client D)
      → lookup user m.clients ≢ some ref
      → Reached m (user ∷ users) ref c
      → Reached m users ref c
  unfolding contains
  Reached-tail m user users ref c miss (inl priced) = inl priced
  Reached-tail m user users ref c miss (inr (u, listed, at)) =
      inr (u, ground (arith, eq_iff user u), at)

  deliver_all-priced :
      (users : List Uuid) (m : Manager D) (ref : ℕ) (c : Client D)
      → lookup ref m.heap ≡ some c
      → Reached m users ref c
      → (d : Client D) × (lookup ref (deliver_all D marshal update m users).heap ≡ some d)
        × (lookup update.symbol d.prices ≡ some update.price)
  unfolding deliver_all contains
  deliver_all-priced [] m ref c at (inl priced) = (c, at, priced)
  deliver_all-priced [] m ref c at (inr (u, listed, _)) = absurd (ground arith)
  deliver_all-priced (user ∷ users) m ref c at h = elim (Option-cases (lookup user m.clients)) [
    | inl e ↦
        rw (e, deliver_all)
          (deliver_all-priced users m ref c at
            (Reached-tail m user users ref c (λ k. ground arith) h))
    | inr (r, e) ↦
        let next = record m { heap = modify r (deliver D marshal update) m.heap } in
        elim (Bool-cases (r == ref)) [
          | inl hit ↦
              rw (e, deliver_all)
                (deliver_all-priced users next ref (deliver D marshal update c)
                  (ground (arith, lookup-modify r ref (deliver D marshal update) m.heap))
                  (inl (deliver-priced c)))
          | inr miss ↦
              rw (e, deliver_all)
                (deliver_all-priced users next ref c
                  (ground (arith, lookup-modify r ref (deliver D marshal update) m.heap))
                  (Reached-tail m user users ref c (λ k. ground (arith, eq_iff r ref)) h))
        ]
  ]

-- A price message reaches every registered client whose user watches the symbol: afterwards the
-- client's table of prices has the new price of the symbol.
pub price_reaches_watchers :
    (D : Decimal) (unmarshal : Text → Option (PriceUpdate D))
    (marshal : PortfolioView D → Option Text) (m : Manager D) (payload : Text)
    (update : PriceUpdate D) (user : Uuid) (ref : ℕ) (c : Client D)
    → unmarshal payload ≡ some update
    → watches D m update.symbol user ≡ true
    → lookup user m.clients ≡ some ref
    → lookup ref m.heap ≡ some c
    → (d : Client D) × (lookup ref (process_redis_message D unmarshal marshal m payload).heap
        ≡ some d)
      × (lookup update.symbol d.prices ≡ some update.price)
unfolding process_redis_message subscribers_of contains
price_reaches_watchers D unmarshal marshal m payload update user ref c ok watching at held =
    elim (Option-cases (lookup update.symbol m.coin_subscribers)) [
      | inl e ↦ absurd (ground arith)
      | inr (users, e) ↦
          rw (ok, process_redis_message)
            (rw e (
              deliver_all-priced D marshal update users m ref c held
                (inr (user, ground arith, at))))
    ]

-- A price message leaves every client alone that is not registered for a user who watches the
-- symbol, and so does a message that does not parse.
pub price_reaches_only_watchers :
    (D : Decimal) (unmarshal : Text → Option (PriceUpdate D))
    (marshal : PortfolioView D → Option Text) (m : Manager D) (payload : Text) (ref : ℕ)
    → ((update : PriceUpdate D) (u : Uuid)
        → unmarshal payload ≡ some update
        → watches D m update.symbol u ≡ true
        → lookup u m.clients ≢ some ref)
    → lookup ref (process_redis_message D unmarshal marshal m payload).heap ≡ lookup ref m.heap
unfolding process_redis_message subscribers_of
price_reaches_only_watchers D unmarshal marshal m payload ref h =
    elim (Option-cases (unmarshal payload)) [
      | inl e ↦ rw (e, process_redis_message)
      | inr (update, e) ↦ elim (Option-cases (lookup update.symbol m.coin_subscribers)) [
        | inl e' ↦ rw (e, process_redis_message) (rw e')
        | inr (users, e') ↦
            rw (e, process_redis_message)
              (rw e' (
                deliver_all-other D marshal update m users ref
                  (λ u k. h update u e (ground arith))))
      ]
    ]
