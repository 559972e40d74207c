-- ===== src/Profile/Manager.antt =====
-- Profile/internal/websocket/manager.go: the clients, who watches which coin, the Redis channels, and
-- what the Aggregator is told. Clients are shared by pointer: `heap` holds them, `clients` their
-- pointers. Calls hold the mutex, so each is one step. JSON and the decimals are parameters; the
-- requests to the Aggregator are recorded in the order in which they are launched.
pub mod Watchers
pub mod Channels
pub mod Clients
pub mod Prices
pub mod History
pub mod Reconnect
pub mod Tests
use crypto_asset_tracker_mic.Base.{
  ℕ, Bool, true, false, List, [], ◌∷◌, ◌++◌, Option, none, some, if◌then◌else◌, Text, text_eq,
  nat_eq, Dict, lookup, insert, delete, modify, contains, add, remove, length, ltb, has, keys,
}
use crypto_asset_tracker_mic.Profile.Models.{
  Decimal, Uuid, Coin, User, PriceUpdate, CoinView, PortfolioView,
}
use crypto_asset_tracker_mic.Profile.Subscriber.{Subscriber, subscribe, unsubscribe}

-- `notifyAggregator` with GET or DELETE.
pub data Notice : Type 0 where
  start_stream stop_stream : Uuid → Text → Notice

abbrev pub send_cap : ℕ
send_cap = 256

module _ (D : Decimal) where
  open D use {Number, zero, mul}

  pub record Client : Type 0 where
    pub user_id : Uuid
    pub profile : User D
    pub send : List Text
    pub send_closed : Bool
    pub conn_closed : Bool
    pub prices : Dict Text Number

  pub record Manager : Type 0 where
    pub heap : Dict ℕ Client
    pub clients : Dict Uuid ℕ
    pub subscriber : Subscriber
    pub active_redis_sub : List Text
    pub coin_subscribers : Dict Text (List Uuid)
    pub notices : List Notice

  abbrev pub new_manager : Dict ℕ Client → Manager
  new_manager heap = record {
    heap = heap;
    clients = [];
    subscriber = record { subscriptions = []; messages = [] };
    active_redis_sub = [];
    coin_subscribers = [];
    notices = [];
  }

  unfoldable pub subscribers_of : Manager → Text → List Uuid
  unfolding lookup
  subscribers_of m symbol = elim (lookup symbol m.coin_subscribers) [
    | none ↦ []
    | some users ↦ users
  ]

  unfoldable pub watch : Manager → Uuid → Text → Manager
  watch m user symbol = record m {
    coin_subscribers = insert symbol (add user (subscribers_of m symbol)) m.coin_subscribers;
  }

  -- The end of `followCoin`, after the call of `Subscribe`.
  unfoldable pub activated : Manager → Text → Subscriber × Bool → Manager
  activated m symbol (s, true) = record m {
    subscriber = s;
    active_redis_sub = add symbol m.active_redis_sub;
  }
  activated m symbol (s, false) = record m { subscriber = s }

  unfoldable pub activate : (Text → Bool) → Manager → Uuid → Text → Manager
  activate acknowledged m user symbol =
      activated (record m { notices = m.notices ++ start_stream user symbol ∷ [] }) symbol
        (subscribe (acknowledged symbol) symbol m.subscriber)

  unfoldable pub follow_coin : (Text → Bool) → Manager → Uuid → Text → Manager
  follow_coin acknowledged m user symbol =
      let watched = watch m user symbol in
      if contains symbol m.active_redis_sub
      then watched
      else activate acknowledged watched user symbol

  unfoldable pub follow_all : (Text → Bool) → Manager → Uuid → List (Coin D) → Manager
  follow_all acknowledged m user [] = m
  follow_all acknowledged m user (coin ∷ coins) =
      follow_all acknowledged (follow_coin acknowledged m user coin.symbol) user coins

  unfoldable pub close_client : Client → Client
  close_client c = record c { send_closed = true; conn_closed = true }

  unfoldable pub close_old : Manager → Uuid → Manager
  close_old m user = elim (lookup user m.clients) [
    | none ↦ m
    | some old ↦ record m { heap = modify old close_client m.heap }
  ]

  unfoldable pub reset_prices : Client → Client
  reset_prices c = record c { prices = [] }

  unfoldable pub enter : Manager → ℕ → Uuid → Manager
  enter m ref user = record m {
    heap = modify ref reset_prices m.heap;
    clients = insert user ref m.clients;
  }

  unfoldable pub register_client : (Text → Bool) → Manager → ℕ → Manager
  register_client acknowledged m ref = elim (lookup ref m.heap) [
    | none ↦ m
    | some c ↦
        follow_all acknowledged (enter (close_old m c.user_id) ref c.user_id) c.user_id
          c.profile.coins
  ]

  -- One round of the loop of `unfollowAllCoins`, at an entry of `coinSubscribers`.
  unfoldable pub drop_coin : Manager → Uuid → Text → Manager
  drop_coin m user symbol = record m {
    subscriber = unsubscribe symbol m.subscriber;
    active_redis_sub = remove symbol m.active_redis_sub;
    coin_subscribers = delete symbol m.coin_subscribers;
    notices = m.notices ++ stop_stream user symbol ∷ [];
  }

  unfoldable pub unfollow_coin : Manager → Uuid → Text → List Uuid → Manager
  unfollow_coin m user symbol [] = drop_coin m user symbol
  unfollow_coin m user symbol (u ∷ us) = record m {
    coin_subscribers = insert symbol (u ∷ us) m.coin_subscribers;
  }

  -- `range` over the map: an entry is read when its turn comes.
  unfoldable pub unfollow_from : List Text → Manager → Uuid → Manager
  unfollow_from [] m user = m
  unfollow_from (symbol ∷ rest) m user =
      unfollow_from rest
        (elim (lookup symbol m.coin_subscribers) [
          | none ↦ m
          | some users ↦ unfollow_coin m user symbol (remove user users)
        ])
        user

  unfoldable pub unfollow_all_coins : Manager → Uuid → Manager
  unfollow_all_coins m user = unfollow_from (keys m.coin_subscribers) m user

  unfoldable pub unregister_client : Manager → ℕ → Manager
  unregister_client m ref = elim (lookup ref m.heap) [
    | none ↦ m
    | some c ↦
        if has c.user_id m.clients
        then unfollow_all_coins (record m { clients = delete c.user_id m.clients }) c.user_id
        else m
  ]

  -- The loop that values the coins of a profile.
  unfoldable pub price_of : Dict Text Number → Text → Number
  price_of prices symbol = elim (lookup symbol prices) [ none ↦ zero | some p ↦ p ]

  unfoldable pub add_view : Dict Text Number → PortfolioView D → Coin D → PortfolioView D
  add_view prices v coin =
      let price = price_of prices coin.symbol in
      let total = mul coin.quantity price in
      record v {
        total_value = D.add v.total_value total;
        coins =
            v.coins
            ++ record {
              symbol = coin.symbol;
              quantity = coin.quantity;
              price = price;
              total = total;
            }
              ∷ [];
      }

  unfoldable pub value_coins : Dict Text Number → PortfolioView D → List (Coin D) → PortfolioView D
  value_coins prices v [] = v
  value_coins prices v (coin ∷ coins) = value_coins prices (add_view prices v coin) coins

  unfoldable pub portfolio : Client → PortfolioView D
  portfolio c =
      value_coins c.prices
        (record { user_id = c.user_id; user_name = c.profile.name; total_value = zero; coins = [] })
        c.profile.coins

  -- The non-blocking send: a full channel drops the message.
  unfoldable pub offer : Client → Option Text → Client
  offer c none = c
  offer c (some bytes) =
      if ltb (length c.send) send_cap then record c { send = c.send ++ bytes ∷ [] } else c

  unfoldable pub deliver : (PortfolioView D → Option Text) → PriceUpdate D → Client → Client
  deliver marshal update c =
      let priced = record c { prices = insert update.symbol update.price c.prices } in
      offer priced (marshal (portfolio priced))

  unfoldable pub deliver_all :
      (PortfolioView D → Option Text) → PriceUpdate D → Manager → List Uuid → Manager
  deliver_all marshal update m [] = m
  deliver_all marshal update m (user ∷ users) =
      deliver_all marshal update
        (elim (lookup user m.clients) [
          | none ↦ m
          | some ref ↦ record m { heap = modify ref (deliver marshal update) m.heap }
        ])
        users

  unfoldable pub process_redis_message :
      (Text → Option (PriceUpdate D)) → (PortfolioView D → Option Text) → Manager → Text → Manager
  process_redis_message unmarshal marshal m payload = elim (unmarshal payload) [
    | none ↦ m
    | some update ↦ elim (lookup update.symbol m.coin_subscribers) [
      | none ↦ m
      | some users ↦ deliver_all marshal update m users
    ]
  ]

  -- What the two loops of `Run` and `listenToRedis` serve, one at a time under the mutex.
  pub data Event : Type 0 where
    registers : (Text → Bool) → ℕ → Event
    unregisters : ℕ → Event
    message : Text → Event

  unfoldable pub step :
      (Text → Option (PriceUpdate D)) → (PortfolioView D → Option Text) → Manager → Event → Manager
  step unmarshal marshal m (registers acknowledged ref) = register_client acknowledged m ref
  step unmarshal marshal m (unregisters ref) = unregister_client m ref
  step unmarshal marshal m (message payload) = process_redis_message unmarshal marshal m payload

  unfoldable pub run :
      (Text → Option (PriceUpdate D))
      → (PortfolioView D → Option Text)
      → Manager
      → List Event
      → Manager
  run unmarshal marshal m [] = m
  run unmarshal marshal m (e ∷ es) = run unmarshal marshal (step unmarshal marshal m e) es
