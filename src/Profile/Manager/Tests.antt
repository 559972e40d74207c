-- ===== src/Profile/Manager/Tests.antt =====
-- The manager on two connections of one user and one of another.
use crypto_asset_tracker_mic.Base.{
  Bool, true, false, [], ◌∷◌, map, Option, none, some, ◌≡◌, ◌≢◌, refl, arith, Text, text_eq, nat_eq,
  lookup, insert, delete, modify, contains, add, remove, has, keys, codes,
}
use crypto_asset_tracker_mic.Base.Int.{pos}
use crypto_asset_tracker_mic.Profile.Models.{Uuid, PriceUpdate, PortfolioView}
use crypto_asset_tracker_mic.Profile.Whole.{whole}
use crypto_asset_tracker_mic.Profile.Subscriber.{subscribe, unsubscribe}
use crypto_asset_tracker_mic.Profile.Manager.{
  Client, Manager, start_stream, stop_stream, new_manager, subscribers_of, register_client,
  unregister_client, process_redis_message, registers, step, run, portfolio, follow_all,
  follow_coin, watch, activate, activated, close_old, close_client, enter, reset_prices,
  unfollow_all_coins, unfollow_from, unfollow_coin, drop_coin, deliver_all, deliver, offer,
  price_of, value_coins, add_view,
}
use crypto_asset_tracker_mic.Profile.Manager.Watchers.{watches}
use crypto_asset_tracker_mic.Profile.Manager.Prices.{
  row, sum_totals, told, portfolio_adds_up, price_reaches_watchers, price_reaches_only_watchers,
}
use crypto_asset_tracker_mic.Profile.Manager.Clients.{IsOpen, Admissible, step-IsOpen}
use crypto_asset_tracker_mic.Profile.Manager.History.{subscribed_only_if_watched}
use crypto_asset_tracker_mic.Profile.Manager.Reconnect.{reconnect_evicts_new_client}

-- What a run computes with.
unfoldable pub everything : Unit {0}
unfolding register_client unregister_client process_redis_message step run portfolio follow_all
    follow_coin watch activate activated close_old close_client enter reset_prices
    unfollow_all_coins unfollow_from unfollow_coin drop_coin deliver_all deliver offer price_of
    value_coins add_view subscribers_of lookup insert delete modify contains add remove has keys
    subscribe unsubscribe
everything = tt

abbrev pub btc : Text
btc = codes "btc"

abbrev pub ann : Uuid
ann = codes "ann"

abbrev pub connection : Uuid → Client whole
connection user = record {
  user_id = user;
  profile = record {
    id = user;
    name = user;
    coins = record { id = 1; symbol = btc; quantity = pos 3; user_id = user } ∷ [];
  };
  send = [];
  send_closed = false;
  conn_closed = false;
  prices = [];
}

abbrev pub fresh : Manager whole
fresh =
    new_manager whole
      ((1, connection ann) ∷ (2, connection ann) ∷ (3, connection (codes "bob")) ∷ [])

abbrev pub always : Text → Bool
always _ = true

-- A price of a coin: the first byte is the price, the rest the symbol.
abbrev pub parse : Text → Option (PriceUpdate whole)
parse [] = none
parse (p ∷ symbol) = some (record { symbol = symbol; price = pos p })

abbrev pub print : PortfolioView whole → Option Text
print v = some (whole.to_text v.total_value)

joined : Manager whole
unfolding everything
joined = register_client whole always fresh 1

ticked : Manager whole
unfolding everything
ticked = process_redis_message whole parse print joined (5 ∷ btc)

ticked_queue :
    lookup 1 ticked.heap
    ≡ some (record (connection ann) { send = (15 ∷ []) ∷ []; prices = (btc, pos 5) ∷ [] })
unfolding everything ticked joined
ticked_queue = refl

joined_state :
    (joined.subscriber.subscriptions ≡ btc ∷ [])
    × (joined.notices ≡ start_stream ann btc ∷ [])
    × (lookup ann joined.clients ≡ some 1)
unfolding everything joined
joined_state = (refl, refl, refl)

left_state :
    ((unregister_client whole joined 1).subscriber.subscriptions ≡ [])
    × ((unregister_client whole joined 1).notices ≡ start_stream ann btc ∷ stop_stream ann btc ∷ [])
unfolding everything joined
left_state = (refl, refl)

abbrev at_5 : Client whole
at_5 = record (connection ann) { prices = insert btc (pos 5) [] }

portfolio_adds_up_example :
    ((portfolio whole at_5).user_id ≡ ann)
    × ((portfolio whole at_5).user_name ≡ ann)
    × ((portfolio whole at_5).coins
        ≡ map (row whole (told whole btc (pos 5) [])) (connection ann).profile.coins)
    × ((portfolio whole at_5).total_value
        ≡ sum_totals whole
            (pos 0)
            (map (row whole (told whole btc (pos 5) [])) (connection ann).profile.coins))
portfolio_adds_up_example = portfolio_adds_up whole (connection ann) btc (pos 5)

price_reaches_watchers_example :
    (d : Client whole) × (lookup 1 (process_redis_message whole parse print joined (5 ∷ btc)).heap
      ≡ some d)
    × (lookup btc d.prices ≡ some (pos 5))
unfolding everything joined
price_reaches_watchers_example =
    price_reaches_watchers whole parse print joined (5 ∷ btc)
      (record { symbol = btc; price = pos 5 }) ann 1 (connection ann) refl refl refl refl

nobody_at_3 :
    (update : PriceUpdate whole) (u : Uuid)
    → parse (5 ∷ btc) ≡ some update
    → watches whole joined update.symbol u ≡ true
    → lookup u joined.clients ≢ some 3
unfolding everything joined
nobody_at_3 update u e w at = ground arith

price_reaches_only_watchers_example :
    lookup 3 (process_redis_message whole parse print joined (5 ∷ btc)).heap ≡ lookup 3 joined.heap
price_reaches_only_watchers_example =
    price_reaches_only_watchers whole parse print joined (5 ∷ btc) 3 nobody_at_3

fresh-IsOpen : IsOpen whole fresh
unfolding lookup
fresh-IsOpen = record { at = λ u ref c k h. absurd (cc) }

admitted : Admissible whole fresh (registers always 1)
unfolding lookup
admitted = (λ c h. ground arith, λ u h. cc)

step-IsOpen_example : IsOpen whole (step whole parse print fresh (registers always 1))
step-IsOpen_example = step-IsOpen whole parse print fresh (registers always 1) admitted fresh-IsOpen

subscribed_only_if_watched_example :
    (u : Uuid) × (watches whole (run whole parse print fresh (registers always 1 ∷ [])) btc u
      ≡ true)
    × (has u (run whole parse print fresh (registers always 1 ∷ [])).clients ≡ true)
unfolding everything
subscribed_only_if_watched_example =
    subscribed_only_if_watched whole parse print fresh.heap (registers always 1 ∷ []) btc refl

reconnect_evicts_new_client_example :
    (lookup ann (register_client whole always joined 2).clients ≡ some 2)
    × (lookup ann (unregister_client whole (register_client whole always joined 2) 1).clients
        ≡ none)
    × ((k : Text)
        → watches whole (unregister_client whole (register_client whole always joined 2) 1) k ann
          ≡ false)
unfolding everything joined
reconnect_evicts_new_client_example =
    reconnect_evicts_new_client whole always joined 1 2 (connection ann) (connection ann) refl refl
      refl
