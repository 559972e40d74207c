-- ===== src/Aggregator/Converting/LatestPrices.antt =====
-- The prices that are kept and sent.
use crypto_asset_tracker_mic.Base.{
  Bool, true, false, List, [], ◌∷◌, ◌++◌, Option, some, ◌≡◌, refl, sym, arith, if◌then◌else◌, Text,
  text_eq, ◌==◌, to_lower, to_lower_idem, Dict, lookup, insert, lookup-insert, All, All-append,
}
use crypto_asset_tracker_mic.Aggregator.Models.{Numbers, SecondStat, price_float}
use crypto_asset_tracker_mic.Aggregator.Converting.{
  Stats, StatEvent, trade, tick, stopped, keep_price, send_prices, receive_second_stat,
}

module _ (N : Numbers) where
  open N use {Float}

  -- The price of the last trade of the symbol, whatever the case of its letters.
  abbrev pub last_price : Text → List (StatEvent N) → Option Float → Option Float
  last_price symbol [] before = before
  last_price symbol (stopped ∷ es) before = before
  last_price symbol (tick room ∷ es) before = last_price symbol es before
  last_price symbol (trade t ∷ es) before =
      last_price symbol es (if to_lower t.symbol == symbol then some (price_float N t) else before)

  abbrev LowerKeys : Dict Text Float → Type 0
  LowerKeys prices = All (λ (p : Text × Float). to_lower p.0 ≡ p.0) prices

  abbrev pub LowerSymbols : List (SecondStat N) → Type 0
  LowerSymbols stats = All (λ (x : SecondStat N). to_lower x.symbol ≡ x.symbol) stats

  insert-LowerKeys :
      (k : Text) (v : Float) (prices : Dict Text Float)
      → to_lower k ≡ k
      → LowerKeys prices
      → LowerKeys (insert k v prices)
  unfolding insert
  insert-LowerKeys k v [] low h = (low, tt)
  insert-LowerKeys k v ((j, w) ∷ prices) low h = ground (arith, insert-LowerKeys k v prices low h.1)

  send_prices-LowerSymbols :
      (prices : Dict Text Float) (room : List Bool)
      → LowerKeys prices
      → LowerSymbols (send_prices N prices room)
  unfolding send_prices
  send_prices-LowerSymbols [] room h = tt
  send_prices-LowerSymbols (p ∷ prices) [] h = tt
  send_prices-LowerSymbols (p ∷ prices) (true ∷ room) h =
      (h.0, send_prices-LowerSymbols prices room h.1)
  send_prices-LowerSymbols (p ∷ prices) (false ∷ room) h = send_prices-LowerSymbols prices room h.1

  run-LowerSymbols :
      (es : List (StatEvent N)) (s : Stats N)
      → LowerKeys s.latest_prices
      → LowerSymbols s.sent
      → LowerSymbols (receive_second_stat N es s).sent
  unfolding receive_second_stat keep_price
  run-LowerSymbols [] s keys sent = sent
  run-LowerSymbols (stopped ∷ es) s keys sent = sent
  run-LowerSymbols (trade t ∷ es) s keys sent =
      run-LowerSymbols es (record s { latest_prices = keep_price N t s.latest_prices })
        (insert-LowerKeys (to_lower t.symbol) (price_float N t) s.latest_prices
          (to_lower_idem t.symbol) keys)
        sent
  run-LowerSymbols (tick room ∷ es) s keys sent =
      run-LowerSymbols es (record s { sent = s.sent ++ send_prices N s.latest_prices room }) keys
        (All-append _ s.sent (send_prices N s.latest_prices room) sent
          (send_prices-LowerSymbols s.latest_prices room keys))

-- The price that is kept for a symbol is that of the last trade received whose symbol has those
-- letters in lower case, and what was kept before if there was none.
pub receive_second_stat-Latest :
    (N : Numbers) (es : List (StatEvent N)) (s : Stats N) (symbol : Text)
    → lookup symbol (receive_second_stat N es s).latest_prices
      ≡ last_price N symbol es (lookup symbol s.latest_prices)
unfolding receive_second_stat keep_price
receive_second_stat-Latest N [] s symbol = refl
receive_second_stat-Latest N (stopped ∷ es) s symbol = refl
receive_second_stat-Latest N (tick room ∷ es) s symbol = receive_second_stat-Latest N es _ symbol
receive_second_stat-Latest N (trade t ∷ es) s symbol =
    rw (sym (lookup-insert (to_lower t.symbol) symbol (price_float N t) s.latest_prices)) (
      receive_second_stat-Latest N es (record s { latest_prices = keep_price N t s.latest_prices })
        symbol)

-- Started without prices, the goroutine sends prices of symbols in lower case only, whatever the
-- trades, the ticks and the room in the channel.
pub receive_second_stat-LowerSymbols :
    (N : Numbers) (es : List (StatEvent N))
    → LowerSymbols N (receive_second_stat N es (record { latest_prices = []; sent = [] })).sent
receive_second_stat-LowerSymbols N es =
    run-LowerSymbols N es (record { latest_prices = []; sent = [] }) tt tt
