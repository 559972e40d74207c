-- ===== src/Aggregator/Converting.antt =====
-- Aggregator/gateway/converting/convertingAggTrade.go and convertingDailyStat.go, and the loop
-- `DistributeMessages` of receive_msgs.go. A goroutine is a fold over what its `select` receives.
pub mod LatestPrices
pub mod Routing
use crypto_asset_tracker_mic.Base.{
  ℕ, suc, Bool, true, false, List, [], ◌∷◌, ◌++◌, Option, none, some, if◌then◌else◌, nat_beq, Text,
  text_eq, to_lower, Dict, insert,
}
use crypto_asset_tracker_mic.Base.Int.{ℤ}
use crypto_asset_tracker_mic.Aggregator.Models.{
  Numbers, AggTrade, MiniTicker, SecondStat, DailyStat, KafkaMsg, price_float, close_price_float,
  open_price_float, high_price_float, low_price_float, change_in_price, change_in_percent,
}

-- What a loop's `select` gets: a message, that the channel is closed, or that the context ended.
pub data Incoming (A : Type 0) : Type 0 where
  message : A → Incoming A
  closed : Incoming A
  cancelled : Incoming A

-- The channels for trades and for day statistics, with what was sent on them.
pub record Routes : Type 0 where
  pub agg_trades : List Text
  pub mini_tickers : List Text

-- `msg[0] == byte`, for a message that is not empty.
abbrev pub begins : ℕ → Text → Bool
begins byte [] = false
begins byte (b ∷ bs) = nat_beq b byte

unfoldable pub route : Text → Routes → Routes
route msg r =
    let agg =
      if begins b'{' msg
      then record { agg_trades = r.agg_trades ++ msg ∷ []; mini_tickers = r.mini_tickers }
      else r in
    if begins b'[' msg
    then record { agg_trades = agg.agg_trades; mini_tickers = agg.mini_tickers ++ msg ∷ [] }
    else agg

unfoldable pub distribute_messages : List (Incoming Text) → Routes → Routes
distribute_messages [] r = r
distribute_messages (closed ∷ es) r = r
distribute_messages (cancelled ∷ es) r = r
distribute_messages (message msg ∷ es) r = distribute_messages es (route msg r)

module _ (N : Numbers) where
  open N use {Float}

  -- The goroutine that keeps the latest prices and sends them at every tick.
  pub record Stats : Type 0 where
    pub latest_prices : Dict Text Float
    pub sent : List (SecondStat N)

  -- A trade, a tick with what the channel says to each send (room or full), or an end.
  pub data StatEvent : Type 0 where
    trade : AggTrade → StatEvent
    tick : List Bool → StatEvent
    stopped : StatEvent

  unfoldable pub keep_price : AggTrade → Dict Text Float → Dict Text Float
  keep_price t prices = insert (to_lower t.symbol) (price_float N t) prices

  -- The sends of a tick: one per symbol, dropped when the channel is full; a missing answer is a full
  -- channel. An end of the context during a tick is such a tick and then `stopped`.
  unfoldable pub send_prices : Dict Text Float → List Bool → List (SecondStat N)
  send_prices [] room = []
  send_prices ((symbol, price) ∷ prices) [] = []
  send_prices ((symbol, price) ∷ prices) (free ∷ room) =
      let rest = send_prices prices room in
      if free then record { symbol = symbol; price = price } ∷ rest else rest

  unfoldable pub receive_second_stat : List StatEvent → Stats → Stats
  receive_second_stat [] s = s
  receive_second_stat (stopped ∷ es) s = s
  receive_second_stat (trade t ∷ es) s =
      receive_second_stat es (record s { latest_prices = keep_price t s.latest_prices })
  receive_second_stat (tick room ∷ es) s =
      receive_second_stat es (record s { sent = s.sent ++ send_prices s.latest_prices room })

  -- `ConvertRawToSS`: what is parsed goes to the goroutine, the rest is skipped.
  unfoldable pub convert_raw_to_ss : (Text → Option AggTrade) → List (Incoming Text) → List AggTrade
  convert_raw_to_ss unmarshal [] = []
  convert_raw_to_ss unmarshal (closed ∷ es) = []
  convert_raw_to_ss unmarshal (cancelled ∷ es) = []
  convert_raw_to_ss unmarshal (message msg ∷ es) =
      let rest = convert_raw_to_ss unmarshal es in
      elim (unmarshal msg) [ none ↦ rest | some t ↦ t ∷ rest ]

  pub record Envelope : Type 0 where
    pub msg : MiniTicker
    pub ingest_time : ℤ

  -- `ReceiveDailyStat`, one message: `now` is the time at which it is taken.
  unfoldable pub daily_stat : ℤ → Envelope → DailyStat N
  daily_stat now e = record {
    event_type = e.msg.event_type;
    event_time = e.msg.event_time;
    ingest_time = e.ingest_time;
    recv_time = now;
    symbol = e.msg.symbol;
    close_price = close_price_float N e.msg;
    open_price = open_price_float N e.msg;
    high_price = high_price_float N e.msg;
    low_price = low_price_float N e.msg;
  }

  -- Each entry takes the time anew: `clock i` is the i-th reading.
  abbrev pub envelopes : (ℕ → ℤ) → ℕ → List MiniTicker → List Envelope
  envelopes clock i [] = []
  envelopes clock i (m ∷ ms) =
      record { msg = m; ingest_time = clock i } ∷ envelopes clock (suc i) ms

  -- `ConvertRawToArrDS`: the entries of every array that is parsed, in order; each incoming message
  -- comes with the readings of the clock for its entries. An end of the context within an array is not
  -- modelled.
  unfoldable pub convert_raw_to_arr_ds :
      (Text → Option (List MiniTicker)) → List ((ℕ → ℤ) × Incoming Text) → List Envelope
  convert_raw_to_arr_ds unmarshal [] = []
  convert_raw_to_arr_ds unmarshal ((clock, closed) ∷ es) = []
  convert_raw_to_arr_ds unmarshal ((clock, cancelled) ∷ es) = []
  convert_raw_to_arr_ds unmarshal ((clock, message msg) ∷ es) =
      let rest = convert_raw_to_arr_ds unmarshal es in
      elim (unmarshal msg) [ none ↦ rest | some ms ↦ envelopes clock 0 ms ++ rest ]

  -- `ReceiveKafkaMsg`, one message: `fresh` is what `uuid.New` returns.
  unfoldable pub kafka_msg : Text → DailyStat N → KafkaMsg N
  kafka_msg fresh d = record {
    message_id = fresh;
    event_type = d.event_type;
    event_time = d.event_time;
    ingest_time = d.ingest_time;
    recv_time = d.recv_time;
    symbol = d.symbol;
    close_price = N.of_float d.close_price;
    open_price = N.of_float d.open_price;
    high_price = N.of_float d.high_price;
    low_price = N.of_float d.low_price;
    change_price = change_in_price N d;
    change_percent = change_in_percent N d;
  }

  unfoldable pub receive_kafka_msg : List (Text × Incoming (DailyStat N)) → List (KafkaMsg N)
  receive_kafka_msg [] = []
  receive_kafka_msg ((fresh, closed) ∷ es) = []
  receive_kafka_msg ((fresh, cancelled) ∷ es) = []
  receive_kafka_msg ((fresh, message d) ∷ es) = kafka_msg fresh d ∷ receive_kafka_msg es
