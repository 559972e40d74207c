-- ===== src/Aggregator/Tests.antt =====
-- Runs of the Aggregator's pipeline with whole numbers for prices.
use crypto_asset_tracker_mic.Base.{◌==◌, if◌then◌else◌, none, text_eq}
use crypto_asset_tracker_mic.Aggregator.Config.{load_kafka_config, load_redis_config}
use crypto_asset_tracker_mic.Aggregator.Getenv.{get_string, get_time}
use crypto_asset_tracker_mic.Base.{
  tally, ℕ, zero, suc, ◌+◌, Bool, true, false, ◌<◌, List, [], ◌∷◌, ◌++◌, Option, some, ◌≡◌, refl,
  arith, Text, text_eq, codes, to_lower, lookup, insert, split_at, length, All,
}
use crypto_asset_tracker_mic.Base.Int.{ℤ, pos}
use crypto_asset_tracker_mic.Aggregator.Models.{
  Numbers, AggTrade, SecondStat, DailyStat, KafkaMsg, price_float, close_price_float,
  open_price_float, high_price_float, low_price_float, change_in_price, change_in_percent,
}
use crypto_asset_tracker_mic.Aggregator.Converting.{
  message, closed, route, distribute_messages, Stats, StatEvent, trade, tick, keep_price,
  send_prices, receive_second_stat, convert_raw_to_ss, daily_stat, kafka_msg,
}
use crypto_asset_tracker_mic.Aggregator.Converting.LatestPrices.{receive_second_stat-Latest}
use crypto_asset_tracker_mic.Aggregator.Receiving.{
  Attempt, failed, succeeded, round, retry, create_client_conn,
}
use crypto_asset_tracker_mic.Aggregator.Receiving.Retries.{Decided, create_client_conn-Decided}
use crypto_asset_tracker_mic.Aggregator.Producer.{
  KafkaRecord, Producer, ProducerEvent, arrived, timer, records, write, send_to_kafka, append_msg,
  start,
}
use crypto_asset_tracker_mic.Aggregator.Producer.{closed as input_closed}
use crypto_asset_tracker_mic.Aggregator.Producer.Batches.{
  accepted, ends, handled, written, lost, start-Conserves, start-Bounded,
}
use crypto_asset_tracker_mic.Aggregator.Getenv.{get_slice, atoi, digits, get_int}
use crypto_asset_tracker_mic.Aggregator.Endpoints.{Published, save_second_stat, start_saver}
use crypto_asset_tracker_mic.Aggregator.Endpoints.Answers.{start_saver-LowerChannels}

everything : Unit {0}
unfolding price_float close_price_float open_price_float high_price_float low_price_float
    change_in_price change_in_percent route distribute_messages keep_price send_prices
    receive_second_stat convert_raw_to_ss daily_stat kafka_msg round retry create_client_conn
    records write send_to_kafka append_msg start split_at get_slice atoi digits get_int to_lower
    lookup insert save_second_stat start_saver
everything = tt

-- Numbers that stand in for the floating-point and decimal ones: a text's number is its length.
abbrev pub lengths : Numbers
lengths = record {
  Float = ℕ;
  float_zero = 0;
  minus_one = 1000;
  hundred = 100;
  parse_float = λ t. some (length t);
  Number = ℕ;
  of_float = λ x. x;
  sub = λ a b. a;
  div = λ a b. a;
  mul = λ a b. a;
}

abbrev btc_trade : Text → AggTrade
btc_trade price = record {
  event_type = codes "aggTrade";
  event_time = pos 1;
  symbol = codes "BTC";
  aggregate_trade_id = pos 1;
  price = price;
  quantity = codes "1";
  first_trade_id = pos 1;
  last_trade_id = pos 1;
  trade_time = pos 1;
  is_buyer = true;
  ignore = true;
}

abbrev events : List (StatEvent lengths)
events =
    trade (btc_trade (codes "11"))
    ∷ tick (true ∷ [])
    ∷ trade (btc_trade (codes "333"))
    ∷ tick (false ∷ [])
    ∷ []

abbrev no_stats : Stats lengths
no_stats = record { latest_prices = []; sent = [] }

sent_once :
    (receive_second_stat lengths events no_stats).sent
    ≡ record { symbol = codes "btc"; price = 2 } ∷ []
unfolding everything
sent_once = refl

routed : List Text
unfolding everything
routed =
    (distribute_messages (message (codes "{x") ∷ message [] ∷ message (codes "[y") ∷ closed ∷ [])
      (record { agg_trades = []; mini_tickers = [] })).agg_trades

routed_trades : routed ≡ codes "{x" ∷ []
unfolding everything routed
routed_trades = refl

receive_second_stat-Latest_example :
    lookup (codes "btc") (receive_second_stat lengths events no_stats).latest_prices ≡ some 3
unfolding everything
receive_second_stat-Latest_example =
    receive_second_stat-Latest lengths events no_stats (codes "btc")

abbrev attempts : ℕ → Attempt ℕ
attempts zero = failed (codes "refused")
attempts (suc i) = succeeded i

first_fails : (k : ℕ) → k < 1 → (e : Text) × (attempts k ≡ failed e)
first_fails zero h = (codes "refused", refl)
first_fails (suc k) h = absurd (omega arith)

one_of_two_returned : Decided (create_client_conn 3 attempts)
one_of_two_returned = create_client_conn-Decided 2 attempts

abbrev pub stat : DailyStat lengths
stat = record {
  event_type = codes "24hrMiniTicker";
  event_time = pos 1;
  ingest_time = pos 2;
  recv_time = pos 3;
  symbol = codes "BTC";
  close_price = 5;
  open_price = 4;
  high_price = 6;
  low_price = 3;
}

abbrev msg : KafkaMsg lengths
unfolding everything
msg = kafka_msg lengths (codes "id") stat

abbrev marshal : KafkaMsg lengths → Option Text
marshal m = some m.message_id

abbrev idle : Producer lengths
idle = record { batch_buffer = []; calls = [] }

abbrev work : List (ProducerEvent lengths)
work = arrived msg ∷ timer ∷ arrived msg ∷ arrived msg ∷ arrived msg ∷ input_closed ∷ []

-- The second call fails.
abbrev answers : ℕ → Option Text
answers (suc zero) = some (codes "timeout")
answers _ = none

batches_sent : length (start lengths marshal answers 2 work idle).calls ≡ 3
unfolding everything
batches_sent = refl

abbrev any : KafkaRecord → Bool
any r = true

start-Conserves_example :
    (handled lengths marshal (start lengths marshal answers 2 work idle)
      ≡ handled lengths marshal idle ++ records lengths marshal (accepted lengths work))
    × (tally any (written lengths (start lengths marshal answers 2 work idle).calls)
          + tally any (lost lengths (start lengths marshal answers 2 work idle).calls)
          + tally any
              (records lengths marshal (start lengths marshal answers 2 work idle).batch_buffer)
        ≡ tally any (handled lengths marshal idle)
          + tally any (records lengths marshal (accepted lengths work)))
start-Conserves_example = start-Conserves lengths marshal answers 2 work idle any

-- Two of the four messages are lost with the second call.
lost_batch :
    (tally any (written lengths (start lengths marshal answers 2 work idle).calls) ≡ 2)
    × (tally any (lost lengths (start lengths marshal answers 2 work idle).calls) ≡ 2)
unfolding everything
lost_batch = (refl, refl)

start-Bounded_example :
    (length (start lengths marshal answers 2 work idle).batch_buffer < 2)
    × (ends lengths work ≡ true → (start lengths marshal answers 2 work idle).batch_buffer ≡ [])
start-Bounded_example =
    start-Bounded lengths marshal answers 2 work idle (omega arith) (omega arith)

negative_read : get_int (codes "-12") (pos 3) ≡ ℤ.negsuc 11
unfolding everything
negative_read = refl

brokers_read : get_slice (codes "a:1,b") [] ≡ codes "a:1" ∷ codes "b" ∷ []
unfolding everything
brokers_read = refl

abbrev btc_stat : SecondStat lengths
btc_stat = record { symbol = codes "btc"; price = 2 }

channels_published :
    All
      (λ (p : Published lengths). to_lower p.channel ≡ p.channel)
      (start_saver lengths
        (λ m. some m.symbol)
        ((true, message btc_stat) ∷ (false, message btc_stat) ∷ []))
unfolding everything
channels_published =
    start_saver-LowerChannels lengths (λ m. some m.symbol)
      ((true, message btc_stat) ∷ (false, message btc_stat) ∷ []) (refl, (refl, tt))

-- The settings when nothing is set, and with a batch size that is no number.
abbrev environment : Text → Text
environment key = if key == codes "BATCH_SIZE" then codes "many" else []

defaults :
    ((load_kafka_config (λ t. none) environment).batch_size ≡ pos 120)
    × ((load_kafka_config (λ t. none) environment).topic ≡ codes "binance.miniticker")
    × ((load_redis_config (λ t. none) environment).retry_delay ≡ pos 2000000000)
unfolding everything load_kafka_config load_redis_config get_string get_time
defaults = (refl, refl, refl)
