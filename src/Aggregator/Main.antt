-- ===== src/Aggregator/Main.antt =====
-- Aggregator/cmd/main.go: the goroutines, the channels between them, and the end of the program.
use crypto_asset_tracker_mic.Base.{ℕ, List, [], ◌∷◌, Option, none, some, Text, length, ◌≡◌, refl}

pub data Channel : Type 0 where
  raw_msgs raw_agg_trades raw_mini_tickers second_stats daily_stats kafka_msgs : Channel

unfoldable pub capacity : Channel → ℕ
capacity raw_msgs = 300
capacity raw_agg_trades = 100
capacity raw_mini_tickers = 100
capacity second_stats = 100
capacity daily_stats = 500
capacity kafka_msgs = 500

pub data Goroutine : Type 0 where
  distribute_messages receive_mini_ticker_message convert_raw_to_arr_ds convert_raw_to_ss
        receive_kafka_msg start_producer start_saver :
      Goroutine

-- The channel that a goroutine is given to read, and those to write.
unfoldable pub reads : Goroutine → Option Channel
reads distribute_messages = some raw_msgs
reads receive_mini_ticker_message = none
reads convert_raw_to_arr_ds = some raw_mini_tickers
reads convert_raw_to_ss = some raw_agg_trades
reads receive_kafka_msg = some daily_stats
reads start_producer = some kafka_msgs
reads start_saver = some second_stats

unfoldable pub writes : Goroutine → List Channel
writes distribute_messages = raw_agg_trades ∷ raw_mini_tickers ∷ []
writes receive_mini_ticker_message = raw_msgs ∷ []
writes convert_raw_to_arr_ds = daily_stats ∷ []
writes convert_raw_to_ss = second_stats ∷ []
writes receive_kafka_msg = kafka_msgs ∷ []
writes start_producer = []
writes start_saver = []

abbrev pub launched : List Goroutine
launched =
    distribute_messages ∷ receive_mini_ticker_message ∷ convert_raw_to_arr_ds ∷ convert_raw_to_ss
    ∷ receive_kafka_msg ∷ start_producer ∷ start_saver ∷ []

-- The count that `wg.Add` announces.
abbrev pub announced : ℕ
announced = 7

all_announced : length launched ≡ announced
all_announced = refl

-- What `main` meets on its channel of signals, and what it then does.
pub data Event : Type 0 where
  interrupt : Event
  server_ended : Option Text → Event

pub data Action : Type 0 where
  cancels shuts_server_down waits : Action

unfoldable pub main : List Event → List Action
main [] = []
main (interrupt ∷ es) = cancels ∷ shuts_server_down ∷ waits ∷ []
main (server_ended none ∷ es) = main es
main (server_ended (some e) ∷ es) = cancels ∷ shuts_server_down ∷ waits ∷ []
