-- ===== src/KafkaClickhouse/Config.antt =====
-- Kafka-ClickHouse/adapters/kaffka/config.go and adapters/clkhouse/config.go: the settings. `env` is the
-- environment, with an empty text for what is not set; durations are nanoseconds.
use crypto_asset_tracker_mic.Base.{List, [], ◌∷◌, Option, Text, codes}
use crypto_asset_tracker_mic.Base.Int.{ℤ, pos}
use crypto_asset_tracker_mic.Aggregator.Config.{seconds}
use crypto_asset_tracker_mic.Aggregator.Getenv.{get_string, get_int, get_time, get_slice}

pub record KafkaConfig : Type 0 where
  pub brokers : List Text
  pub topic : Text
  pub group_id : Text
  pub max_retries : ℤ
  pub retry_delay : ℤ
  pub session_timeout : ℤ
  pub heartbeat_interval : ℤ

unfoldable pub load_kafka_config : (Text → Option ℤ) → (Text → Text) → KafkaConfig
load_kafka_config parse env = record {
  brokers = get_slice (env (codes "KAFKA_BROKERS")) (codes "localhost:9092" ∷ []);
  topic = get_string (env (codes "KAFKA_TOPIC")) (codes "binance.miniticker");
  group_id = get_string (env (codes "KAFKA_GROUP_ID")) (codes "clickhouse-consumer-group");
  max_retries = get_int (env (codes "KAFKA_MAX_RETRIES")) (pos 5);
  retry_delay = get_time parse (env (codes "KAFKA_RETRY_DELAY")) (seconds 2);
  session_timeout = get_time parse (env (codes "KAFKA_SESSION_TIMEOUT")) (seconds 10);
  heartbeat_interval = get_time parse (env (codes "KAFKA_HEARTBEAT_INTERVAL")) (seconds 3);
}

pub record ClickHouseConfig : Type 0 where
  pub addr : Text
  pub database : Text
  pub table : Text
  pub username : Text
  pub password : Text
  pub batch_size : ℤ
  pub batch_timeout : ℤ
  pub max_retries : ℤ
  pub dial_timeout : ℤ

unfoldable pub load_click_house_config : (Text → Option ℤ) → (Text → Text) → ClickHouseConfig
load_click_house_config parse env = record {
  addr = get_string (env (codes "CLICKHOUSE_ADDR")) (codes "localhost:9000");
  database = get_string (env (codes "CLICKHOUSE_DATABASE")) (codes "crypto");
  table = get_string (env (codes "CLICKHOUSE_TABLE")) (codes "market_tickers");
  username = get_string (env (codes "CLICKHOUSE_USERNAME")) (codes "default");
  password = get_string (env (codes "CLICKHOUSE_PASSWORD")) [];
  batch_size = get_int (env (codes "BATCH_SIZE")) (pos 1000);
  batch_timeout = get_time parse (env (codes "BATCH_TIMEOUT")) (seconds 5);
  max_retries = get_int (env (codes "CLICKHOUSE_MAX_RETRIES")) (pos 3);
  dial_timeout = get_time parse (env (codes "CLICKHOUSE_DIAL_TIMEOUT")) (seconds 10);
}
