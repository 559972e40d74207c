-- ===== src/Aggregator/Config.antt =====
-- Aggregator/adapters/kaffka/config.go and Aggregator/adapters/reddis/config.go: the settings. `env` is
-- the environment, with an empty text for what is not set; durations are nanoseconds.
use crypto_asset_tracker_mic.Base.{ℕ, ◌*◌, List, [], ◌∷◌, Option, Text, codes}
use crypto_asset_tracker_mic.Base.Int.{ℤ, pos}
use crypto_asset_tracker_mic.Aggregator.Getenv.{get_string, get_int, get_time, get_slice}

abbrev pub seconds : ℕ → ℤ
seconds n = pos (n * 1000000000)

pub record KafkaConfig : Type 0 where
  pub brockers : List Text
  pub topic : Text
  pub batch_size : ℤ
  pub batch_time_out : ℤ
  pub required_acks : ℤ
  pub max_attempts : ℤ
  pub write_time_out : ℤ

unfoldable pub load_kafka_config : (Text → Option ℤ) → (Text → Text) → KafkaConfig
load_kafka_config parse env = record {
  brockers = get_slice (env (codes "BROKERS")) (codes "localhost:9092" ∷ []);
  topic = get_string (env (codes "TOPIC")) (codes "binance.miniticker");
  batch_size = get_int (env (codes "BATCH_SIZE")) (pos 120);
  batch_time_out = get_time parse (env (codes "BATCH_TIMEOUT")) (seconds 2);
  required_acks = get_int (env (codes "ACK")) (pos 1);
  max_attempts = get_int (env (codes "MAX_ATTEMPTS")) (pos 3);
  write_time_out = get_time parse (env (codes "WRITE_TIMEOUT")) (seconds 10);
}

pub record RedisConfig : Type 0 where
  pub addr : Text
  pub password : Text
  pub db_num : ℤ
  pub max_retries : ℤ
  pub ttl : ℤ
  pub retry_delay : ℤ
  pub ping_timeout : ℤ

unfoldable pub load_redis_config : (Text → Option ℤ) → (Text → Text) → RedisConfig
load_redis_config parse env = record {
  addr = get_string (env (codes "REDIS_ADDR")) (codes "redis:6379");
  password = get_string (env (codes "REDIS_PWD")) [];
  db_num = get_int (env (codes "REDIS_DB")) (pos 0);
  max_retries = get_int (env (codes "REDIS_MAX_RETRIES")) (pos 10);
  ttl = get_time parse (env (codes "REDIS_TTL")) (seconds 30);
  retry_delay = get_time parse (env (codes "REDIS_RETRY_DELAY")) (seconds 2);
  ping_timeout = get_time parse (env (codes "REDIS_PING_TIMEOUT")) (seconds 5);
}
