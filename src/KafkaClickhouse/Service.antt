-- ===== src/KafkaClickhouse/Service.antt =====
-- Kafka-ClickHouse/cmd/main.go: the start of the service, and the consumer and the repository with the
-- channel between them. The two goroutines move one at a time; a move that cannot be made now leaves
-- the state as it is.
pub mod Flow
use crypto_asset_tracker_mic.Base.{
  ℕ, Bool, true, false, List, [], ◌∷◌, ◌++◌, Option, none, some, if◌then◌else◌, ltb, length, Text,
  ◌&&◌,
}
use crypto_asset_tracker_mic.KafkaClickhouse.Repository.{
  KafkaMsg, Library, Repository, append_msg, insert_remaining_msgs,
}
use crypto_asset_tracker_mic.KafkaClickhouse.Consumer.{
  Message, Log, FetchEvent, interrupted, fetch_failed, fetched, commit, hand_on,
}

-- How the start ends: with an exit, or with both goroutines running on a client.
pub data Start (C : Type 0) : Type 0 where
  exits : Start C
  runs : C → Start C

unfoldable pub after_table : {C : Type 0} → C → Option Text → Start C
after_table client none = runs client
after_table client (some e) = exits

-- From the answer of `NewClient` and that of `CreateTable`.
unfoldable pub main : {C : Type 0} → Option C → (C → Option Text) → Start C
unfolding after_table
main none create_table = exits
main (some client) create_table = after_table client (create_table client)

abbrev pub kafka_msgs_cap : ℕ
kafka_msgs_cap = 500

module _ (Number : Type 0) where
  pub record Service : Type 0 where
    pub log : Log Number
    pub kafka_msgs : List (KafkaMsg Number)
    pub kafka_msgs_closed : Bool
    pub repo : Repository Number
    pub repo_returned : Bool

  abbrev pub new_service : Service
  new_service = record {
    log = record { sent = []; committed = [] };
    kafka_msgs = [];
    kafka_msgs_closed = false;
    repo = record { batch_buffer = []; acknowledged = [] };
    repo_returned = false;
  }

  -- The consumer returns, and closes the channel.
  abbrev pub leave : Service → Service
  leave s = record s { kafka_msgs_closed = true }

  -- A message that was fetched: it is parsed or not, the context ended or not, the commit is accepted or
  -- not.
  unfoldable pub consume_msg : Option (KafkaMsg Number) → Message → Bool → Bool → Service → Service
  consume_msg none m ended accepted s = record s {
    log = commit Number accepted m (hand_on Number none s.log);
  }
  consume_msg (some k) m true accepted s = leave s
  consume_msg (some k) m false accepted s =
      if ltb (length s.kafka_msgs) kafka_msgs_cap
      then record s {
        log = commit Number accepted m (hand_on Number (some k) s.log);
        kafka_msgs = s.kafka_msgs ++ k ∷ [];
      }
      else s

  unfoldable pub consume : (Text → Option (KafkaMsg Number)) → FetchEvent Number → Service → Service
  unfolding consume_msg
  consume unmarshal interrupted s = leave s
  consume unmarshal (fetch_failed e) s = s
  consume unmarshal (fetched m ended accepted) s =
      consume_msg (unmarshal m.value) m ended accepted s

  -- The repository receives: a message, or that the channel is closed and empty.
  unfoldable pub receive : ℕ → Library Number → List (KafkaMsg Number) → Service → Service
  receive batch_size lib [] s =
      if s.kafka_msgs_closed
      then record s { repo = insert_remaining_msgs Number lib s.repo; repo_returned = true }
      else s
  receive batch_size lib (k ∷ ks) s = record s {
    kafka_msgs = ks;
    repo = append_msg Number batch_size k lib s.repo;
  }

  pub data Move : Type 0 where
    consumes : FetchEvent Number → Move
    receives timer_fires sees_context : Library Number → Move

  unfoldable pub step : (Text → Option (KafkaMsg Number)) → ℕ → Service → Move → Service
  unfolding consume receive
  step unmarshal batch_size s (consumes e) =
      if s.kafka_msgs_closed then s else consume unmarshal e s
  step unmarshal batch_size s (receives lib) =
      if s.repo_returned then s else receive batch_size lib s.kafka_msgs s
  step unmarshal batch_size s (timer_fires lib) =
      if s.repo_returned then s else record s { repo = insert_remaining_msgs Number lib s.repo }
  step unmarshal batch_size s (sees_context lib) =
      if s.repo_returned
      then s
      else record s { repo = insert_remaining_msgs Number lib s.repo; repo_returned = true }

  unfoldable pub run : (Text → Option (KafkaMsg Number)) → ℕ → Service → List Move → Service
  unfolding step
  run unmarshal batch_size s [] = s
  run unmarshal batch_size s (m ∷ ms) = run unmarshal batch_size (step unmarshal batch_size s m) ms
