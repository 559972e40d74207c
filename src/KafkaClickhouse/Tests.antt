-- ===== src/KafkaClickhouse/Tests.antt =====
-- Runs of the service Kafka-ClickHouse, with whole numbers for prices.
use crypto_asset_tracker_mic.KafkaClickhouse.Service
use crypto_asset_tracker_mic.KafkaClickhouse.Service.{
  consume_msg, consume, receive, Move, consumes, receives, sees_context, new_service,
}
use crypto_asset_tracker_mic.KafkaClickhouse.Service.Flow.{service-Conserves}
use crypto_asset_tracker_mic.Base.{
  length, map, ℕ, true, false, List, [], ◌∷◌, ◌++◌, Option, none, some, ◌≡◌, refl, Text, codes,
}
use crypto_asset_tracker_mic.Base.Int.{pos}
use crypto_asset_tracker_mic.KafkaClickhouse.Repository.{
  KafkaMsg, row_of, Library, Repository, append_all, send_batch, append_batch, prepare, insert,
  insert_remaining_msgs, InsertEvent, arrived, closed, append_msg, batch_insert, create_table,
  run_after, create_database,
}
use crypto_asset_tracker_mic.KafkaClickhouse.Repository.Batches.{handled, batch_insert-Conserves}
use crypto_asset_tracker_mic.KafkaClickhouse.Consumer.{
  FetchEvent, interrupted, fetch_failed, fetched, Log, commit, hand_on, start,
}
use crypto_asset_tracker_mic.KafkaClickhouse.Consumer.Delivery.{
  done, valid, accepted_offsets, start-Delivers,
}

everything : Unit {0}
unfolding row_of append_all send_batch append_batch prepare insert insert_remaining_msgs append_msg
    batch_insert create_table run_after commit hand_on start
everything = tt

abbrev msg : KafkaMsg ℕ
msg = record {
  message_id = codes "id";
  event_type = codes "24hrMiniTicker";
  event_time = pos 1;
  ingest_time = pos 2;
  recv_time = pos 3;
  symbol = codes "BTC";
  close_price = 5;
  open_price = 4;
  high_price = 6;
  low_price = 3;
  change_price = 1;
  change_percent = 20;
}

abbrev working : Library ℕ
working = record { prepare_batch = none; append = λ r. none; send = none }

abbrev broken : Library ℕ
broken = record { prepare_batch = none; append = λ r. none; send = some (codes "timeout") }

abbrev empty : Repository ℕ
empty = record { batch_buffer = []; acknowledged = [] }

abbrev work : List (InsertEvent ℕ)
work = arrived msg broken ∷ arrived msg broken ∷ closed working ∷ []

all_inserted :
    batch_insert ℕ 2 work empty
    ≡ record { batch_buffer = []; acknowledged = row_of ℕ msg ∷ row_of ℕ msg ∷ [] }
unfolding everything
all_inserted = refl

no_table :
    (create_table true (λ s. some (codes "down")) (codes "db") (codes "t")).0
    ≡ create_database (codes "db") ∷ []
unfolding everything
no_table = refl

batch_insert-Conserves_example :
    handled ℕ (batch_insert ℕ 2 work empty) ≡ row_of ℕ msg ∷ row_of ℕ msg ∷ []
batch_insert-Conserves_example = batch_insert-Conserves ℕ 2 work empty

abbrev unmarshal : Text → Option (KafkaMsg ℕ)
unmarshal [] = none
unmarshal (c ∷ s) = some msg

abbrev fetches : List (FetchEvent ℕ)
fetches =
    fetched (record { offset = 7; value = codes "x" }) false true
    ∷ fetch_failed (codes "down")
    ∷ fetched (record { offset = 8; value = [] }) false true
    ∷ fetched (record { offset = 9; value = codes "y" }) true true
    ∷ []

abbrev new_log : Log ℕ
new_log = record { sent = []; committed = [] }

delivered : start ℕ unmarshal fetches new_log ≡ record { sent = msg ∷ []; committed = 7 ∷ 8 ∷ [] }
unfolding everything
delivered = refl

start-Delivers_example :
    ((start ℕ unmarshal fetches new_log).sent ≡ [] ++ valid ℕ unmarshal (done ℕ unmarshal fetches))
    × ((start ℕ unmarshal fetches new_log).committed
        ≡ [] ++ accepted_offsets ℕ unmarshal (done ℕ unmarshal fetches))
start-Delivers_example = start-Delivers ℕ unmarshal fetches new_log

flow : Unit {0}
unfolding Service.step Service.run consume consume_msg receive
flow = tt

-- Two messages are committed; the context ends when one of them waits in the channel.
abbrev ended_early : List (Move ℕ)
ended_early =
    consumes (fetched (record { offset = 1; value = codes "1" }) false true)
    ∷ consumes (fetched (record { offset = 2; value = codes "2" }) false true)
    ∷ receives working
    ∷ sees_context working
    ∷ consumes interrupted
    ∷ receives working
    ∷ []

one_is_left :
    ((Service.run ℕ unmarshal 10 (new_service ℕ) ended_early).log.committed ≡ 1 ∷ 2 ∷ [])
    × (length (Service.run ℕ unmarshal 10 (new_service ℕ) ended_early).kafka_msgs ≡ 1)
unfolding everything flow
one_is_left = (refl, refl)

service-Conserves_example :
    handled ℕ (Service.run ℕ unmarshal 10 (new_service ℕ) ended_early).repo
      ++ map (row_of ℕ) (Service.run ℕ unmarshal 10 (new_service ℕ) ended_early).kafka_msgs
    ≡ map (row_of ℕ) (Service.run ℕ unmarshal 10 (new_service ℕ) ended_early).log.sent
service-Conserves_example = service-Conserves ℕ unmarshal 10 ended_early
