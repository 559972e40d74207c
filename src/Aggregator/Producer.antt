-- ===== src/Aggregator/Producer.antt =====
-- Aggregator/adapters/kaffka/producer.go: batches of messages for Kafka. A batch leaves
-- the buffer whatever `WriteMessages` answers: an error is logged only.
pub mod Batches
use crypto_asset_tracker_mic.Base.{
  ℕ, Bool, true, false, zero, suc, List, [], ◌∷◌, ◌++◌, Option, none, some, if◌then◌else◌, leb,
  Text, length, Result, ok, err,
}
use crypto_asset_tracker_mic.Base.Int.{ℤ}
use crypto_asset_tracker_mic.Aggregator.Models.{Numbers, KafkaMsg}

-- A round of the check of the broker in `NewProducer`.
pub data Probe : Type 0 where
  dial_failed : Text → Probe
  brokers_failed : Text → Probe
  available : ℕ → Probe

-- The loop from its i-th round on: the last error, which a success does not clear.
unfoldable pub check_broker : ℕ → ℕ → Option Text → (ℕ → Probe) → Option Text
check_broker zero i last probe = last
check_broker (suc rounds) i last probe = elim (probe i) [
  | dial_failed e ↦ check_broker rounds (suc i) (some e) probe
  | brokers_failed e ↦ check_broker rounds (suc i) (some e) probe
  | available n ↦ last
]

pub record KafkaRecord : Type 0 where
  pub key : Text
  pub value : Text
  pub time : ℤ
  pub message_id : Text

-- A call of `WriteMessages` with its answer: `none` is a nil error.
pub record Call : Type 0 where
  pub batch : List KafkaRecord
  pub answer : Option Text

module _ (N : Numbers) where
  pub record Producer : Type 0 where
    pub batch_buffer : List (KafkaMsg N)
    pub calls : List Call

  pub data ProducerEvent : Type 0 where
    arrived : KafkaMsg N → ProducerEvent
    timer : ProducerEvent
    cancelled : ProducerEvent
    closed : ProducerEvent

  -- The error that is logged as a failure of all retries, and the producer.
  unfoldable pub new_producer : (ℕ → Probe) → Option Text × Producer
  new_producer probe = (check_broker 10 0 none probe, record { batch_buffer = []; calls = [] })

  module _ (marshal : KafkaMsg N → Option Text) where
    unfoldable pub records : List (KafkaMsg N) → List KafkaRecord
    records [] = []
    records (m ∷ ms) =
        let rest = records ms in
        elim (marshal m) [
          | none ↦ rest
          | some v ↦
              record { key = m.symbol; value = v; time = m.recv_time; message_id = m.message_id }
              ∷ rest
        ]

  -- `answers n` is the answer of the n-th call of `WriteMessages`, counted from 0.
  module _ (marshal : KafkaMsg N → Option Text) (answers : ℕ → Option Text) where
    -- A call of `WriteMessages`, for at least one record.
    unfoldable pub write : List KafkaRecord → List Call → List Call
    write [] done = done
    write (r ∷ rs) done = done ++ record { batch = r ∷ rs; answer = answers (length done) } ∷ []

    unfoldable pub send_to_kafka : Producer → Producer
    send_to_kafka p = record {
      batch_buffer = [];
      calls = write (records marshal p.batch_buffer) p.calls;
    }

    unfoldable pub append_msg : ℕ → KafkaMsg N → Producer → Producer
    append_msg batch_size m p =
        let grown = p.batch_buffer ++ m ∷ [] in
        if leb batch_size (length grown)
        then send_to_kafka (record p { batch_buffer = grown })
        else record p { batch_buffer = grown }

    unfoldable pub start : ℕ → List ProducerEvent → Producer → Producer
    start batch_size [] p = p
    start batch_size (cancelled ∷ es) p = send_to_kafka p
    start batch_size (closed ∷ es) p = send_to_kafka p
    start batch_size (timer ∷ es) p = start batch_size es (send_to_kafka p)
    start batch_size (arrived m ∷ es) p = start batch_size es (append_msg batch_size m p)
