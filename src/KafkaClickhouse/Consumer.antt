-- ===== src/KafkaClickhouse/Consumer.antt =====
-- Kafka-ClickHouse/adapters/kaffka/consumer.go: the loop that fetches messages from Kafka, hands them
-- on, and commits them. What the Kafka library and the context do is an argument.
pub mod Delivery
use crypto_asset_tracker_mic.Base.{
  ℕ, Bool, true, false, zero, suc, List, [], ◌∷◌, ◌++◌, Option, none, some, if◌then◌else◌, Text,
}
use crypto_asset_tracker_mic.KafkaClickhouse.Repository.{KafkaMsg}

-- A round of the check of the broker in `NewConsumer`.
pub data Probe : Type 0 where
  dial_failed : Text → Probe
  brokers_failed : Text → Probe
  available : ℕ → Probe

-- The number of the round in which the broker was available; the reader is made in any case.
unfoldable pub new_consumer : ℕ → ℕ → (ℕ → Probe) → Option ℕ
new_consumer zero i probe = none
new_consumer (suc rounds) i probe = elim (probe i) [
  | dial_failed e ↦ new_consumer rounds (suc i) probe
  | brokers_failed e ↦ new_consumer rounds (suc i) probe
  | available n ↦ some i
]

pub record Message : Type 0 where
  pub offset : ℕ
  pub value : Text

module _ (Number : Type 0) where
  -- A round of the loop: the context ended, a fetch failed, or a message was fetched; then whether the
  -- context ends before it is handed on, and whether its commit is accepted.
  pub data FetchEvent : Type 0 where
    interrupted : FetchEvent
    fetch_failed : Text → FetchEvent
    fetched : Message → Bool → Bool → FetchEvent

  -- What was handed on, and the offsets that were committed.
  pub record Log : Type 0 where
    pub sent : List (KafkaMsg Number)
    pub committed : List ℕ

  unfoldable pub commit : Bool → Message → Log → Log
  commit accepted m l =
      if accepted then record l { committed = l.committed ++ m.offset ∷ [] } else l

  -- A parsed message is handed on, another one is not.
  unfoldable pub hand_on : Option (KafkaMsg Number) → Log → Log
  hand_on none l = l
  hand_on (some k) l = record l { sent = l.sent ++ k ∷ [] }

  -- The context ends before a parsed message is handed on.
  abbrev pub held_back : Option (KafkaMsg Number) → Bool → Bool
  held_back none ended = false
  held_back (some k) ended = ended

  unfoldable pub start : (Text → Option (KafkaMsg Number)) → List FetchEvent → Log → Log
  start unmarshal [] l = l
  start unmarshal (interrupted ∷ es) l = l
  start unmarshal (fetch_failed e ∷ es) l = start unmarshal es l
  start unmarshal (fetched m ended accepted ∷ es) l =
      let rest = start unmarshal es (commit accepted m (hand_on (unmarshal m.value) l)) in
      if held_back (unmarshal m.value) ended then l else rest
