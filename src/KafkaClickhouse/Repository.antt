-- ===== src/KafkaClickhouse/Repository.antt =====
-- Kafka-ClickHouse/internal/repository/repo.go, adapters/clkhouse/client.go and models/model.go: the
-- table and the batches of rows. What the ClickHouse library answers is an argument.
pub mod Batches
use crypto_asset_tracker_mic.Base.{
  ℕ, Bool, true, false, zero, suc, ◌+◌, List, [], ◌∷◌, ◌++◌, map, Option, none, some, if◌then◌else◌,
  leb, Text, codes, length,
}
use crypto_asset_tracker_mic.Base.Int.{ℤ}

-- `%w` with a text in front.
abbrev pub prefixed : Text → Text → Text
prefixed before e = before ++ e

-- An attempt to open and ping a connection.
pub data Opening (C : Type 0) : Type 0 where
  open_failed : Text → Opening C
  ping_failed : Text → Opening C
  connected : C → Opening C

-- The loop of `NewClient`: a client, or nil after the last round.
unfoldable pub new_client : {C : Type 0} → ℕ → ℕ → (ℕ → Opening C) → Option C
new_client zero i opening = none
new_client (suc rounds) i opening = elim (opening i) [
  | open_failed e ↦ new_client rounds (suc i) opening
  | ping_failed e ↦ new_client rounds (suc i) opening
  | connected c ↦ some c
]

-- The statements of `CreateTable`, with the names of the database and the table.
pub data Statement : Type 0 where
  create_database : Text → Statement
  create_table_if_missing : Text → Text → Statement
  add_ingest_time : Text → Text → Statement

-- The statements that were run, and the error. `exec` says how the library answers a statement.
unfoldable pub run_after :
    (Statement → Option Text)
    → Text
    → Statement
    → List Statement × Option Text
    → List Statement × Option Text
run_after exec failure statement later = elim (exec statement) [
  | none ↦ (statement ∷ later.0, later.1)
  | some e ↦ (statement ∷ [], some (prefixed failure e))
]

unfoldable pub create_table :
    Bool → (Statement → Option Text) → Text → Text → List Statement × Option Text
create_table has_client exec database table =
    if has_client
    then run_after exec (codes "failed to create database: ") (create_database database) (
        run_after exec (codes "failed to create table: ") (create_table_if_missing database table) (
          run_after exec (codes "failed to alter table with ingest_time: ")
            (add_ingest_time database table) ([], none)))
    else ([], some (codes "clickhouse clietn is nil"))

module _ (Number : Type 0) where
  pub record KafkaMsg : Type 0 where
    pub message_id : Text
    pub event_type : Text
    pub event_time : ℤ
    pub ingest_time : ℤ
    pub recv_time : ℤ
    pub symbol : Text
    pub close_price : Number
    pub open_price : Number
    pub high_price : Number
    pub low_price : Number
    pub change_price : Number
    pub change_percent : Number

  -- A row in the order of the table's columns; times are in milliseconds, as `time.UnixMilli` reads.
  pub record Row : Type 0 where
    pub message_id : Text
    pub event_type : Text
    pub event_time : ℤ
    pub ingest_time : ℤ
    pub receive_time : ℤ
    pub symbol : Text
    pub close_price : Number
    pub open_price : Number
    pub high_price : Number
    pub low_price : Number
    pub change_price : Number
    pub change_percent : Number

  unfoldable pub row_of : KafkaMsg → Row
  row_of m = record {
    message_id = m.message_id;
    event_type = m.event_type;
    event_time = m.event_time;
    ingest_time = m.ingest_time;
    receive_time = m.recv_time;
    symbol = m.symbol;
    close_price = m.close_price;
    open_price = m.open_price;
    high_price = m.high_price;
    low_price = m.low_price;
    change_price = m.change_price;
    change_percent = m.change_percent;
  }

  -- What the library answers during an insert: an error or none.
  pub record Library : Type 0 where
    pub prepare_batch : Option Text
    pub append : Row → Option Text
    pub send : Option Text

  -- The buffer, and the rows of the batches whose `Send` returned no error.
  pub record Repository : Type 0 where
    pub batch_buffer : List KafkaMsg
    pub acknowledged : List Row

  unfoldable pub append_all : (Row → Option Text) → List KafkaMsg → Option Text
  append_all append [] = none
  append_all append (m ∷ ms) =
      let rest = append_all append ms in elim (append (row_of m)) [ none ↦ rest | some e ↦ some e ]

  -- `insert` for a buffer that is not empty, step by step.
  unfoldable pub send_batch : Option Text → Repository → Option Text × Repository
  send_batch (some e) r = (some (prefixed (codes "failed to sent batch: ") e), r)
  send_batch none r = (
    none,
    record { batch_buffer = []; acknowledged = r.acknowledged ++ map row_of r.batch_buffer },
  )

  unfoldable pub append_batch : Option Text → Library → Repository → Option Text × Repository
  append_batch (some e) lib r = (some (prefixed (codes "failed to append to batch: ") e), r)
  append_batch none lib r = send_batch lib.send r

  unfoldable pub prepare : Option Text → Library → Repository → Option Text × Repository
  prepare (some e) lib r = (some (prefixed (codes "failed to prepare batch: ") e), r)
  prepare none lib r = append_batch (append_all lib.append r.batch_buffer) lib r

  abbrev pub is_nil : List KafkaMsg → Bool
  is_nil [] = true
  is_nil (m ∷ ms) = false

  unfoldable pub insert : Library → Repository → Option Text × Repository
  insert lib r = if is_nil r.batch_buffer then (none, r) else prepare lib.prepare_batch lib r

  -- The error is logged.
  unfoldable pub insert_remaining_msgs : Library → Repository → Repository
  insert_remaining_msgs lib r = if is_nil r.batch_buffer then r else (insert lib r).1

  -- What the loop's `select` gets, with the library's answers in case it inserts.
  pub data InsertEvent : Type 0 where
    arrived : KafkaMsg → Library → InsertEvent
    timer : Library → InsertEvent
    cancelled : Library → InsertEvent
    closed : Library → InsertEvent

  unfoldable pub append_msg : ℕ → KafkaMsg → Library → Repository → Repository
  append_msg batch_size m lib r =
      let grown : Repository = record r { batch_buffer = r.batch_buffer ++ m ∷ [] } in
      if leb batch_size (length grown.batch_buffer) then (insert lib grown).1 else grown

  unfoldable pub batch_insert : ℕ → List InsertEvent → Repository → Repository
  batch_insert batch_size [] r = r
  batch_insert batch_size (cancelled lib ∷ es) r = insert_remaining_msgs lib r
  batch_insert batch_size (closed lib ∷ es) r = insert_remaining_msgs lib r
  batch_insert batch_size (timer lib ∷ es) r =
      batch_insert batch_size es (insert_remaining_msgs lib r)
  batch_insert batch_size (arrived m lib ∷ es) r =
      batch_insert batch_size es (append_msg batch_size m lib r)
