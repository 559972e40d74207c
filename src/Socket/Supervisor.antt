-- ===== src/Socket/Supervisor.antt =====
-- Socket/connsock/conn.go: the goroutine of `Start` and the reader goroutines that it launches, which
-- share the fields of the producer, the channel of the messages and the channel of the errors. The
-- goroutines move one at a time; a move that cannot be made now leaves the state as it is.
pub mod Readers
pub mod Stopping
pub mod Repair
pub mod Tests
use crypto_asset_tracker_mic.Base.{
  ℕ, suc, Bool, true, false, List, [], ◌∷◌, ◌++◌, map, Option, none, some, if◌then◌else◌, ltb, ◌&&◌,
  nat_beq, length, Text, get_elem?, put_at, zero,
}
use crypto_asset_tracker_mic.Socket.Connection.{
  Round, Reconnected, reconnect, Started, gave_up, reads_from,
}

-- The capacities that the connection manager gives the channels.
abbrev pub output_cap : ℕ
output_cap = 100

abbrev pub errors_cap : ℕ
errors_cap = 1

-- Where the goroutine of `Start` stands: at its `select`, in `doReconnect` waiting for the reader, in
-- the deferred function waiting for the reader, or at its end.
pub data Phase : Type 0 where
  selecting stopping closing ended : Phase

abbrev pub is_selecting : Phase → Bool
is_selecting selecting = true
is_selecting _ = false

abbrev pub is_stopping : Phase → Bool
is_stopping stopping = true
is_stopping _ = false

abbrev pub is_closing : Phase → Bool
is_closing closing = true
is_closing _ = false

-- Where a reader stands: before its test of the connection, in `ReadMessage`, or at a send.
pub data Place : Type 0 where
  entered reading : Place
  sending reporting : Text → Place

-- What `ReadMessage` answers.
pub data Frame : Type 0 where
  got failed : Text → Frame

abbrev pub is_nil : {A : Type 0} → List A → Bool
is_nil [] = true
is_nil (_ ∷ _) = false

module _ (C : Type 0) where
  -- A reader goroutine that has not returned, with the state of its context.
  pub record Reader : Type 0 where
    pub id : ℕ
    pub conn : Option C
    pub cancelled : Bool
    pub place : Place

  pub record Producer : Type 0 where
    pub conn : Option C
    pub url_connection : Text
    pub read_msg_cancel : Option ℕ
    pub reconnecting : Bool
    pub readers : List Reader
    pub next_reader : ℕ
    pub output_chan : List Text
    pub read_msg_error : List Text
    pub ctx_done : Bool
    pub phase : Phase

  abbrev pub new_socket_producer : Text → Producer
  new_socket_producer url = record {
    conn = none;
    url_connection = url;
    read_msg_cancel = none;
    reconnecting = false;
    readers = [];
    next_reader = 0;
    output_chan = [];
    read_msg_error = [];
    ctx_done = false;
    phase = ended;
  }

  unfoldable pub start_read_message : Option C → Producer → Producer
  start_read_message conn s = record s {
    read_msg_cancel = some s.next_reader;
    readers =
        record { id = s.next_reader; conn = conn; cancelled = s.ctx_done; place = entered }
        ∷ s.readers;
    next_reader = suc s.next_reader;
  }

  unfoldable pub cancel_reader : ℕ → Reader → Reader
  cancel_reader id r = if nat_beq r.id id then record r { cancelled = true } else r

  unfoldable pub cancelled_by : Option ℕ → List Reader → List Reader
  unfolding cancel_reader
  cancelled_by none rs = rs
  cancelled_by (some id) rs = map (cancel_reader id) rs

  -- `cancel()`; the `Wait` after it is the phase.
  unfoldable pub stop_read_message : Producer → Producer
  unfolding cancelled_by
  stop_read_message s = record s { readers = cancelled_by s.read_msg_cancel s.readers }

  -- `Start` until its `select`.
  unfoldable pub enter_loop : Producer → Started C → Producer
  unfolding start_read_message
  enter_loop s gave_up = record s { phase = ended }
  enter_loop s (reads_from conn url) =
      record (start_read_message conn (record s { conn = conn; url_connection = url })) {
        phase = selecting;
      }

  -- `doReconnect` until it waits for the reader, and from there on.
  unfoldable pub begin_reconnect : Producer → Producer
  unfolding stop_read_message
  begin_reconnect s = record (stop_read_message s) { reconnecting = true; phase = stopping }

  unfoldable pub finish_reconnect : Reconnected C → Producer → Producer
  unfolding start_read_message
  finish_reconnect r s = elim r.conn [
    | none ↦ record s {
      conn = none;
      url_connection = r.url;
      reconnecting = false;
      phase = selecting;
    }
    | some c ↦
        record (start_read_message (some c) (record s { conn = some c; url_connection = r.url })) {
          reconnecting = false;
          phase = selecting;
        }
  ]

  -- The case of the `select` that receives an error.
  unfoldable pub on_error : Producer → List Text → Producer
  unfolding begin_reconnect
  on_error s [] = s
  on_error s (e ∷ es) =
      if s.reconnecting
      then record s { read_msg_error = es }
      else begin_reconnect (record s { read_msg_error = es })

  -- A move of a reader: where it is next unless it returns, what it sends and what it reports.
  pub record Turn : Type 0 where
    pub next : Option Reader
    pub sent : List Text
    pub reported : List Text

  abbrev pub moves_to : Reader → Place → Turn
  moves_to r p = record { next = some (record r { place = p }); sent = []; reported = [] }

  abbrev pub returns_now : Turn
  returns_now = record { next = none; sent = []; reported = [] }

  unfoldable pub after_read : Reader → Frame → Turn
  after_read r (got m) = if r.cancelled then returns_now else moves_to r (sending m)
  after_read r (failed e) = if r.cancelled then returns_now else moves_to r (reporting e)

  unfoldable pub read_turn : Producer → Reader → Place → Frame → Turn
  unfolding after_read
  read_turn s r entered f = elim s.conn [ none ↦ returns_now | some c ↦ moves_to r reading ]
  read_turn s r reading f = after_read r f
  read_turn s r (sending m) f =
      if ltb (length s.output_chan) output_cap
      then record { next = some (record r { place = reading }); sent = m ∷ []; reported = [] }
      else moves_to r (sending m)
  read_turn s r (reporting e) f =
      if ltb (length s.read_msg_error) errors_cap
      then record { next = none; sent = []; reported = e ∷ [] }
      else moves_to r (reporting e)

  unfoldable pub reader_moves : ℕ → Frame → Producer → Producer
  unfolding read_turn put_at
  reader_moves i f s = elim (get_elem? s.readers i) [
    | none ↦ s
    | some r ↦
        (let t = read_turn s r r.place f in
          record s {
            readers = put_at i t.next s.readers;
            output_chan = s.output_chan ++ t.sent;
            read_msg_error = s.read_msg_error ++ t.reported;
          })
  ]

  abbrev pub cancel_it : Reader → Reader
  cancel_it r = record r { cancelled = true }

  -- A stream of a client takes the oldest message.
  abbrev pub tail : List Text → List Text
  tail [] = []
  tail (m ∷ ms) = ms

  pub data Move : Type 0 where
    ticks takes_error context_ends sees_context returns client_takes : Move
    resumes : (ℕ → ℕ → ℕ) → (ℕ → Round C) → Move
    reads : ℕ → Frame → Move

  unfoldable pub step : Producer → Move → Producer
  unfolding begin_reconnect on_error finish_reconnect reader_moves stop_read_message
  step s ticks = if is_selecting s.phase then begin_reconnect s else s
  step s takes_error = if is_selecting s.phase then on_error s s.read_msg_error else s
  step s context_ends = record s { ctx_done = true; readers = map cancel_it s.readers }
  step s sees_context =
      if is_selecting s.phase && s.ctx_done
      then record (stop_read_message s) { phase = closing }
      else s
  step s (resumes draw rounds) =
      if is_stopping s.phase && is_nil s.readers
      then finish_reconnect (reconnect C draw rounds s.url_connection) s
      else s
  step s returns = if is_closing s.phase && is_nil s.readers then record s { phase = ended } else s
  step s client_takes = record s { output_chan = tail s.output_chan }
  step s (reads i f) = reader_moves i f s

  unfoldable pub run : Producer → List Move → Producer
  unfolding step
  run s [] = s
  run s (m ∷ ms) = run (step s m) ms
