-- ===== src/Socket/Supervisor/Tests.antt =====
-- Runs of a producer, with numbers for connections.
use crypto_asset_tracker_mic.Base.{
  put_at, ℕ, zero, suc, true, false, List, [], ◌∷◌, some, ◌≡◌, ◌≤◌, refl, arith, Text, text_eq,
  length, codes, All,
}
use crypto_asset_tracker_mic.Socket.Tests.{everything, exchange, rounds, refuses, half}
use crypto_asset_tracker_mic.Socket.Connection.{Round, tries, reads_from}
use crypto_asset_tracker_mic.Socket.Supervisor.{
  selecting, closing, ended, reading, sending, got, failed, Reader, Producer, start_read_message,
  cancel_reader, cancelled_by, stop_read_message, enter_loop, begin_reconnect, finish_reconnect,
  on_error, after_read, read_turn, reader_moves, Move, ticks, context_ends, sees_context, returns,
  reads, step, run,
}
use crypto_asset_tracker_mic.Socket.Supervisor.Readers.{served, at_most_one_reader}
use crypto_asset_tracker_mic.Socket.Supervisor.Stopping.{start_returns, full_output_blocks_start}
use crypto_asset_tracker_mic.Socket.Supervisor.Repair.{repair, broken_connection_recovers}

moves : Unit {0}
unfolding served enter_loop run step begin_reconnect on_error finish_reconnect reader_moves
    stop_read_message cancelled_by cancel_reader read_turn after_read put_at start_read_message
moves = tt

-- The producer reads from connection 7.
abbrev reads_7 : List (Move ℕ) → Producer ℕ
reads_7 ms = served ℕ exchange (reads_from (some 7) exchange) ms

at_most_one_reader_example :
    (length (reads_7 (reads 0 (got (codes "a")) ∷ ticks ∷ [])).readers ≤ 1)
    × All
        (λ r. r.conn ≡ (reads_7 (reads 0 (got (codes "a")) ∷ ticks ∷ [])).conn)
        (reads_7 (reads 0 (got (codes "a")) ∷ ticks ∷ [])).readers
    × ((reads_7 (reads 0 (got (codes "a")) ∷ ticks ∷ [])).phase ≡ ended
        → (reads_7 (reads 0 (got (codes "a")) ∷ ticks ∷ [])).readers ≡ [])
at_most_one_reader_example =
    at_most_one_reader ℕ exchange (reads_from (some 7) exchange)
      (reads 0 (got (codes "a")) ∷ ticks ∷ [])

-- Its reader has reported an error.
abbrev broke : List (Move ℕ)
broke = reads 0 (got []) ∷ reads 0 (failed (codes "e")) ∷ reads 0 (got []) ∷ []

-- The program ends while the reader has a message to send.
abbrev ends : List (Move ℕ)
ends = reads 0 (got []) ∷ reads 0 (got (codes "m")) ∷ context_ends ∷ sees_context ∷ []

start_returns_example :
    (run ℕ (reads_7 ends) (reads 0 (got []) ∷ reads 0 (got []) ∷ returns ∷ [])).phase ≡ ended
unfolding everything moves
start_returns_example =
    start_returns ℕ exchange (reads_from (some 7) exchange) ends (got []) (got []) refl
      (omega arith) (omega arith)

abbrev copies : ℕ → List Text
copies zero = []
copies (suc n) = [] ∷ copies n

abbrev stuck_reader : Reader ℕ
stuck_reader = record { id = 0; conn = some 7; cancelled = true; place = sending [] }

-- Nobody takes the messages, and the program ends.
abbrev full : Producer ℕ
full = record {
  conn = some 7;
  url_connection = exchange;
  read_msg_cancel = some 0;
  reconnecting = false;
  readers = stuck_reader ∷ [];
  next_reader = 1;
  output_chan = copies 100;
  read_msg_error = [];
  ctx_done = true;
  phase = closing;
}

full_output_blocks_start_example : (run ℕ full (reads 0 (got []) ∷ returns ∷ [])).phase ≡ closing
full_output_blocks_start_example =
    full_output_blocks_start ℕ full (reads 0 (got []) ∷ returns ∷ [])
      (record {
        reader = stuck_reader;
        pending = [];
        only = refl;
        at_send = refl;
        waited = refl;
        full = refl;
      })
      (refl, (refl, tt))

broken_connection_recovers_example :
    ((run ℕ (reads_7 (reads 0 (got []) ∷ [])) (repair ℕ (codes "e") (got []) half rounds)).readers
      ≡ record { id = 1; conn = some 0; cancelled = false; place = reading } ∷ [])
    × ((run ℕ (reads_7 (reads 0 (got []) ∷ [])) (repair ℕ (codes "e") (got []) half rounds)).conn
        ≡ some 0)
    × ((run ℕ (reads_7 (reads 0 (got []) ∷ [])) (repair ℕ (codes "e") (got []) half rounds)).phase
        ≡ selecting)
unfolding everything moves
broken_connection_recovers_example =
    broken_connection_recovers ℕ exchange (reads_from (some 7) exchange) (reads 0 (got []) ∷ [])
      (record { id = 0; conn = some 7; cancelled = false; place = reading }) (codes "e") (got [])
      half rounds 0 refl refl refl refl refl refl refl

abbrev never : ℕ → Round ℕ
never i = tries refuses
