-- ===== src/Profile/App.antt =====
-- Profile/internal/app/app.go, cmd/main.go, storage/postgres/postgres.go and `Close` of
-- storage/redis/redis.go: the start and the end of the service. What the libraries answer is an
-- argument; `none` is a nil error.

pub mod Shutdown
pub mod Tests
use crypto_asset_tracker_mic.Base.{
  ℕ, zero, suc, Bool, true, false, List, [], ◌∷◌, ◌++◌, Option, none, some, Text, codes,
  if◌then◌else◌, is_empty, leb, ◌&&◌, not,
}

-- `fmt.Errorf` with `%w` at the end.
abbrev pub wraps : Text → Text → Text
wraps before e = before ++ e

-- A database, or the error of opening it.
pub data Storage (S : Type 0) : Type 0 where
  storage : S → Storage S
  failed : Text → Storage S

-- A round of the loop of `New` of the storage, with what the later rounds give.
unfoldable pub after_attempt : {S : Type 0} → Storage S → Storage S × ℕ → Storage S × ℕ
after_attempt (storage db) later = (storage db, 0)
after_attempt (failed e) later = (later.0, suc later.1)

-- That loop over the rounds left: the last answer of `gorm.Open`, and the number of pauses of two
-- seconds. `attempt i` is the i-th answer.
unfoldable pub open_with_retries :
    {S : Type 0} → (ℕ → Storage S) → ℕ → ℕ → Storage S → Storage S × ℕ
unfolding after_attempt
open_with_retries attempt zero i last = (last, 0)
open_with_retries attempt (suc rounds) i last =
    after_attempt (attempt i) (open_with_retries attempt rounds (suc i) (attempt i))

unfoldable pub migrated : {S : Type 0} → (S → Option Text) → Storage S → Storage S
migrated migrate (failed e) =
    failed (wraps (codes "storage/postgres:  failed to connect after multiple retries: ") e)
migrated migrate (storage db) = elim (migrate db) [
  | none ↦ storage db
  | some e ↦ failed (wraps (codes "storage/postgres: failed to auto-migrate database: ") e)
]

-- Before the first round there is neither a database nor an error; the rounds are never none.
unfoldable pub new_storage : {S : Type 0} → (ℕ → Storage S) → (S → Option Text) → Storage S
unfolding open_with_retries migrated
new_storage attempt migrate = migrated migrate (open_with_retries attempt 5 0 (failed [])).0

-- `New` of the application: a panic, or the application.
pub data Built (S : Type 0) : Type 0 where
  panics : Text → Built S
  built : S → Built S

unfoldable pub new : {S : Type 0} → Storage S → Option Text → Built S
new (failed e) auth = panics (wraps (codes "failed to init storage: ") e)
new (storage db) (some e) = panics (wraps (codes "failed to connect to auth service: ") e)
new (storage db) none = built db

-- How a server ends: with a nil error, closed on purpose, or with another error.
pub data Served : Type 0 where
  ended closed : Served
  broke : Text → Served

-- `runGRPC` and `runHTTP`.
unfoldable pub run_grpc : Option Text → Served → Option Text
run_grpc (some e) served = some (wraps (codes "app.runGRPC: ") e)
run_grpc none ended = none
run_grpc none closed = none
run_grpc none (broke e) = some (wraps (codes "app.runGRPC: ") e)

unfoldable pub run_http : Served → Option Text
run_http ended = none
run_http closed = none
run_http (broke e) = some (wraps (codes "app.runHTTP: ") e)

-- Where a call of `Stop` stands. Each move does what is named and ends there: `Shutdown` and
-- `GracefulStop` wait, so that the calls of `Run` and of `main` can overlap.
pub data Place : Type 0 where
  not_called cancelling shutting_http_down stopping_grpc closing_redis closing_database : Place
  stopped : Place

abbrev pub next : Place → Place
next not_called = not_called
next cancelling = shutting_http_down
next shutting_http_down = stopping_grpc
next stopping_grpc = closing_redis
next closing_redis = closing_database
next closing_database = stopped
next stopped = stopped

pub data Exit : Type 0 where
  returned exited_1 crashed : Exit

-- The process: the errors in `errChan`, what was stopped so far, with the channel `Messages` of the
-- subscriber, the error that `Run` took, the calls of `Stop` by `Run` and by `main`, and how the process
-- ended.
pub record Process : Type 0 where
  pub err_chan : List Text
  pub ctx_cancelled : Bool
  pub http_shut_down : Bool
  pub grpc_stopped : Bool
  pub messages_closed : Bool
  pub database_stopped : Bool
  pub run_error : Option Text
  pub run_at : Place
  pub main_at : Place
  pub exit : Option Exit

abbrev pub started : Process
started = record {
  err_chan = [];
  ctx_cancelled = false;
  http_shut_down = false;
  grpc_stopped = false;
  messages_closed = false;
  database_stopped = false;
  run_error = none;
  run_at = not_called;
  main_at = not_called;
  exit = none;
}

abbrev pub is_running : Process → Bool
is_running p = elim p.exit [ none ↦ true | some e ↦ false ]

-- `Close` of the subscriber closes `Messages`, which must not be closed.
unfoldable pub close_subscriber : Process → Process
close_subscriber p =
    if p.messages_closed
    then record p { exit = some crashed }
    else record p { messages_closed = true }

-- What `Stop` does at a place. The errors of `Shutdown` and of the storage's `Stop` are logged only.
unfoldable pub stop : Place → Process → Process
unfolding close_subscriber
stop not_called p = p
stop cancelling p = record p { ctx_cancelled = true }
stop shutting_http_down p = record p { http_shut_down = true }
stop stopping_grpc p = record p { grpc_stopped = true }
stop closing_redis p = close_subscriber p
stop closing_database p = record p { database_stopped = true }
stop stopped p = p

-- A move of the call by `Run`, and of the one by `main`.
unfoldable pub run_stops : Process → Process
unfolding stop
run_stops p =
    let q = stop p.run_at p in if is_running q then record q { run_at = next p.run_at } else q

unfoldable pub main_stops : Process → Process
unfolding stop
main_stops p =
    let q = stop p.main_at p in if is_running q then record q { main_at = next p.main_at } else q

pub data Event : Type 0 where
  grpc_returns http_returns : Option Text → Event
  run_receives run_moves run_returns signal main_moves main_returns listener_sends : Event

abbrev pub reports : Text → Option Text → Process → Process
reports before none p = p
reports before (some e) p = record p { err_chan = p.err_chan ++ wraps before e ∷ [] }

-- `Run` takes one error and calls `Stop`.
unfoldable pub receive : List Text → Place → Process → Process
receive (e ∷ es) not_called p = record p { err_chan = es; run_error = some e; run_at = cancelling }
receive _ _ p = p

-- `Run` returns its error, which is not nil, once its `Stop` has returned.
unfoldable pub quits : Place → Process → Process
quits stopped p = record p { exit = some exited_1 }
quits _ p = p

-- `main` takes one signal.
unfoldable pub receive_signal : Place → Process → Process
receive_signal not_called p = record p { main_at = cancelling }
receive_signal _ p = p

unfoldable pub leaves : Place → Process → Process
leaves stopped p = record p { exit = some returned }
leaves _ p = p

-- The goroutines of the servers, of `Run` and of `main`, and a listener of Redis with a message: they
-- move while the process runs.
unfoldable pub move : Process → Event → Process
unfolding receive run_stops main_stops quits receive_signal leaves
move p (grpc_returns e) = reports (codes "gRPC server error: ") e p
move p (http_returns e) = reports (codes "HTTP server error: ") e p
move p run_receives = receive p.err_chan p.run_at p
move p run_moves = run_stops p
move p run_returns = quits p.run_at p
move p signal = receive_signal p.main_at p
move p main_moves = main_stops p
move p main_returns = leaves p.main_at p
move p listener_sends = if p.messages_closed then record p { exit = some crashed } else p

unfoldable pub run : Process → List Event → Process
unfolding move
run p [] = p
run p (e ∷ es) = run (if is_running p then move p e else p) es
