-- ===== src/Profile/App/Shutdown.antt =====
-- How the process of the service ends.
use crypto_asset_tracker_mic.Base.{
  ℕ, zero, suc, ◌+◌, ◌<◌, Bool, true, false, ◌&&◌, ◌||◌, not, List, [], ◌∷◌, Option, none, some,
  ◌≡◌, refl, ap, ◌∙◌, arith, Text, Option-cases, ltb, inl, inr,
}
use crypto_asset_tracker_mic.Profile.App.{
  Storage, storage, failed, open_with_retries, after_attempt, Place, not_called, cancelling,
  shutting_http_down, stopping_grpc, closing_redis, closing_database, stopped, Exit, returned,
  exited_1, crashed, Process, started, close_subscriber, stop, run_stops, main_stops, Event,
  grpc_returns, http_returns, run_receives, run_moves, run_returns, signal, main_moves,
  main_returns, listener_sends, receive, quits, receive_signal, leaves, move, run,
}

-- How many steps a call of `Stop` has behind it, counting its start as one.
abbrev rank : Place → ℕ
rank not_called = 0
rank cancelling = 1
rank shutting_http_down = 2
rank stopping_grpc = 3
rank closing_redis = 4
rank closing_database = 5
rank stopped = 6

-- The call is past the step of this number.
abbrev pub past : ℕ → Place → Bool
past n pl = ltb n (rank pl)

abbrev pub implies : Bool → Bool → Bool
implies a b = not a || b

abbrev pub is_returned : Option Exit → Bool
is_returned (some returned) = true
is_returned _ = false

abbrev pub is_exited : Option Exit → Bool
is_exited (some exited_1) = true
is_exited _ = false

-- The calls of `Stop` by `main` and by `Run` at two places, in a process.
abbrev At : Place → Place → Process → Type 0
At m r p =
    (p.main_at ≡ m)
    × (p.run_at ≡ r)
    × (p.ctx_cancelled ≡ (past 1 m || past 1 r))
    × (p.http_shut_down ≡ (past 2 m || past 2 r))
    × (p.grpc_stopped ≡ (past 3 m || past 3 r))
    × (p.messages_closed ≡ (past 4 m || past 4 r))
    × (p.database_stopped ≡ (past 5 m || past 5 r))
    × ((past 4 m && past 4 r) ≡ false)
    × (implies (is_returned p.exit) (past 5 m) ≡ true)
    × (implies (is_exited p.exit) (past 5 r) ≡ true)

abbrev Inv : Process → Type 0
Inv p = At p.main_at p.run_at p

main_stops-Inv :
    (m : Place) (p : Process) → p.exit ≡ none → p.main_at ≡ m → Inv p → Inv (main_stops p)
unfolding main_stops stop close_subscriber
main_stops-Inv not_called p going at h = ground (arith, going, at, h)
main_stops-Inv cancelling p going at h = ground (arith, going, at, h)
main_stops-Inv shutting_http_down p going at h = ground (arith, going, at, h)
main_stops-Inv stopping_grpc p going at h = ground (arith, going, at, h)
main_stops-Inv closing_redis p going at h = ground (arith, going, at, h)
main_stops-Inv closing_database p going at h = ground (arith, going, at, h)
main_stops-Inv stopped p going at h = ground (arith, going, at, h)

run_stops-Inv : (r : Place) (p : Process) → p.exit ≡ none → p.run_at ≡ r → Inv p → Inv (run_stops p)
unfolding run_stops stop close_subscriber
run_stops-Inv not_called p going at h = ground (arith, going, at, h)
run_stops-Inv cancelling p going at h = ground (arith, going, at, h)
run_stops-Inv shutting_http_down p going at h = ground (arith, going, at, h)
run_stops-Inv stopping_grpc p going at h = ground (arith, going, at, h)
run_stops-Inv closing_redis p going at h = ground (arith, going, at, h)
run_stops-Inv closing_database p going at h = ground (arith, going, at, h)
run_stops-Inv stopped p going at h = ground (arith, going, at, h)

receive-Inv :
    (es : List Text) (r : Place) (p : Process)
    → p.exit ≡ none
    → p.run_at ≡ r
    → Inv p
    → Inv (receive es r p)
unfolding receive
receive-Inv [] r p going at h = h
receive-Inv (e ∷ es) not_called p going at h = ground (arith, going, at, h)
receive-Inv (e ∷ es) cancelling p going at h = h
receive-Inv (e ∷ es) shutting_http_down p going at h = h
receive-Inv (e ∷ es) stopping_grpc p going at h = h
receive-Inv (e ∷ es) closing_redis p going at h = h
receive-Inv (e ∷ es) closing_database p going at h = h
receive-Inv (e ∷ es) stopped p going at h = h

quits-Inv : (r : Place) (p : Process) → p.run_at ≡ r → Inv p → Inv (quits r p)
unfolding quits
quits-Inv not_called p at h = h
quits-Inv cancelling p at h = h
quits-Inv shutting_http_down p at h = h
quits-Inv stopping_grpc p at h = h
quits-Inv closing_redis p at h = h
quits-Inv closing_database p at h = h
quits-Inv stopped p at h = ground (arith, at, h)

signal-Inv :
    (m : Place) (p : Process) → p.exit ≡ none → p.main_at ≡ m → Inv p → Inv (receive_signal m p)
unfolding receive_signal
signal-Inv not_called p going at h = ground (arith, going, at, h)
signal-Inv cancelling p going at h = h
signal-Inv shutting_http_down p going at h = h
signal-Inv stopping_grpc p going at h = h
signal-Inv closing_redis p going at h = h
signal-Inv closing_database p going at h = h
signal-Inv stopped p going at h = h

leaves-Inv : (m : Place) (p : Process) → p.main_at ≡ m → Inv p → Inv (leaves m p)
unfolding leaves
leaves-Inv not_called p at h = h
leaves-Inv cancelling p at h = h
leaves-Inv shutting_http_down p at h = h
leaves-Inv stopping_grpc p at h = h
leaves-Inv closing_redis p at h = h
leaves-Inv closing_database p at h = h
leaves-Inv stopped p at h = ground (arith, at, h)

move-Inv : (p : Process) (e : Event) → p.exit ≡ none → Inv p → Inv (move p e)
unfolding move
move-Inv p (grpc_returns none) going h = h
move-Inv p (grpc_returns (some e)) going h = h
move-Inv p (http_returns none) going h = h
move-Inv p (http_returns (some e)) going h = h
move-Inv p run_receives going h = receive-Inv p.err_chan p.run_at p going refl h
move-Inv p run_moves going h = run_stops-Inv p.run_at p going refl h
move-Inv p run_returns going h = quits-Inv p.run_at p refl h
move-Inv p signal going h = signal-Inv p.main_at p going refl h
move-Inv p main_moves going h = main_stops-Inv p.main_at p going refl h
move-Inv p main_returns going h = leaves-Inv p.main_at p refl h
move-Inv p listener_sends going h = ground (arith, going, h)

run-Inv : (p : Process) (es : List Event) → Inv p → Inv (run p es)
unfolding run
run-Inv p [] h = h
run-Inv p (e ∷ es) h = elim (Option-cases p.exit) [
  | inl going ↦ run-Inv _ es (ground (arith, going, move-Inv p e going h))
  | inr (x, over) ↦ run-Inv _ es (ground (arith, over, h))
]

-- What is stopped is stopped after what comes before it in `Stop`, at most one of the two calls is past
-- the closing of the subscriber, and the process ends normally, or with the code 1, only after the call
-- by `main`, or by `Run`, has done all.
abbrev pub Orderly : Process → Type 0
Orderly p =
    (implies p.http_shut_down p.ctx_cancelled ≡ true)
    × (implies p.grpc_stopped p.http_shut_down ≡ true)
    × (implies p.messages_closed p.grpc_stopped ≡ true)
    × (implies p.database_stopped p.messages_closed ≡ true)
    × ((past 4 p.main_at && past 4 p.run_at) ≡ false)
    × (implies (is_returned p.exit) (past 5 p.main_at) ≡ true)
    × (implies (is_exited p.exit) (past 5 p.run_at) ≡ true)

past-earlier :
    (n : ℕ) (m r : Place) → implies (past (suc n) m || past (suc n) r) (past n m || past n r) ≡ true
past-earlier n m r = ground arith

Inv-Orderly : (p : Process) → Inv p → Orderly p
Inv-Orderly p h = (
  rw (h.2, h.3) (past-earlier 1 p.main_at p.run_at),
  rw (h.3, h.4) (past-earlier 2 p.main_at p.run_at),
  rw (h.4, h.5) (past-earlier 3 p.main_at p.run_at),
  rw (h.5, h.6) (past-earlier 4 p.main_at p.run_at),
  h.7,
  h.8,
  h.9,
)

-- Whatever errors, signals and messages come, and however the calls of Stop by Run and by main overlap:
-- the HTTP server is shut down only after the cancellation, the gRPC server stopped only after that, the
-- subscriber closed only after that, and the database stopped only after that; at most one of the two
-- calls gets past the closing of the subscriber; the process ends normally only when the call of main
-- has done all, and with the code 1 only when the call of Run has.
pub shutdown-Orderly : (es : List Event) → Orderly (run started es)
shutdown-Orderly es =
    Inv-Orderly (run started es)
      (run-Inv started es (refl, refl, refl, refl, refl, refl, refl, refl, refl, refl))

-- Once one call of Stop has closed the subscriber, the other call, when it comes there, and a message
-- from Redis crash the process: the channel of the messages is closed.
pub stopped_process_crashes :
    (p : Process)
    → p.exit ≡ none
    → p.messages_closed ≡ true
    → p.main_at ≡ closing_redis
    → ((run p (main_moves ∷ [])).exit ≡ some crashed)
      × ((run p (listener_sends ∷ [])).exit ≡ some crashed)
unfolding run move main_stops stop close_subscriber
stopped_process_crashes p going closed at = ground (arith, going, closed, at)

-- The storage waits for PostgreSQL: it is opened with the first of five attempts that succeeds, after a
-- pause of two seconds for each attempt before it.
pub open_with_retries-First :
    {S : Type 0} (attempt : ℕ → Storage S) (error : ℕ → Text) (db : S) (rounds i k : ℕ)
    (last : Storage S)
    → k < rounds
    → ((j : ℕ) → j < k → attempt (i + j) ≡ failed (error (i + j)))
    → attempt (i + k) ≡ storage db
    → open_with_retries attempt rounds i last ≡ (storage db, k)
unfolding open_with_retries after_attempt
open_with_retries-First attempt error db zero i k last lt before at = absurd (omega (arith, lt))
open_with_retries-First attempt error db (suc rounds) i zero last lt before at =
    let here : attempt i ≡ storage db = ap attempt (omega arith) ∙ at in
    ap (λ a. after_attempt a (open_with_retries attempt rounds (suc i) (attempt i))) here
open_with_retries-First attempt error db (suc rounds) i (suc k) last lt before at =
    let here : attempt i ≡ failed (error (i + 0)) =
      ap attempt (omega arith) ∙ before 0 (omega arith) in
    let later =
      open_with_retries-First attempt error db rounds (suc i) k (attempt i) (omega (arith, lt))
        (λ j h.
          ap attempt (omega arith)
          ∙ before (suc j) (omega (arith, h))
          ∙ ap (λ n. failed (error n)) (omega arith))
        (ap attempt (omega arith) ∙ at) in
    ap (λ a. after_attempt a (open_with_retries attempt rounds (suc i) (attempt i))) here
    ∙ ap (λ (p : Storage _ × ℕ). (p.0, suc p.1)) later
