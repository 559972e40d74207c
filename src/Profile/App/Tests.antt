-- ===== src/Profile/App/Tests.antt =====
-- Starts and ends of the service.
use crypto_asset_tracker_mic.Base.{ℕ, suc, List, ◌++◌, [], ◌∷◌, none, some, ◌≡◌, refl, codes}
use crypto_asset_tracker_mic.Profile.App.{
  Storage, storage, failed, after_attempt, open_with_retries, migrated, new_storage, panics, new,
  broke, run_grpc, run_http, exited_1, started, close_subscriber, stop, http_returns, grpc_returns,
  run_receives, run_moves, run_returns, signal, main_moves, main_returns, receive, move, run,
  closed, run_stops, main_stops, quits, receive_signal, leaves, Event, returned, stopping_grpc,
}
use crypto_asset_tracker_mic.Profile.App.Shutdown.{Orderly, shutdown-Orderly}

everything : Unit {0}
unfolding after_attempt open_with_retries migrated new_storage new run_grpc run_http
    close_subscriber stop run_stops main_stops receive quits receive_signal leaves move run
everything = tt

-- PostgreSQL answers the third attempt.
abbrev third : ℕ → Storage ℕ
third (suc (suc i)) = storage i
third _ = failed (codes "refused")

opened_third : (open_with_retries third 5 0 (failed [])) ≡ (storage 0, 2)
unfolding everything
opened_third = refl

never_opened :
    new (new_storage (λ i. failed (codes "refused")) (λ (db : ℕ). none)) none
    ≡ panics (
        codes
          "failed to init storage: storage/postgres:  failed to connect after multiple retries: refused")
unfolding everything
never_opened = refl

abbrev run_stop : List Event
run_stop = run_moves ∷ run_moves ∷ run_moves ∷ run_moves ∷ run_moves ∷ []

exits_on_error :
    (run started (
      http_returns (run_http (broke (codes "in use"))) ∷ run_receives ∷ run_stop
      ++ run_returns ∷ [])).exit
    ≡ some exited_1
unfolding everything
exits_on_error = refl

-- A signal while `Run` waits for the gRPC server: `main` overtakes it and returns.
abbrev overlapping : List Event
overlapping =
    grpc_returns (some (codes "in use"))
    ∷ run_receives
    ∷ run_moves
    ∷ run_moves
    ∷ signal
    ∷ main_moves
    ∷ main_moves
    ∷ main_moves
    ∷ main_moves
    ∷ main_moves
    ∷ main_returns
    ∷ []

overtaken :
    ((run started overlapping).exit ≡ some returned)
    × ((run started overlapping).run_at ≡ stopping_grpc)
unfolding everything
overtaken = (refl, refl)

-- The servers that are closed by the shutdown report nothing.
closed_quietly : (run_grpc none closed ≡ none) × (run_http closed ≡ none)
unfolding everything
closed_quietly = (refl, refl)

shutdown-Orderly_example : Orderly (run started overlapping)
shutdown-Orderly_example = shutdown-Orderly overlapping
