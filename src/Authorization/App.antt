-- ===== src/Authorization/App.antt =====
-- Authorization/internal/app/app.go, storage/postgres/postgres.go and cmd/main.go: the start and the
-- end of the service, and the loop that removes expired sessions. What gorm, the listener and the gRPC
-- server answer is an argument; `none` is a nil error.
pub mod Cleanup
pub mod Tests
use crypto_asset_tracker_mic.Base.{
  ℕ, Bool, true, false, List, [], ◌∷◌, ◌++◌, Option, none, some, Text, codes, if◌then◌else◌,
}
use crypto_asset_tracker_mic.Authorization.Models.{AuthDb}
use crypto_asset_tracker_mic.Authorization.Tokens.{delete_expired_token}

-- `fmt.Errorf` with `%w` at the end.
abbrev pub wraps : Text → Text → Text
wraps before e = before ++ e

-- A database, or the error of opening it.
pub data Storage (S : Type 0) : Type 0 where
  storage : S → Storage S
  failed : Text → Storage S

unfoldable pub migrated : {S : Type 0} → S → Option Text → Storage S
migrated db none = storage db
migrated db (some e) = failed (wraps (codes "storage.postgres.New: failed to migrate database: ") e)

-- `New` of the storage: the answer of `gorm.Open`, and what `AutoMigrate` says.
unfoldable pub new_storage : {S : Type 0} → Storage S → (S → Option Text) → Storage S
unfolding migrated
new_storage (failed e) migrate = failed (wraps (codes "storage.postgres.New: ") e)
new_storage (storage db) migrate = migrated db (migrate db)

-- `Stop` of the storage, with the errors of `DB` and of `Close`.
unfoldable pub stop_storage : Option Text → Option Text → Option Text
stop_storage (some e) closing = some (wraps (codes "failed to get underlying db connection: ") e)
stop_storage none closing = closing

-- `New` of the application: a panic, or the application, with whether reflection is registered.
pub data Built (S : Type 0) : Type 0 where
  panics : Text → Built S
  built : S → Bool → Built S

unfoldable pub new : {S : Type 0} → Bool → Storage S → Built S
new enable_reflection (failed e) = panics (wraps (codes "failed to init storage: ") e)
new enable_reflection (storage db) = built db enable_reflection

-- `Run`: the error it returns, from those of `Listen` and `Serve`.
unfoldable pub run : Option Text → Option Text → Option Text
run (some e) serving = some (wraps (codes "app.Run: gRPC server failed to serve: ") e)
run none (some e) = some (wraps (codes "app.Run: gRPC server failed to serve: ") e)
run none none = none

-- What the service does when it ends: `Stop`, and then `main` returns, or an exit at once.
pub data Action : Type 0 where
  stops_grpc stops_database returns exits : Action

abbrev pub stop : List Action
stop = stops_grpc ∷ stops_database ∷ []

-- What `main` and its goroutine meet: the end of `Run`, or a signal.
pub data Event : Type 0 where
  run_returned : Option Text → Event
  signal : Event

unfoldable pub main : List Event → List Action
main [] = []
main (run_returned none ∷ es) = main es
main (run_returned (some e) ∷ es) = exits ∷ []
main (signal ∷ es) = stop ++ returns ∷ []

-- `runTokenCleanup`: one round per tick, each with its readings of the clock; an error is logged only.
unfoldable pub run_token_cleanup : (db : AuthDb) → List (ℕ → ℕ) → db.State → db.State
run_token_cleanup db [] s = s
run_token_cleanup db (clock ∷ ticks) s =
    run_token_cleanup db ticks (delete_expired_token db clock s).1
