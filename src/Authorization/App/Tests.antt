-- ===== src/Authorization/App/Tests.antt =====
-- Starts, ends and ticks over the database in memory.
use crypto_asset_tracker_mic.Base.{ℕ, true, [], ◌∷◌, ◌++◌, none, some, ◌≡◌, refl, codes, keep}
use crypto_asset_tracker_mic.Authorization.Tests.{everything, memory, memory-laws, store}
use crypto_asset_tracker_mic.Authorization.App.{
  Storage, storage, failed, migrated, new_storage, panics, new, run, stops_grpc, stops_database,
  returns, exits, run_returned, signal, main, run_token_cleanup,
}
use crypto_asset_tracker_mic.Authorization.App.Cleanup.{
  survives, Live, run_token_cleanup-Keeps, expired_sessions_end,
}

starts : Unit {0}
unfolding migrated new_storage new run main run_token_cleanup
starts = tt

abbrev no_table : Storage ℕ
no_table = failed (codes "storage.postgres.New: failed to migrate database: denied")

not_migrated : new_storage (storage 1) (λ db. some (codes "denied")) ≡ no_table
unfolding starts
not_migrated = refl

panicked :
    new true no_table
    ≡ panics
        (codes "failed to init storage: storage.postgres.New: failed to migrate database: denied")
unfolding starts
panicked = refl

stopped : main (signal ∷ run_returned none ∷ []) ≡ stops_grpc ∷ stops_database ∷ returns ∷ []
unfolding starts
stopped = refl

broken : main (run_returned (run none (some (codes "closed"))) ∷ signal ∷ []) ≡ exits ∷ []
unfolding starts
broken = refl

run_token_cleanup-Keeps_example :
    (run_token_cleanup memory ((λ i. 51) ∷ []) store).sessions
    ≡ keep (survives memory ((λ i. 51) ∷ []) store) (memory.sessions store)
run_token_cleanup-Keeps_example = run_token_cleanup-Keeps memory memory-laws ((λ i. 51) ∷ []) store

expired_sessions_end_example : Live 51 (
    memory.sessions
      (run_token_cleanup memory (((λ i. 5) ∷ []) ++ (λ i. 51) ∷ (λ i. 52) ∷ []) store))
unfolding everything starts
expired_sessions_end_example =
    expired_sessions_end memory memory-laws ((λ i. 5) ∷ []) (λ i. 51) ((λ i. 52) ∷ []) store refl
