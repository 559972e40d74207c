-- ===== src/Following/Tests.antt =====
-- Two users of one coin at both services.
use crypto_asset_tracker_mic.Base.{
  true, false, [], ◌∷◌, ◌≡◌, ◌≢◌, eq_iff, refl, none, text_eq, nat_eq, contains, to_lower, codes,
}
use crypto_asset_tracker_mic.Profile.Models.{Uuid}
use crypto_asset_tracker_mic.Profile.Whole.{whole}
use crypto_asset_tracker_mic.Profile.Manager.{
  Manager, registers, unregisters, run, unregister_client,
}
use crypto_asset_tracker_mic.Profile.Manager.Tests.{
  everything, btc, ann, always, fresh, connection, parse, print,
}
use crypto_asset_tracker_mic.Aggregator.StreamManager.{new_stream_manager}
use crypto_asset_tracker_mic.Aggregator.StreamManager.Followers.{follows}
use crypto_asset_tracker_mic.Following.{serve_all, starter_from, starter, requested}
use crypto_asset_tracker_mic.Following.Replay.{follows-serve_all}
use crypto_asset_tracker_mic.Following.Watched.{active_coin_is_followed}
use crypto_asset_tracker_mic.Following.Leaving.{other_leaver_leaks}
use crypto_asset_tracker_mic.Profile.Manager.Watchers.{watches}

abbrev bob : Uuid
bob = codes "bob"

-- Ann comes, Bob comes, Ann leaves.
both : Manager whole
unfolding everything
both = run whole parse print fresh (registers always 1 ∷ registers always 3 ∷ unregisters 1 ∷ [])

active_coin_is_followed_example :
    (u : Uuid) × (follows
        (serve_all
          (run whole parse print fresh
            (registers always 1 ∷ registers always 3 ∷ unregisters 1 ∷ [])).notices
          new_stream_manager)
        (to_lower btc)
        u
      ≡ true)
unfolding everything
active_coin_is_followed_example =
    active_coin_is_followed whole parse print fresh.heap
      (registers always 1 ∷ registers always 3 ∷ unregisters 1 ∷ []) btc refl (λ _. refl, tt)
      (refl, tt) refl

bob_not_ann : bob ≢ ann
bob_not_ann e = let h : false ≡ true = (eq_iff bob ann).1 e in cc

-- Bob, the only watcher left, leaves as well.
other_leaver_leaks_example :
    ((v : Uuid) → watches whole (unregister_client whole both 3) btc v ≡ false)
    × (contains btc (unregister_client whole both 3).active_redis_sub ≡ false)
    × (starter btc (unregister_client whole both 3).notices ≡ none)
    × (follows
          (serve_all (unregister_client whole both 3).notices new_stream_manager)
          (to_lower btc)
          ann
        ≡ true)
unfolding everything both starter_from
other_leaver_leaks_example =
    other_leaver_leaks whole both 3 (connection bob) btc ann refl (λ _. refl, tt) (refl, tt) refl
      bob_not_ann refl refl refl

follows-serve_all_example :
    follows (serve_all both.notices new_stream_manager) btc ann
    ≡ requested false btc ann both.notices
follows-serve_all_example = follows-serve_all both.notices btc ann
