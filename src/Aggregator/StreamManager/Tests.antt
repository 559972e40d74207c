-- ===== src/Aggregator/StreamManager/Tests.antt =====
-- The stream manager on two users and one symbol.
use crypto_asset_tracker_mic.Base.{
  ◌≤◌, true, false, [], ◌∷◌, none, ◌≡◌, refl, Text, text_eq, to_lower, lookup, insert, delete, has,
  contains, add, remove, keep, codes, length,
}
use crypto_asset_tracker_mic.Aggregator.StreamManager.{
  Task, System, new_stream_manager, followers_of, add_coin, delete_coin, finish, start, cancel,
  adds, created, later, Reach,
}
use crypto_asset_tracker_mic.Aggregator.StreamManager.Invariant.{of_symbol, one_stream_per_symbol}
use crypto_asset_tracker_mic.Aggregator.StreamManager.Followers.{follows}
use crypto_asset_tracker_mic.Aggregator.StreamManager.Lost.{
  AllCancelled, resubscribe_gets_cancelled_stream, ended_stream_stays_down,
}

everything : Unit {0}
unfolding add_coin delete_coin finish start cancel followers_of lookup insert delete has contains
    add remove to_lower
everything = tt

abbrev btc : Text
btc = codes "btc"

abbrev ann : Text
ann = codes "ann"

abbrev bob : Text
bob = codes "bob"

followed : System
unfolding everything
followed = (add_coin new_stream_manager (codes "BTC") ann).0

followed-Reach : Reach followed
unfolding followed
followed-Reach = later created (adds new_stream_manager (codes "BTC") ann)

abbrev running : Task
running = record { id = 0; symbol = btc; cancelled = false }

followed_state :
    (followed.streams ≡ (btc, 0) ∷ [])
    × (followed.followers ≡ (btc, ann ∷ []) ∷ [])
    × (followed.tasks ≡ running ∷ [])
unfolding everything followed
followed_state = (refl, refl, refl)

left_state :
    ((delete_coin followed btc ann).followers ≡ (btc, []) ∷ [])
    × ((delete_coin followed btc ann).tasks ≡ record running { cancelled = true } ∷ [])
    × ((add_coin followed btc ann).1 ≡ false)
unfolding everything followed
left_state = (refl, refl, refl)

one_stream_per_symbol_example : length (keep (of_symbol btc) followed.tasks) ≤ 1
one_stream_per_symbol_example = one_stream_per_symbol followed-Reach btc

resubscribe_gets_cancelled_stream_example :
    ((add_coin (delete_coin followed btc ann) btc bob).1 ≡ true)
    × AllCancelled (to_lower btc) (add_coin (delete_coin followed btc ann) btc bob).0.tasks
unfolding everything followed
resubscribe_gets_cancelled_stream_example =
    resubscribe_gets_cancelled_stream followed-Reach btc ann bob 0 (ann ∷ []) refl refl refl

ended_stream_stays_down_example :
    (lookup btc (finish followed running).streams ≡ none)
    × (follows (finish followed running) btc ann ≡ true)
    × (add_coin (finish followed running) btc ann ≡ (finish followed running, false))
    × ((add_coin (delete_coin (finish followed running) btc ann) btc ann).1 ≡ true)
    × (has btc (add_coin (delete_coin (finish followed running) btc ann) btc ann).0.streams ≡ true)
unfolding everything followed
ended_stream_stays_down_example = ended_stream_stays_down followed running ann refl refl
