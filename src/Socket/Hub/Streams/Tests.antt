-- ===== src/Socket/Hub/Streams/Tests.antt =====
-- Two streams on one channel.
use crypto_asset_tracker_mic.Base.{
  ◌+◌, Bool, true, List, [], ◌∷◌, none, ◌≡◌, refl, Text, text_eq, codes, lookup, insert, map, tally,
  put_at,
}
use crypto_asset_tracker_mic.Socket.Hub.{create, get_or_create, get_or_create_connection}
use crypto_asset_tracker_mic.Socket.Hub.Streams.{
  Stream, Serving, new_serving, open_stream, put, take_message, take_turn, end_stream, Move,
  asks_trades, puts, takes, step, run,
}
use crypto_asset_tracker_mic.Socket.Hub.Streams.Counted.{put_all}
use crypto_asset_tracker_mic.Socket.Hub.Streams.Dividing.{taken_by, streams_divide_messages}

-- Two clients ask for a symbol; three messages arrive, and the second client gets the first.
abbrev two_clients : List Move
two_clients =
    asks_trades (codes "btc")
    ∷ asks_trades (codes "btc")
    ∷ puts 0 (codes "a")
    ∷ puts 0 (codes "b")
    ∷ puts 0 (codes "c")
    ∷ takes 1 none
    ∷ takes 0 none
    ∷ []

served : Serving
unfolding run step open_stream put take_turn take_message end_stream put_at get_or_create_connection
    get_or_create create lookup insert
served = run (codes "wss://") new_serving two_clients

abbrev any : Text → Bool
any m = true

divided :
    (map (λ (t : Stream). t.taken) served.streams ≡ (codes "b" ∷ []) ∷ (codes "a" ∷ []) ∷ [])
    × (served.waiting 0 ≡ codes "c" ∷ [])
unfolding served
divided = (refl, refl)

streams_divide_messages_example :
    taken_by any (codes "btc") (run (codes "wss://") new_serving two_clients).streams
      + tally any ((run (codes "wss://") new_serving two_clients).waiting 0)
    ≡ tally any (put_all (codes "wss://") new_serving two_clients 0)
unfolding run step open_stream put take_turn take_message end_stream put_at get_or_create_connection
    get_or_create create lookup insert
streams_divide_messages_example =
    streams_divide_messages (codes "wss://") two_clients (codes "btc")
      (record { output_chan = 0; url_connection = codes "wss://btc@aggTrade" }) any refl
