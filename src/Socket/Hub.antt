-- ===== src/Socket/Hub.antt =====
-- Socket/connsock/connection_manager.go and Socket/svr/server.go: one connection per symbol, and the
-- gRPC streams that take its messages. A call holds the mutex, so it is one step.
pub mod Sharing
pub mod Streams
use crypto_asset_tracker_mic.Base.{
  ℕ, suc, Bool, true, false, List, [], ◌∷◌, ◌++◌, Option, none, some, Text, text_eq, codes, Dict,
  lookup, insert,
}

-- A producer that was started: the number of its channel and its address.
pub record Producer : Type 0 where
  pub output_chan : ℕ
  pub url_connection : Text

pub record ConnectionManager : Type 0 where
  pub connections : Dict Text Producer
  pub started : List Producer
  pub next_chan : ℕ

abbrev pub new_connection_manager : ConnectionManager
new_connection_manager = record { connections = []; started = []; next_chan = 0 }

-- Both operations differ in the key and the address only. The channel is returned.
unfoldable pub create : Text → Text → ConnectionManager → ℕ × ConnectionManager
unfolding insert
create key url m =
    let p : Producer = record { output_chan = m.next_chan; url_connection = url } in
    (
      m.next_chan,
      record {
        connections = insert key p m.connections;
        started = m.started ++ p ∷ [];
        next_chan = suc m.next_chan;
      },
    )

unfoldable pub get_or_create : Text → Text → ConnectionManager → ℕ × ConnectionManager
unfolding lookup
get_or_create key url m = elim (lookup key m.connections) [
  | some p ↦ (p.output_chan, m)
  | none ↦ create key url m
]

-- `base` is the setting of the address for trades.
unfoldable pub get_or_create_connection : Text → Text → ConnectionManager → ℕ × ConnectionManager
unfolding get_or_create create
get_or_create_connection base symbol m =
    get_or_create symbol (base ++ symbol ++ codes "@aggTrade") m

unfoldable pub get_mini_ticker_connection : Text → ConnectionManager → ℕ × ConnectionManager
unfolding get_or_create create
get_mini_ticker_connection url m = get_or_create (codes "miniTicker") url m

-- What the loop of a gRPC stream meets: a message with the outcome of `Send`, the channel closed, or an
-- end of the stream's or the program's context.
pub data ServeEvent : Type 0 where
  message : Text → Option Text → ServeEvent
  output_closed : ServeEvent
  stream_done : Option Text → ServeEvent
  main_done : Option Text → ServeEvent

-- The messages that were sent to the client, and the error that is returned.
unfoldable pub receive_raw : List ServeEvent → List Text × Option Text
receive_raw [] = ([], none)
receive_raw (output_closed ∷ es) = ([], none)
receive_raw (stream_done e ∷ es) = ([], e)
receive_raw (main_done e ∷ es) = ([], e)
receive_raw (message m (some e) ∷ es) = ([], some e)
receive_raw (message m none ∷ es) = let (ms, e) = receive_raw es in (m ∷ ms, e)

unfoldable pub receive_raw_agg_trade :
    Text
    → Text
    → (ℕ → List ServeEvent)
    → ConnectionManager
    → (List Text × Option Text) × ConnectionManager
receive_raw_agg_trade base symbol events m =
    let (chan, m') = get_or_create_connection base symbol m in (receive_raw (events chan), m')

unfoldable pub receive_raw_mini_ticker :
    Text → (ℕ → List ServeEvent) → ConnectionManager → (List Text × Option Text) × ConnectionManager
receive_raw_mini_ticker url events m =
    let (chan, m') = get_mini_ticker_connection url m in (receive_raw (events chan), m')
