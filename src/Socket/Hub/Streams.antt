-- ===== src/Socket/Hub/Streams.antt =====
-- The gRPC server of Socket/svr/server.go and Socket/cmd/main.go, and its streams with the channels of
-- the producers that they share.
pub mod Counted
pub mod Dividing
pub mod Tests
use crypto_asset_tracker_mic.Base.{
  ℕ, Bool, true, false, List, [], ◌∷◌, ◌++◌, Option, none, some, Text, codes, if◌then◌else◌, ltb,
  nat_beq, length, get_elem?, put_at,
}
use crypto_asset_tracker_mic.Socket.Hub.{
  ConnectionManager, new_connection_manager, get_or_create_connection, get_mini_ticker_connection,
}

-- What `StartServer` does: it returns at once if it cannot listen; otherwise it serves until the
-- context ends, and stops. An error of `Serve` is logged only.
pub data Action : Type 0 where
  listens serves stops : Action

unfoldable pub start_server : Option Text → List Action
start_server (some e) = []
start_server none = listens ∷ serves ∷ stops ∷ []

abbrev pub output_cap : ℕ
output_cap = 100

-- A call of `ReceiveRawAggTrade` (its key is the symbol) or of `ReceiveRawMiniTicker`: the messages that
-- it took from its channel, and whether it goes on.
pub record Stream : Type 0 where
  pub key : Text
  pub output_chan : ℕ
  pub taken : List Text
  pub is_open : Bool

-- `waiting c` is what the channel `c` holds.
pub record Serving : Type 0 where
  pub manager : ConnectionManager
  pub waiting : ℕ → List Text
  pub streams : List Stream

abbrev pub nothing_waits : ℕ → List Text
nothing_waits c = []

abbrev pub new_serving : Serving
new_serving = record { manager = new_connection_manager; waiting = nothing_waits; streams = [] }

unfoldable pub open_stream : Text → ℕ × ConnectionManager → Serving → Serving
open_stream key (chan, m) s = record s {
  manager = m;
  streams = s.streams ++ record { key = key; output_chan = chan; taken = []; is_open = true } ∷ [];
}

abbrev pub set_waiting : ℕ → List Text → Serving → Serving
set_waiting c ms s = record s { waiting = λ d. if nat_beq d c then ms else s.waiting d }

-- The reader of a connection puts a message into the channel, if it has room.
unfoldable pub put : ℕ → Text → Serving → Serving
put c m s =
    if ltb (length (s.waiting c)) output_cap then set_waiting c (s.waiting c ++ m ∷ []) s else s

abbrev pub is_nil : Option Text → Bool
is_nil none = true
is_nil (some e) = false

-- A stream takes a message, whose `Send` answers `e`; an error ends the stream.
unfoldable pub take_message : ℕ → Option Text → Stream → List Text → Serving → Serving
unfolding put_at
take_message i e t [] s = s
take_message i e t (m ∷ ms) s = record (set_waiting t.output_chan ms s) {
  streams = put_at i (some (record t { taken = t.taken ++ m ∷ []; is_open = is_nil e })) s.streams;
}

unfoldable pub take_turn : ℕ → Option Text → Option Stream → Serving → Serving
unfolding take_message
take_turn i e none s = s
take_turn i e (some t) s = if t.is_open then take_message i e t (s.waiting t.output_chan) s else s

-- The context of a stream, or of the program, ends.
unfoldable pub end_stream : ℕ → Option Stream → Serving → Serving
unfolding put_at
end_stream i none s = s
end_stream i (some t) s = record s {
  streams = put_at i (some (record t { is_open = false })) s.streams;
}

pub data Move : Type 0 where
  asks_trades asks_mini_tickers : Text → Move
  puts : ℕ → Text → Move
  takes : ℕ → Option Text → Move
  ends : ℕ → Move

-- `base` is the setting of the address for trades; a request for the tickers brings the setting of its
-- address along.
unfoldable pub step : Text → Serving → Move → Serving
unfolding open_stream put take_turn end_stream get_or_create_connection get_mini_ticker_connection
step base s (asks_trades symbol) =
    open_stream symbol (get_or_create_connection base symbol s.manager) s
step base s (asks_mini_tickers url) =
    open_stream (codes "miniTicker") (get_mini_ticker_connection url s.manager) s
step base s (puts c m) = put c m s
step base s (takes i e) = take_turn i e (get_elem? s.streams i) s
step base s (ends i) = end_stream i (get_elem? s.streams i) s

unfoldable pub run : Text → Serving → List Move → Serving
unfolding step
run base s [] = s
run base s (m ∷ ms) = run base (step base s m) ms
