-- ===== src/Following.antt =====
-- How Profile has Aggregator follow coins: `notifyAggregator` of Profile/internal/websocket/manager.go
-- and the endpoints of Aggregator/cmd/main.go that it calls. The query of a request carries the texts
-- that `url.QueryEscape` wrote and gin's `Query` reads back.
pub mod Replay
pub mod Watched
pub mod Leaving
pub mod Tests
use crypto_asset_tracker_mic.Base.{
  Bool, true, false, List, [], ◌∷◌, Text, codes, text_eq, ◌==◌, if◌then◌else◌, Option, none, some,
  ◌&&◌, ◌||◌, not, is_empty, to_lower,
}
use crypto_asset_tracker_mic.Profile.Models.{Uuid}
use crypto_asset_tracker_mic.Profile.Manager.{Notice, start_stream, stop_stream}
use crypto_asset_tracker_mic.Aggregator.StreamManager.{System}
use crypto_asset_tracker_mic.Aggregator.Endpoints.{get_coin, delete_coin_endpoint, HttpReply}

pub data Method : Type 0 where
  get delete : Method

pub record Request : Type 0 where
  pub method : Method
  pub symbol : Text
  pub id : Text

unfoldable pub request_of : Notice → Request
request_of (start_stream user symbol) = record { method = get; symbol = symbol; id = user }
request_of (stop_stream user symbol) = record { method = delete; symbol = symbol; id = user }

-- The routes of the Aggregator.
unfoldable pub route : Method → Text → Text → System → System × HttpReply
route get symbol id s = get_coin symbol id s
route delete symbol id s = delete_coin_endpoint symbol id s

-- What became of a request: it was not built or did not arrive, or it was served. Neither an error nor
-- the status of the answer changes what happens next.
pub data Delivery : Type 0 where
  lost served : Delivery

unfoldable pub notify_aggregator : Delivery → Notice → System → System
unfolding request_of route
notify_aggregator lost n s = s
notify_aggregator served n s = let r = request_of n in (route r.method r.symbol r.id s).0

-- The requests that are served, in the order in which they arrive.
unfoldable pub serve_all : List Notice → System → System
serve_all [] s = s
serve_all (n ∷ ns) s = serve_all ns (notify_aggregator served n s)

abbrev pub valid : Text → Uuid → Bool
valid symbol user = not (is_empty symbol || is_empty user)

-- Whether the last request on a symbol in lower case for a user was a start, from what holds before.
unfoldable pub requested : Bool → Text → Uuid → List Notice → Bool
requested last k u [] = last
requested last k u (start_stream user symbol ∷ ns) =
    requested ((valid symbol user && (to_lower symbol == k && user == u)) || last) k u ns
requested last k u (stop_stream user symbol ∷ ns) =
    requested (not (valid symbol user && (to_lower symbol == k && user == u)) && last) k u ns

-- The user in whose name the last request on a symbol starts its stream, if it starts it.
unfoldable pub starter_from : Option Uuid → Text → List Notice → Option Uuid
starter_from last k [] = last
starter_from last k (start_stream user symbol ∷ ns) =
    starter_from (if symbol == k then some user else last) k ns
starter_from last k (stop_stream user symbol ∷ ns) =
    starter_from (if symbol == k then none else last) k ns

abbrev pub starter : Text → List Notice → Option Uuid
starter k ns = starter_from none k ns

abbrev pub symbol_of : Notice → Text
symbol_of (start_stream user symbol) = symbol
symbol_of (stop_stream user symbol) = symbol

abbrev pub user_of : Notice → Uuid
user_of (start_stream user symbol) = user
user_of (stop_stream user symbol) = user
