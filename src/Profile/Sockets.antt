-- ===== src/Profile/Sockets.antt =====
-- The connections of the clients: `wsConnect` and the routes of Profile/internal/handler/http/
-- handler.go, and the goroutines `Writer` and `Reader` of Profile/internal/websocket/manager.go. What
-- the websocket library answers to each read and write is an argument.
pub mod Pumps
pub mod Tests
use crypto_asset_tracker_mic.Base.{
  ℕ, Bool, true, false, List, [], ◌∷◌, ◌++◌, Option, none, some, if◌then◌else◌, Text, text_eq,
  nat_eq, codes, insert, ◌==◌, ◌&&◌, first,
}
use crypto_asset_tracker_mic.Profile.Models.{Decimal, Uuid, User}
use crypto_asset_tracker_mic.Profile.Users.{UserDb}
use crypto_asset_tracker_mic.Profile.Manager.{Client, Manager, Event, registers, unregisters}
use crypto_asset_tracker_mic.Profile.Http.{HttpReply, fails, ws_profile, or_nil}
use crypto_asset_tracker_mic.Profile.Middleware.{
  SigningMethod, ParsedToken, Gate, passes, refused, auth_middleware,
}

pub data Verb : Type 0 where
  get post delete : Verb

pub data Action : Type 0 where
  register login get_user_profile create_user_profile update_coin_quantity delete_coin ws_connect :
      Action

abbrev pub verb_beq : Verb → Verb → Bool
verb_beq get get = true
verb_beq post post = true
verb_beq delete delete = true
verb_beq _ _ = false

-- A route: whether it lies behind the middleware, and its handler.
pub record Route : Type 0 where
  pub verb : Verb
  pub path : Text
  pub guarded : Bool
  pub action : Action

abbrev pub in_api : Text → Text
in_api path = codes "/api/v1" ++ path

-- The engine with the routes of `RegisterRoutes`.
abbrev pub register_routes : List Route
register_routes =
    record {
      verb = post;
      path = in_api (codes "/auth/register");
      guarded = false;
      action = register;
    }
    ∷ record { verb = post; path = in_api (codes "/auth/login"); guarded = false; action = login }
    ∷ record {
      verb = get;
      path = in_api (codes "/profile");
      guarded = true;
      action = get_user_profile;
    }
    ∷ record {
      verb = post;
      path = in_api (codes "/profile");
      guarded = true;
      action = create_user_profile;
    }
    ∷ record {
      verb = post;
      path = in_api (codes "/profile/coins");
      guarded = true;
      action = update_coin_quantity;
    }
    ∷ record {
      verb = delete;
      path = in_api (codes "/profile/coins");
      guarded = true;
      action = delete_coin;
    }
    ∷ record { verb = get; path = in_api (codes "/ws"); guarded = true; action = ws_connect }
    ∷ []

-- What becomes of a request: no route, a refusal, or a handler with the identifier and the name that
-- the middleware passes on, if any.
pub data Dispatched : Type 0 where
  no_route : Dispatched
  unauthorized : Text → Dispatched
  handled : Action → Option (Text × Text) → Dispatched

unfoldable pub through : Action → Gate → Dispatched
through action (passes id name) = handled action (some (id, name))
through action (refused text) = unauthorized text

unfoldable pub dispatch :
    (Text → (SigningMethod → Option Text) → ParsedToken) → Text → Verb → Text → Text → Dispatched
unfolding through
dispatch jwt_parse secret verb path header =
    elim (first (λ r. verb_beq r.verb verb && r.path == path) register_routes) [
      | none ↦ no_route
      | some r ↦
          if r.guarded
          then through r.action (auth_middleware jwt_parse secret header)
          else handled r.action none
    ]

pub data Frame : Type 0 where
  text_frame : Text → Frame
  ping_frame close_frame : Frame

-- What the `select` of `Writer` gets: a message of the queue, that the queue is closed, or its ticker.
pub data WriterEvent : Type 0 where
  queued : Text → WriterEvent
  queue_closed ticker_fires : WriterEvent

-- The frames that `Writer` writes until it returns, and closes the connection. Each event comes with
-- whether the write succeeds.
unfoldable pub writer : List (WriterEvent × Bool) → List Frame
writer [] = []
writer ((queued m, true) ∷ es) = text_frame m ∷ writer es
writer ((queued m, false) ∷ es) = []
writer ((queue_closed, true) ∷ es) = close_frame ∷ []
writer ((queue_closed, false) ∷ es) = []
writer ((ticker_fires, true) ∷ es) = ping_frame ∷ writer es
writer ((ticker_fires, false) ∷ es) = []

module _ (D : Decimal) where
  -- `Reader` of the client at a pointer: what it asks of the manager, when a read fails.
  unfoldable pub reader : ℕ → List Bool → List (Event D)
  reader ref [] = []
  reader ref (true ∷ reads) = reader ref reads
  reader ref (false ∷ reads) = unregisters ref ∷ []

  abbrev pub new_client : Uuid → User D → Client D
  new_client user profile = record {
    user_id = user;
    profile = profile;
    send = [];
    send_closed = false;
    conn_closed = false;
    prices = [];
  }

  -- How a call of `wsConnect` ends: a reply, no upgrade, or a client that was handed to the manager.
  pub data Connection : Type 0 where
    replied : HttpReply D → Connection
    not_upgraded : Connection
    connected : ℕ → Connection

  -- With the profile at hand: `ref` is the new pointer, `acknowledged` what Redis will answer.
  unfoldable pub upgrade :
      Bool
      → (Text → Bool)
      → ℕ
      → Uuid
      → Option (User D)
      → Manager D
      → Connection × Manager D × List (Event D)
  upgrade upgraded acknowledged ref user none m =
      (replied (fails D 500 (codes "could not authorize websocket")), m, [])
  upgrade upgraded acknowledged ref user (some profile) m =
      if upgraded
      then (
        connected ref,
        record m { heap = insert ref (new_client user profile) m.heap },
        registers acknowledged ref ∷ [],
      )
      else (not_upgraded, m, [])

  module _ (parse_uuid : Text → Option Uuid) (nil : Uuid) (users : UserDb D) where
    -- `wsConnect`: the outcome, the database, the manager, and what the manager will serve.
    unfoldable pub connect :
        Bool
        → (Text → Bool)
        → ℕ
        → Text
        → Text
        → users.State
        → Manager D
        → (Connection × Manager D × List (Event D)) × users.State
    unfolding upgrade
    connect upgraded acknowledged ref id name s m =
        let (profile, s') = ws_profile D parse_uuid nil users id name s in
        (upgrade upgraded acknowledged ref (or_nil D nil (parse_uuid id)) profile m, s')
