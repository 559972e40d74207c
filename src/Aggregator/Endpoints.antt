-- ===== src/Aggregator/Endpoints.antt =====
-- Aggregator/cmd/main.go: the HTTP endpoints by which Profile subscribes users, and
-- Aggregator/adapters/reddis/writer.go: the publication of the prices.
pub mod Answers
use crypto_asset_tracker_mic.Base.{
  is_empty, ℕ, Bool, true, false, ◌||◌, List, [], ◌∷◌, Option, none, some, if◌then◌else◌, Text,
  codes,
}
use crypto_asset_tracker_mic.Aggregator.StreamManager.{System, add_coin, delete_coin}
use crypto_asset_tracker_mic.Aggregator.Models.{Numbers, SecondStat}
use crypto_asset_tracker_mic.Aggregator.Converting.{Incoming, message, closed, cancelled}

-- A status code and the fields of a JSON object.
pub record HttpReply : Type 0 where
  pub code : ℕ
  pub fields : List (Text × Text)

abbrev pub bad_request : HttpReply
bad_request = record {
  code = 400;
  fields = (codes "error", codes "symbol and id query parameters are required") ∷ [];
}

abbrev pub subscription : Text → Text → Text → HttpReply
subscription status symbol id = record {
  code = 200;
  fields = (codes "status", status) ∷ (codes "symbol", symbol) ∷ (codes "userID", id) ∷ [];
}

-- `GET /coin` and `DELETE /coin`.
unfoldable pub get_coin : Text → Text → System → System × HttpReply
get_coin symbol id s =
    if is_empty symbol || is_empty id
    then (s, bad_request)
    else let (s', started) = add_coin s symbol id in
      (
        s',
        if started
            then subscription (codes "subscription_added") symbol id
            else subscription (codes "already_subscribed") symbol id,
      )

unfoldable pub delete_coin_endpoint : Text → Text → System → System × HttpReply
delete_coin_endpoint symbol id s =
    if is_empty symbol || is_empty id
    then (s, bad_request)
    else (delete_coin s symbol id, subscription (codes "subscription_removed") symbol id)

module _ (N : Numbers) where
  -- A message that was published: the channel and the data. The outcome of `Publish` is an argument.
  pub record Published : Type 0 where
    pub channel : Text
    pub payload : Text

  -- The error that is returned: of a failed `Publish` the code returns the older error, which is nil.
  unfoldable pub save_second_stat :
      (SecondStat N → Option Text) → Bool → SecondStat N → Option Published × Bool
  save_second_stat marshal accepted m = elim (marshal m) [
    | none ↦ (none, true)
    | some v ↦
        if accepted
        then (some (record { channel = m.symbol; payload = v }), false)
        else (none, false)
  ]

  -- `Start`, after the ping: what is published. Each message comes with the outcome of its `Publish`.
  unfoldable pub start_saver :
      (SecondStat N → Option Text) → List (Bool × Incoming (SecondStat N)) → List Published
  start_saver marshal [] = []
  start_saver marshal ((accepted, closed) ∷ es) = []
  start_saver marshal ((accepted, cancelled) ∷ es) = []
  start_saver marshal ((accepted, message m) ∷ es) =
      let rest = start_saver marshal es in
      elim (save_second_stat marshal accepted m).0 [ none ↦ rest | some p ↦ p ∷ rest ]

  -- `Start` with the answer of its ping, whose error ends it.
  unfoldable pub start_after_ping :
      (SecondStat N → Option Text)
      → Option Text
      → List (Bool × Incoming (SecondStat N))
      → List Published
  unfolding start_saver
  start_after_ping marshal (some e) es = []
  start_after_ping marshal none es = start_saver marshal es
