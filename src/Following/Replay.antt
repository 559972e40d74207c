-- ===== src/Following/Replay.antt =====
-- What Aggregator holds after the requests that it served.
use crypto_asset_tracker_mic.Base.{
  true, false, List, [], ◌∷◌, Text, text_eq, ◌==◌, if◌then◌else◌, Option, none, some, ◌≡◌, refl, ap,
  ◌∙◌, arith, contains, lookup, All, to_lower, eq_iff, is_empty, ◌||◌, ◌&&◌, not,
}
use crypto_asset_tracker_mic.Profile.Models.{Uuid}
use crypto_asset_tracker_mic.Profile.Manager.{Notice, start_stream, stop_stream}
use crypto_asset_tracker_mic.Aggregator.StreamManager.{System, new_stream_manager, followers_of}
use crypto_asset_tracker_mic.Aggregator.StreamManager.Followers.{
  follows, follows-add_coin, follows-delete_coin,
}
use crypto_asset_tracker_mic.Aggregator.Endpoints.{get_coin, delete_coin_endpoint}
use crypto_asset_tracker_mic.Following.{
  notify_aggregator, served, serve_all, route, request_of, starter_from, symbol_of, requested,
}

follows-start :
    (user symbol : Text) (s : System) (k u : Text)
    → follows (notify_aggregator served (start_stream user symbol) s) k u ≡ (
        (not (is_empty symbol || is_empty user) && (to_lower symbol == k && user == u))
        || follows s k u)
unfolding notify_aggregator route request_of get_coin
follows-start user symbol s k u = ground (arith, (follows-add_coin s symbol user).0 k u)

pub follows-stop :
    (user symbol : Text) (s : System) (k u : Text)
    → follows (notify_aggregator served (stop_stream user symbol) s) k u ≡ (
        not (not (is_empty symbol || is_empty user) && (to_lower symbol == k && user == u))
        && follows s k u)
unfolding notify_aggregator route request_of delete_coin_endpoint
follows-stop user symbol s k u = ground (arith, follows-delete_coin s symbol user k u)

-- No other spelling of the symbol occurs in the requests.
abbrev pub OneSpelling : Text → List Notice → Type 0
OneSpelling k ns = All (λ n. to_lower (symbol_of n) ≡ to_lower k → symbol_of n ≡ k) ns

pub started-follows :
    (last : Option Uuid) (ns : List Notice) (s : System) (k u : Text)
    → is_empty k ≡ false
    → is_empty u ≡ false
    → OneSpelling k ns
    → starter_from last k ns ≡ some u
    → (last ≡ some u → follows s (to_lower k) u ≡ true)
    → follows (serve_all ns s) (to_lower k) u ≡ true
unfolding starter_from serve_all
started-follows last [] s k u ek eu one h f = f h
started-follows last (start_stream user symbol ∷ ns) s k u ek eu one h f =
    started-follows (if symbol == k then some user else last) ns
      (notify_aggregator served (start_stream user symbol) s) k u ek eu one.1 h
      (λ e. ground (
        arith,
        follows-start user symbol s (to_lower k) u,
        eq_iff symbol k,
        eq_iff (to_lower symbol) (to_lower k),
        eq_iff user u,
      ))
started-follows last (stop_stream user symbol ∷ ns) s k u ek eu one h f =
    started-follows (if symbol == k then none else last) ns
      (notify_aggregator served (stop_stream user symbol) s) k u ek eu one.1 h
      (λ e. ground (
        arith,
        one.0,
        follows-stop user symbol s (to_lower k) u,
        eq_iff symbol k,
        eq_iff (to_lower symbol) (to_lower k),
      ))

follows-replayed :
    (ns : List Notice) (s : System) (k u : Text)
    → follows (serve_all ns s) k u ≡ requested (follows s k u) k u ns
unfolding serve_all requested
follows-replayed [] s k u = refl
follows-replayed (start_stream user symbol ∷ ns) s k u =
    follows-replayed ns (notify_aggregator served (start_stream user symbol) s) k u
    ∙ ap (λ b. requested b k u ns) (follows-start user symbol s k u)
follows-replayed (stop_stream user symbol ∷ ns) s k u =
    follows-replayed ns (notify_aggregator served (stop_stream user symbol) s) k u
    ∙ ap (λ b. requested b k u ns) (follows-stop user symbol s k u)

-- After any sequence of served requests a user follows a symbol at Aggregator exactly if the last
-- request for this user and this symbol, read in lower case, was a start; requests without a symbol or
-- a user count for nothing.
pub follows-serve_all :
    (ns : List Notice) (k u : Text)
    → follows (serve_all ns new_stream_manager) k u ≡ requested false k u ns
unfolding followers_of contains lookup
follows-serve_all ns k u = follows-replayed ns new_stream_manager k u
