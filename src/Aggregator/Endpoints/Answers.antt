-- ===== src/Aggregator/Endpoints/Answers.antt =====
-- What the endpoints answer, and on which channels prices are published.
use crypto_asset_tracker_mic.Base.{
  is_empty, Bool, true, false, List, [], ◌∷◌, Option, ◌≡◌, refl, ◌∙◌, Text, text_eq, eq_refl, codes,
  to_lower, All, Option-cases, inl, inr,
}
use crypto_asset_tracker_mic.Aggregator.StreamManager.{System, add_coin, delete_coin}
use crypto_asset_tracker_mic.Aggregator.StreamManager.Followers.{
  follows-add_coin, follows-delete_coin,
}
use crypto_asset_tracker_mic.Aggregator.Models.{Numbers, SecondStat}
use crypto_asset_tracker_mic.Aggregator.Converting.{Incoming, message, closed, cancelled}
use crypto_asset_tracker_mic.Aggregator.Converting.LatestPrices.{LowerSymbols}
use crypto_asset_tracker_mic.Aggregator.Endpoints.{
  subscription, get_coin, delete_coin_endpoint, Published, save_second_stat, start_saver,
}

added_twice :
    (s : System) (symbol id : Text) → (add_coin (add_coin s symbol id).0 symbol id).1 ≡ false
added_twice s symbol id =
    (follows-add_coin (add_coin s symbol id).0 symbol id).1
    ∙ rw ((follows-add_coin s symbol id).0 (to_lower symbol) id)
        (rw (eq_refl (to_lower symbol), eq_refl id) refl)

added_after_delete :
    (s : System) (symbol id : Text) → (add_coin (delete_coin s symbol id) symbol id).1 ≡ true
added_after_delete s symbol id =
    (follows-add_coin (delete_coin s symbol id) symbol id).1
    ∙ rw (follows-delete_coin s symbol id (to_lower symbol) id)
        (rw (eq_refl (to_lower symbol), eq_refl id) refl)

-- For a symbol and an id that are not empty, a second subscription in a row is answered as one that is
-- already there, and a subscription right after its removal as a new one.
pub get_coin-Answers :
    (s : System) (symbol id : Text)
    → is_empty symbol ≡ false
    → is_empty id ≡ false
    → ((get_coin symbol id (get_coin symbol id s).0).1
        ≡ subscription (codes "already_subscribed") symbol id)
      × ((get_coin symbol id (delete_coin_endpoint symbol id s).0).1
          ≡ subscription (codes "subscription_added") symbol id)
unfolding get_coin delete_coin_endpoint
get_coin-Answers s symbol id n m = (
  rw (n, m) (rw (added_twice s symbol id) refl),
  rw (n, m) (rw (added_after_delete s symbol id) refl),
)

-- The messages that a loop takes before it ends.
abbrev pub stats : (N : Numbers) → List (Bool × Incoming (SecondStat N)) → List (SecondStat N)
stats N [] = []
stats N ((b, closed) ∷ es) = []
stats N ((b, cancelled) ∷ es) = []
stats N ((b, message m) ∷ es) = m ∷ stats N es

-- If the symbols of the messages that are taken are in lower case, the channels on which they are
-- published are.
pub start_saver-LowerChannels :
    (N : Numbers) (marshal : SecondStat N → Option Text)
    (es : List (Bool × Incoming (SecondStat N)))
    → LowerSymbols N (stats N es)
    → All (λ (p : Published N). to_lower p.channel ≡ p.channel) (start_saver N marshal es)
unfolding start_saver save_second_stat
start_saver-LowerChannels N marshal [] h = tt
start_saver-LowerChannels N marshal ((b, closed) ∷ es) h = tt
start_saver-LowerChannels N marshal ((b, cancelled) ∷ es) h = tt
start_saver-LowerChannels N marshal ((true, message m) ∷ es) h = elim (Option-cases (marshal m)) [
  | inl e ↦ rw (e, start_saver) (start_saver-LowerChannels N marshal es h.1)
  | inr (v, e) ↦ rw (e, start_saver) (h.0, start_saver-LowerChannels N marshal es h.1)
]
start_saver-LowerChannels N marshal ((false, message m) ∷ es) h = elim (Option-cases (marshal m)) [
  | inl e ↦ rw (e, start_saver) (start_saver-LowerChannels N marshal es h.1)
  | inr (v, e) ↦ rw (e, start_saver) (start_saver-LowerChannels N marshal es h.1)
]
