-- ===== src/Aggregator/Converting/Routing.antt =====
-- Where the messages of the exchange go.
use crypto_asset_tracker_mic.Base.{
  Bool, List, [], ◌∷◌, ◌++◌, append-nil, append_assoc, ◌≡◌, sym, ap, ◌∙◌, arith, Text, keep,
}
use crypto_asset_tracker_mic.Aggregator.Converting.{
  Incoming, message, closed, cancelled, Routes, begins, route, distribute_messages,
}

-- The messages that a loop takes before it ends.
abbrev pub taken : {A : Type 0} → List (Incoming A) → List A
taken [] = []
taken (closed ∷ es) = []
taken (cancelled ∷ es) = []
taken (message m ∷ es) = m ∷ taken es

route-agg_trades :
    (msg : Text) (r : Routes)
    → (route msg r).agg_trades ≡ r.agg_trades ++ keep (begins b'{') (msg ∷ [])
unfolding route
route-agg_trades [] r = sym (append-nil r.agg_trades)
route-agg_trades (b ∷ bs) r = ground (arith, append-nil r.agg_trades)

route-mini_tickers :
    (msg : Text) (r : Routes)
    → (route msg r).mini_tickers ≡ r.mini_tickers ++ keep (begins b'[') (msg ∷ [])
unfolding route
route-mini_tickers [] r = sym (append-nil r.mini_tickers)
route-mini_tickers (b ∷ bs) r = ground (arith, append-nil r.mini_tickers)

keep_one :
    (p : Text → Bool) (m : Text) (ms : List Text) → keep p (m ∷ ms) ≡ keep p (m ∷ []) ++ keep p ms
keep_one p m ms = ground arith

-- Every message taken before the end that begins with a brace goes to the channel of the trades, every
-- one that begins with a bracket to that of the day statistics, in the order of arrival, and no other
-- message goes anywhere.
pub distribute_messages-Routes :
    (es : List (Incoming Text)) (r : Routes)
    → ((distribute_messages es r).agg_trades ≡ r.agg_trades ++ keep (begins b'{') (taken es))
      × ((distribute_messages es r).mini_tickers ≡ r.mini_tickers ++ keep (begins b'[') (taken es))
unfolding distribute_messages
distribute_messages-Routes [] r = (sym (append-nil r.agg_trades), sym (append-nil r.mini_tickers))
distribute_messages-Routes (closed ∷ es) r =
    (sym (append-nil r.agg_trades), sym (append-nil r.mini_tickers))
distribute_messages-Routes (cancelled ∷ es) r =
    (sym (append-nil r.agg_trades), sym (append-nil r.mini_tickers))
distribute_messages-Routes (message m ∷ es) r =
    let later = distribute_messages-Routes es (route m r) in
    (
      later.0
          ∙ ap (λ l. l ++ keep (begins b'{') (taken es)) (route-agg_trades m r)
          ∙ append_assoc r.agg_trades (keep (begins b'{') (m ∷ [])) (keep (begins b'{') (taken es))
          ∙ ap (λ l. r.agg_trades ++ l) (sym (keep_one (begins b'{') m (taken es))),
      later.1
          ∙ ap (λ l. l ++ keep (begins b'[') (taken es)) (route-mini_tickers m r)
          ∙ append_assoc r.mini_tickers (keep (begins b'[') (m ∷ []))
              (keep (begins b'[') (taken es))
          ∙ ap (λ l. r.mini_tickers ++ l) (sym (keep_one (begins b'[') m (taken es))),
    )
