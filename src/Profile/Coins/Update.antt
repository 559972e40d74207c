-- ===== src/Profile/Coins/Update.antt =====
-- What a successful and a failed `UpdateCoinQuantity` do to every portfolio.
use crypto_asset_tracker_mic.Base.{
  rolled_back, true, false, ◌&&◌, List, none, some, ◌≡◌, refl, ◌∙◌, inl, inr, arith, if◌then◌else◌,
  Text, text_eq, ◌==◌, codes, GoError, sentinel, external, wrapped, Result, ok, err, Read, row,
  record_not_found, read_failed, ReadLaw, TransactionLaw, first, if_cases, Result-cases,
}
use mathlib.Core.Path.{subst}
use crypto_asset_tracker_mic.Profile.Models.{
  Decimal, Uuid, Coin, Sentinel, not_found, insufficient_funds, sentinel_eq,
}
use crypto_asset_tracker_mic.Profile.Coins.{
  CoinDb, CoinDbLaws, CoinCreated, CoinSaved, kept, DistinctIds, of_user, add_coin, get_coin,
  update_coin, upsert_missing, upsert_existing, upsert, upsert_reply, update_coin_quantity,
  is_exactly, coin_read,
}
use crypto_asset_tracker_mic.Profile.Coins.Rows.{
  changed, Effect, coin_added-ok, coin_saved-ok, created-Effect, saved-Effect,
}

module _ (D : Decimal) (user : Uuid) (symbol : Text) (change : D.Number) (db : CoinDb D)
    (laws : CoinDbLaws D db) where
  module _ (s : db.State) (c : Coin D) (u : Uuid) (k : Text) where
    -- If the call succeeded with `c`, its effect is right.
    abbrev Succeeds : Result Sentinel (Coin D) × db.State → Type 0
    Succeeds r =
        r.0 ≡ ok c → Effect D db.column user symbol change (db.coins s) (db.coins r.1) c u k

    upsert_missing-Effect :
        (e : GoError Sentinel)
        → (is_exactly D e not_found ≡ true → first (of_user D user symbol) (db.coins s) ≡ none)
        → Succeeds (upsert_missing D db user symbol change e s)
    unfolding upsert_missing add_coin
    upsert_missing-Effect e missing =
        let fresh : Coin D = record {
          id = 0;
          symbol = symbol;
          quantity = change;
          user_id = user;
        } in
        let (w, s') = db.create fresh s in
        if_cases {A = Result Sentinel (Coin D) × db.State} Succeeds (D.is_negative change)
          (λ _ x. cc)
          (λ pos.
            if_cases {A = Result Sentinel (Coin D) × db.State} Succeeds (is_exactly D e not_found)
              (λ exact x.
                created-Effect D db.column user symbol change fresh c (db.coins s) (db.coins s') u k
                  refl refl refl pos (missing exact)
                  (subst (CoinCreated D db.column fresh (db.coins s) (db.coins s'))
                    (coin_added-ok D db.column w c x) (laws.create_law fresh s)))
              (λ _ x. cc))

    upsert_existing-Effect :
        (old : Coin D)
        → DistinctIds D (db.coins s)
        → first (of_user D user symbol) (db.coins s) ≡ some old
        → Succeeds (upsert_existing D db change old s)
    unfolding upsert_existing update_coin
    upsert_existing-Effect old distinct found =
        let new : Coin D = record old { quantity = D.add old.quantity change } in
        let (w, s') = db.save new s in
        if_cases {A = Result Sentinel (Coin D) × db.State} Succeeds
          (D.is_negative (D.add old.quantity change)) (λ _ x. cc)
          (λ pos x.
            saved-Effect D db.column user symbol change old c (db.coins s) (db.coins s') u k found
              distinct pos
              (subst (CoinSaved D db.column new (db.coins s) (db.coins s'))
                (coin_saved-ok D db.column w c x) (laws.save_law new s)))

    upsert_read-Effect :
        (r : Read (Coin D))
        → DistinctIds D (db.coins s)
        → ReadLaw (of_user D user symbol) (db.coins s) r
        → get_coin D db user symbol s ≡ coin_read D r
        → Succeeds (upsert D db user symbol change s)
    unfolding upsert coin_read is_exactly
    upsert_read-Effect (row old) distinct found e =
        rw (e, upsert) (upsert_existing-Effect old distinct found)
    upsert_read-Effect record_not_found _ missing e =
        rw (e, upsert) (upsert_missing-Effect (sentinel not_found) (λ _. missing))
    upsert_read-Effect (read_failed text) _ _ e =
        rw (e, upsert) (upsert_missing-Effect (external text) (λ x. cc))

    upsert-Effect : DistinctIds D (db.coins s) → Succeeds (upsert D db user symbol change s)
    unfolding get_coin
    upsert-Effect distinct =
        upsert_read-Effect (db.first_where (of_user D user symbol) s) distinct
          (laws.first_law (of_user D user symbol) s) refl

    committed-Effect :
        (inner out : Result Sentinel (Coin D) × db.State)
        → TransactionLaw db.coins s inner out
        → Succeeds inner
        → Succeeds out
    committed-Effect (err x, s') out law body h = ground arith
    committed-Effect (ok a, s') out (inl law) body h = rw law.1 (body (ground arith))
    committed-Effect (ok a, s') out (inr law) body h = ground arith

  -- The call is refused for lack of funds.
  abbrev Refuses : Result Sentinel (Coin D) → Type 0
  Refuses r = r ≡ err (sentinel insufficient_funds)

  upsert_read-Refuses :
      (s : db.State) (r : Read (Coin D))
      → ReadLaw (of_user D user symbol) (db.coins s) r
      → get_coin D db user symbol s ≡ coin_read D r
      → D.is_negative change ≡ true
      → D.is_negative (changed D change (first (of_user D user symbol) (db.coins s))) ≡ true
      → Refuses (upsert D db user symbol change s).0
  unfolding upsert coin_read upsert_existing upsert_missing
  upsert_read-Refuses s (row old) found e neg below =
      rw (e, upsert)
        (let low : D.is_negative (D.add old.quantity change) ≡ true = rw found at below in rw low)
  upsert_read-Refuses s record_not_found _ e neg below = rw (e, upsert) (rw neg)
  upsert_read-Refuses s (read_failed text) _ e neg below = rw (e, upsert) (rw neg)

-- A change that succeeds on a table with distinct keys: the returned coin has the quantity of the row
-- plus the change, or the change if there was no row, and it is not negative; the row of the user and
-- symbol becomes the returned coin with its quantity as the column holds it; the row that is found for
-- any other pair of a user and a symbol is the one that was found before.
pub update_coin_quantity-Effect :
    (D : Decimal) (db : CoinDb D)
    → CoinDbLaws D db
    → (user : Uuid) (symbol : Text) (change : D.Number) (s : db.State) (c : Coin D) (u : Uuid)
      (k : Text)
    → DistinctIds D (db.coins s)
    → (update_coin_quantity D db user symbol change s).0 ≡ ok c
    → (first (of_user D u k) (db.coins (update_coin_quantity D db user symbol change s).1) ≡ (
        if user == u && symbol == k
        then some (kept D db.column c)
        else first (of_user D u k) (db.coins s)))
      × (c.quantity ≡ changed D change (first (of_user D user symbol) (db.coins s)))
      × (D.is_negative c.quantity ≡ false)
unfolding update_coin_quantity upsert_reply
update_coin_quantity-Effect D db laws user symbol change s c u k distinct h =
    committed-Effect D user symbol change db laws s c u k (upsert D db user symbol change s)
      (db.transaction (upsert D db user symbol change) s)
      (laws.transaction_law (upsert D db user symbol change) s)
      (upsert-Effect D user symbol change db laws s c u k distinct) (ground arith)

-- A change that fails leaves every row as it was, as its transaction does.
pub update_coin_quantity_failed :
    (D : Decimal) (db : CoinDb D)
    → CoinDbLaws D db
    → (user : Uuid) (symbol : Text) (change : D.Number) (s : db.State) (e : GoError Sentinel)
    → (update_coin_quantity D db user symbol change s).0 ≡ err e
    → db.coins (update_coin_quantity D db user symbol change s).1 ≡ db.coins s
unfolding update_coin_quantity upsert_reply
update_coin_quantity_failed D db laws user symbol change s e h =
    elim (Result-cases (db.transaction (upsert D db user symbol change) s).0) [
      | inl (c, done) ↦ ground arith
      | inr (x, failed) ↦
          rolled_back db.coins s (upsert D db user symbol change s)
            (db.transaction (upsert D db user symbol change) s) x
            (laws.transaction_law (upsert D db user symbol change) s) failed
    ]

refused_reply :
    (D : Decimal) {S : Type 0} (view : S → List (Coin D)) (s : S)
    (inner out : Result Sentinel (Coin D) × S)
    → TransactionLaw view s inner out
    → inner.0 ≡ err (sentinel insufficient_funds)
    → out.0 ≡ err (sentinel insufficient_funds)
refused_reply D view s (err x, s') out law h = law.0 ∙ h
refused_reply D view s (ok a, s') out law h = cc

-- A withdrawal of more than the user holds, or of a coin that the user does not hold, is refused
-- with the error for insufficient funds.
pub overdraft_refused :
    (D : Decimal) (db : CoinDb D)
    → CoinDbLaws D db
    → (user : Uuid) (symbol : Text) (change : D.Number) (s : db.State) → D.is_negative change ≡ true
    → D.is_negative (changed D change (first (of_user D user symbol) (db.coins s))) ≡ true
    → (update_coin_quantity D db user symbol change s).0
      ≡ err (wrapped (codes "failed to upsert coin: ") (sentinel insufficient_funds))
unfolding update_coin_quantity upsert_reply get_coin
overdraft_refused D db laws user symbol change s neg below = rw (
    refused_reply D db.coins s (upsert D db user symbol change s)
      (db.transaction (upsert D db user symbol change) s)
      (laws.transaction_law (upsert D db user symbol change) s)
      (upsert_read-Refuses D user symbol change db laws s (db.first_where (of_user D user symbol) s)
        (laws.first_law (of_user D user symbol) s) refl neg below))
