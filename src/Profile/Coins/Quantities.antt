-- ===== src/Profile/Coins/Quantities.antt =====
-- The signs of the stored quantities.
use crypto_asset_tracker_mic.Base.{
  false, List, [], ◌∷◌, map, ◌≡◌, inl, inr, if◌then◌else◌, Text, text_eq, GoError, Result, ok, err,
  Write, stored, write_failed, TransactionLaw, All, All-append, if_cases, Bool-cases, Result-cases,
}
use crypto_asset_tracker_mic.Profile.Models.{Decimal, Uuid, Coin, Sentinel, not_found}
use crypto_asset_tracker_mic.Profile.Coins.{
  CoinDb, CoinDbLaws, CoinCreated, CoinSaved, kept, same_id, add_coin, get_coin, update_coin,
  upsert_missing, upsert_existing, upsert, update_coin_quantity, is_exactly,
}

module _ (D : Decimal) where
  abbrev pub NonNegative : List (Coin D) → Type 0
  NonNegative cs = All (λ c. D.is_negative c.quantity ≡ false) cs

  created-NonNegative :
      (column : D.Number → D.Number) (c : Coin D) (before after : List (Coin D))
      (w : Write (Coin D))
      → D.is_negative (column c.quantity) ≡ false
      → CoinCreated D column c before after w
      → NonNegative before
      → NonNegative after
  created-NonNegative column c before after (stored c') pos law h =
      rw law.0 (All-append _ before (kept D column c' ∷ []) h (rw law.1.1 pos, tt))
  created-NonNegative column c before after (write_failed text) pos law h = rw law h

  replaced-NonNegative :
      (c : Coin D) (cs : List (Coin D))
      → D.is_negative c.quantity ≡ false
      → NonNegative cs
      → NonNegative (map (λ x. if same_id D x c then c else x) cs)
  replaced-NonNegative c [] pos h = tt
  replaced-NonNegative c (x ∷ xs) pos h = (
    if_cases (λ (y : Coin D). D.is_negative y.quantity ≡ false) (same_id D x c) (λ _. pos)
        (λ _. h.0),
    replaced-NonNegative c xs pos h.1,
  )

  saved-NonNegative :
      (column : D.Number → D.Number) (c : Coin D) (before after : List (Coin D))
      (w : Write (Coin D))
      → D.is_negative (column c.quantity) ≡ false
      → CoinSaved D column c before after w
      → NonNegative before
      → NonNegative after
  saved-NonNegative column c before after (stored c') pos law h =
      rw law.0 (replaced-NonNegative (kept D column c) before pos h)
  saved-NonNegative column c before after (write_failed text) pos law h = rw law h

  -- What holds of the rows before and after a body holds after its transaction.
  pub transaction_keeps {ℓ} :
      {S A : Type 0} (view : S → List (Coin D)) (P : List (Coin D) → Type ℓ) (s : S)
      (inner out : Result Sentinel A × S)
      → TransactionLaw view s inner out
      → P (view s)
      → P (view inner.1)
      → P (view out.1)
  transaction_keeps view P s (err e, s') out law before after = rw law.1 before
  transaction_keeps view P s (ok a, s') out (inl law) before after = rw law.1 after
  transaction_keeps view P s (ok a, s') out (inr law) before after = rw law.2 before

  module _ (db : CoinDb D) (laws : CoinDbLaws D db) where
    upsert_missing-NonNegative :
        (user : Uuid) (symbol : Text) (change : D.Number) (e : GoError Sentinel) (s : db.State)
        → NonNegative (db.coins s)
        → NonNegative (db.coins (upsert_missing D db user symbol change e s).1)
    unfolding upsert_missing add_coin
    upsert_missing-NonNegative user symbol change e s h =
        let fresh : Coin D = record {
          id = 0;
          symbol = symbol;
          quantity = change;
          user_id = user;
        } in
        elim (Bool-cases (D.is_negative change)) [
          | inl neg ↦ rw neg h
          | inr pos ↦ rw pos (
              if_cases {A = Result Sentinel (Coin D) × db.State} (λ r. NonNegative (db.coins r.1))
                (is_exactly D e not_found)
                (λ _.
                  created-NonNegative db.column fresh (db.coins s) _ _ (laws.column_law change pos)
                    (laws.create_law fresh s) h)
                (λ _. h))
        ]

    upsert_existing-NonNegative :
        (change : D.Number) (c : Coin D) (s : db.State)
        → NonNegative (db.coins s)
        → NonNegative (db.coins (upsert_existing D db change c s).1)
    unfolding upsert_existing update_coin
    upsert_existing-NonNegative change c s h =
        elim (Bool-cases (D.is_negative (D.add c.quantity change))) [
          | inl neg ↦ rw neg h
          | inr pos ↦ rw pos (
              saved-NonNegative db.column (record c { quantity = D.add c.quantity change })
                (db.coins s) _ _ (laws.column_law _ pos) (laws.save_law _ s) h)
        ]

    upsert-NonNegative :
        (user : Uuid) (symbol : Text) (change : D.Number) (s : db.State)
        → NonNegative (db.coins s)
        → NonNegative (db.coins (upsert D db user symbol change s).1)
    unfolding upsert
    upsert-NonNegative user symbol change s h = elim (Result-cases (get_coin D db user symbol s)) [
      | inl (c, e) ↦ rw (e, upsert) (upsert_existing-NonNegative change c s h)
      | inr (x, e) ↦ rw (e, upsert) (upsert_missing-NonNegative user symbol change x s h)
    ]

-- If no stored quantity is negative, none is after `UpdateCoinQuantity`, whatever the user, the
-- symbol, the change, and whether the call succeeds.
pub update_coin_quantity-NonNegative :
    (D : Decimal) (db : CoinDb D)
    → CoinDbLaws D db
    → (user : Uuid) (symbol : Text) (change : D.Number) (s : db.State) → NonNegative D (db.coins s)
    → NonNegative D (db.coins (update_coin_quantity D db user symbol change s).1)
unfolding update_coin_quantity
update_coin_quantity-NonNegative D db laws user symbol change s h =
    transaction_keeps D db.coins (NonNegative D) s (upsert D db user symbol change s)
      (db.transaction (upsert D db user symbol change) s)
      (laws.transaction_law (upsert D db user symbol change) s) h
      (upsert-NonNegative D db laws user symbol change s h)
