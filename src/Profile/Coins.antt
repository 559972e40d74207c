-- ===== src/Profile/Coins.antt =====
-- Profile/internal/repository/coins_repo.go and Profile/internal/service/coins_service.go: the coins
-- of the portfolios. The database is a parameter; its laws are in `Db`.
mod Db
pub mod Quantities
pub mod Rows
pub mod Update
pub mod Tests
pub use Db.*
use crypto_asset_tracker_mic.Base.{
  ℕ, Bool, true, false, ◌&&◌, ◌||◌, Option, none, some, if◌then◌else◌, Text, text_eq, codes, ◌==◌,
  nat_beq, GoError, sentinel, external, wrapped, Result, ok, err, Read, row, record_not_found,
  read_failed, Write, stored, write_failed, Deleted, rows_affected, delete_failed, is_substring,
  zero, suc,
}
use crypto_asset_tracker_mic.Profile.Models.{
  Decimal, Uuid, Coin, Sentinel, not_found, already_exists, internal, insufficient_funds,
  sentinel_beq,
}

module _ (D : Decimal) where
  abbrev pub of_user : Uuid → Text → Coin D → Bool
  of_user user symbol c = c.user_id == user && c.symbol == symbol

  -- The repository's answers.
  unfoldable pub coin_added : Write (Coin D) → Result Sentinel (Coin D)
  unfolding is_substring
  coin_added (stored c) = ok c
  coin_added (write_failed text) =
      if is_substring (codes "UNIQUE") text || is_substring (codes "duplicate") text
      then err (sentinel already_exists)
      else err (external text)

  unfoldable pub coin_read : Read (Coin D) → Result Sentinel (Coin D)
  coin_read (row c) = ok c
  coin_read record_not_found = err (sentinel not_found)
  coin_read (read_failed text) = err (external text)

  unfoldable pub coin_saved : Write (Coin D) → Result Sentinel (Coin D)
  coin_saved (stored c) = ok c
  coin_saved (write_failed text) = err (external text)

  unfoldable pub coin_deleted : Deleted → Result Sentinel (Unit {0})
  coin_deleted (delete_failed text) = err (external text)
  coin_deleted (rows_affected zero) = err (sentinel not_found)
  coin_deleted (rows_affected (suc n)) = ok tt

  -- `err == errs.ErrNotFound`: the very sentinel, not a wrapped one.
  unfoldable pub is_exactly : GoError Sentinel → Sentinel → Bool
  is_exactly (sentinel s) t = sentinel_beq s t
  is_exactly (external text) t = false
  is_exactly (wrapped text e) t = false

  module _ (db : CoinDb D) where
    open db use {State}

    unfoldable pub add_coin : Coin D → State → Result Sentinel (Coin D) × State
    add_coin c s = let (w, s') = db.create c s in (coin_added w, s')

    unfoldable pub get_coin : Uuid → Text → State → Result Sentinel (Coin D)
    get_coin user symbol s = coin_read (db.first_where (of_user user symbol) s)

    unfoldable pub update_coin : Coin D → State → Result Sentinel (Coin D) × State
    update_coin c s = let (w, s') = db.save c s in (coin_saved w, s')

    unfoldable pub delete_coin : Uuid → Text → State → Result Sentinel (Unit {0}) × State
    delete_coin user symbol s =
        let (d, s') = db.delete_where (of_user user symbol) s in (coin_deleted d, s')

    -- No coin was read: only a positive or zero change of a missing coin creates one.
    unfoldable pub upsert_missing :
        Uuid → Text → D.Number → GoError Sentinel → State → Result Sentinel (Coin D) × State
    upsert_missing user symbol change e s =
        if D.is_negative change
        then (err (sentinel insufficient_funds), s)
        else if is_exactly e not_found
        then add_coin (record { id = 0; symbol = symbol; quantity = change; user_id = user }) s
        else (err e, s)

    unfoldable pub upsert_existing : D.Number → Coin D → State → Result Sentinel (Coin D) × State
    upsert_existing change c s =
        let quantity = D.add c.quantity change in
        if D.is_negative quantity
        then (err (sentinel insufficient_funds), s)
        else update_coin (record c { quantity = quantity }) s

    -- The function that the transaction runs.
    unfoldable pub upsert : Uuid → Text → D.Number → State → Result Sentinel (Coin D) × State
    upsert user symbol change s = elim (get_coin user symbol s) [
      | ok c ↦ upsert_existing change c s
      | err e ↦ upsert_missing user symbol change e s
    ]

    unfoldable pub upsert_reply : Result Sentinel (Coin D) → Result Sentinel (Coin D)
    upsert_reply (ok c) = ok c
    upsert_reply (err e) = err (wrapped (codes "failed to upsert coin: ") e)

    -- `UpdateCoinQuantity`.
    unfoldable pub update_coin_quantity :
        Uuid → Text → D.Number → State → Result Sentinel (Coin D) × State
    update_coin_quantity user symbol change s =
        let (r, s') = db.transaction (upsert user symbol change) s in (upsert_reply r, s')
