-- ===== src/Profile/Coins/Db.antt =====
-- The table of coins, as the repository uses it. The column of the quantities is decimal(20,8) (`Coin` of
-- Profile/internal/models/models.go), so a row holds what PostgreSQL makes of a number there, which the
-- struct that `Create` and `Save` hand back does not show.
use crypto_asset_tracker_mic.Base.{
  Bool, List, ◌≡◌, nat_beq, Result, Read, Write, stored, write_failed, Deleted, ReadLaw, DeleteLaw,
  ◌++◌, map, if◌then◌else◌, false, TransactionLaw, All, [], ◌∷◌, not, true,
}
use crypto_asset_tracker_mic.Profile.Models.{Decimal, Coin, Sentinel}

pub record CoinDb (D : Decimal) : Type 1 where
  pub State : Type 0
  pub coins : State → List (Coin D)
  pub column : D.Number → D.Number
  pub create : Coin D → State → Write (Coin D) × State
  pub first_where : (Coin D → Bool) → State → Read (Coin D)
  pub save : Coin D → State → Write (Coin D) × State
  pub delete_where : (Coin D → Bool) → State → Deleted × State
  pub transaction :
      (State → Result Sentinel (Coin D) × State) → State → Result Sentinel (Coin D) × State

module _ (D : Decimal) where
  -- The row of a coin.
  abbrev pub kept : (D.Number → D.Number) → Coin D → Coin D
  kept column c = record c { quantity = column c.quantity }

  -- The database assigns the key of a new coin and keeps its other fields.
  abbrev pub Completes : Coin D → Coin D → Type 0
  Completes c c' = (c'.symbol ≡ c.symbol) × (c'.quantity ≡ c.quantity) × (c'.user_id ≡ c.user_id)

  abbrev pub same_id : Coin D → Coin D → Bool
  same_id a b = nat_beq a.id b.id

  -- A row is added with a new key, or nothing changes.
  abbrev pub CoinCreated :
      (D.Number → D.Number) → Coin D → List (Coin D) → List (Coin D) → Write (Coin D) → Type 0
  CoinCreated column c before after (stored c') =
      (after ≡ before ++ kept column c' ∷ []) × Completes c c'
  CoinCreated column c before after (write_failed text) = after ≡ before

  -- The row with the key of the coin is replaced, or nothing changes.
  abbrev pub CoinSaved :
      (D.Number → D.Number) → Coin D → List (Coin D) → List (Coin D) → Write (Coin D) → Type 0
  CoinSaved column c before after (stored c') =
      (after ≡ map (λ x. if same_id x (kept column c) then kept column c else x) before) × (c' ≡ c)
  CoinSaved column c before after (write_failed text) = after ≡ before

  -- The primary key is unique.
  abbrev pub DistinctIds : List (Coin D) → Type 0
  DistinctIds [] = Unit
  DistinctIds (c ∷ cs) = All (λ x. not (same_id x c) ≡ true) cs × DistinctIds cs

  pub record CoinDbLaws (db : CoinDb D) : Type 0 where
    pub create_law :
        (c : Coin D) (s : db.State)
        → CoinCreated db.column c (db.coins s) (db.coins (db.create c s).1) (db.create c s).0
    pub first_law : (p : Coin D → Bool) (s : db.State) → ReadLaw p (db.coins s) (db.first_where p s)
    pub save_law :
        (c : Coin D) (s : db.State)
        → CoinSaved db.column c (db.coins s) (db.coins (db.save c s).1) (db.save c s).0
    pub delete_law :
        (p : Coin D → Bool) (s : db.State)
        → DeleteLaw p (db.coins s) (db.coins (db.delete_where p s).1) (db.delete_where p s).0
    -- Rounding keeps the sign.
    pub column_law : (x : D.Number) → D.is_negative x ≡ false → D.is_negative (db.column x) ≡ false
    pub transaction_law :
        (body : db.State → Result Sentinel (Coin D) × db.State) (s : db.State)
        → TransactionLaw db.coins s (body s) (db.transaction body s)
