-- ===== src/Profile/Coins/Tests.antt =====
-- A table in memory that meets the laws of the database, and runs of the service on it.
use crypto_asset_tracker_mic.Base.{
  ℕ, zero, suc, Bool, false, not, ◌&&◌, List, [], ◌∷◌, ◌++◌, map, Option, none, some, ◌≡◌, refl,
  inl, if◌then◌else◌, Text, text_eq, ◌==◌, codes, sentinel, wrapped, Result, ok, err, Read, row,
  record_not_found, ReadLaw, TransactionLaw, stored, rows_affected, first, keep, length,
}
use crypto_asset_tracker_mic.Base.Int.{ℤ, pos, negsuc, is_negative}
use crypto_asset_tracker_mic.Profile.Models.{Uuid, Coin, Sentinel, insufficient_funds}
use crypto_asset_tracker_mic.Profile.Whole.{whole}
use crypto_asset_tracker_mic.Profile.Coins.{
  CoinDb, CoinDbLaws, same_id, kept, of_user, update_coin_quantity, upsert, upsert_existing,
  upsert_missing, get_coin, add_coin, update_coin, delete_coin, coin_added, coin_read, coin_saved,
  coin_deleted, is_exactly, upsert_reply,
}
use crypto_asset_tracker_mic.Profile.Coins.Quantities.{
  NonNegative, update_coin_quantity-NonNegative,
}
use crypto_asset_tracker_mic.Profile.Coins.Rows.{changed}
use crypto_asset_tracker_mic.Profile.Coins.Update.{update_coin_quantity-Effect, overdraft_refused}

everything : Unit {0}
unfolding update_coin_quantity upsert upsert_existing upsert_missing get_coin add_coin update_coin
    delete_coin coin_added coin_read coin_saved coin_deleted is_exactly upsert_reply
everything = tt

-- A column that holds even numbers: it rounds down.
abbrev down : ℕ → ℕ
down zero = zero
down (suc zero) = zero
down (suc (suc n)) = let rest = down n in suc (suc rest)

abbrev pub even : ℤ → ℤ
even (pos n) = pos (down n)
even (negsuc n) = negsuc n

even-sign : (x : ℤ) → is_negative x ≡ false → is_negative (even x) ≡ false
even-sign (pos n) h = refl
even-sign (negsuc n) h = h

pub record Table : Type 0 where
  pub rows : List (Coin whole)
  pub next_id : ℕ

abbrev pub found : Option (Coin whole) → Read (Coin whole)
found none = record_not_found
found (some c) = row c

abbrev pub atomically :
    Result Sentinel (Coin whole) × Table → Table → Result Sentinel (Coin whole) × Table
atomically (ok c, inner) before = (ok c, inner)
atomically (err e, inner) before = (err e, before)

abbrev pub memory : CoinDb whole
memory = record {
  State = Table;
  coins = λ t. t.rows;
  column = even;
  create = λ c t.
      let c' : Coin whole = record c { id = t.next_id } in
      (stored c', record { rows = t.rows ++ kept whole even c' ∷ []; next_id = suc t.next_id });
  first_where = λ p t. found (first p t.rows);
  save = λ c t. (
    stored c,
    record t { rows = map (λ x. if same_id whole x c then kept whole even c else x) t.rows },
  );
  delete_where = λ p t.
      (rows_affected (length (keep p t.rows)), record t { rows = keep (λ r. not (p r)) t.rows });
  transaction = λ body t. atomically (body t) t;
}

found-ReadLaw :
    (p : Coin whole → Bool) (rows : List (Coin whole)) (o : Option (Coin whole))
    → first p rows ≡ o
    → ReadLaw p rows (found o)
found-ReadLaw p rows none e = e
found-ReadLaw p rows (some c) e = e

atomically-law :
    (r : Result Sentinel (Coin whole) × Table) (t : Table)
    → TransactionLaw memory.coins t r (atomically r t)
atomically-law (ok c, inner) t = inl (refl, refl)
atomically-law (err e, inner) t = (refl, refl)

pub memory-laws : CoinDbLaws whole memory
memory-laws = record {
  create_law = λ c t. (refl, (refl, refl, refl));
  first_law = λ p t. found-ReadLaw p t.rows (first p t.rows) refl;
  save_law = λ c t. (refl, refl);
  delete_law = λ p t. (refl, refl);
  column_law = even-sign;
  transaction_law = λ body t. atomically-law (body t) t;
}

abbrev pub ann : Uuid
ann = codes "ann"

abbrev pub btc : Text
btc = codes "btc"

abbrev pub held : Coin whole
held = record { id = 1; symbol = btc; quantity = pos 5; user_id = ann }

abbrev pub portfolio : Table
portfolio = record { rows = held ∷ []; next_id = 2 }

withdrawn : update_coin_quantity whole memory ann btc (negsuc 1) portfolio ≡ (
  ok (record held { quantity = pos 3 }),
  record portfolio { rows = record held { quantity = pos 2 } ∷ [] },
)
unfolding everything
withdrawn = refl

deposited :
    (update_coin_quantity whole memory ann (codes "eth") (pos 4) portfolio).1.rows
    ≡ held ∷ record { id = 2; symbol = codes "eth"; quantity = pos 4; user_id = ann } ∷ []
unfolding everything
deposited = refl

deleted : delete_coin whole memory ann btc portfolio ≡ (ok tt, record portfolio { rows = [] })
unfolding everything
deleted = refl

update_coin_quantity-NonNegative_example :
    NonNegative whole (update_coin_quantity whole memory ann btc (negsuc 1) portfolio).1.rows
update_coin_quantity-NonNegative_example =
    update_coin_quantity-NonNegative whole memory memory-laws ann btc (negsuc 1) portfolio
      (refl, tt)

update_coin_quantity-Effect_example :
    (first
        (of_user whole ann btc)
        (update_coin_quantity whole memory ann btc (negsuc 1) portfolio).1.rows
      ≡ (if ann == ann && btc == btc
          then some (kept whole even (record held { quantity = pos 3 }))
          else first (of_user whole ann btc) portfolio.rows))
    × (pos 3 ≡ changed whole (negsuc 1) (first (of_user whole ann btc) portfolio.rows))
    × (whole.is_negative (pos 3) ≡ false)
unfolding everything
update_coin_quantity-Effect_example =
    update_coin_quantity-Effect whole memory memory-laws ann btc (negsuc 1) portfolio
      (record held { quantity = pos 3 }) ann btc (tt, tt) refl

overdraft_refused_example :
    (update_coin_quantity whole memory ann btc (negsuc 8) portfolio).0
    ≡ err (wrapped (codes "failed to upsert coin: ") (sentinel insufficient_funds))
overdraft_refused_example =
    overdraft_refused whole memory memory-laws ann btc (negsuc 8) portfolio refl refl
