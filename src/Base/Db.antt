-- ===== src/Base/Db.antt =====
-- The answers of the database library (gorm over PostgreSQL) and what its documentation promises of
-- each call, over the rows that a table shows before and after. The library itself is a parameter.
use mathlib.Core.Path.{◌≡◌}
use mathlib.Core.Logic.{◌⊎◌, inl, inr}
use native.Mathlib.Omega.{arith}
use mathlib.Core.Bool.{Bool, not}
use mathlib.Core.List.{List, [], ◌∷◌, ◌++◌, map}
use mathlib.Core.Option.{none, some}
use Prim.Native.Nat.{ℕ}
use crypto_asset_tracker_mic.Base.Tests.{if◌then◌else◌}
use crypto_asset_tracker_mic.Base.Lists.{keep, first, length}
use crypto_asset_tracker_mic.Base.Equality.{Text}
use crypto_asset_tracker_mic.Base.Errors.{GoError, Result, ok, err}

-- `First`: a row, `gorm.ErrRecordNotFound`, or another error with its text.
pub data Read (R : Type 0) : Type 0 where
  row : R → Read R
  record_not_found : Read R
  read_failed : Text → Read R

-- `Create` and `Save`: the row as stored, or an error with its text.
pub data Write (R : Type 0) : Type 0 where
  stored : R → Write R
  write_failed : Text → Write R

-- `Delete`: the number of rows affected, or an error with its text (and no row affected).
pub data Deleted : Type 0 where
  rows_affected : ℕ → Deleted
  delete_failed : Text → Deleted

module _ {R : Type 0} where
  -- The row that is found is the first that satisfies the condition.
  abbrev pub ReadLaw : (R → Bool) → List R → Read R → Type 0
  ReadLaw p rows (row r) = first p rows ≡ some r
  ReadLaw p rows record_not_found = first p rows ≡ none
  ReadLaw p rows (read_failed m) = Unit

  -- A row is added as the database completes it, or nothing changes.
  abbrev pub CreateLaw : (R → R → Type 0) → R → List R → List R → Write R → Type 0
  CreateLaw Completes r before after (stored r') = (after ≡ before ++ r' ∷ []) × Completes r r'
  CreateLaw Completes r before after (write_failed m) = after ≡ before

  -- The row with the same key is replaced, or nothing changes.
  abbrev pub SaveLaw : (R → R → Bool) → R → List R → List R → Write R → Type 0
  SaveLaw same_key r before after (stored r') =
      (after ≡ map (λ x. if same_key x r then r else x) before) × (r' ≡ r)
  SaveLaw same_key r before after (write_failed m) = after ≡ before

  -- The rows that satisfy the condition are removed and counted, or nothing changes.
  abbrev pub DeleteLaw : (R → Bool) → List R → List R → Deleted → Type 0
  DeleteLaw p before after (rows_affected n) =
      (after ≡ keep (λ r. not (p r)) before) × (n ≡ length (keep p before))
  DeleteLaw p before after (delete_failed m) = after ≡ before

-- A transaction keeps the effect of a body that succeeds and commits, and none otherwise.
abbrev pub TransactionLaw :
    {S E A V : Type 0} → (S → V) → S → Result E A × S → Result E A × S → Type 0
TransactionLaw view before (err e, inner) out = (out.0 ≡ err e) × (view out.1 ≡ view before)
TransactionLaw {E = E} view before (ok a, inner) out =
    ((out.0 ≡ ok a) × (view out.1 ≡ view inner))
    ⊎ ((e : GoError E) × (out.0 ≡ err e) × (view out.1 ≡ view before))

-- What a transaction that succeeds leaves, and one that fails.
pub committed :
    {S E A V : Type 0} (view : S → V) (s : S) (inner out : Result E A × S) (a : A)
    → TransactionLaw view s inner out
    → out.0 ≡ ok a
    → (inner.0 ≡ ok a) × (view out.1 ≡ view inner.1)
committed view s (err e, s') out a law h = cc
committed view s (ok b, s') out a (inl law) h = (ground arith, law.1)
committed view s (ok b, s') out a (inr law) h = cc

pub rolled_back :
    {S E A V : Type 0} (view : S → V) (s : S) (inner out : Result E A × S) (e : GoError E)
    → TransactionLaw view s inner out
    → out.0 ≡ err e
    → view out.1 ≡ view s
rolled_back view s (err x, s') out e law h = law.1
rolled_back view s (ok a, s') out e (inl law) h = cc
rolled_back view s (ok a, s') out e (inr law) h = law.2
