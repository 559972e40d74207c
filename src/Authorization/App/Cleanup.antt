-- ===== src/Authorization/App/Cleanup.antt =====
-- The sessions that the loop of `runTokenCleanup` leaves.
use mathlib.Core.Path.{subst}
use crypto_asset_tracker_mic.Base.{
  ℕ, Bool, true, false, not, ◌&&◌, List, [], ◌∷◌, ◌++◌, ◌≡◌, refl, ap, sym, ◌∙◌, arith,
  if◌then◌else◌, Result, ok, err, Deleted, rows_affected, delete_failed, DeleteLaw, keep, All,
  All-keep,
}
use crypto_asset_tracker_mic.Authorization.Models.{Session, AuthDb, AuthDbLaws, Sentinel}
use crypto_asset_tracker_mic.Authorization.Tokens.{expired, delete_expired_token, sessions_deleted}
use crypto_asset_tracker_mic.Authorization.App.{run_token_cleanup}

abbrev pub succeeded : Result Sentinel (Unit {0}) → Bool
succeeded (ok u) = true
succeeded (err e) = false

-- Whether a session outlives the ticks: it is not expired at any tick whose round succeeds.
unfoldable pub survives : (db : AuthDb) → List (ℕ → ℕ) → db.State → Session → Bool
survives db [] s n = true
survives db (clock ∷ ticks) s n =
    let rest = survives db ticks (delete_expired_token db clock s).1 n in
    if succeeded (delete_expired_token db clock s).0
    then not (expired (clock 0) n) && rest
    else rest

keep-keep :
    (p q : Session → Bool) (ns : List Session) → keep q (keep p ns) ≡ keep (λ n. p n && q n) ns
keep-keep p q [] = refl
keep-keep p q (n ∷ ns) = ground (arith, keep-keep p q ns)

keep-true : (ns : List Session) → keep (λ n. true) ns ≡ ns
keep-true [] = refl
keep-true (n ∷ ns) = ap (λ ms. n ∷ ms) (keep-true ns)

cleaned :
    (clock : ℕ → ℕ) (before after : List Session) (d : Deleted)
    → DeleteLaw (expired (clock 0)) before after d
    → after ≡ (
        if succeeded (sessions_deleted d)
        then keep (λ n. not (expired (clock 0) n)) before
        else before)
unfolding sessions_deleted
cleaned clock before after (rows_affected k) law = law.0
cleaned clock before after (delete_failed m) law = law

keep_if :
    (b : Bool) (p q : Session → Bool) (ns : List Session)
    → keep q (if b then keep p ns else ns) ≡ keep (λ n. if b then p n && q n else q n) ns
keep_if true p q ns = keep-keep p q ns
keep_if false p q ns = refl

-- Over any number of ticks the loop keeps exactly the sessions that no successful round found expired,
-- in their order; a round that fails removes nothing.
pub run_token_cleanup-Keeps :
    (db : AuthDb)
    → AuthDbLaws db
    → (ticks : List (ℕ → ℕ)) (s : db.State)
    → db.sessions (run_token_cleanup db ticks s) ≡ keep (survives db ticks s) (db.sessions s)
unfolding run_token_cleanup survives delete_expired_token
run_token_cleanup-Keeps db laws [] s = sym (keep-true (db.sessions s))
run_token_cleanup-Keeps db laws (clock ∷ ticks) s =
    let s' = (delete_expired_token db clock s).1 in
    run_token_cleanup-Keeps db laws ticks s'
    ∙ ap (keep (survives db ticks s')) (
        cleaned clock (db.sessions s) (db.sessions s') (db.delete_sessions (expired (clock 0)) s).0
          (laws.delete_sessions_law (expired (clock 0)) s))
    ∙ keep_if (succeeded (delete_expired_token db clock s).0) (λ n. not (expired (clock 0) n))
        (survives db ticks s') (db.sessions s)

abbrev pub Live : ℕ → List Session → Type 0
Live now ns = All (λ n. expired now n ≡ false) ns

keep-Live : (now : ℕ) (ns : List Session) → Live now (keep (λ n. not (expired now n)) ns)
keep-Live now [] = tt
keep-Live now (n ∷ ns) = ground (arith, keep-Live now ns)

tick-Live :
    (db : AuthDb)
    → AuthDbLaws db
    → (clock : ℕ → ℕ) (s : db.State) → succeeded (delete_expired_token db clock s).0 ≡ true
    → Live (clock 0) (db.sessions (delete_expired_token db clock s).1)
unfolding delete_expired_token
tick-Live db laws clock s h =
    let p = expired (clock 0) in
    let after = db.sessions (db.delete_sessions p s).1 in
    let left : after ≡ keep (λ n. not (p n)) (db.sessions s) =
      cleaned clock (db.sessions s) after (db.delete_sessions p s).0 (laws.delete_sessions_law p s)
      ∙ rw h refl in
    subst (Live (clock 0)) (sym left) (keep-Live (clock 0) (db.sessions s))

run_token_cleanup-append :
    (db : AuthDb) (before after : List (ℕ → ℕ)) (s : db.State)
    → run_token_cleanup db (before ++ after) s
      ≡ run_token_cleanup db after (run_token_cleanup db before s)
unfolding run_token_cleanup
run_token_cleanup-append db [] after s = refl
run_token_cleanup-append db (clock ∷ before) after s =
    run_token_cleanup-append db before after (delete_expired_token db clock s).1

-- A session that has expired is gone once a round that reads a later time succeeds, and it stays gone
-- whatever later rounds do.
pub expired_sessions_end :
    (db : AuthDb)
    → AuthDbLaws db
    → (before : List (ℕ → ℕ)) (clock : ℕ → ℕ) (after : List (ℕ → ℕ)) (s : db.State)
    → succeeded (delete_expired_token db clock (run_token_cleanup db before s)).0 ≡ true
    → Live (clock 0) (db.sessions (run_token_cleanup db (before ++ clock ∷ after) s))
unfolding run_token_cleanup
expired_sessions_end db laws before clock after s h =
    let at = run_token_cleanup db before s in
    let next = (delete_expired_token db clock at).1 in
    let last : db.sessions (run_token_cleanup db (before ++ clock ∷ after) s)
        ≡ keep (survives db after next) (db.sessions next) =
      ap db.sessions (run_token_cleanup-append db before (clock ∷ after) s)
      ∙ run_token_cleanup-Keeps db laws after next in
    subst (Live (clock 0)) (sym last) (
      All-keep (λ n. expired (clock 0) n ≡ false) (survives db after next) (db.sessions next)
        (tick-Live db laws clock at h))
