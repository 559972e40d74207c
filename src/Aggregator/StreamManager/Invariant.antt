-- ===== src/Aggregator/StreamManager/Invariant.antt =====
-- How many streams a symbol has, whatever the order of calls and goroutine ends.
use crypto_asset_tracker_mic.Base.{
  ℕ, ◌≤◌, ◌<◌, Bool, List, [], ◌∷◌, map, none, some, ◌≡◌, refl, not, arith, nat_beq, Text, text_eq,
  to_lower, lookup, insert, delete, has, keep, first, All, length, eq_iff, ◌==◌, lookup-insert,
  lookup-delete, contains, if_cases, Option-cases, inl, inr,
}
use crypto_asset_tracker_mic.Aggregator.StreamManager.{
  Task, System, start, open_followers, subscribe, ensure_started, add_lower, add_coin, mark, cancel,
  cancel_stream, unsubscribe, cancel_if_unused, delete_lower, delete_coin, finish, Step, adds,
  deletes, finishes, Reach, created, later, followers_of,
}

-- Newest first, numbered below the bound.
abbrev pub Below : ℕ → List Task → Type 0
Below n [] = Unit {0}
Below n (t ∷ ts) = (t.id < n) × Below t.id ts

-- Every running goroutine is the one registered for its symbol.
pub record Inv (s : System) : Type 0 where
  pub registered : All (λ t. lookup t.symbol s.streams ≡ some t.id) s.tasks
  pub numbered : Below s.next_id s.tasks

Below-mono : (m n : ℕ) (ts : List Task) → m ≤ n → Below m ts → Below n ts
Below-mono m n [] h b = tt
Below-mono m n (t ∷ ts) h b = (omega arith, b.1)

Below-mark : (id n : ℕ) (ts : List Task) → Below n ts → Below n (map (mark id) ts)
unfolding mark
Below-mark id n [] b = tt
Below-mark id n (t ∷ ts) b = ground (arith, Below-mark id t.id ts b.1)

Below-keep : (p : Task → Bool) (n : ℕ) (ts : List Task) → Below n ts → Below n (keep p ts)
Below-keep p n [] b = tt
Below-keep p n (t ∷ ts) b = ground (arith, Below-keep p t.id ts b.1, Below-mono t.id n (keep p ts))

All-mark :
    (s : System) (id : ℕ) (ts : List Task)
    → All (λ t. lookup t.symbol s.streams ≡ some t.id) ts
    → All (λ t. lookup t.symbol s.streams ≡ some t.id) (map (mark id) ts)
unfolding mark
All-mark s id [] h = tt
All-mark s id (t ∷ ts) h = ground (arith, All-mark s id ts h.1)

-- A new stream of another symbol leaves the registrations alone.
All-insert :
    (s : System) (symbol : Text) (id : ℕ) (ts : List Task)
    → lookup symbol s.streams ≡ none
    → All (λ t. lookup t.symbol s.streams ≡ some t.id) ts
    → All (λ t. lookup t.symbol (insert symbol id s.streams) ≡ some t.id) ts
All-insert s symbol id [] e h = tt
All-insert s symbol id (t ∷ ts) e h = ground (
  arith,
  lookup-insert symbol t.symbol id s.streams,
  eq_iff symbol t.symbol,
  All-insert s symbol id ts e h.1,
)

start-Inv :
    (s : System) (symbol : Text) → lookup symbol s.streams ≡ none → Inv s → Inv (start s symbol)
unfolding start
start-Inv s symbol e v = record {
  registered = (
    ground (arith, lookup-insert symbol symbol s.next_id s.streams, eq_iff symbol symbol),
    All-insert s symbol s.next_id s.tasks e v.registered,
  );
  numbered = (omega arith, v.numbered);
}

ensure_started-Inv : (s : System) (symbol : Text) → Inv s → Inv (ensure_started s symbol)
unfolding ensure_started has
ensure_started-Inv s symbol v = ground (arith, start-Inv s symbol)

open_followers-Inv : (s : System) (symbol : Text) → Inv s → Inv (open_followers s symbol)
unfolding open_followers
open_followers-Inv s symbol v =
    if_cases Inv (has symbol s.followers) (λ _. v)
      (λ _. record { registered = v.registered; numbered = v.numbered })

subscribe-Inv : (s : System) (symbol user : Text) → Inv s → Inv (subscribe s symbol user)
unfolding subscribe
subscribe-Inv s symbol user v = record { registered = v.registered; numbered = v.numbered }

add_lower-Inv : (s : System) (symbol user : Text) → Inv s → Inv (add_lower s symbol user).0
unfolding add_lower
add_lower-Inv s symbol user v =
    let w = open_followers-Inv s symbol v in
    if_cases {A = System × Bool} (λ r. Inv r.0)
      (contains user (followers_of (open_followers s symbol) symbol)) (λ _. w)
      (λ _. ensure_started-Inv _ symbol (subscribe-Inv _ symbol user w))

add_coin-Inv : (s : System) (symbol user : Text) → Inv s → Inv (add_coin s symbol user).0
unfolding add_coin
add_coin-Inv s symbol user v = add_lower-Inv s (to_lower symbol) user v

cancel-Inv : (s : System) (id : ℕ) → Inv s → Inv (cancel s id)
unfolding cancel
cancel-Inv s id v = record {
  registered = All-mark s id s.tasks v.registered;
  numbered = Below-mark id s.next_id s.tasks v.numbered;
}

cancel_stream-Inv : (s : System) (symbol : Text) → Inv s → Inv (cancel_stream s symbol)
unfolding cancel_stream
cancel_stream-Inv s symbol v = elim (Option-cases (lookup symbol s.streams)) [
  | inl e ↦ rw (e, cancel_stream) v
  | inr (id, e) ↦ rw (e, cancel_stream) (cancel-Inv s id v)
]

cancel_if_unused-Inv :
    (s : System) (symbol : Text) (users : List Text) → Inv s → Inv (cancel_if_unused s symbol users)
unfolding cancel_if_unused
cancel_if_unused-Inv s symbol [] v = cancel_stream-Inv s symbol v
cancel_if_unused-Inv s symbol (u ∷ us) v = v

unsubscribe-Inv :
    (s : System) (symbol user : Text) (users : List Text)
    → Inv s
    → Inv (unsubscribe s symbol user users)
unfolding unsubscribe
unsubscribe-Inv s symbol user users v =
    if_cases Inv (contains user users)
      (λ _. record { registered = v.registered; numbered = v.numbered }) (λ _. v)

delete_lower-Inv : (s : System) (symbol user : Text) → Inv s → Inv (delete_lower s symbol user)
unfolding delete_lower
delete_lower-Inv s symbol user v = elim (Option-cases (lookup symbol s.followers)) [
  | inl e ↦ rw (e, delete_lower) v
  | inr (users, e) ↦
      rw (e, delete_lower) (cancel_if_unused-Inv _ symbol _ (unsubscribe-Inv s symbol user users v))
]

delete_coin-Inv : (s : System) (symbol user : Text) → Inv s → Inv (delete_coin s symbol user)
unfolding delete_coin
delete_coin-Inv s symbol user v = delete_lower-Inv s (to_lower symbol) user v

-- The goroutines that are left are of other symbols.
All-delete :
    (s : System) (t : Task) (ts : List Task)
    → lookup t.symbol s.streams ≡ some t.id
    → All (λ u. lookup u.symbol s.streams ≡ some u.id) ts
    → All
        (λ u. lookup u.symbol (delete t.symbol s.streams) ≡ some u.id)
        (keep (λ u. not (nat_beq u.id t.id)) ts)
All-delete s t [] e h = tt
All-delete s t (u ∷ us) e h = ground (
  arith,
  lookup-delete t.symbol u.symbol s.streams,
  eq_iff t.symbol u.symbol,
  All-delete s t us e h.1,
)

-- What holds of all goroutines holds of the one that is found.
All-first :
    (s : System) (p : Task → Bool) (t : Task) (ts : List Task)
    → first p ts ≡ some t
    → All (λ u. lookup u.symbol s.streams ≡ some u.id) ts
    → lookup t.symbol s.streams ≡ some t.id
All-first s p t [] e h = cc
All-first s p t (u ∷ us) e h = ground (arith, All-first s p t us, h.0)

finish-Inv :
    (s : System) (t : Task) → lookup t.symbol s.streams ≡ some t.id → Inv s → Inv (finish s t)
unfolding finish
finish-Inv s t e v = record {
  registered = All-delete s t s.tasks e v.registered;
  numbered = Below-keep _ s.next_id s.tasks v.numbered;
}

Step-Inv : {s t : System} → Step s t → Inv s → Inv t
Step-Inv (adds s symbol user) v = add_coin-Inv s symbol user v
Step-Inv (deletes s symbol user) v = delete_coin-Inv s symbol user v
Step-Inv (finishes s t e) v = finish-Inv s t (All-first s _ t s.tasks e v.registered) v

pub Reach-Inv : {s : System} → Reach s → Inv s
Reach-Inv created = record { registered = tt; numbered = tt }
Reach-Inv (later r st) = Step-Inv st (Reach-Inv r)

abbrev pub of_symbol : Text → Task → Bool
of_symbol symbol t = t.symbol == symbol

-- Below the goroutine of a symbol there is no other of that symbol.
none-Below :
    (s : System) (symbol : Text) (id : ℕ) (ts : List Task)
    → lookup symbol s.streams ≡ some id
    → All (λ u. lookup u.symbol s.streams ≡ some u.id) ts
    → Below id ts
    → length (keep (of_symbol symbol) ts) ≡ 0
none-Below s symbol id [] e h b = refl
none-Below s symbol id (u ∷ us) e h b =
    ground (arith, eq_iff u.symbol symbol, Below-mono u.id id us, none-Below s symbol id us)

at_most_one :
    (s : System) (symbol : Text) (n : ℕ) (ts : List Task)
    → All (λ u. lookup u.symbol s.streams ≡ some u.id) ts
    → Below n ts
    → length (keep (of_symbol symbol) ts) ≤ 1
at_most_one s symbol n [] h b = omega arith
at_most_one s symbol n (u ∷ us) h b = ground (
  arith,
  eq_iff u.symbol symbol,
  none-Below s symbol u.id us,
  at_most_one s symbol u.id us h.1 b.1,
)

-- In every reachable state, whatever the interleaving of subscriptions, cancellations and ends of
-- streams, at most one stream goroutine runs for a symbol.
pub one_stream_per_symbol :
    {s : System} → Reach s → (symbol : Text) → length (keep (of_symbol symbol) s.tasks) ≤ 1
one_stream_per_symbol {s} r symbol =
    let v : Inv s = Reach-Inv r in at_most_one s symbol s.next_id s.tasks v.registered v.numbered
