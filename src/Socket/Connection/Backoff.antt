-- ===== src/Socket/Connection/Backoff.antt =====
-- How long a reconnection takes, and what becomes of a connection.
use crypto_asset_tracker_mic.Base.{
  ℕ, zero, suc, ◌+◌, ◌≤◌, List, [], ◌∷◌, Option, none, ◌≡◌, inl, inr, refl, arith, Text,
  Option-cases,
}
use crypto_asset_tracker_mic.Socket.Connection.{
  Connected, Round, ended, tries, Reconnected, backoff_time, after_attempt, run_round,
  reconnect_from, reconnect, connect,
}

abbrev pub sum : List ℕ → ℕ
sum [] = 0
sum (n ∷ ns) = n + sum ns

-- The sum of the upper limits of the pauses of some attempts in a row.
abbrev pub limits : Type 0 → ℕ → ℕ → ℕ
limits C zero attempt = 0
limits C (suc left) attempt = backoff_time C attempt + limits C left (suc attempt)

module _ (C : Type 0) (draw : ℕ → ℕ → ℕ) (below : (n i : ℕ) → draw n i ≤ n) where
  after_attempt-Bounded :
      (n i left : ℕ) (c : Connected C) (later : Option Text → Text → Reconnected C)
      → ((e : Option Text) (u : Text) → sum (later e u).waits ≤ left)
      → sum (after_attempt C (draw n i) c later).waits ≤ n + left
  unfolding after_attempt
  after_attempt-Bounded n i left c later h = elim (Option-cases c.conn) [
    | inl e ↦ rw (e, after_attempt) (omega (arith, below n i, h c.error c.url))
    | inr (x, e) ↦ rw (e, after_attempt) (omega arith)
  ]

  run_round-Bounded :
      (n i left : ℕ) (url : Text) (r : Round C) (later : Option Text → Text → Reconnected C)
      → ((e : Option Text) (u : Text) → sum (later e u).waits ≤ left)
      → sum (run_round C (draw n i) url r later).waits ≤ n + left
  unfolding run_round
  run_round-Bounded n i left url (ended e) later h = omega arith
  run_round-Bounded n i left url (tries dial) later h =
      after_attempt-Bounded n i left (connect C dial url) later h

  from-Bounded :
      (rounds : ℕ → Round C) (left attempt : ℕ) (last : Option Text) (url : Text)
      → sum (reconnect_from C draw rounds left attempt last url).waits ≤ limits C left attempt
  unfolding reconnect_from
  from-Bounded rounds zero attempt last url = omega arith
  from-Bounded rounds (suc left) attempt last url =
      run_round-Bounded (backoff_time C attempt) attempt (limits C left (suc attempt)) url
        (rounds attempt) _ (λ e u. from-Bounded rounds left (suc attempt) e u)

five_limits : (C : Type 0) → limits C 5 0 ≡ 3100
unfolding backoff_time
five_limits C = refl

-- A call of `reconnect` pauses at most 3100 milliseconds in all, whatever the dials give, if a random
-- number drawn below a limit is at most the limit.
pub reconnect-Bounded :
    (C : Type 0) (draw : ℕ → ℕ → ℕ)
    → ((n i : ℕ) → draw n i ≤ n)
    → (rounds : ℕ → Round C) (url : Text) → sum (reconnect C draw rounds url).waits ≤ 3100
unfolding reconnect
reconnect-Bounded C draw below rounds url =
    rw (five_limits C) at (from-Bounded C draw below rounds 5 0 none url)
