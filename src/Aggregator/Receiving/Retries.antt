-- ===== src/Aggregator/Receiving/Retries.antt =====
-- What a retry loop returns.
use crypto_asset_tracker_mic.Base.{
  ℕ, zero, suc, ◌+◌, ◌<◌, ◌≤◌, List, [], ◌∷◌, Option, none, some, ◌≡◌, ◌⊎◌, inl, inr, refl, arith,
  Text,
}
use mathlib.Core.Path.{subst}
use crypto_asset_tracker_mic.Aggregator.Receiving.{
  Attempt, cancelled_before, succeeded, failed, cancelled_waiting, Answer, round, retry,
  create_client_conn,
}

-- The delays of the rounds from `i` to before `i + n`: one more second each time.
abbrev pub growing : ℕ → ℕ → List ℕ
growing i zero = []
growing i (suc n) = suc i ∷ growing (suc i) n

-- Exactly one of the pointer and the error is nil.
abbrev pub Decided : {A : Type 0} → Answer A → Type 0
Decided {A = A} r =
    ((a : A) × (r.value ≡ some a) × (r.error ≡ none))
    ⊎ ((e : Text) × (r.value ≡ none) × (r.error ≡ some e))

module _ {A : Type 0} where
  retry-Success :
      (n rounds i : ℕ) (last : Option Text) (attempt : ℕ → Attempt A) (a : A)
      → ((k : ℕ) → i ≤ k → k < i + n → (e : Text) × (attempt k ≡ failed e))
      → attempt (i + n) ≡ succeeded a
      → n < rounds
      → retry rounds i last attempt ≡ record { value = some a; error = none; delays = growing i n }
  unfolding retry round
  retry-Success n zero i last attempt a before good room = absurd (omega arith)
  retry-Success zero (suc rounds) i last attempt a before good room =
      let now : attempt i ≡ succeeded a = subst (λ m. attempt m ≡ succeeded a) (omega arith) good in
      rw (now, round) refl
  retry-Success (suc n) (suc rounds) i last attempt a before good room =
      let (e, now) = before i (omega arith) (omega arith) in
      let later =
        retry-Success n rounds (suc i) (some e) attempt a
          (λ k low high. before k (omega arith) (omega arith))
          (subst (λ m. attempt m ≡ succeeded a) (omega arith) good) (omega arith) in
      rw (now, round) (rw later refl)

  round-Decided :
      (i : ℕ) (x : Attempt A) (later : Text → Answer A)
      → ((e : Text) → Decided (later e))
      → Decided (round i x later)
  unfolding round
  round-Decided i (cancelled_before c) later h = inr (c, refl, refl)
  round-Decided i (succeeded a) later h = inl (a, refl, refl)
  round-Decided i (failed c) later h = h c
  round-Decided i (cancelled_waiting c d) later h = inr (d, refl, refl)

  retry-Decided :
      (rounds i : ℕ) (e : Text) (attempt : ℕ → Attempt A)
      → Decided (retry rounds i (some e) attempt)
  unfolding retry
  retry-Decided zero i e attempt = inr (e, refl, refl)
  retry-Decided (suc rounds) i e attempt =
      round-Decided i (attempt i) _ (λ c. retry-Decided rounds (suc i) c attempt)

-- If the first `n` attempts fail, the next succeeds, and there are more than `n` rounds, the connection
-- is returned without an error, after delays of one second, two seconds and so on.
pub create_client_conn-Success :
    {A : Type 0} (n max_retries : ℕ) (attempt : ℕ → Attempt A) (a : A)
    → ((k : ℕ) → k < n → (e : Text) × (attempt k ≡ failed e))
    → attempt n ≡ succeeded a
    → n < max_retries
    → create_client_conn max_retries attempt
      ≡ record { value = some a; error = none; delays = growing 0 n }
unfolding create_client_conn
create_client_conn-Success n max_retries attempt a before good room =
    retry-Success n max_retries 0 none attempt a (λ k low high. before k (omega arith))
      (subst (λ m. attempt m ≡ succeeded a) (omega arith) good) room

-- With at least one round, either a connection is returned or an error, never both and never none.
pub create_client_conn-Decided :
    {A : Type 0} (rounds : ℕ) (attempt : ℕ → Attempt A)
    → Decided (create_client_conn (suc rounds) attempt)
unfolding create_client_conn retry
create_client_conn-Decided rounds attempt =
    round-Decided 0 (attempt 0) _ (λ c. retry-Decided rounds 1 c attempt)
