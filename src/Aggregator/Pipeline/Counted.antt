-- ===== src/Aggregator/Pipeline/Counted.antt =====
-- Where the entries are, whatever the order in which the goroutines move.
use crypto_asset_tracker_mic.Base.{
  ℕ, zero, suc, ◌+◌, Bool, true, false, List, [], ◌∷◌, ◌++◌, Option, none, some, ◌≡◌, refl, arith,
  if◌then◌else◌, ltb, length, Text, get_elem?, put_at,
}
use crypto_asset_tracker_mic.Base.Int.{ℤ, pos}
use crypto_asset_tracker_mic.Aggregator.Models.{Numbers, MiniTicker, DailyStat}
use crypto_asset_tracker_mic.Aggregator.Converting.{Envelope, daily_stat}
use crypto_asset_tracker_mic.Aggregator.Pipeline.{
  worker_cap, Stage, receiving, handing, awaiting, returned, Worker, idle, done, holding, sending,
  Pipeline, new_pipeline, on_array, leave, hand_on, break_off, end_wait, take_from, choose,
  send_stat, work, stop_work, drain, Move, arrives, hands_on, breaks_off, ends_wait, input_closes,
  sees_context, context_ends, output_taken, works, stops, step, run,
}

module _ (N : Numbers) where
  -- The entries that a move puts into the channel of the workers.
  abbrev pub put_by : Stage N → Pipeline N → List (Envelope N)
  put_by (handing (e ∷ es)) s = if ltb (length s.worker_chan) worker_cap then e ∷ [] else []
  put_by _ s = []

  abbrev pub put_in : Pipeline N → Move N → List (Envelope N)
  put_in s hands_on = put_by s.stage s
  put_in s _ = []

  -- The entries that the moves put into the channel of the workers.
  unfoldable pub handed :
      (Text → Option (List MiniTicker)) → Pipeline N → List (Move N) → List (Envelope N)
  handed unmarshal s [] = []
  handed unmarshal s (m ∷ ms) = put_in s m ++ handed unmarshal (step N unmarshal s m) ms

module _ (N : Numbers) (p : DailyStat N → Bool) where
  -- A statistic without the time at which a worker took it.
  abbrev pub untimed : DailyStat N → DailyStat N
  untimed d = record d { recv_time = pos 0 }

  abbrev pub one : Bool → ℕ
  one true = 1
  one false = 0

  unfoldable pub entries : List (Envelope N) → ℕ
  unfolding daily_stat
  entries [] = 0
  entries (e ∷ es) = one (p (daily_stat N (pos 0) e)) + entries es

  unfoldable pub stats : List (DailyStat N) → ℕ
  stats [] = 0
  stats (d ∷ ds) = one (p (untimed d)) + stats ds

  unfoldable pub at_worker : Worker N → ℕ
  at_worker idle = 0
  at_worker done = 0
  at_worker (holding d) = one (p (untimed d))
  at_worker (sending d) = one (p (untimed d))

  unfoldable pub held : List (Worker N) → ℕ
  unfolding at_worker
  held [] = 0
  held (w ∷ ws) = at_worker w + held ws

  entries-append : (xs ys : List (Envelope N)) → entries (xs ++ ys) ≡ entries xs + entries ys
  unfolding entries
  entries-append [] ys = omega arith
  entries-append (x ∷ xs) ys = omega (arith, entries-append xs ys)

  stats-append : (xs ys : List (DailyStat N)) → stats (xs ++ ys) ≡ stats xs + stats ys
  unfolding stats
  stats-append [] ys = omega arith
  stats-append (x ∷ xs) ys = omega (arith, stats-append xs ys)

  held-put_at :
      (ws : List (Worker N)) (i : ℕ) (w v : Worker N)
      → get_elem? ws i ≡ some w
      → held (put_at i (some v) ws) + at_worker w ≡ held ws + at_worker v
  unfolding held put_at
  held-put_at [] i w v h = absurd (cc)
  held-put_at (x ∷ xs) zero w v h = ground (arith, h)
  held-put_at (x ∷ xs) (suc i) w v h = omega (arith, held-put_at xs i w v h)

  -- The entries in the channel of the workers and all that became of the earlier ones.
  unfoldable pub present : Pipeline N → ℕ
  present s =
      entries s.worker_chan
      + held s.workers
      + stats s.output_chan
      + stats s.received
      + stats s.dropped

  hand_on-present :
      (st : Stage N) (s : Pipeline N)
      → present (hand_on N st s) ≡ present s + entries (put_by N st s)
  unfolding hand_on present entries
  hand_on-present receiving s = omega arith
  hand_on-present (handing []) s = omega arith
  hand_on-present (handing (e ∷ es)) s = ground (arith, entries-append s.worker_chan (e ∷ []))
  hand_on-present (awaiting b) s = omega arith
  hand_on-present returned s = omega arith

  others-present :
      (st : Stage N) (s : Pipeline N)
      → (present (break_off N st s) ≡ present s) × (present (end_wait N st s) ≡ present s)
  unfolding break_off end_wait leave present
  others-present receiving s = (refl, refl)
  others-present (handing []) s = (refl, refl)
  others-present (handing (e ∷ es)) s = (ground arith, refl)
  others-present (awaiting true) s = (refl, ground arith)
  others-present (awaiting false) s = (refl, ground arith)
  others-present returned s = (refl, refl)

  take_from-present :
      (i : ℕ) (now : ℤ) (s : Pipeline N) (es : List (Envelope N))
      → s.worker_chan ≡ es
      → get_elem? s.workers i ≡ some idle
      → present (take_from N i now es s) ≡ present s
  unfolding take_from present at_worker entries daily_stat
  take_from-present i now s [] e at = ground (arith, held-put_at s.workers i idle done at)
  take_from-present i now s (x ∷ es) e at =
      ground (arith, e, held-put_at s.workers i idle (holding (daily_stat N now x)) at)

  send_stat-present :
      (i : ℕ) (d : DailyStat N) (s : Pipeline N)
      → get_elem? s.workers i ≡ some (sending d)
      → present (send_stat N i d s) ≡ present s
  unfolding send_stat present at_worker stats
  send_stat-present i d s at =
      ground
        (arith, stats-append s.output_chan (d ∷ []), held-put_at s.workers i (sending d) idle at)

  choose-present :
      (i : ℕ) (d : DailyStat N) (s : Pipeline N)
      → get_elem? s.workers i ≡ some (holding d)
      → present (choose N i d s) ≡ present s
  unfolding choose present at_worker stats
  choose-present i d s at = ground (
    arith,
    stats-append s.dropped (d ∷ []),
    held-put_at s.workers i (holding d) done at,
    held-put_at s.workers i (holding d) (sending d) at,
  )

  work-present :
      (i : ℕ) (now : ℤ) (s : Pipeline N) (o : Option (Worker N))
      → get_elem? s.workers i ≡ o
      → present (work N i now o s) ≡ present s
  unfolding work
  work-present i now s none at = refl
  work-present i now s (some idle) at = take_from-present i now s s.worker_chan refl at
  work-present i now s (some (holding d)) at = choose-present i d s at
  work-present i now s (some (sending d)) at = send_stat-present i d s at
  work-present i now s (some done) at = refl

  stop_work-present :
      (i : ℕ) (s : Pipeline N) (o : Option (Worker N))
      → get_elem? s.workers i ≡ o
      → present (stop_work N i o s) ≡ present s
  unfolding stop_work present at_worker stats
  stop_work-present i s none at = refl
  stop_work-present i s (some idle) at = ground (arith, held-put_at s.workers i idle done at)
  stop_work-present i s (some (holding d)) at = refl
  stop_work-present i s (some (sending d)) at = refl
  stop_work-present i s (some done) at = refl

  drain-present :
      (ds : List (DailyStat N)) (s : Pipeline N)
      → s.output_chan ≡ ds
      → present (drain N ds s) ≡ present s
  unfolding drain present stats
  drain-present [] s e = refl
  drain-present (d ∷ ds) s e = ground (arith, e, stats-append s.received (d ∷ []))

  arrives-present :
      (clock : ℕ → ℤ) (o : Option (List MiniTicker)) (s : Pipeline N)
      → present (on_array N clock o s) ≡ present s
  unfolding on_array present
  arrives-present clock none s = refl
  arrives-present clock (some ms) s = ground arith

  module _ (unmarshal : Text → Option (List MiniTicker)) where
    step-present :
        (s : Pipeline N) (m : Move N)
        → present (step N unmarshal s m) ≡ present s + entries (put_in N s m)
    unfolding step leave present entries
    step-present s (arrives clock raw) = ground (arith, arrives-present clock (unmarshal raw) s)
    step-present s hands_on = hand_on-present s.stage s
    step-present s breaks_off = omega (arith, (others-present s.stage s).0)
    step-present s ends_wait = omega (arith, (others-present s.stage s).1)
    step-present s input_closes = ground arith
    step-present s sees_context = ground arith
    step-present s context_ends = omega arith
    step-present s output_taken = omega (arith, drain-present s.output_chan s refl)
    step-present s (works i now) = omega (arith, work-present i now s (get_elem? s.workers i) refl)
    step-present s (stops i) = omega (arith, stop_work-present i s (get_elem? s.workers i) refl)

    run-present :
        (s : Pipeline N) (ms : List (Move N))
        → present (run N unmarshal s ms) ≡ present s + entries (handed N unmarshal s ms)
    unfolding run handed entries
    run-present s [] = omega arith
    run-present s (m ∷ ms) = omega (
      arith,
      run-present (step N unmarshal s m) ms,
      step-present s m,
      entries-append (put_in N s m) (handed N unmarshal (step N unmarshal s m) ms),
    )

-- In whatever order the workers and the channels move, and for every test on statistics, the entries
-- that were put into the channel of the workers are as many as those that wait there, are held by a
-- worker, wait in the output, were received, or were given up at the end of the context: none is
-- lost, doubled or changed on the way, except in the time at which it was taken.
pub run-Conserves :
    (N : Numbers) (p : DailyStat N → Bool) (unmarshal : Text → Option (List MiniTicker))
    (ms : List (Move N))
    → present N p (run N unmarshal (new_pipeline N) ms)
      ≡ entries N p (handed N unmarshal (new_pipeline N) ms)
unfolding present entries held at_worker stats
run-Conserves N p unmarshal ms = omega (arith, run-present N p unmarshal (new_pipeline N) ms)
