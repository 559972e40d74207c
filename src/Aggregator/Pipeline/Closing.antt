-- ===== src/Aggregator/Pipeline/Closing.antt =====
-- When the program can send on the closed channel of the day statistics.
use crypto_asset_tracker_mic.Base.{
  ℕ, Bool, true, false, List, [], ◌∷◌, Option, none, some, ◌≡◌, refl, arith, Text, get_elem?, All,
}
use crypto_asset_tracker_mic.Base.Int.{ℤ, pos}
use crypto_asset_tracker_mic.Aggregator.Models.{Numbers, MiniTicker, DailyStat}
use crypto_asset_tracker_mic.Aggregator.Pipeline.{
  Stage, receiving, handing, awaiting, returned, Worker, idle, done, holding, sending, Pipeline,
  new_pipeline, on_array, hand_on, break_off, end_wait, take_from, choose, send_stat, work,
  stop_work, drain, Move, arrives, hands_on, breaks_off, ends_wait, input_closes, sees_context,
  context_ends, output_taken, works, stops, step, run,
}

module _ (N : Numbers) where
  -- Neither the context nor the input ends.
  abbrev pub calm : Move N → Bool
  calm context_ends = false
  calm input_closes = false
  calm _ = true

  abbrev is_awaiting : Stage N → Bool
  is_awaiting (awaiting b) = true
  is_awaiting _ = false

  abbrev Undisturbed : Pipeline N → Type 0
  Undisturbed s =
      (s.ctx_done ≡ false)
      × (s.output_closed ≡ false)
      × (is_awaiting s.stage ≡ false)
      × (s.crashed ≡ false)
      × (s.dropped ≡ [])

  hand_on-Undisturbed :
      (st : Stage N) (s : Pipeline N) → Undisturbed s → Undisturbed (hand_on N st s)
  unfolding hand_on
  hand_on-Undisturbed (handing []) s h = ground (arith, h)
  hand_on-Undisturbed (handing (e ∷ es)) s h = ground (arith, h)
  hand_on-Undisturbed receiving s h = h
  hand_on-Undisturbed (awaiting b) s h = h
  hand_on-Undisturbed returned s h = h

  break_off-Undisturbed :
      (st : Stage N) (s : Pipeline N) → Undisturbed s → Undisturbed (break_off N st s)
  unfolding break_off
  break_off-Undisturbed (handing []) s h = h
  break_off-Undisturbed (handing (e ∷ es)) s h = ground (arith, h)
  break_off-Undisturbed receiving s h = h
  break_off-Undisturbed (awaiting b) s h = h
  break_off-Undisturbed returned s h = h

  end_wait-Undisturbed :
      (st : Stage N) (s : Pipeline N) → s.stage ≡ st → Undisturbed s → Undisturbed (end_wait N st s)
  unfolding end_wait
  end_wait-Undisturbed (handing es) s e h = h
  end_wait-Undisturbed receiving s e h = h
  end_wait-Undisturbed (awaiting b) s e h = absurd (ground (arith, h))
  end_wait-Undisturbed returned s e h = h

  work-Undisturbed :
      (i : ℕ) (now : ℤ) (o : Option (Worker N)) (s : Pipeline N)
      → Undisturbed s
      → Undisturbed (work N i now o s) × Undisturbed (stop_work N i o s)
  unfolding work take_from choose send_stat stop_work
  work-Undisturbed i now none s h = (h, h)
  work-Undisturbed i now (some idle) s h = ground (arith, h)
  work-Undisturbed i now (some (holding d)) s h = ground (arith, h)
  work-Undisturbed i now (some (sending d)) s h = ground (arith, h)
  work-Undisturbed i now (some done) s h = (h, h)

  drain-Undisturbed :
      (ds : List (DailyStat N)) (s : Pipeline N) → Undisturbed s → Undisturbed (drain N ds s)
  unfolding drain
  drain-Undisturbed [] s h = h
  drain-Undisturbed (d ∷ ds) s h = ground (arith, h)

  module _ (unmarshal : Text → Option (List MiniTicker)) where
    step-Undisturbed :
        (s : Pipeline N) (m : Move N)
        → calm m ≡ true
        → Undisturbed s
        → Undisturbed (step N unmarshal s m)
    unfolding step on_array
    step-Undisturbed s (arrives clock raw) c h = ground (arith, h)
    step-Undisturbed s hands_on c h = hand_on-Undisturbed s.stage s h
    step-Undisturbed s breaks_off c h = break_off-Undisturbed s.stage s h
    step-Undisturbed s ends_wait c h = end_wait-Undisturbed s.stage s refl h
    step-Undisturbed s input_closes c h = cc
    step-Undisturbed s sees_context c h = ground (arith, h)
    step-Undisturbed s context_ends c h = cc
    step-Undisturbed s output_taken c h = drain-Undisturbed s.output_chan s h
    step-Undisturbed s (works i now) c h = (work-Undisturbed i now (get_elem? s.workers i) s h).0
    step-Undisturbed s (stops i) c h = (work-Undisturbed i (pos 0) (get_elem? s.workers i) s h).1

    run-Undisturbed :
        (s : Pipeline N) (ms : List (Move N))
        → All (λ m. calm m ≡ true) ms
        → Undisturbed s
        → Undisturbed (run N unmarshal s ms)
    unfolding run
    run-Undisturbed s [] c h = h
    run-Undisturbed s (m ∷ ms) c h =
        run-Undisturbed (step N unmarshal s m) ms c.1 (step-Undisturbed s m c.0 h)

-- As long as neither the context nor the input channel ends, no order of moves makes a worker send on
-- a closed channel, and no statistic is given up.
pub calm_pipeline_is_sound :
    (N : Numbers) (unmarshal : Text → Option (List MiniTicker)) (ms : List (Move N))
    → All (λ m. calm N m ≡ true) ms
    → ((run N unmarshal (new_pipeline N) ms).crashed ≡ false)
      × ((run N unmarshal (new_pipeline N) ms).dropped ≡ [])
calm_pipeline_is_sound N unmarshal ms c =
    let u = run-Undisturbed N unmarshal (new_pipeline N) ms c (refl, refl, refl, refl, refl) in
    (u.3, u.4)
