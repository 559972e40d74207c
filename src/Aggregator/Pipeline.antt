-- ===== src/Aggregator/Pipeline.antt =====
-- Aggregator/gateway/converting/convertingDailyStat.go: `ConvertRawToArrDS` with the four workers that
-- it launches and the channels between them. The goroutines move one at a time; a move that cannot be
-- made now leaves the state as it is.
pub mod Counted
pub mod Closing
pub mod Tests
use crypto_asset_tracker_mic.Base.{
  ℕ, Bool, true, false, List, [], ◌∷◌, ◌++◌, Option, none, some, if◌then◌else◌, ltb, ◌&&◌, ◌||◌,
  length, Text, get_elem?, put_at,
}
use crypto_asset_tracker_mic.Base.Int.{ℤ}
use crypto_asset_tracker_mic.Aggregator.Models.{Numbers, MiniTicker, DailyStat}
use crypto_asset_tracker_mic.Aggregator.Converting.{Envelope, envelopes, daily_stat}

abbrev pub worker_cap : ℕ
worker_cap = 100

-- The capacity that `main` gives `dailyStatChan`.
abbrev pub output_cap : ℕ
output_cap = 500

module _ (N : Numbers) where
  -- Where `ConvertRawToArrDS` stands: at its `select`, before the rest of an array, in a `Wait` for the
  -- workers after which it returns or goes on, or at its end.
  pub data Stage : Type 0 where
    receiving : Stage
    handing : List (Envelope N) → Stage
    awaiting : Bool → Stage
    returned : Stage

  -- The test of the first `select` and of the one after the parsing.
  abbrev pub is_receiving : Stage → Bool
  is_receiving receiving = true
  is_receiving _ = false

  -- A worker is at its first `select`, at its end, at the `select` before its send, or in its send.
  pub data Worker : Type 0 where
    idle done : Worker
    holding sending : DailyStat N → Worker

  abbrev pub is_done : Worker → Bool
  is_done done = true
  is_done _ = false

  abbrev pub all_done : List Worker → Bool
  all_done [] = true
  all_done (w ∷ ws) = is_done w && all_done ws

  -- `received` is what the reader of the output took, `dropped` what a worker gave up when the context
  -- ended, and `crashed` tells of a send on a closed channel, which ends the program.
  pub record Pipeline : Type 0 where
    pub stage : Stage
    pub worker_chan : List (Envelope N)
    pub worker_closed : Bool
    pub workers : List Worker
    pub output_chan : List (DailyStat N)
    pub output_closed : Bool
    pub received : List (DailyStat N)
    pub dropped : List (DailyStat N)
    pub ctx_done : Bool
    pub crashed : Bool

  abbrev pub new_pipeline : Pipeline
  new_pipeline = record {
    stage = receiving;
    worker_chan = [];
    worker_closed = false;
    workers = idle ∷ idle ∷ idle ∷ idle ∷ [];
    output_chan = [];
    output_closed = false;
    received = [];
    dropped = [];
    ctx_done = false;
    crashed = false;
  }

  -- An array arrives; `clock i` is the time read for its i-th entry.
  unfoldable pub on_array : (ℕ → ℤ) → Option (List MiniTicker) → Pipeline → Pipeline
  on_array clock none s = s
  on_array clock (some ms) s =
      if s.ctx_done
      then record s { stage = awaiting false }
      else record s { stage = handing (envelopes N clock 0 ms) }

  -- The deferred closing of both channels.
  unfoldable pub leave : Pipeline → Pipeline
  leave s = record s { stage = returned; worker_closed = true; output_closed = true }

  unfoldable pub hand_on : Stage → Pipeline → Pipeline
  hand_on (handing []) s = record s { stage = receiving }
  hand_on (handing (e ∷ es)) s =
      if ltb (length s.worker_chan) worker_cap
      then record s { stage = handing es; worker_chan = s.worker_chan ++ e ∷ [] }
      else s
  hand_on receiving s = s
  hand_on (awaiting b) s = s
  hand_on returned s = s

  -- The context is seen in the loop over an array.
  unfoldable pub break_off : Stage → Pipeline → Pipeline
  break_off (handing (e ∷ es)) s = if s.ctx_done then record s { stage = awaiting true } else s
  break_off (handing []) s = s
  break_off receiving s = s
  break_off (awaiting b) s = s
  break_off returned s = s

  unfoldable pub end_wait : Stage → Pipeline → Pipeline
  unfolding leave
  end_wait (awaiting true) s = if all_done s.workers then leave s else s
  end_wait (awaiting false) s = if all_done s.workers then record s { stage = receiving } else s
  end_wait (handing es) s = s
  end_wait receiving s = s
  end_wait returned s = s

  abbrev pub set_worker : ℕ → Worker → Pipeline → Pipeline
  set_worker i w s = record s { workers = put_at i (some w) s.workers }

  -- `ReceiveDailyStat` at its `select`: the worker takes an entry, or finds the channel closed and empty.
  unfoldable pub take_from : ℕ → ℤ → List (Envelope N) → Pipeline → Pipeline
  unfolding put_at
  take_from i now [] s = if s.worker_closed then set_worker i done s else s
  take_from i now (e ∷ es) s = record (set_worker i (holding (daily_stat N now e)) s) {
    worker_chan = es;
  }

  -- The `select` before the send: a context that ended is taken, and otherwise the send is begun.
  unfoldable pub choose : ℕ → DailyStat N → Pipeline → Pipeline
  unfolding put_at
  choose i d s =
      if s.ctx_done
      then record (set_worker i done s) { dropped = s.dropped ++ d ∷ [] }
      else set_worker i (sending d) s

  -- The send, which no longer looks at the context, and for which the channel must not be closed.
  unfoldable pub send_stat : ℕ → DailyStat N → Pipeline → Pipeline
  unfolding put_at
  send_stat i d s =
      if s.output_closed
      then record s { crashed = true }
      else if ltb (length s.output_chan) output_cap
      then record (set_worker i idle s) { output_chan = s.output_chan ++ d ∷ [] }
      else s

  unfoldable pub work : ℕ → ℤ → Option Worker → Pipeline → Pipeline
  unfolding take_from choose send_stat
  work i now none s = s
  work i now (some idle) s = take_from i now s.worker_chan s
  work i now (some (holding d)) s = choose i d s
  work i now (some (sending d)) s = send_stat i d s
  work i now (some done) s = s

  -- The worker takes the end of the context at its first `select`, where an entry may wait as well.
  unfoldable pub stop_work : ℕ → Option Worker → Pipeline → Pipeline
  unfolding put_at
  stop_work i none s = s
  stop_work i (some idle) s = if s.ctx_done then set_worker i done s else s
  stop_work i (some (holding d)) s = s
  stop_work i (some (sending d)) s = s
  stop_work i (some done) s = s

  unfoldable pub drain : List (DailyStat N) → Pipeline → Pipeline
  drain [] s = s
  drain (d ∷ ds) s = record s { output_chan = ds; received = s.received ++ d ∷ [] }

  pub data Move : Type 0 where
    arrives : (ℕ → ℤ) → Text → Move
    hands_on breaks_off ends_wait input_closes sees_context context_ends output_taken : Move
    works : ℕ → ℤ → Move
    stops : ℕ → Move

  unfoldable pub step : (Text → Option (List MiniTicker)) → Pipeline → Move → Pipeline
  unfolding on_array hand_on break_off end_wait leave work stop_work drain
  step unmarshal s (arrives clock raw) =
      if is_receiving s.stage then on_array clock (unmarshal raw) s else s
  step unmarshal s hands_on = hand_on s.stage s
  step unmarshal s breaks_off = break_off s.stage s
  step unmarshal s ends_wait = end_wait s.stage s
  step unmarshal s input_closes = if is_receiving s.stage then leave s else s
  step unmarshal s sees_context = if is_receiving s.stage && s.ctx_done then leave s else s
  step unmarshal s context_ends = record s { ctx_done = true }
  step unmarshal s output_taken = drain s.output_chan s
  step unmarshal s (works i now) = work i now (get_elem? s.workers i) s
  step unmarshal s (stops i) = stop_work i (get_elem? s.workers i) s

  unfoldable pub run : (Text → Option (List MiniTicker)) → Pipeline → List Move → Pipeline
  unfolding step
  run unmarshal s [] = s
  run unmarshal s (m ∷ ms) = run unmarshal (step unmarshal s m) ms
