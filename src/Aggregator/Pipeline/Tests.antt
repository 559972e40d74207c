-- ===== src/Aggregator/Pipeline/Tests.antt =====
-- Runs of the workers on an array of two entries.
use crypto_asset_tracker_mic.Base.{
  ℕ, Bool, true, false, List, [], ◌∷◌, ◌++◌, Option, some, ◌≡◌, refl, Text, text_eq, put_at, codes,
  ◌==◌, map,
}
use crypto_asset_tracker_mic.Base.Int.{ℤ, pos}
use crypto_asset_tracker_mic.Aggregator.Tests.{lengths}
use crypto_asset_tracker_mic.Aggregator.Models.{
  MiniTicker, DailyStat, close_price_float, open_price_float, high_price_float, low_price_float,
}
use crypto_asset_tracker_mic.Aggregator.Converting.{daily_stat}
use crypto_asset_tracker_mic.Aggregator.Pipeline.{
  new_pipeline, on_array, leave, hand_on, break_off, end_wait, take_from, choose, send_stat, work,
  stop_work, drain, Move, arrives, hands_on, sees_context, context_ends, output_taken, works, step,
  run,
}
use crypto_asset_tracker_mic.Aggregator.Pipeline.Counted.{present, entries, handed, run-Conserves}
use crypto_asset_tracker_mic.Aggregator.Pipeline.Closing.{calm_pipeline_is_sound}

everything : Unit {0}
unfolding close_price_float open_price_float high_price_float low_price_float daily_stat on_array
    leave hand_on break_off end_wait take_from choose send_stat work stop_work drain step run put_at
everything = tt

abbrev ticker : Text → MiniTicker
ticker symbol = record {
  event_type = codes "24hrMiniTicker";
  event_time = pos 1;
  symbol = symbol;
  close_price = codes "4";
  open_price = codes "3";
  high_price = codes "5";
  low_price = codes "2";
  total_base_vol = codes "1";
  total_quote_vol = codes "1";
}

abbrev two : Text → Option (List MiniTicker)
two raw = some (ticker (codes "BTC") ∷ ticker (codes "ETH") ∷ [])

abbrev now : ℕ → ℤ
now i = pos 7

-- The second worker overtakes the first.
abbrev overtaking : List (Move lengths)
overtaking =
    arrives now []
    ∷ hands_on
    ∷ hands_on
    ∷ hands_on
    ∷ works 0 (pos 8)
    ∷ works 1 (pos 9)
    ∷ works 1 (pos 9)
    ∷ works 1 (pos 9)
    ∷ works 0 (pos 9)
    ∷ works 0 (pos 9)
    ∷ output_taken
    ∷ []

overtaken :
    map
      (λ (d : DailyStat lengths). d.symbol)
      ((run lengths two (new_pipeline lengths) overtaking).received
        ++ (run lengths two (new_pipeline lengths) overtaking).output_chan)
    ≡ codes "ETH" ∷ codes "BTC" ∷ []
unfolding everything
overtaken = refl

abbrev is_eth : DailyStat lengths → Bool
is_eth d = d.symbol == codes "ETH"

run-Conserves_example :
    present lengths is_eth (run lengths two (new_pipeline lengths) overtaking)
    ≡ entries lengths is_eth (handed lengths two (new_pipeline lengths) overtaking)
run-Conserves_example = run-Conserves lengths is_eth two overtaking

calm_pipeline_is_sound_example :
    ((run lengths two
        (new_pipeline lengths)
        (arrives now [] ∷ hands_on ∷ works 0 (pos 8) ∷ [])).crashed
      ≡ false)
    × ((run lengths two
          (new_pipeline lengths)
          (arrives now [] ∷ hands_on ∷ works 0 (pos 8) ∷ [])).dropped
        ≡ [])
calm_pipeline_is_sound_example =
    calm_pipeline_is_sound lengths two (arrives now [] ∷ hands_on ∷ works 0 (pos 8) ∷ [])
      (refl, (refl, (refl, tt)))

-- The first worker is in its send when the context ends and the channels are closed.
abbrev closing_early : List (Move lengths)
closing_early =
    arrives now []
    ∷ hands_on
    ∷ hands_on
    ∷ hands_on
    ∷ works 0 (pos 8)
    ∷ works 0 (pos 9)
    ∷ context_ends
    ∷ sees_context
    ∷ works 0 (pos 9)
    ∷ []

crashed_send : (run lengths two (new_pipeline lengths) closing_early).crashed ≡ true
unfolding everything
crashed_send = refl
