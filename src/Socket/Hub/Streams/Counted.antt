-- ===== src/Socket/Hub/Streams/Counted.antt =====
-- How many messages of a channel were taken and wait.
use crypto_asset_tracker_mic.Base.{
  ℕ, zero, suc, ◌+◌, Bool, true, false, List, [], ◌∷◌, ◌++◌, Option, none, some, ◌≡◌, refl, arith,
  Text, text_eq, codes, if◌then◌else◌, ltb, nat_beq, length, get_elem?, put_at, tally, tally-append,
}
use crypto_asset_tracker_mic.Socket.Hub.{get_or_create_connection, get_mini_ticker_connection}
use crypto_asset_tracker_mic.Socket.Hub.Streams.{
  Stream, Serving, is_nil, output_cap, open_stream, put, take_message, take_turn, end_stream, Move,
  asks_trades, asks_mini_tickers, puts, takes, ends, step, run,
}

-- The messages that a move puts into a channel.
abbrev pub put_in : Serving → Move → ℕ → List Text
put_in s (puts d m) c =
    if nat_beq c d then (if ltb (length (s.waiting d)) output_cap then m ∷ [] else []) else []
put_in s _ c = []

unfoldable pub put_all : Text → Serving → List Move → ℕ → List Text
put_all base s [] c = []
put_all base s (m ∷ ms) c = put_in s m c ++ put_all base (step base s m) ms c

module _ (q : Text → Bool) where
  -- What the streams of a channel took.
  abbrev pub at_stream : ℕ → Stream → ℕ
  at_stream c t = if nat_beq c t.output_chan then tally q t.taken else 0

  unfoldable pub taken_from : ℕ → List Stream → ℕ
  taken_from c [] = 0
  taken_from c (t ∷ ts) = at_stream c t + taken_from c ts

  taken_from-append :
      (c : ℕ) (ts us : List Stream) → taken_from c (ts ++ us) ≡ taken_from c ts + taken_from c us
  unfolding taken_from
  taken_from-append c [] us = omega arith
  taken_from-append c (t ∷ ts) us = omega (arith, taken_from-append c ts us)

  taken_from-put_at :
      (c : ℕ) (ts : List Stream) (i : ℕ) (t u : Stream)
      → get_elem? ts i ≡ some t
      → taken_from c (put_at i (some u) ts) + at_stream c t ≡ taken_from c ts + at_stream c u
  unfolding taken_from put_at
  taken_from-put_at c [] i t u e = absurd (cc)
  taken_from-put_at c (x ∷ xs) zero t u e = ground (arith, e)
  taken_from-put_at c (x ∷ xs) (suc i) t u e = omega (arith, taken_from-put_at c xs i t u e)

  abbrev pub present : ℕ → Serving → ℕ
  present c s = taken_from c s.streams + tally q (s.waiting c)

  open_stream-present :
      (c : ℕ) (key : Text) (r : ℕ × _) (s : Serving) → present c (open_stream key r s) ≡ present c s
  unfolding open_stream taken_from
  open_stream-present c key (chan, m) s = ground (
    arith,
    taken_from-append c s.streams
        (record { key = key; output_chan = chan; taken = []; is_open = true } ∷ []),
  )

  take_message-present :
      (c i : ℕ) (e : Option Text) (t : Stream) (ms : List Text) (s : Serving)
      → get_elem? s.streams i ≡ some t
      → s.waiting t.output_chan ≡ ms
      → present c (take_message i e t ms s) ≡ present c s
  unfolding take_message
  take_message-present c i e t [] s at w = refl
  take_message-present c i e t (m ∷ ms) s at w = ground (
    arith,
    w,
    tally-append q t.taken (m ∷ []),
    taken_from-put_at c s.streams i t
        (record {
          key = t.key;
          output_chan = t.output_chan;
          taken = t.taken ++ m ∷ [];
          is_open = is_nil e;
        })
        at,
  )

  take_turn-present :
      (c i : ℕ) (e : Option Text) (o : Option Stream) (s : Serving)
      → get_elem? s.streams i ≡ o
      → present c (take_turn i e o s) ≡ present c s
  unfolding take_turn
  take_turn-present c i e none s at = refl
  take_turn-present c i e (some t) s at =
      ground (arith, take_message-present c i e t (s.waiting t.output_chan) s at refl)

  end_stream-present :
      (c i : ℕ) (o : Option Stream) (s : Serving)
      → get_elem? s.streams i ≡ o
      → present c (end_stream i o s) ≡ present c s
  unfolding end_stream
  end_stream-present c i none s at = refl
  end_stream-present c i (some t) s at = ground (
    arith,
    taken_from-put_at c s.streams i t
        (record { key = t.key; output_chan = t.output_chan; taken = t.taken; is_open = false }) at,
  )

  put-present :
      (c d : ℕ) (m : Text) (s : Serving)
      → present c (put d m s) ≡ present c s + tally q (put_in s (puts d m) c)
  unfolding put
  put-present c d m s = ground (arith, tally-append q (s.waiting d) (m ∷ []))

  module _ (base : Text) where
    step-present :
        (c : ℕ) (s : Serving) (m : Move)
        → present c (step base s m) ≡ present c s + tally q (put_in s m c)
    unfolding step
    step-present c s (asks_trades symbol) =
        omega
          (arith, open_stream-present c symbol (get_or_create_connection base symbol s.manager) s)
    step-present c s (asks_mini_tickers url) = omega (
      arith,
      open_stream-present c (codes "miniTicker") (get_mini_ticker_connection url s.manager) s,
    )
    step-present c s (puts d m) = put-present c d m s
    step-present c s (takes i e) =
        omega (arith, take_turn-present c i e (get_elem? s.streams i) s refl)
    step-present c s (ends i) = omega (arith, end_stream-present c i (get_elem? s.streams i) s refl)

    pub run-present :
        (c : ℕ) (s : Serving) (ms : List Move)
        → present c (run base s ms) ≡ present c s + tally q (put_all base s ms c)
    unfolding run put_all
    run-present c s [] = omega arith
    run-present c s (m ∷ ms) = omega (
      arith,
      run-present c (step base s m) ms,
      step-present c s m,
      tally-append q (put_in s m c) (put_all base (step base s m) ms c),
    )
