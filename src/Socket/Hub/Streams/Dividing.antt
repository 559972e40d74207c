-- ===== src/Socket/Hub/Streams/Dividing.antt =====
-- Which messages the streams of a key take.
use crypto_asset_tracker_mic.Base.{
  ℕ, ◌+◌, Bool, List, [], ◌∷◌, Option, none, some, ◌≡◌, refl, arith, Text, text_eq, ◌==◌, eq_iff,
  codes, if◌then◌else◌, ltb, length, get_elem?, put_at, tally, lookup, All, All-append, All-mono,
  All-put_at, All-get_elem?, if_cases,
}
use crypto_asset_tracker_mic.Socket.Hub.{
  Producer, ConnectionManager, get_or_create, get_or_create_connection, get_mini_ticker_connection,
}
use crypto_asset_tracker_mic.Socket.Hub.Sharing.{
  Separate, get_or_create-Separate, get_or_create-Registered, get_or_create-keeps,
}
use crypto_asset_tracker_mic.Socket.Hub.Streams.{
  Stream, Serving, new_serving, output_cap, open_stream, put, take_message, take_turn, end_stream,
  Move, asks_trades, asks_mini_tickers, puts, takes, ends, step, run,
}
use crypto_asset_tracker_mic.Socket.Hub.Streams.Counted.{put_all, taken_from, run-present}

-- The streams are on the registered channels of their keys.
abbrev Placed : ConnectionManager → Stream → Type 0
Placed m t =
    (p : Producer) × (lookup t.key m.connections ≡ some p) × (p.output_chan ≡ t.output_chan)

abbrev Inv : Serving → Type 0
Inv s = Separate s.manager × All (Placed s.manager) s.streams

open_stream-Inv :
    (key url : Text) (s : Serving)
    → Inv s
    → Inv (open_stream key (get_or_create key url s.manager) s)
unfolding open_stream
open_stream-Inv key url s h = (
  get_or_create-Separate key url s.manager h.0,
  All-append (Placed (get_or_create key url s.manager).1) s.streams _
      (All-mono (Placed s.manager) (Placed (get_or_create key url s.manager).1) s.streams
        (λ t (p, there, chan). (p, get_or_create-keeps key url s.manager t.key p there, chan)) h.1)
      (get_or_create-Registered key url s.manager, tt),
)

put-Inv : (c : ℕ) (m : Text) (s : Serving) → Inv s → Inv (put c m s)
unfolding put
put-Inv c m s h = if_cases Inv (ltb (length (s.waiting c)) output_cap) (λ _. h) (λ _. h)

-- A stream is replaced by one with its key and its channel.
replaced-Inv :
    (i : ℕ) (t u : Stream) (s : Serving)
    → get_elem? s.streams i ≡ some t
    → u.key ≡ t.key
    → u.output_chan ≡ t.output_chan
    → Inv s
    → All (Placed s.manager) (put_at i (some u) s.streams)
replaced-Inv i t u s at ek ec h =
    let (p, there, chan) = All-get_elem? (Placed s.manager) s.streams i t h.1 at in
    All-put_at (Placed s.manager) i (some u) s.streams
      (λ x e. (p, ground (arith, e, ek, there), ground (arith, e, ec, chan))) h.1

take_message-Inv :
    (i : ℕ) (e : Option Text) (t : Stream) (ms : List Text) (s : Serving)
    → get_elem? s.streams i ≡ some t
    → Inv s
    → Inv (take_message i e t ms s)
unfolding take_message
take_message-Inv i e t [] s at h = h
take_message-Inv i e t (m ∷ ms) s at h = (h.0, replaced-Inv i t _ s at refl refl h)

take_turn-Inv :
    (i : ℕ) (e : Option Text) (o : Option Stream) (s : Serving)
    → get_elem? s.streams i ≡ o
    → Inv s
    → Inv (take_turn i e o s)
unfolding take_turn
take_turn-Inv i e none s at h = h
take_turn-Inv i e (some t) s at h =
    if_cases Inv t.is_open (λ _. take_message-Inv i e t (s.waiting t.output_chan) s at h) (λ _. h)

end_stream-Inv :
    (i : ℕ) (o : Option Stream) (s : Serving)
    → get_elem? s.streams i ≡ o
    → Inv s
    → Inv (end_stream i o s)
unfolding end_stream
end_stream-Inv i none s at h = h
end_stream-Inv i (some t) s at h = (h.0, replaced-Inv i t _ s at refl refl h)

step-Inv : (base : Text) (s : Serving) (m : Move) → Inv s → Inv (step base s m)
unfolding step get_or_create_connection get_mini_ticker_connection
step-Inv base s (asks_trades symbol) h = open_stream-Inv symbol _ s h
step-Inv base s (asks_mini_tickers url) h = open_stream-Inv (codes "miniTicker") url s h
step-Inv base s (puts c m) h = put-Inv c m s h
step-Inv base s (takes i e) h = take_turn-Inv i e (get_elem? s.streams i) s refl h
step-Inv base s (ends i) h = end_stream-Inv i (get_elem? s.streams i) s refl h

run-Inv : (base : Text) (s : Serving) (ms : List Move) → Inv s → Inv (run base s ms)
unfolding run
run-Inv base s [] h = h
run-Inv base s (m ∷ ms) h = run-Inv base (step base s m) ms (step-Inv base s m h)

-- What the streams of a key took, by their keys alone.
unfoldable pub taken_by : (Text → Bool) → Text → List Stream → ℕ
taken_by q k [] = 0
taken_by q k (t ∷ ts) = (if t.key == k then tally q t.taken else 0) + taken_by q k ts

-- The streams of a key are those of its channel.
taken_by-from :
    (q : Text → Bool) (m : ConnectionManager) (k : Text) (p : Producer) (ts : List Stream)
    → Separate m
    → lookup k m.connections ≡ some p
    → All (Placed m) ts
    → taken_by q k ts ≡ taken_from q p.output_chan ts
unfolding taken_by taken_from
taken_by-from q m k p [] sep at h = refl
taken_by-from q m k p (t ∷ ts) sep at h =
    let (r, there, chan) = h.0 in
    ground (
      arith,
      taken_by-from q m k p ts sep at h.1,
      sep.1 t.key k r p there at,
      at,
      there,
      chan,
      eq_iff t.key k,
    )

new_serving-Inv : Inv new_serving
unfolding lookup
new_serving-Inv = (((λ k p e. cc e), (λ j k p r e f same. cc e)), tt)

-- Whatever the clients ask for, in whatever order messages arrive and are taken, and whatever the sends
-- answer: all streams of one key, which is a symbol or that of the mini-tickers, together took each
-- message of its channel once, but for those that still wait. So for every test the messages that were
-- put into the channel are as many as those that the streams of the key took and those that wait:
-- streams of one symbol divide its messages.
pub streams_divide_messages :
    (base : Text) (ms : List Move) (k : Text) (p : Producer) (q : Text → Bool)
    → lookup k (run base new_serving ms).manager.connections ≡ some p
    → taken_by q k (run base new_serving ms).streams
        + tally q ((run base new_serving ms).waiting p.output_chan)
      ≡ tally q (put_all base new_serving ms p.output_chan)
unfolding taken_from
streams_divide_messages base ms k p q at =
    let v = run-Inv base new_serving ms new_serving-Inv in
    omega (
      arith,
      taken_by-from q (run base new_serving ms).manager k p (run base new_serving ms).streams v.0 at
          v.1,
      run-present q base p.output_chan new_serving ms,
    )
