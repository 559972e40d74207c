-- ===== src/Socket/Supervisor/Stopping.antt =====
-- How `Start` comes to its end, and what is in its way.
use crypto_asset_tracker_mic.Base.{
  or_out, put_at, All-get_elem?, ℕ, zero, suc, ◌<◌, Bool, true, false, List, [], ◌∷◌, ◌++◌,
  append-nil, none, some, ◌≡◌, ◌⊎◌, refl, ◌∙◌, arith, length, Text, All, Option-cases, inl, inr,
}
use crypto_asset_tracker_mic.Socket.Connection.{Started}
use crypto_asset_tracker_mic.Socket.Supervisor.{
  output_cap, errors_cap, ended, is_closing, Place, entered, reading, sending, reporting, Frame,
  got, failed, Reader, Producer, after_read, read_turn, reader_moves, Move, ticks, takes_error,
  context_ends, sees_context, returns, client_takes, resumes, reads, step, run,
}
use crypto_asset_tracker_mic.Socket.Supervisor.Readers.{halts, Current, Inv, served, served-Inv}

module _ (C : Type 0) where
  -- A cancelled reader with room in the channels: it returns after at most two moves.
  first_turn :
      (s : Producer C) (r : Reader C) (p : Place) (f : Frame)
      → r.place ≡ p
      → r.cancelled ≡ true
      → length s.output_chan < output_cap
      → length s.read_msg_error < errors_cap
      → ((read_turn C s r p f).next ≡ none)
        ⊎ ((read_turn C s r p f).next ≡ some (record r { place = reading }))
  unfolding read_turn after_read
  first_turn s r entered f at c ro re = elim (Option-cases s.conn) [
    | inl e ↦ inl (ground arith)
    | inr (x, e) ↦ inr (ground arith)
  ]
  first_turn s r reading (got m) at c ro re = inl (ground arith)
  first_turn s r reading (failed e) at c ro re = inl (ground arith)
  first_turn s r (sending m) f at c ro re = inr (ground arith)
  first_turn s r (reporting e) f at c ro re = inl (ground arith)

  read_once :
      (s : Producer C) (r : Reader C) (f : Frame)
      → s.readers ≡ r ∷ []
      → ((reader_moves C 0 f s).readers ≡ or_out (read_turn C s r r.place f).next [])
        × ((reader_moves C 0 f s).phase ≡ s.phase)
  unfolding reader_moves put_at
  read_once s r f e = ground arith

  read_none : (s : Producer C) (f : Frame) → s.readers ≡ [] → reader_moves C 0 f s ≡ s
  unfolding reader_moves
  read_none s f e = ground arith

  last_turn :
      (s : Producer C) (r : Reader C) (f : Frame)
      → s.readers ≡ record r { place = reading } ∷ []
      → r.cancelled ≡ true
      → (reader_moves C 0 f s).readers ≡ []
  unfolding reader_moves read_turn put_at after_read
  last_turn s r (got m) e c = ground arith
  last_turn s r (failed x) e c = ground arith

  return_now :
      (s : Producer C)
      → s.readers ≡ []
      → is_closing s.phase ≡ true
      → (step C s returns).phase ≡ ended
  unfolding step
  return_now s e at = ground arith

  close_by : Producer C → Frame → Frame → Producer C
  close_by s f g = reader_moves C 0 g (reader_moves C 0 f s)

  close_by-empty :
      (s : Producer C) (rs : List (Reader C)) (f g : Frame)
      → s.readers ≡ rs
      → Inv C s
      → is_closing s.phase ≡ true
      → length s.output_chan < output_cap
      → length s.read_msg_error < errors_cap
      → ((close_by s f g).readers ≡ []) × (is_closing (close_by s f g).phase ≡ true)
  unfolding close_by
  close_by-empty s [] f g e v at ro re = rw (read_none s f e) (rw (read_none s g e) (e, at))
  close_by-empty s (r ∷ []) f g e v at ro re =
      let known : Current C s r =
        All-get_elem? (Current C s) s.readers 0 r v.current (ground arith) in
      let told : r.cancelled ≡ true = known.told (ground arith) in
      let once = read_once s r f e in
      elim (first_turn s r r.place f refl told ro re) [
        | inl gone ↦
            (let left : (reader_moves C 0 f s).readers ≡ [] = ground (arith, once, gone) in
              rw (read_none (reader_moves C 0 f s) g left) (left, ground (arith, once)))
        | inr stays ↦
            (let left : (reader_moves C 0 f s).readers ≡ record r { place = reading } ∷ [] =
                ground (arith, once, stays) in
              (
                last_turn (reader_moves C 0 f s) r g left told,
                ground (arith, once, (read_once (reader_moves C 0 f s) _ g left).1),
              ))
      ]
  close_by-empty s (r ∷ q ∷ rs) f g e v at ro re = absurd (ground (arith, v.single))

-- When Start is about to return and the channels of the messages and of the errors have room, it
-- returns after its reader has moved twice, whatever the reader meets.
pub start_returns :
    (C : Type 0) (url : Text) (a : Started C) (ms : List (Move C)) (f g : Frame)
    → is_closing (served C url a ms).phase ≡ true
    → length (served C url a ms).output_chan < output_cap
    → length (served C url a ms).read_msg_error < errors_cap
    → (run C (served C url a ms) (reads 0 f ∷ reads 0 g ∷ returns ∷ [])).phase ≡ ended
unfolding run step close_by
start_returns C url a ms f g at ro re =
    let s = served C url a ms in
    let left = close_by-empty C s s.readers f g refl (served-Inv C url a ms) at ro re in
    return_now C (close_by C s f g) left.0 left.1

module _ (C : Type 0) where
  -- The reader has a message for the full channel, and Start waits for the reader.
  pub record Blocked (s : Producer C) : Type 0 where
    pub reader : Reader C
    pub pending : Text
    pub only : s.readers ≡ reader ∷ []
    pub at_send : reader.place ≡ sending pending
    pub waited : halts s.phase ≡ true
    pub full : length s.output_chan ≡ output_cap

  abbrev pub takes : Move C → Bool
  takes client_takes = true
  takes _ = false

  Blocked-turn :
      (f : Frame) (s : Producer C) (b : Blocked s)
      → ((reader_moves C 0 f s).readers ≡ record b.reader { place = sending b.pending } ∷ [])
        × ((reader_moves C 0 f s).output_chan ≡ s.output_chan ++ [])
        × ((reader_moves C 0 f s).phase ≡ s.phase)
  unfolding reader_moves read_turn put_at
  Blocked-turn f s b = ground (arith, b.only, b.at_send, b.full)

  Blocked-other : (i : ℕ) (f : Frame) (s : Producer C) → Blocked s → reader_moves C (suc i) f s ≡ s
  unfolding reader_moves
  Blocked-other i f s b = ground (arith, b.only)

  Blocked-reads :
      (i : ℕ) (f : Frame) (s : Producer C)
      → Blocked s
      → Blocked (reader_moves C i f s) × ((reader_moves C i f s).phase ≡ s.phase)
  Blocked-reads zero f s b =
      let t = Blocked-turn f s b in
      (
        record {
          reader = record b.reader { place = sending b.pending };
          pending = b.pending;
          only = t.0;
          at_send = refl;
          waited = ground (arith, t.2, b.waited);
          full = ground (arith, t.1, b.full, append-nil s.output_chan);
        },
        t.2,
      )
  Blocked-reads (suc i) f s b = rw (Blocked-other i f s b) (b, refl)

  Blocked-step :
      (s : Producer C) (m : Move C)
      → takes m ≡ false
      → Blocked s
      → Blocked (step C s m) × ((step C s m).phase ≡ s.phase)
  unfolding step
  Blocked-step s ticks n b = ground arith
  Blocked-step s takes_error n b = ground arith
  Blocked-step s context_ends n b = (
    record {
      reader = record b.reader { cancelled = true };
      pending = b.pending;
      only = rw b.only refl;
      at_send = b.at_send;
      waited = b.waited;
      full = b.full;
    },
    refl,
  )
  Blocked-step s sees_context n b = ground arith
  Blocked-step s returns n b = ground arith
  Blocked-step s client_takes n b = cc
  Blocked-step s (resumes draw rounds) n b = ground arith
  Blocked-step s (reads i f) n b = Blocked-reads i f s b

-- A reader that has a message for the full channel cannot be stopped: as long as no stream takes a
-- message, Start waits for it in the same place, be it to reconnect or to return at the end of the
-- program.
pub full_output_blocks_start :
    (C : Type 0) (s : Producer C) (ms : List (Move C))
    → Blocked C s
    → All (λ m. takes C m ≡ false) ms
    → (run C s ms).phase ≡ s.phase
unfolding run
full_output_blocks_start C s [] b h = refl
full_output_blocks_start C s (m ∷ ms) b h =
    let next = Blocked-step C s m h.0 b in
    full_output_blocks_start C (step C s m) ms next.0 h.1 ∙ next.1
