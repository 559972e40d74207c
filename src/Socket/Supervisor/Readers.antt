-- ===== src/Socket/Supervisor/Readers.antt =====
-- The readers of a producer, under every order of moves.
mod Waiting
pub use Waiting.*
use mathlib.Core.Path.{subst}
use crypto_asset_tracker_mic.Base.{
  get_elem?, or_out, put_at, All-get_elem?, length-put_at, put_at-nil, All-put_at, ℕ, zero, suc,
  ◌+◌, ◌≤◌, Bool, true, false, ◌||◌, ◌&&◌, List, [], ◌∷◌, ◌++◌, map, Option, none, some, ◌≡◌, ◌≢◌,
  refl, arith, if◌then◌else◌, ltb, nat_beq, length, length-append, Text, All, All-mono,
  Option-cases, inl, inr, if_cases,
}
use crypto_asset_tracker_mic.Socket.Connection.{
  Round, Reconnected, reconnect, Started, gave_up, reads_from,
}
use crypto_asset_tracker_mic.Socket.Supervisor.{
  output_cap, errors_cap, Phase, selecting, stopping, closing, ended, is_selecting, is_stopping,
  is_closing, Place, entered, reading, sending, reporting, Frame, got, failed, is_nil, Reader,
  Producer, new_socket_producer, start_read_message, cancel_reader, cancelled_by, stop_read_message,
  enter_loop, begin_reconnect, finish_reconnect, on_error, Turn, moves_to, returns_now, after_read,
  read_turn, reader_moves, cancel_it, tail, Move, ticks, takes_error, context_ends, sees_context,
  returns, client_takes, resumes, reads, step, run,
}

module _ (C : Type 0) where
  read_turn-next :
      (s : Producer C) (r : Reader C) (p : Place) (f : Frame) (r' : Reader C)
      → (read_turn C s r p f).next ≡ some r'
      → (r'.conn ≡ r.conn) × (r'.id ≡ r.id) × (r'.cancelled ≡ r.cancelled)
  unfolding read_turn after_read
  read_turn-next s r entered f r' h = elim (Option-cases s.conn) [
    | inl e ↦ absurd (ground arith)
    | inr (c, e) ↦ ground arith
  ]
  read_turn-next s r reading (got m) r' h = ground arith
  read_turn-next s r reading (failed e) r' h = ground arith
  read_turn-next s r (sending m) f r' h = ground arith
  read_turn-next s r (reporting e) f r' h = ground arith

  read_turn-room :
      (s : Producer C) (r : Reader C) (p : Place) (f : Frame)
      → (length s.output_chan ≤ output_cap) × (length s.read_msg_error ≤ errors_cap)
      → (length s.output_chan + length (read_turn C s r p f).sent ≤ output_cap)
        × (length s.read_msg_error + length (read_turn C s r p f).reported ≤ errors_cap)
  unfolding read_turn after_read
  read_turn-room s r entered f h = elim (Option-cases s.conn) [
    | inl e ↦ ground arith
    | inr (c, e) ↦ ground arith
  ]
  read_turn-room s r reading (got m) h = ground arith
  read_turn-room s r reading (failed e) h = ground arith
  read_turn-room s r (sending m) f h = ground arith
  read_turn-room s r (reporting e) f h = ground arith

  reader_moves-Inv : (i : ℕ) (f : Frame) (s : Producer C) → Inv C s → Inv C (reader_moves C i f s)
  unfolding reader_moves
  reader_moves-Inv i f s v = elim (Option-cases (get_elem? s.readers i)) [
    | inl e ↦ rw (e, reader_moves) v
    | inr (r, e) ↦
        (let t = read_turn C s r r.place f in
          let room = read_turn-room s r r.place f v.room in
          let known = All-get_elem? (Current C s) s.readers i r v.current e in
          rw (e, reader_moves)
            (record {
              single = omega (arith, v.single, length-put_at i t.next s.readers);
              current =
                  All-put_at (Current C _) i t.next s.readers
                    (λ r' h.
                      let kept = read_turn-next s r r.place f r' h in
                      record {
                        same_conn = ground (arith, kept, known.same_conn);
                        cancellable = ground (arith, kept, known.cancellable);
                        told = λ x. ground (arith, kept, known.told x);
                      })
                    (All-mono (Current C s) (Current C _) s.readers
                      (λ q h. record {
                        same_conn = h.same_conn;
                        cancellable = h.cancellable;
                        told = h.told;
                      })
                      v.current);
              flagged = v.flagged;
              gone = λ h. put_at-nil i t.next s.readers (v.gone h);
              room = (
                omega (arith, room.0, length-append s.output_chan t.sent),
                omega (arith, room.1, length-append s.read_msg_error t.reported),
              );
            }))
  ]

  context_ends-Inv : (s : Producer C) → Inv C s → Inv C (step C s context_ends)
  unfolding step
  context_ends-Inv s v = record {
    single = ground (arith, v.single, length-map_lem (cancel_it C) s.readers);
    current =
        All-map (Current C s) (Current C _) (cancel_it C) s.readers
          (λ r h. record { same_conn = h.same_conn; cancellable = h.cancellable; told = λ _. refl })
          v.current;
    flagged = v.flagged;
    gone = λ h. rw (v.gone h) refl;
    room = v.room;
  }

  returns-Inv :
      (s : Producer C)
      → s.readers ≡ []
      → is_closing s.phase ≡ true
      → Inv C s
      → Inv C (record s { phase = ended })
  returns-Inv s e at v = record {
    single = v.single;
    current = rw e tt;
    flagged = ground (arith, v.flagged);
    gone = λ _. e;
    room = v.room;
  }

  pub step-Inv : (s : Producer C) (m : Move C) → Inv C s → Inv C (step C s m)
  unfolding step begin_reconnect
  step-Inv s ticks v =
      if_cases (Inv C) (is_selecting s.phase)
        (λ at. stop_read_message-Inv C s stopping true refl (cc) v) (λ _. v)
  step-Inv s takes_error v =
      if_cases (Inv C) (is_selecting s.phase) (λ at. on_error-Inv C s s.read_msg_error refl at v)
        (λ _. v)
  step-Inv s context_ends v = context_ends-Inv s v
  step-Inv s sees_context v =
      if_cases (Inv C) (is_selecting s.phase && s.ctx_done)
        (λ at. stop_read_message-Inv C s closing s.reconnecting (ground (arith, v.flagged)) (cc) v)
        (λ _. v)
  step-Inv s returns v =
      if_cases (Inv C) (is_closing s.phase && is_nil s.readers)
        (λ at. returns-Inv s (length-zero s.readers (ground arith)) (ground arith) v) (λ _. v)
  step-Inv s client_takes v =
      channels-Inv C s (tail C s.output_chan) s.read_msg_error (ground (arith, v.room)) v
  step-Inv s (resumes draw rounds) v =
      if_cases (Inv C) (is_stopping s.phase && is_nil s.readers)
        (λ at.
          finish_reconnect-Inv C (reconnect C draw rounds s.url_connection) s
            (length-zero s.readers (ground arith)) v)
        (λ _. v)
  step-Inv s (reads i f) v = reader_moves-Inv i f s v

  run-Inv : (s : Producer C) (ms : List (Move C)) → Inv C s → Inv C (run C s ms)
  unfolding run
  run-Inv s [] v = v
  run-Inv s (m ∷ ms) v = run-Inv (step C s m) ms (step-Inv s m v)

  enter_loop-Inv : (url : Text) (a : Started C) → Inv C (enter_loop C (new_socket_producer C url) a)
  unfolding enter_loop start_read_message
  enter_loop-Inv url gave_up = record {
    single = omega arith;
    current = tt;
    flagged = refl;
    gone = λ _. refl;
    room = (omega arith, omega arith);
  }
  enter_loop-Inv url (reads_from conn at) = record {
    single = omega arith;
    current = (record { same_conn = refl; cancellable = refl; told = λ h. h }, tt);
    flagged = refl;
    gone = λ h. cc;
    room = (omega arith, omega arith);
  }

-- The states of a producer that `Start` serves.
unfoldable pub served : (C : Type 0) → Text → Started C → List (Move C) → Producer C
unfolding enter_loop run
served C url a ms = run C (enter_loop C (new_socket_producer C url) a) ms

pub served-Inv :
    (C : Type 0) (url : Text) (a : Started C) (ms : List (Move C)) → Inv C (served C url a ms)
unfolding served
served-Inv C url a ms = run-Inv C _ ms (enter_loop-Inv C url a)

-- In whatever order the goroutines move, a producer never has more than one reader; the reader
-- there is reads the connection that the producer holds, and none is left when Start has returned.
pub at_most_one_reader :
    (C : Type 0) (url : Text) (a : Started C) (ms : List (Move C))
    → (length (served C url a ms).readers ≤ 1)
      × All (λ r. r.conn ≡ (served C url a ms).conn) (served C url a ms).readers
      × ((served C url a ms).phase ≡ ended → (served C url a ms).readers ≡ [])
at_most_one_reader C url a ms =
    let v : Inv C (served C url a ms) = served-Inv C url a ms in
    (
      v.single,
      All-mono (Current C _) (λ r. r.conn ≡ (served C url a ms).conn) (served C url a ms).readers
          (λ r h. h.same_conn) v.current,
      v.gone,
    )

-- Whenever Start receives an error, the flag `reconnecting` is off, so no error is ever ignored.
pub no_error_is_ignored :
    (C : Type 0) (url : Text) (a : Started C) (ms : List (Move C)) (e : Text) (es : List Text)
    → is_selecting (served C url a ms).phase ≡ true
    → (served C url a ms).read_msg_error ≡ e ∷ es
    → step C (served C url a ms) takes_error
      ≡ begin_reconnect C (record (served C url a ms) { read_msg_error = es })
unfolding step on_error
no_error_is_ignored C url a ms e es at h =
    let v : Inv C (served C url a ms) = served-Inv C url a ms in ground (arith, v.flagged)
