-- ===== src/Socket/Supervisor/Repair.antt =====
-- What follows when the connection breaks: the reconnection, and its failure.
use crypto_asset_tracker_mic.Base.{
  put_at, ℕ, Bool, true, false, List, [], ◌∷◌, Option, none, some, ◌≡◌, refl, arith, Text,
}
use crypto_asset_tracker_mic.Socket.Connection.{Round, reconnect, Started}
use crypto_asset_tracker_mic.Socket.Supervisor.{
  Phase, selecting, stopping, entered, reading, reporting, Frame, failed, Reader, Producer,
  start_read_message, cancelled_by, stop_read_message, begin_reconnect, finish_reconnect, on_error,
  after_read, read_turn, reader_moves, Move, ticks, takes_error, sees_context, resumes, reads, step,
  run,
}
use crypto_asset_tracker_mic.Socket.Supervisor.Readers.{Inv, served, served-Inv}

module _ (C : Type 0) where
  -- What the repair of a connection depends on.
  abbrev At : Producer C → List (Reader C) → Phase → Bool → List Text → Text → ℕ → Bool → Type 0
  At s rs p flag es url next ctx =
      (s.readers ≡ rs)
      × (s.phase ≡ p)
      × (s.reconnecting ≡ flag)
      × (s.read_msg_error ≡ es)
      × (s.url_connection ≡ url)
      × (s.next_reader ≡ next)
      × (s.ctx_done ≡ ctx)

  cancelled_by-nil : (cancel : Option ℕ) → cancelled_by C cancel [] ≡ []
  unfolding cancelled_by
  cancelled_by-nil none = refl
  cancelled_by-nil (some id) = refl

  module _ (url : Text) (next : ℕ) (ctx : Bool) where
    breaks :
        (s : Producer C) (r : Reader C) (e : Text)
        → r.place ≡ reading
        → r.cancelled ≡ false
        → At s (r ∷ []) selecting false [] url next ctx
        → At
            (reader_moves C 0 (failed e) s)
            (record r { place = reporting e } ∷ [])
            selecting
            false
            []
            url
            next
            ctx
    unfolding reader_moves read_turn after_read put_at
    breaks s r e at live h = ground (arith, h, at, live)

    reports :
        (s : Producer C) (r : Reader C) (e : Text) (f : Frame)
        → At s (record r { place = reporting e } ∷ []) selecting false [] url next ctx
        → At (reader_moves C 0 f s) [] selecting false (e ∷ []) url next ctx
    unfolding reader_moves read_turn put_at
    reports s r e f h = ground (arith, h)

    wakes :
        (s : Producer C) (e : Text)
        → At s [] selecting false (e ∷ []) url next ctx
        → At (step C s takes_error) [] stopping true [] url next ctx
    unfolding step on_error begin_reconnect stop_read_message
    wakes s e h = ground (arith, h, cancelled_by-nil s.read_msg_cancel)

    restarts :
        (s : Producer C) (draw : ℕ → ℕ → ℕ) (rounds : ℕ → Round C) (c : C)
        → (reconnect C draw rounds url).conn ≡ some c
        → At s [] stopping true [] url next ctx
        → ((step C s (resumes draw rounds)).readers
            ≡ record { id = next; conn = some c; cancelled = ctx; place = entered } ∷ [])
          × ((step C s (resumes draw rounds)).conn ≡ some c)
          × ((step C s (resumes draw rounds)).phase ≡ selecting)
    unfolding step finish_reconnect start_read_message
    restarts s draw rounds c dials h = ground (arith, h, dials)

    enters :
        (s : Producer C) (f : Frame) (c : C)
        → s.readers ≡ record { id = next; conn = some c; cancelled = ctx; place = entered } ∷ []
        → s.conn ≡ some c
        → s.phase ≡ selecting
        → ((reader_moves C 0 f s).readers
            ≡ record { id = next; conn = some c; cancelled = ctx; place = reading } ∷ [])
          × ((reader_moves C 0 f s).conn ≡ some c)
          × ((reader_moves C 0 f s).phase ≡ selecting)
    unfolding reader_moves read_turn put_at
    enters s f c h has at = ground (arith, h, has, at)

-- The moves that a broken connection causes: the reader meets the error and reports it, Start takes it,
-- stops the reader and reconnects, and the new reader enters its loop.
abbrev pub repair : (C : Type 0) → Text → Frame → (ℕ → ℕ → ℕ) → (ℕ → Round C) → List (Move C)
repair C e f draw rounds =
    reads 0 (failed e) ∷ reads 0 f ∷ takes_error ∷ resumes draw rounds ∷ reads 0 f ∷ []

-- When the connection breaks under the reader of a program that goes on, and the reconnection
-- succeeds, then after the moves of the repair Start is at its select again, holds the new connection,
-- and the only reader reads from it, with a context that nobody cancelled.
pub broken_connection_recovers :
    (C : Type 0) (url : Text) (a : Started C) (ms : List (Move C)) (r : Reader C) (e : Text)
    (f : Frame) (draw : ℕ → ℕ → ℕ) (rounds : ℕ → Round C) (c : C)
    → (served C url a ms).phase ≡ selecting
    → (served C url a ms).ctx_done ≡ false
    → (served C url a ms).readers ≡ r ∷ []
    → r.place ≡ reading
    → r.cancelled ≡ false
    → (served C url a ms).read_msg_error ≡ []
    → (reconnect C draw rounds (served C url a ms).url_connection).conn ≡ some c
    → ((run C (served C url a ms) (repair C e f draw rounds)).readers
        ≡ record {
          id = (served C url a ms).next_reader;
          conn = some c;
          cancelled = false;
          place = reading;
        }
          ∷ [])
      × ((run C (served C url a ms) (repair C e f draw rounds)).conn ≡ some c)
      × ((run C (served C url a ms) (repair C e f draw rounds)).phase ≡ selecting)
unfolding run step
broken_connection_recovers C url a ms r e f draw rounds c at going only place live quiet dials =
    let s = served C url a ms in
    let u = s.url_connection in
    let n = s.next_reader in
    let v : Inv C s = served-Inv C url a ms in
    let idle : s.reconnecting ≡ false = ground (arith, v.flagged) in
    let h1 = breaks C u n false s r e place live (only, at, idle, quiet, refl, refl, going) in
    let h2 = reports C u n false _ r e f h1 in
    let h3 = wakes C u n false _ e h2 in
    let h4 = restarts C u n false _ draw rounds c dials h3 in
    enters C u n false _ f c h4.0 h4.1 h4.2

module _ (C : Type 0) where
  abbrev pub wakes_up : Move C → Bool
  wakes_up ticks = true
  wakes_up sees_context = true
  wakes_up _ = false

  Silent : Producer C → Type 0
  Silent s = (s.readers ≡ []) × (s.phase ≡ selecting) × (s.read_msg_error ≡ [])
