-- ===== src/Socket/Supervisor/Readers/Waiting.antt =====
-- The invariant of a producer, and the moves that wait for its reader.
use crypto_asset_tracker_mic.Base.{
  ℕ, ◌≤◌, Bool, true, false, ◌||◌, List, [], ◌∷◌, map, Option, none, some, ◌≡◌, ◌≢◌, refl, arith,
  length, Text, All, All-mono, Option-cases, inl, inr,
}
use crypto_asset_tracker_mic.Socket.Connection.{Reconnected}
use crypto_asset_tracker_mic.Socket.Supervisor.{
  output_cap, errors_cap, Phase, selecting, stopping, ended, is_selecting, is_stopping, is_closing,
  is_nil, Reader, Producer, start_read_message, cancel_reader, cancelled_by, stop_read_message,
  begin_reconnect, finish_reconnect, on_error,
}

module _ {A : Type 0} where
  pub length-map_lem : (f : A → A) (xs : List A) → length (map f xs) ≡ length xs
  length-map_lem f [] = refl
  length-map_lem f (x ∷ xs) = omega (arith, length-map_lem f xs)

  pub All-map :
      (P Q : A → Type 0) (f : A → A) (xs : List A)
      → ((x : A) → P x → Q (f x))
      → All P xs
      → All Q (map f xs)
  All-map P Q f [] g h = tt
  All-map P Q f (x ∷ xs) g h = (g x h.0, All-map P Q f xs g h.1)

  pub length-zero : (xs : List A) → is_nil xs ≡ true → xs ≡ []
  length-zero [] h = refl
  length-zero (x ∷ xs) h = cc

abbrev pub halts : Phase → Bool
halts p = is_stopping p || is_closing p

module _ (C : Type 0) where
  -- The reader reads the producer's connection, its context is the one that the producer can cancel,
  -- and it is cancelled whenever somebody waits for it.
  pub record Current (s : Producer C) (r : Reader C) : Type 0 where
    pub same_conn : r.conn ≡ s.conn
    pub cancellable : s.read_msg_cancel ≡ some r.id
    pub told : (halts s.phase || s.ctx_done) ≡ true → r.cancelled ≡ true

  pub record Inv (s : Producer C) : Type 0 where
    pub single : length s.readers ≤ 1
    pub current : All (Current s) s.readers
    pub flagged : s.reconnecting ≡ is_stopping s.phase
    pub gone : s.phase ≡ ended → s.readers ≡ []
    pub room : (length s.output_chan ≤ output_cap) × (length s.read_msg_error ≤ errors_cap)

  start_read_message-Inv :
      (conn : Option C) (url : Text) (s : Producer C)
      → s.readers ≡ []
      → (length s.output_chan ≤ output_cap) × (length s.read_msg_error ≤ errors_cap)
      → Inv (record (start_read_message C conn (record s { conn = conn; url_connection = url })) {
        reconnecting = false;
        phase = selecting;
      })
  unfolding start_read_message
  start_read_message-Inv conn url s none_left room = record {
    single = ground arith;
    current = rw none_left (record { same_conn = refl; cancellable = refl; told = λ h. h }, tt);
    flagged = refl;
    gone = λ h. cc;
    room = room;
  }

  -- What is known of the readers after the cancellation.
  abbrev Told : Producer C → Reader C → Type 0
  Told s r = (r.conn ≡ s.conn) × (s.read_msg_cancel ≡ some r.id) × (r.cancelled ≡ true)

  cancel_reader-Told :
      (s : Producer C) (id : ℕ)
      → s.read_msg_cancel ≡ some id
      → (r : Reader C) → Current s r
      → Told s (cancel_reader C id r)
  unfolding cancel_reader
  cancel_reader-Told s id e r h = ground (arith, h.same_conn, h.cancellable)

  cancelled_by-Told :
      (s : Producer C) (cancel : Option ℕ) (rs : List (Reader C))
      → s.read_msg_cancel ≡ cancel
      → All (Current s) rs
      → All (Told s) (cancelled_by C cancel rs)
  unfolding cancelled_by
  cancelled_by-Told s none [] e h = tt
  cancelled_by-Told s none (r ∷ rs) e h = absurd (ground (arith, h.0.cancellable))
  cancelled_by-Told s (some id) rs e h =
      All-map (Current s) (Told s) (cancel_reader C id) rs (cancel_reader-Told s id e) h

  pub length-cancelled_by :
      (cancel : Option ℕ) (rs : List (Reader C)) → length (cancelled_by C cancel rs) ≡ length rs
  unfolding cancelled_by
  length-cancelled_by none rs = refl
  length-cancelled_by (some id) rs = length-map_lem (cancel_reader C id) rs

  -- The reader is told to stop and somebody waits for it, in `doReconnect` or at the end of `Start`.
  pub stop_read_message-Inv :
      (s : Producer C) (p : Phase) (flag : Bool)
      → flag ≡ is_stopping p
      → p ≢ ended
      → Inv s
      → Inv (record (stop_read_message C s) { reconnecting = flag; phase = p })
  unfolding stop_read_message
  stop_read_message-Inv s p flag e other v = record {
    single = ground (arith, v.single, length-cancelled_by s.read_msg_cancel s.readers);
    current =
        All-mono (Told s) (Current _) (cancelled_by C s.read_msg_cancel s.readers)
          (λ r h. record { same_conn = h.0; cancellable = h.1; told = λ _. h.2 })
          (cancelled_by-Told s s.read_msg_cancel s.readers refl v.current);
    flagged = e;
    gone = λ h. absurd (other h);
    room = v.room;
  }

  pub finish_reconnect-Inv :
      (r : Reconnected C) (s : Producer C) → s.readers ≡ [] → Inv s → Inv (finish_reconnect C r s)
  unfolding finish_reconnect
  finish_reconnect-Inv r s none_left v = elim (Option-cases r.conn) [
    | inl e ↦
        rw (e, finish_reconnect)
          (record {
            single = v.single;
            current = rw none_left tt;
            flagged = refl;
            gone = λ h. cc;
            room = v.room;
          })
    | inr (c, e) ↦
        rw (e, finish_reconnect) (start_read_message-Inv (some c) r.url s none_left v.room)
  ]

  -- With an error received, and with messages received, the rest stays as it is.
  pub channels-Inv :
      (s : Producer C) (output errors : List Text)
      → (length output ≤ output_cap) × (length errors ≤ errors_cap)
      → Inv s
      → Inv (record s { output_chan = output; read_msg_error = errors })
  channels-Inv s output errors room v = record {
    single = v.single;
    current =
        All-mono (Current s) (Current _) s.readers
          (λ r h. record { same_conn = h.same_conn; cancellable = h.cancellable; told = h.told })
          v.current;
    flagged = v.flagged;
    gone = v.gone;
    room = room;
  }

  pub on_error-Inv :
      (s : Producer C) (es : List Text)
      → s.read_msg_error ≡ es
      → is_selecting s.phase ≡ true
      → Inv s
      → Inv (on_error C s es)
  unfolding on_error begin_reconnect
  on_error-Inv s [] e at v = v
  on_error-Inv s (x ∷ es) e at v =
      let idle : s.reconnecting ≡ false = ground (arith, v.flagged) in
      rw (idle, on_error)
        (stop_read_message-Inv (record s { read_msg_error = es }) stopping true refl (cc)
          (channels-Inv s s.output_chan es (ground (arith, v.room)) v))
