-- ===== src/KafkaClickhouse/Repository/Batches.antt =====
-- What becomes of the messages that are taken and of the rows.
use crypto_asset_tracker_mic.Base.{
  ℕ, List, [], ◌∷◌, ◌++◌, map, append-nil, append_assoc, Option, none, some, ◌≡◌, refl, sym, ap,
  ◌∙◌, leb, Text, length, if_cases,
}
use crypto_asset_tracker_mic.KafkaClickhouse.Repository.{
  KafkaMsg, Row, row_of, Library, Repository, append_all, send_batch, append_batch, prepare, is_nil,
  insert, insert_remaining_msgs, InsertEvent, arrived, timer, cancelled, closed, append_msg,
  batch_insert,
}

module _ (Number : Type 0) where
  abbrev pub accepted : List (InsertEvent Number) → List (KafkaMsg Number)
  accepted [] = []
  accepted (arrived m lib ∷ es) = m ∷ accepted es
  accepted (timer lib ∷ es) = accepted es
  accepted (cancelled lib ∷ es) = []
  accepted (closed lib ∷ es) = []

  -- The acknowledged rows, and those that the buffer stands for.
  abbrev pub handled : Repository Number → List (Row Number)
  handled r = r.acknowledged ++ map (row_of Number) r.batch_buffer

  pub map-append :
      (ms ns : List (KafkaMsg Number))
      → map (row_of Number) (ms ++ ns) ≡ map (row_of Number) ms ++ map (row_of Number) ns
  map-append [] ns = refl
  map-append (m ∷ ms) ns = ap (λ z. row_of Number m ∷ z) (map-append ms ns)

  send_batch-handled :
      (e : Option Text) (r : Repository Number) → handled (send_batch Number e r).1 ≡ handled r
  unfolding send_batch
  send_batch-handled (some e) r = refl
  send_batch-handled none r = append-nil (r.acknowledged ++ map (row_of Number) r.batch_buffer)

  append_batch-handled :
      (e : Option Text) (lib : Library Number) (r : Repository Number)
      → handled (append_batch Number e lib r).1 ≡ handled r
  unfolding append_batch
  append_batch-handled (some e) lib r = refl
  append_batch-handled none lib r = send_batch-handled lib.send r

  prepare-handled :
      (e : Option Text) (lib : Library Number) (r : Repository Number)
      → handled (prepare Number e lib r).1 ≡ handled r
  unfolding prepare
  prepare-handled (some e) lib r = refl
  prepare-handled none lib r =
      append_batch-handled (append_all Number lib.append r.batch_buffer) lib r

  insert-handled :
      (lib : Library Number) (r : Repository Number) → handled (insert Number lib r).1 ≡ handled r
  unfolding insert
  insert-handled lib r =
      if_cases {A = Option Text × Repository Number} (λ x. handled x.1 ≡ handled r)
        (is_nil Number r.batch_buffer) (λ _. refl) (λ _. prepare-handled lib.prepare_batch lib r)

  pub remaining-handled :
      (lib : Library Number) (r : Repository Number)
      → handled (insert_remaining_msgs Number lib r) ≡ handled r
  unfolding insert_remaining_msgs
  remaining-handled lib r =
      if_cases {A = Repository Number} (λ x. handled x ≡ handled r) (is_nil Number r.batch_buffer)
        (λ _. refl) (λ _. insert-handled lib r)

  pub append_msg-handled :
      (batch_size : ℕ) (m : KafkaMsg Number) (lib : Library Number) (r : Repository Number)
      → handled (append_msg Number batch_size m lib r) ≡ handled r ++ row_of Number m ∷ []
  unfolding append_msg
  append_msg-handled batch_size m lib r =
      let grown : Repository Number = record r { batch_buffer = r.batch_buffer ++ m ∷ [] } in
      let more : handled grown ≡ handled r ++ row_of Number m ∷ [] =
        ap (λ z. r.acknowledged ++ z) (map-append r.batch_buffer (m ∷ []))
        ∙ sym (
            append_assoc r.acknowledged (map (row_of Number) r.batch_buffer)
              (row_of Number m ∷ [])) in
      if_cases {A = Repository Number} (λ x. handled x ≡ handled r ++ row_of Number m ∷ [])
        (leb batch_size (length grown.batch_buffer)) (λ _. insert-handled lib grown ∙ more)
        (λ _. more)

  -- A library that reports no error.
  abbrev pub Works : Library Number → Type 0
  Works lib =
      (lib.prepare_batch ≡ none) × ((x : Row Number) → lib.append x ≡ none) × (lib.send ≡ none)

  append_all-Works :
      (append : Row Number → Option Text) (ms : List (KafkaMsg Number))
      → ((x : Row Number) → append x ≡ none)
      → append_all Number append ms ≡ none
  unfolding append_all
  append_all-Works append [] h = refl
  append_all-Works append (m ∷ ms) h =
      rw (h (row_of Number m), append_all) (append_all-Works append ms h)

-- Whatever the library answers, the acknowledged rows followed by those of the buffer are the former
-- ones followed by the rows of the messages taken since, in order: no row is lost or doubled.
pub batch_insert-Conserves :
    (Number : Type 0) (batch_size : ℕ) (es : List (InsertEvent Number)) (r : Repository Number)
    → handled Number (batch_insert Number batch_size es r)
      ≡ handled Number r ++ map (row_of Number) (accepted Number es)
unfolding batch_insert
batch_insert-Conserves Number batch_size [] r = sym (append-nil (handled Number r))
batch_insert-Conserves Number batch_size (cancelled lib ∷ es) r =
    remaining-handled Number lib r ∙ sym (append-nil (handled Number r))
batch_insert-Conserves Number batch_size (closed lib ∷ es) r =
    remaining-handled Number lib r ∙ sym (append-nil (handled Number r))
batch_insert-Conserves Number batch_size (timer lib ∷ es) r =
    batch_insert-Conserves Number batch_size es (insert_remaining_msgs Number lib r)
    ∙ ap (λ z. z ++ map (row_of Number) (accepted Number es)) (remaining-handled Number lib r)
batch_insert-Conserves Number batch_size (arrived m lib ∷ es) r =
    batch_insert-Conserves Number batch_size es (append_msg Number batch_size m lib r)
    ∙ ap (λ z. z ++ map (row_of Number) (accepted Number es))
        (append_msg-handled Number batch_size m lib r)
    ∙ append_assoc (handled Number r) (row_of Number m ∷ [])
        (map (row_of Number) (accepted Number es))

insert-full :
    (Number : Type 0) (lib : Library Number) (ms : List (KafkaMsg Number))
    (rows : List (Row Number))
    → Works Number lib
    → insert Number lib (record { batch_buffer = ms; acknowledged = rows })
      ≡ (none, record { batch_buffer = []; acknowledged = rows ++ map (row_of Number) ms })
unfolding insert prepare append_batch send_batch
insert-full Number lib [] rows (p, a, s) =
    ap (λ z. (none, record { batch_buffer = []; acknowledged = z })) (sym (append-nil rows))
insert-full Number lib (m ∷ ms) rows (p, a, s) =
    rw (p, prepare)
      (rw (append_all-Works Number lib.append (m ∷ ms) a, append_batch) (rw (s, send_batch) refl))

-- An insert by a library that reports no error is reported as done, acknowledges the rows of the whole
-- buffer after the former ones, and leaves the buffer empty.
pub insert-Flushes :
    (Number : Type 0) (lib : Library Number) (r : Repository Number)
    → Works Number lib
    → ((insert Number lib r).0 ≡ none)
      × ((insert Number lib r).1.acknowledged ≡ handled Number r)
      × ((insert Number lib r).1.batch_buffer ≡ [])
insert-Flushes Number lib r works =
    let e = insert-full Number lib r.batch_buffer r.acknowledged works in
    (ap (λ z. z.0) e, ap (λ z. z.1.acknowledged) e, ap (λ z. z.1.batch_buffer) e)
