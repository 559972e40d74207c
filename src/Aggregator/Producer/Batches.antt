-- ===== src/Aggregator/Producer/Batches.antt =====
-- What becomes of the messages that the producer takes.
use crypto_asset_tracker_mic.Base.{
  tally, tally-append, ℕ, ◌+◌, Bool, true, false, ◌<◌, List, [], ◌∷◌, ◌++◌, append-nil,
  append_assoc, Option, none, some, ◌≡◌, refl, sym, ap, ◌∙◌, arith, inl, inr, leb, Text, length,
  if_cases, Option-cases,
}
use crypto_asset_tracker_mic.Aggregator.Models.{Numbers, KafkaMsg}
use crypto_asset_tracker_mic.Aggregator.Producer.{
  KafkaRecord, Call, Producer, ProducerEvent, arrived, timer, cancelled, closed, records, write,
  send_to_kafka, append_msg, start,
}

module _ (N : Numbers) where
  -- The messages that are taken before the end, and whether there was an end.
  abbrev pub accepted : List (ProducerEvent N) → List (KafkaMsg N)
  accepted [] = []
  accepted (arrived m ∷ es) = m ∷ accepted es
  accepted (timer ∷ es) = accepted es
  accepted (cancelled ∷ es) = []
  accepted (closed ∷ es) = []

  abbrev pub ends : List (ProducerEvent N) → Bool
  ends [] = false
  ends (arrived m ∷ es) = ends es
  ends (timer ∷ es) = ends es
  ends (cancelled ∷ es) = true
  ends (closed ∷ es) = true

  -- The records of all calls, of those that succeeded, and of those that failed.
  abbrev pub sent : List Call → List KafkaRecord
  sent [] = []
  sent (c ∷ cs) = c.batch ++ sent cs

  abbrev pub if_written : Option Text → List KafkaRecord → List KafkaRecord
  if_written none l = l
  if_written (some e) l = []

  abbrev pub if_lost : Option Text → List KafkaRecord → List KafkaRecord
  if_lost none l = []
  if_lost (some e) l = l

  abbrev pub written : List Call → List KafkaRecord
  written [] = []
  written (c ∷ cs) = if_written c.answer c.batch ++ written cs

  abbrev pub lost : List Call → List KafkaRecord
  lost [] = []
  lost (c ∷ cs) = if_lost c.answer c.batch ++ lost cs

  tally-answer :
      (q : KafkaRecord → Bool) (o : Option Text) (l : List KafkaRecord)
      → tally q l ≡ tally q (if_written o l) + tally q (if_lost o l)
  tally-answer q none l = omega arith
  tally-answer q (some e) l = omega arith

  tally-sent :
      (q : KafkaRecord → Bool) (cs : List Call)
      → tally q (sent cs) ≡ tally q (written cs) + tally q (lost cs)
  tally-sent q [] = refl
  tally-sent q (c ∷ cs) = omega (
    arith,
    tally-append q c.batch (sent cs),
    tally-append q (if_written c.answer c.batch) (written cs),
    tally-append q (if_lost c.answer c.batch) (lost cs),
    tally-answer q c.answer c.batch,
    tally-sent q cs,
  )

  module _ (marshal : KafkaMsg N → Option Text) where
    -- What was passed to `WriteMessages`, and the records of what is in the buffer.
    abbrev pub handled : Producer N → List KafkaRecord
    handled p = sent p.calls ++ records N marshal p.batch_buffer

  module _ (marshal : KafkaMsg N → Option Text) (answers : ℕ → Option Text) where
    sent-append : (cs : List Call) (c : Call) → sent (cs ++ c ∷ []) ≡ sent cs ++ c.batch
    sent-append [] c = append-nil c.batch
    sent-append (x ∷ cs) c =
        ap (λ z. x.batch ++ z) (sent-append cs c) ∙ sym (append_assoc x.batch (sent cs) c.batch)

    sent-write :
        (l : List KafkaRecord) (cs : List Call) → sent (write N marshal answers l cs) ≡ sent cs ++ l
    unfolding write
    sent-write [] cs = sym (append-nil (sent cs))
    sent-write (r ∷ rs) cs =
        sent-append cs (record { batch = r ∷ rs; answer = answers (length cs) })

    records-append :
        (ms : List (KafkaMsg N)) (m : KafkaMsg N)
        → records N marshal (ms ++ m ∷ []) ≡ records N marshal ms ++ records N marshal (m ∷ [])
    unfolding records
    records-append [] m = refl
    records-append (x ∷ ms) m = elim (Option-cases (marshal x)) [
      | inl e ↦ rw (e, records) (records-append ms m)
      | inr (v, e) ↦ rw (e, records) (rw (records-append ms m) refl)
    ]

    send-handled :
        (p : Producer N) → handled marshal (send_to_kafka N marshal answers p) ≡ handled marshal p
    unfolding send_to_kafka records
    send-handled p =
        append-nil (sent (write N marshal answers (records N marshal p.batch_buffer) p.calls))
        ∙ sent-write (records N marshal p.batch_buffer) p.calls

    append-handled :
        (batch_size : ℕ) (m : KafkaMsg N) (p : Producer N)
        → handled marshal (append_msg N marshal answers batch_size m p)
          ≡ handled marshal p ++ records N marshal (m ∷ [])
    unfolding append_msg
    append-handled batch_size m p =
        let grown : Producer N = record p { batch_buffer = p.batch_buffer ++ m ∷ [] } in
        let more : handled marshal grown ≡ handled marshal p ++ records N marshal (m ∷ []) =
          ap (λ z. sent p.calls ++ z) (records-append p.batch_buffer m)
          ∙ sym (
              append_assoc (sent p.calls) (records N marshal p.batch_buffer)
                (records N marshal (m ∷ []))) in
        if_cases {A = Producer N}
          (λ q. handled marshal q ≡ handled marshal p ++ records N marshal (m ∷ []))
          (leb batch_size (length (p.batch_buffer ++ m ∷ []))) (λ _. send-handled grown ∙ more)
          (λ _. more)

    append-Bounded :
        (batch_size : ℕ) (m : KafkaMsg N) (p : Producer N)
        → 0 < batch_size
        → length (append_msg N marshal answers batch_size m p).batch_buffer < batch_size
    unfolding append_msg send_to_kafka
    append-Bounded batch_size m p pos =
        if_cases {A = Producer N} (λ q. length q.batch_buffer < batch_size)
          (leb batch_size (length (p.batch_buffer ++ m ∷ []))) (λ _. pos) (λ small. ground arith)

    records-cons :
        (m : KafkaMsg N) (ms : List (KafkaMsg N))
        → records N marshal (m ∷ ms) ≡ records N marshal (m ∷ []) ++ records N marshal ms
    unfolding records
    records-cons m ms = elim (Option-cases (marshal m)) [
      | inl e ↦ rw (e, records) refl
      | inr (v, e) ↦ rw (e, records) refl
    ]

-- The records of all calls and of the buffer are the former ones and those of the messages taken since.
start-handled :
    (N : Numbers) (marshal : KafkaMsg N → Option Text) (answers : ℕ → Option Text) (batch_size : ℕ)
    (es : List (ProducerEvent N)) (p : Producer N)
    → handled N marshal (start N marshal answers batch_size es p)
      ≡ handled N marshal p ++ records N marshal (accepted N es)
unfolding start records
start-handled N marshal answers batch_size [] p = sym (append-nil (handled N marshal p))
start-handled N marshal answers batch_size (cancelled ∷ es) p =
    send-handled N marshal answers p ∙ sym (append-nil (handled N marshal p))
start-handled N marshal answers batch_size (closed ∷ es) p =
    send-handled N marshal answers p ∙ sym (append-nil (handled N marshal p))
start-handled N marshal answers batch_size (timer ∷ es) p =
    start-handled N marshal answers batch_size es (send_to_kafka N marshal answers p)
    ∙ ap (λ z. z ++ records N marshal (accepted N es)) (send-handled N marshal answers p)
start-handled N marshal answers batch_size (arrived m ∷ es) p =
    start-handled N marshal answers batch_size es (append_msg N marshal answers batch_size m p)
    ∙ ap (λ z. z ++ records N marshal (accepted N es))
        (append-handled N marshal answers batch_size m p)
    ∙ append_assoc (handled N marshal p) (records N marshal (m ∷ []))
        (records N marshal (accepted N es))
    ∙ ap (λ z. handled N marshal p ++ z) (sym (records-cons N marshal answers m (accepted N es)))

-- Every message that the producer takes and that can be encoded goes to exactly one call of
-- `WriteMessages`, in order, or is still in the buffer, whatever the calls answer. So for every test on
-- records, those of calls that succeeded, those of calls that failed, which are given up, and those of
-- the buffer add up to the former ones and those of the messages taken since.
pub start-Conserves :
    (N : Numbers) (marshal : KafkaMsg N → Option Text) (answers : ℕ → Option Text) (batch_size : ℕ)
    (es : List (ProducerEvent N)) (p : Producer N) (q : KafkaRecord → Bool)
    → (handled N marshal (start N marshal answers batch_size es p)
        ≡ handled N marshal p ++ records N marshal (accepted N es))
      × (tally q (written N (start N marshal answers batch_size es p).calls)
            + tally q (lost N (start N marshal answers batch_size es p).calls)
            + tally q (records N marshal (start N marshal answers batch_size es p).batch_buffer)
          ≡ tally q (handled N marshal p) + tally q (records N marshal (accepted N es)))
start-Conserves N marshal answers batch_size es p q =
    let after = start N marshal answers batch_size es p in
    let all = start-handled N marshal answers batch_size es p in
    let counted = ap (tally q) all in
    (
      all,
      omega (
        arith,
        counted,
        tally-sent N q after.calls,
        tally-append q (sent N after.calls) (records N marshal after.batch_buffer),
        tally-append q (handled N marshal p) (records N marshal (accepted N es)),
      ),
    )

-- A buffer that is shorter than the batch size, which is positive, stays so, and it is empty once the
-- context or the channel ended.
pub start-Bounded :
    (N : Numbers) (marshal : KafkaMsg N → Option Text) (answers : ℕ → Option Text) (batch_size : ℕ)
    (es : List (ProducerEvent N)) (p : Producer N)
    → 0 < batch_size
    → length p.batch_buffer < batch_size
    → (length (start N marshal answers batch_size es p).batch_buffer < batch_size)
      × (ends N es ≡ true → (start N marshal answers batch_size es p).batch_buffer ≡ [])
unfolding start send_to_kafka
start-Bounded N marshal answers batch_size [] p pos small = (small, λ h. cc)
start-Bounded N marshal answers batch_size (cancelled ∷ es) p pos small = (pos, λ _. refl)
start-Bounded N marshal answers batch_size (closed ∷ es) p pos small = (pos, λ _. refl)
start-Bounded N marshal answers batch_size (timer ∷ es) p pos small =
    start-Bounded N marshal answers batch_size es (send_to_kafka N marshal answers p) pos pos
start-Bounded N marshal answers batch_size (arrived m ∷ es) p pos small =
    start-Bounded N marshal answers batch_size es (append_msg N marshal answers batch_size m p) pos
      (append-Bounded N marshal answers batch_size m p pos)
