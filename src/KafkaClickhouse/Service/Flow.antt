-- ===== src/KafkaClickhouse/Service/Flow.antt =====
-- Where the messages that the consumer handed on are, in every order of moves.
use crypto_asset_tracker_mic.Base.{
  ℕ, Bool, true, false, List, [], ◌∷◌, ◌++◌, map, Option, none, some, ◌≡◌, refl, ap, sym, ◌∙◌,
  arith, ltb, length, Text, append_assoc, if_cases,
}
use crypto_asset_tracker_mic.KafkaClickhouse.Repository.{
  KafkaMsg, Row, row_of, Library, insert_remaining_msgs,
}
use crypto_asset_tracker_mic.KafkaClickhouse.Repository.Batches.{
  handled, remaining-handled, append_msg-handled, map-append,
}
use crypto_asset_tracker_mic.KafkaClickhouse.Consumer.{
  Message, Log, FetchEvent, interrupted, fetch_failed, fetched, commit, hand_on,
}
use crypto_asset_tracker_mic.KafkaClickhouse.Service.{
  kafka_msgs_cap, Service, new_service, consume_msg, consume, receive, Move, consumes, receives,
  timer_fires, sees_context, step, run,
}

module _ (Number : Type 0) where
  abbrev pub waiting : Service Number → List (Row Number)
  waiting s = map (row_of Number) s.kafka_msgs

  -- The rows of the repository, then those of the channel, are those of what was handed on.
  abbrev pub Kept : Service Number → Type 0
  Kept s = handled Number s.repo ++ waiting s ≡ map (row_of Number) s.log.sent

  commit-sent :
      (accepted : Bool) (m : Message) (l : Log Number) → (commit Number accepted m l).sent ≡ l.sent
  unfolding commit
  commit-sent accepted m l = ground arith

  handed-Kept :
      (k : KafkaMsg Number) (m : Message) (accepted : Bool) (s : Service Number)
      → Kept s
      → Kept (record s {
        log = commit Number accepted m (hand_on Number (some k) s.log);
        kafka_msgs = s.kafka_msgs ++ k ∷ [];
      })
  unfolding hand_on
  handed-Kept k m accepted s h =
      ap (λ rs. handled Number s.repo ++ rs) (map-append Number s.kafka_msgs (k ∷ []))
      ∙ sym (append_assoc (handled Number s.repo) (waiting s) (row_of Number k ∷ []))
      ∙ ap (λ rs. rs ++ row_of Number k ∷ []) h
      ∙ sym (map-append Number s.log.sent (k ∷ []))
      ∙ sym (ap (map (row_of Number)) (commit-sent accepted m (hand_on Number (some k) s.log)))

  consume_msg-Kept :
      (o : Option (KafkaMsg Number)) (m : Message) (ended accepted : Bool) (s : Service Number)
      → Kept s
      → Kept (consume_msg Number o m ended accepted s)
  unfolding consume_msg hand_on
  consume_msg-Kept none m ended accepted s h =
      h ∙ sym (ap (map (row_of Number)) (commit-sent accepted m s.log))
  consume_msg-Kept (some k) m true accepted s h = h
  consume_msg-Kept (some k) m false accepted s h =
      if_cases Kept (ltb (length s.kafka_msgs) kafka_msgs_cap) (λ _. handed-Kept k m accepted s h)
        (λ _. h)

  inserted-Kept :
      (lib : Library Number) (s : Service Number)
      → Kept s
      → Kept (record s { repo = insert_remaining_msgs Number lib s.repo })
  inserted-Kept lib s h = ap (λ rs. rs ++ waiting s) (remaining-handled Number lib s.repo) ∙ h

  receive-Kept :
      (batch_size : ℕ) (lib : Library Number) (ks : List (KafkaMsg Number)) (s : Service Number)
      → s.kafka_msgs ≡ ks
      → Kept s
      → Kept (receive Number batch_size lib ks s)
  unfolding receive
  receive-Kept batch_size lib [] s e h =
      if_cases Kept s.kafka_msgs_closed (λ _. inserted-Kept lib s h) (λ _. h)
  receive-Kept batch_size lib (k ∷ ks) s e h =
      ap (λ rs. rs ++ map (row_of Number) ks) (append_msg-handled Number batch_size k lib s.repo)
      ∙ append_assoc (handled Number s.repo) (row_of Number k ∷ []) (map (row_of Number) ks)
      ∙ sym (ap (λ ms. handled Number s.repo ++ map (row_of Number) ms) e)
      ∙ h

  module _ (unmarshal : Text → Option (KafkaMsg Number)) (batch_size : ℕ) where
    consume-Kept :
        (e : FetchEvent Number) (s : Service Number) → Kept s → Kept (consume Number unmarshal e s)
    unfolding consume
    consume-Kept interrupted s h = h
    consume-Kept (fetch_failed e) s h = h
    consume-Kept (fetched m ended accepted) s h =
        consume_msg-Kept (unmarshal m.value) m ended accepted s h

    step-Kept :
        (s : Service Number) (m : Move Number)
        → Kept s
        → Kept (step Number unmarshal batch_size s m)
    unfolding step
    step-Kept s (consumes e) h =
        if_cases Kept s.kafka_msgs_closed (λ _. h) (λ _. consume-Kept e s h)
    step-Kept s (receives lib) h =
        if_cases Kept s.repo_returned (λ _. h)
          (λ _. receive-Kept batch_size lib s.kafka_msgs s refl h)
    step-Kept s (timer_fires lib) h =
        if_cases Kept s.repo_returned (λ _. h) (λ _. inserted-Kept lib s h)
    step-Kept s (sees_context lib) h =
        if_cases Kept s.repo_returned (λ _. h) (λ _. inserted-Kept lib s h)

    run-Kept :
        (s : Service Number) (ms : List (Move Number))
        → Kept s
        → Kept (run Number unmarshal batch_size s ms)
    unfolding run
    run-Kept s [] h = h
    run-Kept s (m ∷ ms) h = run-Kept (step Number unmarshal batch_size s m) ms (step-Kept s m h)

-- In whatever order the consumer and the repository move, and whatever Kafka and ClickHouse answer, the
-- rows acknowledged by ClickHouse, then those of the buffer, then those of the channel are the rows of
-- the messages that the consumer handed on, in the order of Kafka, each once.
pub service-Conserves :
    (Number : Type 0) (unmarshal : Text → Option (KafkaMsg Number)) (batch_size : ℕ)
    (ms : List (Move Number))
    → let s = run Number unmarshal batch_size (new_service Number) ms in
      handled Number s.repo ++ map (row_of Number) s.kafka_msgs ≡ map (row_of Number) s.log.sent
service-Conserves Number unmarshal batch_size ms =
    run-Kept Number unmarshal batch_size (new_service Number) ms refl
