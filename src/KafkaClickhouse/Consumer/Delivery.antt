-- ===== src/KafkaClickhouse/Consumer/Delivery.antt =====
-- What is handed on and what is committed.
use crypto_asset_tracker_mic.Base.{
  ℕ, Bool, true, false, List, [], ◌∷◌, ◌++◌, append-nil, append_assoc, Option, none, some, ◌≡◌,
  refl, sym, ap, ◌∙◌, inl, inr, if◌then◌else◌, Text, Bool-cases,
}
use crypto_asset_tracker_mic.KafkaClickhouse.Repository.{KafkaMsg}
use crypto_asset_tracker_mic.KafkaClickhouse.Consumer.{
  Message, FetchEvent, interrupted, fetch_failed, fetched, Log, commit, hand_on, held_back, start,
}

module _ (Number : Type 0) (unmarshal : Text → Option (KafkaMsg Number)) where
  -- The messages that the loop is done with when it ends, with whether their commit was accepted: all
  -- that are fetched, but for a valid one that the end of the context comes before.
  abbrev pub done : List (FetchEvent Number) → List (Message × Bool)
  done [] = []
  done (interrupted ∷ es) = []
  done (fetch_failed e ∷ es) = done es
  done (fetched m ended accepted ∷ es) =
      if held_back Number (unmarshal m.value) ended then [] else (m, accepted) ∷ done es

  abbrev pub parsed : Option (KafkaMsg Number) → List (KafkaMsg Number)
  parsed none = []
  parsed (some k) = k ∷ []

  abbrev pub valid : List (Message × Bool) → List (KafkaMsg Number)
  valid [] = []
  valid (x ∷ ms) = parsed (unmarshal x.0.value) ++ valid ms

  abbrev pub accepted_offsets : List (Message × Bool) → List ℕ
  accepted_offsets [] = []
  accepted_offsets (x ∷ ms) = if x.1 then x.0.offset ∷ accepted_offsets ms else accepted_offsets ms

  handed :
      (o : Option (KafkaMsg Number)) (b : Bool) (m : Message) (l : Log Number)
      → ((commit Number b m (hand_on Number o l)).sent ≡ l.sent ++ parsed o)
        × ((hand_on Number o l).committed ≡ l.committed)
  unfolding commit hand_on
  handed none true m l = (sym (append-nil l.sent), refl)
  handed none false m l = (sym (append-nil l.sent), refl)
  handed (some k) true m l = (refl, refl)
  handed (some k) false m l = (refl, refl)

  commit-committed :
      (b : Bool) (m : Message) (l : Log Number) (rest : List (Message × Bool))
      → (commit Number b m l).committed ++ accepted_offsets rest
        ≡ l.committed ++ accepted_offsets ((m, b) ∷ rest)
  unfolding commit
  commit-committed true m l rest = append_assoc l.committed (m.offset ∷ []) (accepted_offsets rest)
  commit-committed false m l rest = refl

  -- What a run adds to the log.
  abbrev pub Delivered : List (FetchEvent Number) → Log Number → Type 0
  Delivered es l =
      ((start Number unmarshal es l).sent ≡ l.sent ++ valid (done es))
      × ((start Number unmarshal es l).committed ≡ l.committed ++ accepted_offsets (done es))

  start_lem : (es : List (FetchEvent Number)) (l : Log Number) → Delivered es l
  unfolding start
  start_lem [] l = (sym (append-nil l.sent), sym (append-nil l.committed))
  start_lem (interrupted ∷ es) l = (sym (append-nil l.sent), sym (append-nil l.committed))
  start_lem (fetch_failed e ∷ es) l = start_lem es l
  start_lem (fetched m ended accepted ∷ es) l =
      elim (Bool-cases (held_back Number (unmarshal m.value) ended)) [
        | inl e ↦ rw e (sym (append-nil l.sent), sym (append-nil l.committed))
        | inr e ↦
            (let o = unmarshal m.value in
              let later = start_lem es (commit Number accepted m (hand_on Number o l)) in
              rw e (
                later.0
                    ∙ ap (λ z. z ++ valid (done es)) (handed o accepted m l).0
                    ∙ append_assoc l.sent (parsed o) (valid (done es)),
                later.1
                    ∙ commit-committed accepted m (hand_on Number o l) (done es)
                    ∙ ap (λ z. z ++ accepted_offsets ((m, accepted) ∷ done es))
                        (handed o accepted m l).1,
              ))
      ]

-- The loop hands on, in order, every message it is done with that can be parsed, and commits exactly
-- those it is done with whose commit is accepted: a message that the context's end holds back is not
-- committed.
pub start-Delivers :
    (Number : Type 0) (unmarshal : Text → Option (KafkaMsg Number)) (es : List (FetchEvent Number))
    (l : Log Number)
    → ((start Number unmarshal es l).sent
        ≡ l.sent ++ valid Number unmarshal (done Number unmarshal es))
      × ((start Number unmarshal es l).committed
          ≡ l.committed ++ accepted_offsets Number unmarshal (done Number unmarshal es))
start-Delivers Number unmarshal es l = start_lem Number unmarshal es l
