-- ===== src/Aggregator/Receiving.antt =====
-- Aggregator/gateway/converting/receive_msgs.go: the connection to the service Socket, with retries,
-- and the loop that receives. What the gRPC library and the context do is an argument.
pub mod Retries
use crypto_asset_tracker_mic.Base.{
  ℕ, Bool, zero, suc, ◌+◌, List, [], ◌∷◌, ◌++◌, Option, none, some, Text,
}

-- One round of a retry loop: the context ended before the attempt, the attempt succeeded, it failed
-- and the delay passed, or it failed and the context ended during the delay.
pub data Attempt (A : Type 0) : Type 0 where
  cancelled_before : Text → Attempt A
  succeeded : A → Attempt A
  failed : Text → Attempt A
  cancelled_waiting : Text → Text → Attempt A

-- What the loop returns, a pointer and an error that may both be nil, and the delays in seconds.
pub record Answer (A : Type 0) : Type 0 where
  pub value : Option A
  pub error : Option Text
  pub delays : List ℕ

module _ {A : Type 0} where
  -- The i-th round, and what the rounds after it return when its error is kept.
  unfoldable pub round : ℕ → Attempt A → (Text → Answer A) → Answer A
  round i (cancelled_before e) later = record { value = none; error = some e; delays = [] }
  round i (succeeded a) later = record { value = some a; error = none; delays = [] }
  round i (cancelled_waiting e c) later = record {
    value = none;
    error = some c;
    delays = suc i ∷ [];
  }
  round i (failed e) later =
      let r = later e in record { value = r.value; error = r.error; delays = suc i ∷ r.delays }

  -- The loop from its i-th round on, with `rounds` left and the last error.
  unfoldable pub retry : ℕ → ℕ → Option Text → (ℕ → Attempt A) → Answer A
  retry zero i last attempt = record { value = none; error = last; delays = [] }
  retry (suc rounds) i last attempt =
      round i (attempt i) (λ e. retry rounds (suc i) (some e) attempt)

  unfoldable pub create_client_conn : ℕ → (ℕ → Attempt A) → Answer A
  create_client_conn max_retries attempt = retry max_retries 0 none attempt

  unfoldable pub create_mini_ticker_stream : ℕ → (ℕ → Attempt A) → Answer A
  create_mini_ticker_stream max_retries attempt = retry max_retries 0 none attempt

  unfoldable pub create_agg_trade_stream : ℕ → (ℕ → Attempt A) → Answer A
  create_agg_trade_stream max_retries attempt = retry max_retries 0 none attempt

-- What a round of `receiveMessages` meets.
pub data StreamEvent : Type 0 where
  received : Text → StreamEvent
  end_of_stream : StreamEvent
  stream_failed : Text → StreamEvent
  interrupted : StreamEvent

-- What is sent on the channel.
unfoldable pub receive_messages : List StreamEvent → List Text
receive_messages [] = []
receive_messages (received msg ∷ es) = msg ∷ receive_messages es
receive_messages (end_of_stream ∷ es) = []
receive_messages (stream_failed e ∷ es) = []
receive_messages (interrupted ∷ es) = []

module _ {S : Type 0} where
  -- The stream if there is one and no error.
  unfoldable pub forward : Option S → Option Text → (S → List StreamEvent) → List Text
  forward (some s) none events = receive_messages (events s)
  forward (some s) (some e) events = []
  forward none error events = []

module _ {C S : Type 0} (max_retries : ℕ) where
  -- `streams` is what the client does that is made of the connection, which may be nil.
  unfoldable pub receive_agg_trade_message :
      (ℕ → Attempt C) → (Option C → ℕ → Attempt S) → (S → List StreamEvent) → List Text
  receive_agg_trade_message conns streams events =
      let conn = create_client_conn max_retries conns in
      elim conn.error [
        | some e ↦ []
        | none ↦
            (let stream = create_agg_trade_stream max_retries (streams conn.value) in
              forward stream.value stream.error events)
      ]

  -- The error of the connection is logged only: the stream is created in any case.
  unfoldable pub receive_mini_ticker_message :
      (ℕ → Attempt C) → (Option C → ℕ → Attempt S) → (S → List StreamEvent) → List Text
  receive_mini_ticker_message conns streams events =
      let conn = create_client_conn max_retries conns in
      let stream = create_mini_ticker_stream max_retries (streams conn.value) in
      forward stream.value stream.error events
