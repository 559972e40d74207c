-- ===== src/Profile/Subscriber.antt =====
-- Profile/storage/redis/redis.go: the Redis channels that the service is subscribed to. Whether the
-- server acknowledges a subscription is an argument.
use crypto_asset_tracker_mic.Base.{
  Bool, true, false, List, [], ◌∷◌, if◌then◌else◌, Text, text_eq, contains, add, remove, ℕ, length,
  ltb, ◌++◌,
}

-- The keys of `subscriptions`, and the messages that wait in `Messages`.
pub record Subscriber : Type 0 where
  pub subscriptions : List Text
  pub messages : List Text

abbrev pub messages_cap : ℕ
messages_cap = 1000

-- `Subscribe`: the flag tells a `nil` error.
unfoldable pub subscribe : Bool → Text → Subscriber → Subscriber × Bool
subscribe acknowledged symbol s =
    if contains symbol s.subscriptions
    then (s, true)
    else if acknowledged
    then (record s { subscriptions = add symbol s.subscriptions }, true)
    else (s, false)

-- `Unsubscribe`: errors of the library are only logged, so it returns `nil`.
unfoldable pub unsubscribe : Text → Subscriber → Subscriber
unsubscribe symbol s =
    if contains symbol s.subscriptions
    then record s { subscriptions = remove symbol s.subscriptions }
    else s

-- One round of `listener`: a message that does not fit is dropped.
unfoldable pub listen : Text → Subscriber → Subscriber
listen payload s =
    if ltb (length s.messages) messages_cap
    then record s { messages = s.messages ++ payload ∷ [] }
    else s
