-- ===== src/Socket/Connection.antt =====
-- Socket/connsock/conn.go: a connection to the exchange that is made again when it breaks. What the
-- websocket library, the context and the random numbers do is an argument. Times are milliseconds.
pub mod Backoff
pub mod Fallback
use crypto_asset_tracker_mic.Base.{
  ℕ, Bool, true, false, zero, suc, ◌+◌, ◌*◌, ◌^◌, List, [], ◌∷◌, ◌++◌, Option, none, some,
  if◌then◌else◌, leb, nat_beq, Text, codes, starts_with, is_substring,
}

-- `Dial`: a connection, or an error, with the status code of a response if there was one.
pub data Dialed (C : Type 0) : Type 0 where
  dialed : C → Dialed C
  refused : Text → Option ℕ → Dialed C

-- The text without its first bytes, as many as another text has.
abbrev pub drop_like : Text → Text → Text
drop_like [] s = s
drop_like (p ∷ ps) [] = []
drop_like (p ∷ ps) (c ∷ s) = drop_like ps s

-- `strings.Replace` with a limit of one, for a text to replace that is not empty.
unfoldable pub replace_first : Text → Text → Text → Text
unfolding starts_with
replace_first old new [] = []
replace_first old new (c ∷ s) =
    let rest = replace_first old new s in
    if starts_with old (c ∷ s) then new ++ drop_like old (c ∷ s) else c ∷ rest

abbrev pub com_host : Text
com_host = codes "stream.binance.com"

unfoldable pub fallback_url : Text → Option Text
unfolding replace_first is_substring
fallback_url url =
    if is_substring (com_host ++ codes ":443") url
    then some (replace_first (com_host ++ codes ":443") (codes "stream.binance.us:9443") url)
    else if is_substring (com_host ++ codes ":9443") url
    then some (replace_first (com_host ++ codes ":9443") (codes "stream.binance.us:9443") url)
    else if is_substring com_host url
    then some (replace_first com_host (codes "stream.binance.us") url)
    else none

unfoldable pub fallback_for_451 : Text → Option ℕ → Option Text
fallback_for_451 url none = none
fallback_for_451 url (some status) = if nat_beq status 451 then fallback_url url else none

module _ (C : Type 0) where
  -- A connection or an error, and the address from then on.
  pub record Connected : Type 0 where
    pub conn : Option C
    pub error : Option Text
    pub url : Text

  unfoldable pub second_dial : Text → Dialed C → Connected
  second_dial url (dialed c) = record { conn = some c; error = none; url = url }
  second_dial url (refused e status) = record { conn = none; error = some e; url = url }

  unfoldable pub try_fallback : (Text → Dialed C) → Text → Text → Option Text → Connected
  try_fallback dial url e none = record { conn = none; error = some e; url = url }
  try_fallback dial url e (some fallback) = second_dial fallback (dial fallback)

  unfoldable pub after_first : (Text → Dialed C) → Text → Dialed C → Connected
  after_first dial url (dialed c) = record { conn = some c; error = none; url = url }
  after_first dial url (refused e status) = try_fallback dial url e (fallback_for_451 url status)

  -- `dial i` is the i-th call of `Dial` in a call of `connect`.
  unfoldable pub connect : (ℕ → Text → Dialed C) → Text → Connected
  connect dial url = after_first (dial 1) url (dial 0 url)

  -- A round of `reconnect`: the context ended, or it goes on with these dials.
  pub data Round : Type 0 where
    ended : Text → Round
    tries : (ℕ → Text → Dialed C) → Round

  pub record Reconnected : Type 0 where
    pub conn : Option C
    pub error : Option Text
    pub url : Text
    pub waits : List ℕ

  abbrev pub min : ℕ → ℕ → ℕ
  min a b = if leb a b then a else b

  -- The upper limit of the pause after an attempt.
  unfoldable pub backoff_time : ℕ → ℕ
  backoff_time attempt = min (100 * 2 ^ attempt) 5000

  unfoldable pub after_attempt : ℕ → Connected → (Option Text → Text → Reconnected) → Reconnected
  after_attempt jitter c later = elim c.conn [
    | some conn ↦ record { conn = some conn; error = none; url = c.url; waits = [] }
    | none ↦
        (let r = later c.error c.url in
          record { conn = r.conn; error = r.error; url = r.url; waits = jitter ∷ r.waits })
  ]

  unfoldable pub run_round : ℕ → Text → Round → (Option Text → Text → Reconnected) → Reconnected
  run_round jitter url (ended e) later = record {
    conn = none;
    error = some e;
    url = url;
    waits = [];
  }
  run_round jitter url (tries dial) later = after_attempt jitter (connect dial url) later

  -- The loop from an attempt on, with the rounds left. `draw n i` is the i-th random number below n.
  unfoldable pub reconnect_from :
      (ℕ → ℕ → ℕ) → (ℕ → Round) → ℕ → ℕ → Option Text → Text → Reconnected
  reconnect_from draw rounds zero attempt last url = record {
    conn = none;
    error = last;
    url = url;
    waits = [];
  }
  reconnect_from draw rounds (suc left) attempt last url =
      run_round (draw (backoff_time attempt) attempt) url (rounds attempt)
        (λ e u. reconnect_from draw rounds left (suc attempt) e u)

  unfoldable pub reconnect : (ℕ → ℕ → ℕ) → (ℕ → Round) → Text → Reconnected
  reconnect draw rounds url = reconnect_from draw rounds 5 0 none url

  -- What `Start` has when it begins to read: the field `conn`, which `readMessage` looks at, or
  -- nothing if it gave up.
  pub data Started : Type 0 where
    gave_up : Started
    reads_from : Option C → Text → Started

  -- The connection of the inner `conn, err := sp.reconnect(ctx)` ends with its block.
  unfoldable pub after_reconnect : Option C → Reconnected → Started
  after_reconnect outer r = elim r.conn [ none ↦ gave_up | some c ↦ reads_from outer r.url ]

  unfoldable pub after_connect : (Text → Reconnected) → Connected → Started
  after_connect again r = elim r.conn [
    | some c ↦ reads_from (some c) r.url
    | none ↦ after_reconnect none (again r.url)
  ]

  unfoldable pub start : (ℕ → Text → Dialed C) → (ℕ → ℕ → ℕ) → (ℕ → Round) → Text → Started
  start dial draw rounds url = after_connect (reconnect draw rounds) (connect dial url)

  -- `doReconnect`: the field afterwards. The reader of the old connection is stopped first.
  unfoldable pub do_reconnect : (ℕ → ℕ → ℕ) → (ℕ → Round) → Text → Option C × Text
  do_reconnect draw rounds url = let r = reconnect draw rounds url in (r.conn, r.url)

  -- What `ReadMessage` gives `readMessage`, with whether the context ended by then.
  pub data Reading : Type 0 where
    message : Text → Bool → Reading
    broken : Text → Bool → Reading

  -- The messages sent on, and the error reported to `Start`.
  unfoldable pub read_loop : List Reading → List Text × Option Text
  read_loop [] = ([], none)
  read_loop (broken e true ∷ rs) = ([], none)
  read_loop (broken e false ∷ rs) = ([], some e)
  read_loop (message m true ∷ rs) = ([], none)
  read_loop (message m false ∷ rs) = let (ms, e) = read_loop rs in (m ∷ ms, e)

  unfoldable pub read_message : Option C → List Reading → List Text × Option Text
  read_message none rs = ([], none)
  read_message (some c) rs = read_loop rs

  -- The ping handler that `sendPong` sets on a connection: the data of the pong, which is that of the
  -- ping, and the error of the write. Without a connection none is set.
  unfoldable pub send_pong : (Text → Option Text) → Option C → Option (Text → Text × Option Text)
  send_pong write none = none
  send_pong write (some c) = some (λ app_data. (app_data, write app_data))
