-- ===== src/Dashboard.antt =====
-- ClickHouse-Dashboard/main.go: a page with the latest day statistics. The ClickHouse library, the
-- formats of times and the decimal library are arguments.
pub mod Pages
pub mod Tests
use crypto_asset_tracker_mic.Base.{
  ℕ, Bool, List, [], ◌∷◌, ◌++◌, Option, none, some, if◌then◌else◌, Text, codes, is_empty,
}

module _ (Time Number : Type 0) where
  pub record MarketTicker : Type 0 where
    pub message_id : Text
    pub event_type : Text
    pub event_time : Time
    pub receive_time : Time
    pub symbol : Text
    pub close_price : Number
    pub open_price : Number
    pub high_price : Number
    pub low_price : Number
    pub change_price : Number
    pub change_percent : Number

  -- A row for which `Scan` succeeds or fails.
  pub data Scanned : Type 0 where
    scanned : MarketTicker → Scanned
    scan_failed : Text → Scanned

  -- What the query gives: an error, or rows that `Next` goes through, with the error that ended them, if
  -- one did.
  pub data Queried : Type 0 where
    query_failed : Text → Queried
    rows : List Scanned → Option Text → Queried

  -- `([]MarketTicker, error)`, of which one is set.
  pub data Fetched : Type 0 where
    fetched : List MarketTicker → Fetched
    fetch_failed : Text → Fetched

  unfoldable pub append_to : MarketTicker → Fetched → Fetched
  append_to t (fetched ts) = fetched (t ∷ ts)
  append_to t (fetch_failed e) = fetch_failed e

  unfoldable pub read_rows : List Scanned → Fetched
  unfolding append_to
  read_rows [] = fetched []
  read_rows (scan_failed e ∷ rs) = fetch_failed e
  read_rows (scanned t ∷ rs) = append_to t (read_rows rs)

  unfoldable pub fetch_data : Queried → Fetched
  unfolding read_rows
  fetch_data (query_failed e) = fetch_failed e
  fetch_data (rows rs ended) = read_rows rs

  -- The status, and the text that is given to the writer or to `http.Error`.
  pub record Reply : Type 0 where
    pub code : ℕ
    pub body : Text

  abbrev pub page_head : Text
  page_head =
      codes
        "<html><head><title>ClickHouse Dashboard</title><style>body{font-family: sans-serif;} table{border-collapse: collapse; width: 100%;} th, td{border: 1px solid #ddd; padding: 8px;} th{background-color: #f2f2f2;}</style></head><body>"
      ++ codes "<h1>Latest Market Tickers</h1>"
      ++ codes
          "<table><tr><th>Symbol</th><th>Event Time</th><th>Close Price</th><th>Change Percent</th></tr>"

  abbrev pub page_foot : Text
  page_foot = codes "</table></body></html>"

  module _ (format_time : Time → Text) (to_text : Number → Text) where
    unfoldable pub row : MarketTicker → Text
    row t =
        codes "<tr><td>"
        ++ t.symbol
        ++ codes "</td><td>"
        ++ format_time t.event_time
        ++ codes "</td><td>"
        ++ to_text t.close_price
        ++ codes "</td><td>"
        ++ to_text t.change_percent
        ++ codes "%</td></tr>"

    -- The builder, as the loop over the tickers writes to it.
    unfoldable pub write_rows : Text → List MarketTicker → Text
    write_rows sb [] = sb
    write_rows sb (t ∷ ts) = write_rows (sb ++ row t) ts

    unfoldable pub respond : Fetched → Reply
    unfolding write_rows row
    respond (fetch_failed e) = record { code = 500; body = codes "Failed to fetch data: " ++ e }
    respond (fetched ts) = record { code = 200; body = write_rows page_head ts ++ page_foot }

    -- The handler of "/".
    unfoldable pub serve : Queried → Reply
    unfolding respond fetch_data
    serve q = respond (fetch_data q)

-- The settings of the connection that the environment has a say in.
unfoldable pub address : Text → Text
address env = if is_empty env then codes "localhost:9000" else env

-- What `Open` and `Ping` answer.
pub data Opened (C : Type 0) : Type 0 where
  open_failed : Text → Opened C
  opened : C → Option Text → Opened C

unfoldable pub connect : {C : Type 0} → (Text → Opened C) → Text → Option C × Option Text
unfolding address
connect open_at env = elim (open_at (address env)) [
  | open_failed e ↦ (none, some e)
  | opened c none ↦ (some c, none)
  | opened c (some e) ↦ (none, some e)
]
