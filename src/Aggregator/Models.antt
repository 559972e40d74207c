-- ===== src/Aggregator/Models.antt =====
-- Aggregator/models: the exchange's messages and what the service makes of them. Binary floating
-- point, its parser, and the decimal library are parameters.
use crypto_asset_tracker_mic.Base.{Bool, Option, none, some, Text}
use crypto_asset_tracker_mic.Base.Int.{ℤ}

pub record Numbers : Type 1 where
  pub Float : Type 0
  pub float_zero : Float
  pub minus_one : Float
  pub hundred : Float
  pub parse_float : Text → Option Float
  pub Number : Type 0
  pub of_float : Float → Number
  pub sub : Number → Number → Number
  pub div : Number → Number → Number
  pub mul : Number → Number → Number

pub record AggTrade : Type 0 where
  pub event_type : Text
  pub event_time : ℤ
  pub symbol : Text
  pub aggregate_trade_id : ℤ
  pub price : Text
  pub quantity : Text
  pub first_trade_id : ℤ
  pub last_trade_id : ℤ
  pub trade_time : ℤ
  pub is_buyer : Bool
  pub ignore : Bool

pub record MiniTicker : Type 0 where
  pub event_type : Text
  pub event_time : ℤ
  pub symbol : Text
  pub close_price : Text
  pub open_price : Text
  pub high_price : Text
  pub low_price : Text
  pub total_base_vol : Text
  pub total_quote_vol : Text

module _ (N : Numbers) where
  open N use {Float, Number}

  pub record SecondStat : Type 0 where
    pub symbol : Text
    pub price : Float

  pub record DailyStat : Type 0 where
    pub event_type : Text
    pub event_time : ℤ
    pub ingest_time : ℤ
    pub recv_time : ℤ
    pub symbol : Text
    pub close_price : Float
    pub open_price : Float
    pub high_price : Float
    pub low_price : Float

  pub record KafkaMsg : Type 0 where
    pub message_id : Text
    pub event_type : Text
    pub event_time : ℤ
    pub ingest_time : ℤ
    pub recv_time : ℤ
    pub symbol : Text
    pub close_price : Number
    pub open_price : Number
    pub high_price : Number
    pub low_price : Number
    pub change_price : Number
    pub change_percent : Number

  -- A parsed price, or what the code returns when it cannot be parsed.
  abbrev pub parsed_or : Float → Option Float → Float
  parsed_or d none = d
  parsed_or d (some x) = x

  unfoldable pub price_float : AggTrade → Float
  price_float t = parsed_or N.minus_one (N.parse_float t.price)

  unfoldable pub close_price_float : MiniTicker → Float
  close_price_float m = parsed_or N.float_zero (N.parse_float m.close_price)

  unfoldable pub open_price_float : MiniTicker → Float
  open_price_float m = parsed_or N.float_zero (N.parse_float m.open_price)

  unfoldable pub high_price_float : MiniTicker → Float
  high_price_float m = parsed_or N.float_zero (N.parse_float m.high_price)

  unfoldable pub low_price_float : MiniTicker → Float
  low_price_float m = parsed_or N.float_zero (N.parse_float m.low_price)

  unfoldable pub change_in_price : DailyStat → Number
  change_in_price d = N.sub (N.of_float d.close_price) (N.of_float d.open_price)

  unfoldable pub change_in_percent : DailyStat → Number
  change_in_percent d =
      let op = N.of_float d.open_price in
      let cp = N.of_float d.close_price in N.mul (N.div (N.sub cp op) cp) (N.of_float N.hundred)
