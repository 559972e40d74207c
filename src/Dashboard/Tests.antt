-- ===== src/Dashboard/Tests.antt =====
-- Pages with bytes for times and numbers.
use crypto_asset_tracker_mic.Base.{ℕ, [], ◌∷◌, ◌++◌, none, some, ◌≡◌, refl, Text, codes, map}
use crypto_asset_tracker_mic.Dashboard.{
  MarketTicker, scanned, scan_failed, rows, page_head, page_foot, row, serve, connect, address,
  opened,
}
use crypto_asset_tracker_mic.Dashboard.Pages.{flatten, serve-Shows}

abbrev ticker : MarketTicker ℕ ℕ
ticker = record {
  message_id = codes "1";
  event_type = codes "24hrMiniTicker";
  event_time = b'9';
  receive_time = b'9';
  symbol = codes "BTC";
  close_price = b'4';
  open_price = b'2';
  high_price = b'5';
  low_price = b'1';
  change_price = b'2';
  change_percent = b'7';
}

abbrev digit : ℕ → Text
digit n = n ∷ []

one_row : row ℕ ℕ digit digit ticker ≡ codes "<tr><td>BTC</td><td>9</td><td>4</td><td>7%</td></tr>"
unfolding row
one_row = refl

local : connect (λ at. opened at none) [] ≡ (some (codes "localhost:9000"), none)
unfolding connect address
local = refl

serve-Shows_example :
    (serve ℕ ℕ digit digit (rows (map scanned (ticker ∷ [])) (some (codes "broken pipe")))
      ≡ record {
        code = 200;
        body =
            (page_head ℕ ℕ ++ flatten (map (row ℕ ℕ digit digit) (ticker ∷ []))) ++ page_foot ℕ ℕ;
      })
    × (serve ℕ ℕ digit digit (
          rows
            (map scanned (ticker ∷ []) ++ scan_failed (codes "bad") ∷ [])
            (some (codes "broken pipe")))
        ≡ record { code = 500; body = codes "Failed to fetch data: " ++ codes "bad" })
serve-Shows_example =
    serve-Shows ℕ ℕ digit digit (ticker ∷ []) (codes "bad") [] (some (codes "broken pipe"))
