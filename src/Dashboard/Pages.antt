-- ===== src/Dashboard/Pages.antt =====
-- What the page shows of the rows.
use crypto_asset_tracker_mic.Base.{
  List, [], ◌∷◌, ◌++◌, Option, ◌≡◌, refl, ap, sym, ◌∙◌, Text, codes, map, append-nil, append_assoc,
}
use crypto_asset_tracker_mic.Dashboard.{
  MarketTicker, Scanned, scanned, scan_failed, rows, fetched, fetch_failed, append_to, read_rows,
  fetch_data, page_head, page_foot, row, write_rows, respond, serve,
}

abbrev pub flatten : List Text → Text
flatten [] = []
flatten (t ∷ ts) = t ++ flatten ts

module _ (Time Number : Type 0) where
  read_rows-scanned :
      (ts : List (MarketTicker Time Number)) → read_rows Time Number (map scanned ts) ≡ fetched ts
  unfolding read_rows append_to
  read_rows-scanned [] = refl
  read_rows-scanned (t ∷ ts) = ap (append_to Time Number t) (read_rows-scanned ts)

  read_rows-failed :
      (ts : List (MarketTicker Time Number)) (e : Text) (rest : List (Scanned Time Number))
      → read_rows Time Number (map scanned ts ++ scan_failed e ∷ rest) ≡ fetch_failed e
  unfolding read_rows append_to
  read_rows-failed [] e rest = refl
  read_rows-failed (t ∷ ts) e rest = ap (append_to Time Number t) (read_rows-failed ts e rest)

  module _ (format_time : Time → Text) (to_text : Number → Text) where
    write_rows-flat :
        (sb : Text) (ts : List (MarketTicker Time Number))
        → write_rows Time Number format_time to_text sb ts
          ≡ sb ++ flatten (map (row Time Number format_time to_text) ts)
    unfolding write_rows
    write_rows-flat sb [] = sym (append-nil sb)
    write_rows-flat sb (t ∷ ts) =
        write_rows-flat (sb ++ row Time Number format_time to_text t) ts
        ∙ append_assoc sb (row Time Number format_time to_text t)
            (flatten (map (row Time Number format_time to_text) ts))

-- When every row is read the page has the rows in their order between its head and its foot, whether
-- the library went through all rows or was stopped by an error; when a row cannot be read the reply is
-- an error with the first such failure, and no row.
pub serve-Shows :
    (Time Number : Type 0) (format_time : Time → Text) (to_text : Number → Text)
    (ts : List (MarketTicker Time Number)) (e : Text) (rest : List (Scanned Time Number))
    (ended : Option Text)
    → (serve Time Number format_time to_text (rows (map scanned ts) ended) ≡ record {
      code = 200;
      body =
          (page_head Time Number ++ flatten (map (row Time Number format_time to_text) ts))
          ++ page_foot Time Number;
    })
      × (serve Time Number format_time to_text (rows (map scanned ts ++ scan_failed e ∷ rest) ended)
          ≡ record { code = 500; body = codes "Failed to fetch data: " ++ e })
unfolding serve respond fetch_data
serve-Shows Time Number format_time to_text ts e rest ended = (
  ap (respond Time Number format_time to_text) (read_rows-scanned Time Number ts)
      ∙ ap (λ b. record { code = 200; body = b ++ page_foot Time Number })
          (write_rows-flat Time Number format_time to_text (page_head Time Number) ts),
  ap (respond Time Number format_time to_text) (read_rows-failed Time Number ts e rest),
)
