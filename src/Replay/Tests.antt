-- ===== src/Replay/Tests.antt =====
-- The loader and the replay on small inputs.
use mathlib.Core.List.{map}
use lightning_lob.Types.{sell, limit, ioc, cancel_resting}
use lightning_lob.Order.{OrderRequest}
use lightning_lob.Engine.{Engine, map_book_ops}
use lightning_lob.MapBook.{OrderBookMap, new_book}
use lightning_lob.Replay.{
  load_csv, ok, from_chars_unsigned, replay, parse_tif, throws, bad_time_in_force,
}
use lightning_lob.Replay.Rows.{line_of}
use lightning_lob.Replay.Csv.{join}
use lightning_lob.Replay.Decimals.{decimal, decimal_from, signed_decimal}
use lightning_lob.Replay.Files.{Row, Fits, row_bytes, load_csv-rows}
use lightning_lob.Replay.Tally.{
  submit_all, count_if, is_rejected, is_filled, is_partially_filled, replay-Counts,
}
use lightning_lob.Base.{[], ◌∷◌, true, some, refl, arith, List, All, ◌≡◌, ℕ, ◌+◌}
use lightning_lob.Base.Int.{pos}
use lightning_lob.Names.{codes}

abbrev sold : OrderRequest
sold = record {
  client_order_id = 12;
  symbol = 1;
  participant_id = 0;
  side = sell;
  type = limit;
  price = pos 101;
  quantity = pos 5;
  time_in_force = ioc;
}

abbrev rows : List Row
rows = record { crlf = true; timestamp = 1000; request = sold } ∷ []

row_text : map row_bytes rows ≡ codes "12,1000,1,SELL,LIMIT,101,5,IOC\r" ∷ []
unfolding line_of join decimal decimal_from signed_decimal
row_text = refl

rows-Fits : All Fits rows
rows-Fits = (
  record {
    id_fits = omega arith;
    timestamp_fits = omega arith;
    symbol_fits = omega arith;
    price_fits = omega arith;
    quantity_fits = omega arith;
    nobody = refl;
    not_fok = refl;
  },
  tt,
)

load_csv-rows_example : load_csv (some (map row_bytes rows)) ≡ ok (sold ∷ [])
load_csv-rows_example = load_csv-rows rows rows-Fits

-- What stands behind the digits of a number is not looked at.
trailing_text : from_chars_unsigned 64 (codes "12abc") ≡ some 12
unfolding from_chars_unsigned
trailing_text = refl

-- The third value of the enumeration is not read.
fok_text : parse_tif (codes "FOK") ≡ throws (bad_time_in_force (codes "FOK"))
unfolding parse_tif
fok_text = refl

abbrev clock : ℕ → ℕ → ℕ
clock i j = i

abbrev engine : Engine OrderBookMap
engine = record {
  books = (1, new_book 1 4 cancel_resting) ∷ [];
  risk_manager = [];
  next_order_id = 1;
}

replay-Counts_example :
    (let (after, statuses) = submit_all map_book_ops clock 0 engine (sold ∷ []) in
      let (replayed, stats) = replay map_book_ops clock engine (sold ∷ []) in
      (replayed ≡ after)
      × (stats.total ≡ 1)
      × (stats.accepted + stats.rejected_orders ≡ stats.total)
      × (stats.rejected_orders ≡ count_if is_rejected statuses)
      × (stats.filled_orders ≡ count_if is_filled statuses)
      × (stats.partially_filled_orders ≡ count_if is_partially_filled statuses))
replay-Counts_example = replay-Counts map_book_ops clock engine (sold ∷ [])
