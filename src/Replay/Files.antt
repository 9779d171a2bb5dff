-- ===== src/Replay/Files.antt =====
-- Files of orders, with returns at the ends of their lines or without.
use mathlib.Core.List.{append_assoc, append-nil, map}
use lightning_lob.Replay.{strip_return, load_lines, load_csv, starts_with_digit, eqb_bytes, ok}
use lightning_lob.Types.{gtc, ioc, fok, TimeInForce, Timestamp}
use lightning_lob.Replay.Rows.{IsRow, line_of, split-line_of, parse_fields-line_of}
use lightning_lob.Base.{
  [], ◌∷◌, true, false, some, refl, arith, Bool, ℕ, List, ◌++◌, ◌≡◌, ap, if◌then◌else◌, ◌&&◌, All,
  ◌∙◌, sym,
}
use lightning_lob.Replay.Csv.{join}
use lightning_lob.Order.{OrderRequest}
use lightning_lob.Replay.Decimals.{starts-append, decimal, signed_decimal, decimal-Written}
use lightning_lob.Names.{Bytes, side_to_string, type_to_string, tif_to_string}

-- A line keeps its bytes but for one return at its end.
strip-append :
    (xs : Bytes) (y : ℕ) (ys : Bytes) → strip_return (xs ++ y ∷ ys) ≡ xs ++ strip_return (y ∷ ys)
strip-append [] y ys = refl
strip-append (x ∷ []) y ys = refl
strip-append (x ∷ z ∷ xs) y ys = ap (◌∷◌ x) (strip-append (z ∷ xs) y ys)

-- A join of two fields or more ends in the last of them.
join-last :
    (f : Bytes) (fs : List Bytes) (g : Bytes)
    → (before : Bytes) × (join (f ∷ fs ++ g ∷ []) 44 ≡ before ++ 44 ∷ g)
unfolding join
join-last f [] g = (f, refl)
join-last f (h ∷ fs) g =
    let (before, e) = join-last h fs g in
    (f ++ 44 ∷ before, ap (λ r. f ++ 44 ∷ r) e ∙ sym (append_assoc f (44 ∷ before) (44 ∷ g)))

-- A row of a file: whether it ends in a return, its time stamp, and its order.
pub record Row : Type 0 where
  pub crlf : Bool
  pub timestamp : Timestamp
  pub request : OrderRequest

abbrev pub row_bytes : Row → Bytes
row_bytes w = line_of w.timestamp w.request ++ (if w.crlf then 13 ∷ [] else [])

abbrev pub Fits : Row → Type 0
Fits w = IsRow w.timestamp w.request

tif_to_string-strip : (t : TimeInForce) → strip_return (44 ∷ tif_to_string t) ≡ 44 ∷ tif_to_string t
tif_to_string-strip gtc = refl
tif_to_string-strip ioc = refl
tif_to_string-strip fok = refl

strip-line_of : (w : Row) → strip_return (row_bytes w) ≡ line_of w.timestamp w.request
unfolding line_of
strip-line_of w = cases w.crlf
  where
    line : Bytes
    line = line_of w.timestamp w.request

    cases : (crlf : Bool) → strip_return (line ++ (if crlf then 13 ∷ [] else [])) ≡ line
    cases true = strip-append line 13 [] ∙ append-nil line
    cases false =
        let r = w.request in
        let (before, e) =
          join-last (decimal r.client_order_id)
            (decimal w.timestamp
              ∷ decimal r.symbol
              ∷ side_to_string r.side
              ∷ type_to_string r.type
              ∷ signed_decimal r.price
              ∷ signed_decimal r.quantity
              ∷ [])
            (tif_to_string r.time_in_force) in
        ap strip_return (append-nil line ∙ e)
        ∙ strip-append before 44 (tif_to_string r.time_in_force)
        ∙ ap (λ t. before ++ t) (tif_to_string-strip r.time_in_force)
        ∙ sym e

line_of-starts :
    (timestamp : Timestamp) (r : OrderRequest) → starts_with_digit (line_of timestamp r) ≡ true
unfolding line_of join
line_of-starts timestamp r =
    starts-append (decimal r.client_order_id) _ (decimal-Written r.client_order_id).2

starts-nonempty : (xs : Bytes) → starts_with_digit xs ≡ true → eqb_bytes xs [] ≡ false
starts-nonempty [] h = absurd (cc h)
starts-nonempty (x ∷ xs) h = refl

abbrev pub request_of : Row → OrderRequest
request_of w = w.request

-- The loop on a row.
load_lines-row :
    (first_line : Bool) (orders : List OrderRequest) (w : Row) (rest : List Bytes)
    → Fits w
    → load_lines first_line orders (row_bytes w ∷ rest)
      ≡ load_lines false (orders ++ w.request ∷ []) rest
unfolding load_lines
load_lines-row first_line orders w rest h =
    let starts = line_of-starts w.timestamp w.request in
    let no_header : (first_line && false) ≡ false = ground arith in
    rw
      (
        strip-line_of w,
        starts,
        starts-nonempty (line_of w.timestamp w.request) starts,
        no_header,
        split-line_of w.timestamp w.request,
        parse_fields-line_of w.timestamp w.request (line_of w.timestamp w.request) h,
      )
      refl

load_lines-rows :
    (orders : List OrderRequest) (rows : List Row)
    → All Fits rows
    → load_lines false orders (map row_bytes rows) ≡ ok (orders ++ map request_of rows)
unfolding load_lines
load_lines-rows orders [] h = ap ok (sym (append-nil orders))
load_lines-rows orders (w ∷ rows) h =
    load_lines-row false orders w (map row_bytes rows) h.0
    ∙ load_lines-rows (orders ++ w.request ∷ []) rows h.1
    ∙ ap ok (append_assoc orders (w.request ∷ []) (map request_of rows))

-- A file whose lines are orders that a file can hold, written in decimal and with the names that
-- `to_string` gives, each with a return at its end or not, is loaded as those orders, in their order.
pub load_csv-rows :
    (rows : List Row)
    → All Fits rows
    → load_csv (some (map row_bytes rows)) ≡ ok (map request_of rows)
unfolding load_csv load_lines
load_csv-rows [] h = refl
load_csv-rows (w ∷ rows) h =
    load_lines-row true [] w (map row_bytes rows) h.0 ∙ load_lines-rows (w.request ∷ []) rows h.1

-- And so it is with a line before them that is not empty and does not begin with a digit.
pub load_csv-header :
    (header : Bytes) (rows : List Row)
    → eqb_bytes (strip_return header) [] ≡ false
    → starts_with_digit (strip_return header) ≡ false
    → All Fits rows
    → load_csv (some (header ∷ map row_bytes rows)) ≡ ok (map request_of rows)
unfolding load_csv load_lines
load_csv-header header rows some_text no_digit h =
    rw (some_text, no_digit) (load_lines-rows [] rows h)
