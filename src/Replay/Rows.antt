-- ===== src/Replay/Rows.antt =====
-- Orders written as lines of a file, and loaded again.
use lightning_lob.Replay.{◌>>=◌}
use lightning_lob.Base.Int.{pos, negsuc}
use lightning_lob.Types.{
  buy, sell, limit, market, gtc, ioc, fok, Side, OrderType, TimeInForce, Timestamp, no_participant,
}
use lightning_lob.Order.{OrderRequest, is_fok}
use lightning_lob.Replay.{
  Result, ok, parse_side, parse_type, parse_tif, parse_fields, parse_number, split,
  from_chars_unsigned, from_chars_signed,
}
use lightning_lob.Replay.Csv.{join, Lacks, split-join}
use lightning_lob.Replay.Decimals.{
  decimal, signed_decimal, decimal-Written, digits-Lacks, from_chars_unsigned-decimal,
  from_chars_signed-signed_decimal, FitsInt64,
}
use lightning_lob.Base.{
  [], ◌∷◌, false, some, refl, List, ◌<◌, ℕ, ◌≡◌, ◌^◌, ap, sym, ◌∙◌, ◌+◌, All, Option, drop,
}
use lightning_lob.Base.Int.{ℤ}
use lightning_lob.Names.{Bytes, side_to_string, type_to_string, tif_to_string}

abbrev pub fields_behind : Timestamp → OrderRequest → List Bytes
fields_behind timestamp r =
    decimal timestamp
    ∷ decimal r.symbol
    ∷ side_to_string r.side
    ∷ type_to_string r.type
    ∷ signed_decimal r.price
    ∷ signed_decimal r.quantity
    ∷ tif_to_string r.time_in_force
    ∷ []

abbrev pub fields_of : Timestamp → OrderRequest → List Bytes
fields_of timestamp r = decimal r.client_order_id ∷ fields_behind timestamp r

-- The line of an order, which the file gives a time stamp.
unfoldable pub line_of : Timestamp → OrderRequest → Bytes
line_of timestamp r = join (fields_of timestamp r) 44

-- An order that a file can hold: its numbers fit their types, it has no participant, and it is not
-- fill-or-kill.
pub record IsRow (timestamp : Timestamp) (r : OrderRequest) : Type 0 where
  pub id_fits : r.client_order_id < 2 ^ 64
  pub timestamp_fits : timestamp < 2 ^ 64
  pub symbol_fits : r.symbol < 2 ^ 32
  pub price_fits : FitsInt64 r.price
  pub quantity_fits : FitsInt64 r.quantity
  pub nobody : r.participant_id ≡ no_participant
  pub not_fok : is_fok r.time_in_force ≡ false

side_to_string-Lacks : (s : Side) → Lacks 44 (side_to_string s)
side_to_string-Lacks buy = refl
side_to_string-Lacks sell = refl

type_to_string-Lacks : (t : OrderType) → Lacks 44 (type_to_string t)
type_to_string-Lacks limit = refl
type_to_string-Lacks market = refl

tif_to_string-Lacks : (t : TimeInForce) → Lacks 44 (tif_to_string t)
tif_to_string-Lacks gtc = refl
tif_to_string-Lacks ioc = refl
tif_to_string-Lacks fok = refl

decimal-Lacks : (n : ℕ) → Lacks 44 (decimal n)
decimal-Lacks n = digits-Lacks (decimal n) (decimal-Written n).1

signed_decimal-Lacks : (z : ℤ) → Lacks 44 (signed_decimal z)
unfolding signed_decimal
signed_decimal-Lacks (pos n) = decimal-Lacks n
signed_decimal-Lacks (negsuc n) = rw (decimal-Lacks (n + 1)) refl

side_round : (s : Side) → parse_side (side_to_string s) ≡ ok s
unfolding parse_side
side_round buy = refl
side_round sell = refl

type_round : (t : OrderType) → parse_type (type_to_string t) ≡ ok t
unfolding parse_type
type_round limit = refl
type_round market = refl

tif_round : (t : TimeInForce) → is_fok t ≡ false → parse_tif (tif_to_string t) ≡ ok t
unfolding parse_tif
tif_round gtc h = refl
tif_round ioc h = refl
tif_round fok h = absurd (cc h)

pub split-line_of :
    (timestamp : Timestamp) (r : OrderRequest)
    → split (line_of timestamp r) 44 ≡ fields_of timestamp r
unfolding line_of
split-line_of timestamp r =
    split-join (decimal r.client_order_id) (fields_behind timestamp r) 44
      (decimal-Lacks r.client_order_id, (decimal-Lacks timestamp, (decimal-Lacks r.symbol, texts)))
  where
    texts : All (Lacks 44) (drop 2 (fields_behind timestamp r))
    texts = (
      side_to_string-Lacks r.side,
      (
        type_to_string-Lacks r.type,
        (
          signed_decimal-Lacks r.price,
          (signed_decimal-Lacks r.quantity, (tif_to_string-Lacks r.time_in_force, tt)),
        ),
      ),
    )

-- What the loop makes of the eight columns once each of them is read.
assemble :
    Result ℕ
    → Result ℕ
    → Result ℕ
    → Result Side
    → Result OrderType
    → Result ℤ
    → Result ℤ
    → Result TimeInForce
    → Result OrderRequest
assemble id timestamp symbol side type price quantity tif = do
  id ← id
  timestamp ← timestamp
  symbol ← symbol
  side ← side
  type ← type
  price ← price
  quantity ← quantity
  tif ← tif
  ok (record {
    client_order_id = id;
    symbol = symbol;
    participant_id = no_participant;
    side = side;
    type = type;
    price = price;
    quantity = quantity;
    time_in_force = tif;
  })

parse_fields-assemble :
    (timestamp : Timestamp) (r : OrderRequest) (line : Bytes)
    → parse_fields line (fields_of timestamp r)
      ≡ assemble
          (parse_number (from_chars_unsigned 64) (decimal r.client_order_id))
          (parse_number (from_chars_unsigned 64) (decimal timestamp))
          (parse_number (from_chars_unsigned 32) (decimal r.symbol))
          (parse_side (side_to_string r.side))
          (parse_type (type_to_string r.type))
          (parse_number from_chars_signed (signed_decimal r.price))
          (parse_number from_chars_signed (signed_decimal r.quantity))
          (parse_tif (tif_to_string r.time_in_force))
unfolding parse_fields assemble
parse_fields-assemble timestamp r line = refl

number_round :
    {A : Type 0} (from_chars : Bytes → Option A) (field : Bytes) (value : A)
    → from_chars field ≡ some value
    → parse_number from_chars field ≡ ok value
number_round from_chars field value e = rw (parse_number, e) refl

assembled :
    (r : OrderRequest) (timestamp : Timestamp)
    → r.participant_id ≡ no_participant
    → assemble
        (ok r.client_order_id)
        (ok timestamp)
        (ok r.symbol)
        (ok r.side)
        (ok r.type)
        (ok r.price)
        (ok r.quantity)
        (ok r.time_in_force)
      ≡ ok r
unfolding assemble
assembled r timestamp nobody = ap (λ p. ok (record r { participant_id = p })) (sym nobody)

-- The fields of a line give its order back.
pub parse_fields-line_of :
    (timestamp : Timestamp) (r : OrderRequest) (line : Bytes)
    → IsRow timestamp r
    → parse_fields line (fields_of timestamp r) ≡ ok r
parse_fields-line_of timestamp r line h =
    parse_fields-assemble timestamp r line
    ∙ rw
        (
          number_round (from_chars_unsigned 64) (decimal r.client_order_id) r.client_order_id
              (from_chars_unsigned-decimal 64 r.client_order_id h.id_fits),
          number_round (from_chars_unsigned 64) (decimal timestamp) timestamp
              (from_chars_unsigned-decimal 64 timestamp h.timestamp_fits),
          number_round (from_chars_unsigned 32) (decimal r.symbol) r.symbol
              (from_chars_unsigned-decimal 32 r.symbol h.symbol_fits),
          side_round r.side,
          type_round r.type,
          number_round from_chars_signed (signed_decimal r.price) r.price
              (from_chars_signed-signed_decimal r.price h.price_fits),
          number_round from_chars_signed (signed_decimal r.quantity) r.quantity
              (from_chars_signed-signed_decimal r.quantity h.quantity_fits),
          tif_round r.time_in_force h.not_fok,
        )
        (assembled r timestamp h.nobody)
