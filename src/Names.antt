-- ===== src/Names.antt =====
-- include/lightninglob/types.hpp: `to_string` of the enumerations. A text is the list of its bytes.
use Prim.Native.Char.{code}
use Prim.Native.String.{String}
use lightning_lob.Types.{
  buy, sell, limit, market, gtc, ioc, fok, new, partially_filled, filled, cancelled, rejected,
  no_reason, invalid_quantity, invalid_price, price_out_of_range, unknown_symbol,
  duplicate_order_id, unknown_order, risk_max_order_size, risk_max_position, risk_rate_limited,
  Side, OrderType, TimeInForce, OrderStatus, RejectReason,
}
use lightning_lob.Base.{ℕ, List, [], ◌∷◌}

abbrev pub Bytes : Type 0
Bytes = List ℕ

-- The bytes of a literal.
abbrev pub codes : String → Bytes
codes String.[] = []
codes (String.◌∷◌ c s) = code c ∷ codes s

abbrev pub side_to_string : Side → Bytes
side_to_string buy = codes "BUY"
side_to_string sell = codes "SELL"

abbrev pub type_to_string : OrderType → Bytes
type_to_string limit = codes "LIMIT"
type_to_string market = codes "MARKET"

abbrev pub tif_to_string : TimeInForce → Bytes
tif_to_string gtc = codes "GTC"
tif_to_string ioc = codes "IOC"
tif_to_string fok = codes "FOK"

abbrev pub status_to_string : OrderStatus → Bytes
status_to_string new = codes "NEW"
status_to_string partially_filled = codes "PARTIALLY_FILLED"
status_to_string filled = codes "FILLED"
status_to_string cancelled = codes "CANCELLED"
status_to_string rejected = codes "REJECTED"

abbrev pub reason_to_string : RejectReason → Bytes
reason_to_string no_reason = codes "NONE"
reason_to_string invalid_quantity = codes "INVALID_QUANTITY"
reason_to_string invalid_price = codes "INVALID_PRICE"
reason_to_string price_out_of_range = codes "PRICE_OUT_OF_RANGE"
reason_to_string unknown_symbol = codes "UNKNOWN_SYMBOL"
reason_to_string duplicate_order_id = codes "DUPLICATE_ORDER_ID"
reason_to_string unknown_order = codes "UNKNOWN_ORDER"
reason_to_string risk_max_order_size = codes "RISK_MAX_ORDER_SIZE"
reason_to_string risk_max_position = codes "RISK_MAX_POSITION"
reason_to_string risk_rate_limited = codes "RISK_RATE_LIMITED"
