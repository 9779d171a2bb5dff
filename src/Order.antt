-- ===== src/Order.antt =====
-- include/lightninglob/order.hpp: the values that flow through the engine.
use lightning_lob.Base.{ℕ, Bool, true, false}
use lightning_lob.Base.Int.{leb_ℤ}
use lightning_lob.Types.{
  OrderId, Price, Quantity, Timestamp, SymbolId, ParticipantId, Side, OrderType, TimeInForce,
  OrderStatus, RejectReason, buy, sell, limit, market, gtc, fok, rejected,
}

pub record OrderRequest : Type 0 where
  pub client_order_id : OrderId
  pub symbol : SymbolId
  pub participant_id : ParticipantId
  pub side : Side
  pub type : OrderType
  pub price : Price
  pub quantity : Quantity
  pub time_in_force : TimeInForce

pub record Order : Type 0 where
  pub id : OrderId
  pub price : Price
  pub quantity : Quantity
  pub remaining_quantity : Quantity
  pub timestamp : Timestamp
  pub symbol : SymbolId
  pub participant_id : ParticipantId
  pub side : Side
  pub type : OrderType
  pub time_in_force : TimeInForce

-- `type == OrderType::Limit && time_in_force == TimeInForce::GTC`
abbrev pub is_resting_kind : OrderType → TimeInForce → Bool
is_resting_kind limit gtc = true
is_resting_kind _ _ = false

unfoldable pub rests_in_book : Order → Bool
rests_in_book o = is_resting_kind o.type o.time_in_force

-- The tests on an order that the books write inline.
abbrev pub opposite : Side → Side
opposite buy = sell
opposite sell = buy

-- A taker's limit `p` admits the level price `q`.
abbrev pub price_ok : Side → Price → Price → Bool
price_ok buy p q = leb_ℤ q p
price_ok sell p q = leb_ℤ p q

abbrev pub is_limit : OrderType → Bool
is_limit limit = true
is_limit market = false

abbrev pub is_fok : TimeInForce → Bool
is_fok fok = true
is_fok _ = false

pub record Trade : Type 0 where
  pub taker_order_id : OrderId
  pub maker_order_id : OrderId
  pub symbol : SymbolId
  pub price : Price
  pub quantity : Quantity
  pub timestamp : Timestamp
  pub taker_side : Side
  pub taker_participant_id : ParticipantId
  pub maker_participant_id : ParticipantId

pub record ExecutionReport : Type 0 where
  pub order_id : OrderId
  pub status : OrderStatus
  pub filled_quantity : Quantity
  pub remaining_quantity : Quantity
  pub reject_reason : RejectReason

-- `status != OrderStatus::Rejected`
abbrev is_accepted_status : OrderStatus → Bool
is_accepted_status rejected = false
is_accepted_status _ = true

unfoldable pub accepted : ExecutionReport → Bool
accepted r = is_accepted_status r.status

pub record PriceLevelView : Type 0 where
  pub price : Price
  pub total_quantity : Quantity
  pub order_count : ℕ
