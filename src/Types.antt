-- ===== src/Types.antt =====
-- include/lightninglob/types.hpp: the numbers and enumerations that every part shares.
-- An unsigned type is a native number, below its modulus; a signed one is ℤ.
use lightning_lob.Base.{ℕ, ◌-◌, ◌^◌}
use lightning_lob.Base.Int.{ℤ}

abbrev pub OrderId : Type 0
OrderId = ℕ

-- Integer ticks.
abbrev pub Price : Type 0
Price = ℤ

abbrev pub Quantity : Type 0
Quantity = ℤ

-- Nanoseconds of the monotonic clock, modulo 2 ^ 64.
abbrev pub Timestamp : Type 0
Timestamp = ℕ

abbrev pub SymbolId : Type 0
SymbolId = ℕ

abbrev pub ParticipantId : Type 0
ParticipantId = ℕ

pub data Side : Type 0 where
  buy sell : Side

pub data OrderType : Type 0 where
  limit market : OrderType

pub data TimeInForce : Type 0 where
  gtc ioc fok : TimeInForce

pub data OrderStatus : Type 0 where
  new partially_filled filled cancelled rejected : OrderStatus

pub data RejectReason : Type 0 where
  no_reason invalid_quantity invalid_price price_out_of_range unknown_symbol : RejectReason
  duplicate_order_id unknown_order risk_max_order_size risk_max_position : RejectReason
  risk_rate_limited : RejectReason

pub data SelfTradePrevention : Type 0 where
  no_prevention cancel_resting cancel_incoming cancel_both : SelfTradePrevention

abbrev pub invalid_order_id : OrderId
invalid_order_id = 0

-- `kNullIndex`, the largest value of a `uint32_t`.
abbrev pub null_index : ℕ
null_index = 2 ^ 32 - 1

abbrev pub no_participant : ParticipantId
no_participant = 0
