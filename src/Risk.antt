-- ===== src/Risk.antt =====
-- include/lightninglob/risk_manager.hpp and src/risk_manager.cpp: limits, positions and the order
-- rate of each participant in each symbol. The `std::unordered_map` is an association list. A
-- position is an integer without bound.
pub mod Positions
pub mod Rate
mod Tests
use lightning_lob.Base.{
  ℕ, ◌+◌, ◌-◌, ◌*◌, ◌%◌, ◌^◌, ◌||◌, Option, none, some, List, [], ◌∷◌, ltb, leb, ◌==◌,
  if◌then◌else◌, true, false, zero, suc, inl, inr, refl, arith,
}
use lightning_lob.Base.Int.{pos, ◌+ℤ◌, neg_ℤ, ltb_ℤ}
use lightning_lob.Types.{
  Quantity, Timestamp, SymbolId, ParticipantId, Side, buy, sell, RejectReason, no_reason,
  risk_max_order_size, risk_max_position, risk_rate_limited,
}

pub record SymbolRiskLimits : Type 0 where
  pub max_position : Quantity
  pub max_order_size : Quantity
  pub max_orders_per_second : ℕ

pub record SymbolParticipantState : Type 0 where
  pub limits : SymbolRiskLimits
  pub net_position : Quantity
  pub window_start : Timestamp
  pub orders_in_window : ℕ

abbrev pub RiskManager : Type 0
RiskManager = List (ℕ × SymbolParticipantState)

-- The largest `Quantity` and the largest `uint32_t`: no limit.
abbrev pub max_quantity : ℕ
max_quantity = 2 ^ 63 - 1

abbrev pub default_limits : SymbolRiskLimits
default_limits = record {
  max_position = pos max_quantity;
  max_order_size = pos max_quantity;
  max_orders_per_second = 2 ^ 32 - 1;
}

abbrev pub default_state : SymbolParticipantState
default_state = record {
  limits = default_limits;
  net_position = pos 0;
  window_start = 0;
  orders_in_window = 0;
}

abbrev pub rate_limit_window_ns : ℕ
rate_limit_window_ns = 1_000_000_000

-- `symbol << 32 | participant`: the two halves share no bit.
unfoldable pub pack_key : SymbolId → ParticipantId → ℕ
pack_key symbol participant = symbol * 2 ^ 32 + participant

-- `find` of the map.
unfoldable pub find_state : ℕ → RiskManager → Option SymbolParticipantState
find_state key [] = none
find_state key ((k, s) ∷ rest) = if k == key then some s else find_state key rest

-- `operator[]` of the map, and a write through it.
abbrev pub state_or_default : Option SymbolParticipantState → SymbolParticipantState
state_or_default none = default_state
state_or_default (some s) = s

unfoldable pub put_state : ℕ → SymbolParticipantState → RiskManager → RiskManager
put_state key v [] = (key, v) ∷ []
put_state key v ((k, s) ∷ rest) = if k == key then (k, v) ∷ rest else (k, s) ∷ put_state key v rest

abbrev pub state_of : RiskManager → SymbolId → ParticipantId → SymbolParticipantState
state_of m symbol participant = state_or_default (find_state (pack_key symbol participant) m)

unfoldable pub set_limits : RiskManager → SymbolId → ParticipantId → SymbolRiskLimits → RiskManager
set_limits m symbol participant limits =
    let s = state_of m symbol participant in
    put_state (pack_key symbol participant) (record s { limits = limits }) m

unfoldable pub limits_for : RiskManager → SymbolId → ParticipantId → SymbolRiskLimits
limits_for m symbol participant = (state_of m symbol participant).limits

-- `side == Side::Buy ? quantity : -quantity`
unfoldable pub signed : Side → Quantity → Quantity
signed buy quantity = quantity
signed sell quantity = neg_ℤ quantity

-- `now - window_start` of two `uint64_t`.
abbrev pub elapsed : Timestamp → Timestamp → ℕ
elapsed now start = (now + 2 ^ 64 - start) % 2 ^ 64

unfoldable pub refresh_window : SymbolParticipantState → Timestamp → SymbolParticipantState
refresh_window s now =
    if leb rate_limit_window_ns (elapsed now s.window_start)
    then record s { window_start = now; orders_in_window = 0 }
    else s

-- The checks of `check_new_order` on the state that it finds.
unfoldable pub check_state :
    SymbolParticipantState → Side → Quantity → Timestamp → RejectReason × SymbolParticipantState
unfolding refresh_window
check_state s side quantity now =
    let prospective = s.net_position +ℤ signed side quantity in
    let fresh = refresh_window s now in
    if ltb_ℤ s.limits.max_order_size quantity
    then (risk_max_order_size, s)
    else if ltb_ℤ s.limits.max_position prospective
        || ltb_ℤ prospective (neg_ℤ s.limits.max_position)
    then (risk_max_position, s)
    else if leb fresh.limits.max_orders_per_second fresh.orders_in_window
    then (risk_rate_limited, fresh)
    else (no_reason, record fresh { orders_in_window = (fresh.orders_in_window + 1) % 2 ^ 32 })

-- `check_new_order` on what `find` gives; an account with no state is not restricted.
abbrev pub checked :
    RiskManager
    → (key : ℕ) → Side
    → Quantity
    → Timestamp
    → Option SymbolParticipantState
    → RejectReason × RiskManager
checked m key side quantity now none = (no_reason, m)
checked m key side quantity now (some s) =
    let (r, t) = check_state s side quantity now in (r, put_state key t m)

unfoldable pub check_new_order :
    RiskManager
    → SymbolId
    → ParticipantId
    → Side
    → Quantity
    → Timestamp
    → RejectReason × RiskManager
check_new_order m symbol participant side quantity now =
    let key = pack_key symbol participant in checked m key side quantity now (find_state key m)

unfoldable pub on_fill : RiskManager → SymbolId → ParticipantId → Side → Quantity → RiskManager
on_fill m symbol participant side filled_quantity =
    let s = state_of m symbol participant in
    put_state (pack_key symbol participant)
      (record s { net_position = s.net_position +ℤ signed side filled_quantity }) m

unfoldable pub position : RiskManager → SymbolId → ParticipantId → Quantity
position m symbol participant = (state_of m symbol participant).net_position
