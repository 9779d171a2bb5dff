-- ===== src/Risk/Rate.antt =====
-- The rate limit over a whole sequence of orders.
use lightning_lob.Types.{no_reason}
use lightning_lob.Base.{[], ◌∷◌, arith, ℕ, List, ◌+◌, ◌<◌, ◌≤◌, ◌^◌, ◌≡◌, subst, sym, ap}
use lightning_lob.Types.{Side, RejectReason, Timestamp, Quantity}
use lightning_lob.Risk.{
  SymbolParticipantState, check_state, elapsed, rate_limit_window_ns, SymbolRiskLimits,
}

pub record Attempt : Type 0 where
  pub side : Side
  pub quantity : Quantity
  pub now : Timestamp

abbrev is_no_reason : RejectReason → ℕ
is_no_reason no_reason = 1
is_no_reason _ = 0

-- How many of the attempts on one account are accepted, one after the other.
pub accepted_count : SymbolParticipantState → List Attempt → ℕ
accepted_count s [] = 0
accepted_count s (a ∷ rest) =
    let (r, t) = check_state s a.side a.quantity a.now in is_no_reason r + accepted_count t rest

-- Every attempt comes within one second of the start of the window.
abbrev pub AllWithin : Timestamp → List Attempt → Type 0
AllWithin start [] = Unit {0}
AllWithin start (a ∷ rest) = (elapsed a.now start < rate_limit_window_ns) × AllWithin start rest

check_state_within :
    (s : SymbolParticipantState) (a : Attempt)
    → elapsed a.now s.window_start < rate_limit_window_ns
    → s.orders_in_window ≤ s.limits.max_orders_per_second
    → s.limits.max_orders_per_second < 2 ^ 32
    → (let (r, t) = check_state s a.side a.quantity a.now in
        (t.window_start ≡ s.window_start)
        × (t.limits ≡ s.limits)
        × (t.orders_in_window ≡ s.orders_in_window + is_no_reason r)
        × (t.orders_in_window ≤ s.limits.max_orders_per_second))
unfolding check_state
check_state_within s a w le max = (ground arith, ground arith, ground arith, ground arith)

-- Within one window, where the limit fits 32 bits and the window's count so far is within it, no
-- more orders are accepted than the limit, those counted before included, whatever the orders
-- are.
pub accepted_count-le :
    (s : SymbolParticipantState) (attempts : List Attempt)
    → AllWithin s.window_start attempts
    → s.orders_in_window ≤ s.limits.max_orders_per_second
    → s.limits.max_orders_per_second < 2 ^ 32
    → s.orders_in_window + accepted_count s attempts ≤ s.limits.max_orders_per_second
unfolding accepted_count
accepted_count-le s [] w le max = omega arith
accepted_count-le s (a ∷ rest) (here, later) le max =
    let (r, t) = check_state s a.side a.quantity a.now in
    let (start, limits, counted, below) = check_state_within s a here le max in
    omega (
      arith,
      accepted_count-le t rest (subst (λ w. AllWithin w rest) (sym start) later) (rw limits below)
          (rw limits max),
      ap (λ (l : SymbolRiskLimits). l.max_orders_per_second) limits,
    )
