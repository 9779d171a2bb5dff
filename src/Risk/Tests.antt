-- ===== src/Risk/Tests.antt =====
-- The risk checks on small inputs.
use lightning_lob.Types.{buy, sell, risk_max_order_size}
use lightning_lob.Risk.{
  pack_key, find_state, put_state, check_state, check_new_order, on_fill, position, signed,
  refresh_window, SymbolParticipantState, RiskManager,
}
use lightning_lob.Risk.Positions.{accepted_fill_within}
use lightning_lob.Risk.Rate.{Attempt, accepted_count, accepted_count-le}
use lightning_lob.Base.{[], ◌∷◌, refl, arith, List, ◌+◌, ◌≡◌, ◌≤◌}
use lightning_lob.Base.Int.{◌+ℤ◌, pos, neg_ℤ, ◌≤ℤ◌}

-- Positions up to 100, orders up to 50, two orders in a second; 60 are held.
abbrev account : SymbolParticipantState
account = record {
  limits = record { max_position = pos 100; max_order_size = pos 50; max_orders_per_second = 2 };
  net_position = pos 60;
  window_start = 5;
  orders_in_window = 0;
}

abbrev manager : RiskManager
manager = (pack_key 1 3, account) ∷ []

too_large : (check_state account buy (pos 51) 6).0 ≡ risk_max_order_size
unfolding check_state signed refresh_window ◌+ℤ◌ neg_ℤ
too_large = refl

accepted_fill_within_example :
    (let after = on_fill (check_new_order manager 1 3 buy (pos 40) 6).1 1 3 buy (pos 25) in
      (neg_ℤ (pos 100) ≤ℤ position after 1 3) × (position after 1 3 ≤ℤ pos 100))
unfolding check_new_order find_state put_state pack_key check_state signed refresh_window ◌+ℤ◌ neg_ℤ
accepted_fill_within_example =
    accepted_fill_within manager 1 3 buy (pos 40) (pos 25) 6 account (omega arith) refl refl
      (omega arith) (omega arith) (omega arith) (omega arith)

-- Three orders in one second, of which two are accepted.
abbrev attempts : List Attempt
attempts =
    record { side = buy; quantity = pos 1; now = 6 }
    ∷ record { side = sell; quantity = pos 1; now = 7 }
    ∷ record { side = buy; quantity = pos 1; now = 8 }
    ∷ []

accepted_count-le_example : account.orders_in_window + accepted_count account attempts ≤ 2
accepted_count-le_example =
    accepted_count-le account attempts (omega arith, (omega arith, (omega arith, tt))) (omega arith)
      (omega arith)
