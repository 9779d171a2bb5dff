-- ===== src/Drain/Tests.antt =====
-- The loop over one level on small inputs.
use lightning_lob.Drain.Fifo.{fifo}
use lightning_lob.Types.{buy, limit, gtc, cancel_resting}
use lightning_lob.Drain.{Setting, Sweep, drain}
use lightning_lob.Pool.Tests.{order, two_on_level, level_of_two, level_of_two-IsLevel}
use lightning_lob.Base.{[], ◌∷◌, true, false, arith, ◌≡◌, ◌⊎◌}
use lightning_lob.Order.{Order}
use lightning_lob.Drain.Refinement.{Agrees, drain-Agrees}
use lightning_lob.Base.Int.{pos}
use lightning_lob.Drain.Trades.{is_running}
use lightning_lob.Drain.Ends.{drain_ends}
use lightning_lob.Drain.Steps.{orders_at}
use lightning_lob.IdIndexMap

abbrev taker : Order
taker = order 20 buy limit gtc 101 12 4

abbrev facing_two : Sweep
facing_two = record {
  taker = taker;
  level = level_of_two;
  pool = two_on_level;
  id_index = IdIndexMap.new 4;
  trades = [];
}

abbrev with_prevention : Setting
with_prevention = record { stp_policy = cancel_resting; symbol = 1; clock = λ i. i }

drain-Agrees_example :
    Agrees
      (drain 3 with_prevention (pos 101) facing_two)
      (fifo with_prevention (pos 101) taker [] (orders_at two_on_level (0 ∷ 1 ∷ [])))
drain-Agrees_example =
    drain-Agrees with_prevention (pos 101) 3 facing_two (0 ∷ 1 ∷ []) (omega arith)
      level_of_two-IsLevel

drain_ends_example :
    (let (t, stp_killed) = drain 3 with_prevention (pos 101) facing_two in
      (stp_killed ≡ true) ⊎ (is_running t ≡ false))
drain_ends_example =
    drain_ends with_prevention (pos 101) 3 facing_two (0 ∷ 1 ∷ []) (omega arith)
      level_of_two-IsLevel
