-- ===== src/Drain/Fifo.antt =====
-- What one level does to a taker, on the plain list of its resting orders, oldest first: no pool,
-- no links, no index.
use lightning_lob.Base.{[], ◌∷◌, true, false, List, Bool, if◌then◌else◌, ◌++◌, not, length}
use lightning_lob.Order.{Order, Trade}
use lightning_lob.Drain.{Setting, self_trade, cancels_incoming, cancels_resting}
use lightning_lob.Types.{Quantity, Price, Timestamp}
use lightning_lob.Base.Int.{◌-ℤ◌, min_ℤ, ltb_ℤ, pos, eqb_ℤ}

-- How a level is left.
pub record Drained : Type 0 where
  pub taker : Order
  pub makers : List Order
  pub trades : List Trade
  pub stp_killed : Bool

abbrev pub debited : Order → Quantity → Order
debited o qty = record o { remaining_quantity = o.remaining_quantity -ℤ qty }

abbrev pub fill_quantity : (taker maker : Order) → Quantity
fill_quantity taker maker = min_ℤ taker.remaining_quantity maker.remaining_quantity

abbrev pub trade_of : Setting → Price → Timestamp → (taker maker : Order) → Trade
trade_of e price now taker maker = record {
  taker_order_id = taker.id;
  maker_order_id = maker.id;
  symbol = e.symbol;
  price = price;
  quantity = fill_quantity taker maker;
  timestamp = now;
  taker_side = taker.side;
  taker_participant_id = taker.participant_id;
  maker_participant_id = maker.participant_id;
}

-- The first order decides: `skipped` and `next` are what the others do when it is cancelled, and
-- when it is filled.
abbrev pub meet :
    Setting → Price → Order → List Trade → Order → List Order → (skipped next : Drained) → Drained
meet e price taker trades maker makers skipped next =
    let qty = fill_quantity taker maker in
    if not (ltb_ℤ (pos 0) taker.remaining_quantity)
    then record { taker = taker; makers = maker ∷ makers; trades = trades; stp_killed = false }
    else if self_trade e.stp_policy taker maker
    then (if cancels_incoming e.stp_policy
        then record {
          taker = taker;
          makers = if cancels_resting e.stp_policy then makers else maker ∷ makers;
          trades = trades;
          stp_killed = true;
        }
        else skipped)
    else if eqb_ℤ (maker.remaining_quantity -ℤ qty) (pos 0)
    then next
    else record {
      taker = debited taker qty;
      makers = debited maker qty ∷ makers;
      trades = trades ++ trade_of e price (e.clock (length trades)) taker maker ∷ [];
      stp_killed = false;
    }

unfoldable pub fifo : Setting → Price → Order → List Trade → List Order → Drained
fifo e price taker trades [] = record {
  taker = taker;
  makers = [];
  trades = trades;
  stp_killed = false;
}
fifo e price taker trades (maker ∷ makers) =
    let skipped = fifo e price taker trades makers in
    let next =
      fifo e price (debited taker (fill_quantity taker maker))
        (trades ++ trade_of e price (e.clock (length trades)) taker maker ∷ []) makers in
    meet e price taker trades maker makers skipped next
