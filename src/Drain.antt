-- ===== src/Drain.antt =====
-- The inner loop of matching, which the three books share: the taker meets the orders at the head
-- of one price level until it is filled, the level is empty, or self-trade prevention stops it.
-- The trades are what the trade callback is called with, in order. `clock i` is the i-th reading
-- of `now_ns()` in one call of the book; each trade takes one reading.
pub mod Fifo
pub mod Refinement
pub mod Ends
pub mod Prices
mod Tests
pub mod Steps
pub mod Trades
use lightning_lob.Base.{
  ℕ, zero, suc, Bool, true, false, not, ◌&&◌, List, [], ◌∷◌, ◌++◌, ◌==◌, if◌then◌else◌, length,
  none, some, inl, inr, refl, arith,
}
use lightning_lob.Base.Int.{pos, ◌-ℤ◌, ltb_ℤ, eqb_ℤ, min_ℤ}
use lightning_lob.Types.{
  Price, Quantity, Timestamp, SymbolId, SelfTradePrevention, no_prevention, cancel_resting,
  cancel_incoming, cancel_both, null_index, no_participant,
}
use lightning_lob.Order.{Order, Trade}
use lightning_lob.Pool
use lightning_lob.Pool.{PriceLevel, OrderPool}
use lightning_lob.IdIndexMap
use lightning_lob.IdIndexMap.{IdIndexMap}

-- What the loop reads and does not change.
pub record Setting : Type 0 where
  pub stp_policy : SelfTradePrevention
  pub symbol : SymbolId
  pub clock : ℕ → Timestamp

pub record Sweep : Type 0 where
  pub taker : Order
  pub level : PriceLevel
  pub pool : OrderPool
  pub id_index : IdIndexMap
  pub trades : List Trade

abbrev pub prevents : SelfTradePrevention → Bool
prevents no_prevention = false
prevents _ = true

abbrev pub cancels_resting : SelfTradePrevention → Bool
cancels_resting cancel_resting = true
cancels_resting cancel_both = true
cancels_resting _ = false

abbrev pub cancels_incoming : SelfTradePrevention → Bool
cancels_incoming cancel_incoming = true
cancels_incoming cancel_both = true
cancels_incoming _ = false

unfoldable pub self_trade : SelfTradePrevention → Order → Order → Bool
self_trade policy taker maker =
    prevents policy
    && (not (taker.participant_id == no_participant)
        && (taker.participant_id == maker.participant_id))

-- The maker's index is read once, from the head of the level.
abbrev pub maker_order : (maker_idx : ℕ) → Sweep → Order
maker_order maker_idx s = (Pool.node s.pool maker_idx).order

-- `level_unlink`, `id_index_.erase` and `release` for the order at the head.
unfoldable pub drop_maker : (maker_idx : ℕ) → Sweep → Sweep
drop_maker maker_idx s =
    let (level, pool) = Pool.level_unlink s.level s.pool maker_idx in
    record s {
      level = level;
      pool = Pool.release pool maker_idx;
      id_index = (IdIndexMap.erase s.id_index (maker_order maker_idx s).id).1;
    }

-- The resting order is cancelled: its quantity leaves the level, and then the order.
unfoldable pub cancel_maker : (maker_idx : ℕ) → Sweep → Sweep
cancel_maker maker_idx s =
    let level = s.level in
    let total = level.total_quantity -ℤ (maker_order maker_idx s).remaining_quantity in
    drop_maker maker_idx (record s { level = record level { total_quantity = total } })

unfoldable pub trade_quantity : (maker_idx : ℕ) → Sweep → Quantity
trade_quantity maker_idx s =
    min_ℤ s.taker.remaining_quantity (maker_order maker_idx s).remaining_quantity

-- The trade at price `price`, which debits both orders and the level.
unfoldable pub execute : Setting → Price → (maker_idx : ℕ) → Sweep → Sweep
execute e price maker_idx s =
    let taker = s.taker in
    let maker = maker_order maker_idx s in
    let qty = trade_quantity maker_idx s in
    let (level, pool) = Pool.level_reduce_quantity s.level s.pool maker_idx qty in
    let trade : Trade = record {
      taker_order_id = taker.id;
      maker_order_id = maker.id;
      symbol = e.symbol;
      price = price;
      quantity = qty;
      timestamp = e.clock (length s.trades);
      taker_side = taker.side;
      taker_participant_id = taker.participant_id;
      maker_participant_id = maker.participant_id;
    } in
    record s {
      taker = record taker { remaining_quantity = taker.remaining_quantity -ℤ qty };
      level = level;
      pool = pool;
      trades = s.trades ++ trade ∷ [];
    }

-- `if (maker.remaining_quantity == 0)` after a trade.
unfoldable pub settle : (maker_idx : ℕ) → Sweep → Sweep
settle maker_idx s =
    if eqb_ℤ (maker_order maker_idx s).remaining_quantity (pos 0) then drop_maker maker_idx s else s

-- One round of the loop: its test fails, it breaks with `stp_killed`, or it goes on.
pub data Round (S : Type 0) : Type 0 where
  finished : Round S
  killed again : S → Round S

-- What follows a round that began at `s`; `loop` is the loop from there.
abbrev pub proceed : {S : Type 0} → S → (S → S × Bool) → Round S → S × Bool
proceed s loop finished = (s, false)
proceed s loop (killed t) = (t, true)
proceed s loop (again t) = loop t

unfoldable pub drain_round : Setting → Price → Sweep → Round Sweep
drain_round e price s =
    let maker_idx = s.level.head in
    let running = not (s.level.head == null_index) && ltb_ℤ (pos 0) s.taker.remaining_quantity in
    let cancelled = if cancels_resting e.stp_policy then cancel_maker maker_idx s else s in
    if not running
    then finished
    else if self_trade e.stp_policy s.taker (maker_order maker_idx s)
    then (if cancels_incoming e.stp_policy then killed cancelled else again cancelled)
    else again (settle maker_idx (execute e price maker_idx s))

-- The flag is `stp_killed`. A round that goes on takes an order off the level or fills the taker.
unfoldable pub drain : (rounds : ℕ) → Setting → Price → Sweep → Sweep × Bool
drain zero e price s = (s, false)
drain (suc rounds) e price s = proceed s (λ t. drain rounds e price t) (drain_round e price s)
