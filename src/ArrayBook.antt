-- ===== src/ArrayBook.antt =====
-- include/lightninglob/order_book_array.hpp and src/order_book_array.cpp: the order book whose levels
-- are two arrays over a fixed range of prices, each with a bitset of the levels that hold orders and
-- the index of the best of them. An index is `price - min_price`.
pub mod Rounds
pub mod Accounts
pub mod Invariant
pub mod Adds
pub mod Cancels
pub mod Starts
pub mod Amends
pub mod Resets
pub mod Depth
mod Tests
use lightning_lob.Base.Int.{negsuc}
use lightning_lob.Types.{
  buy, sell, new, partially_filled, filled, cancelled, rejected, no_reason, invalid_quantity,
  invalid_price, price_out_of_range, duplicate_order_id, unknown_order, SymbolId, Price, Side,
  OrderId, SelfTradePrevention, OrderType, Timestamp, OrderStatus, Quantity, RejectReason,
  invalid_order_id,
}
use lightning_lob.Pool
use lightning_lob.IdIndexMap
use lightning_lob.Bitset.{
  Bitset, new_bitset, set_bit, clear_bit, test_bit, find_next_set, find_prev_set,
}
use lightning_lob.Engine.{Answer, BookOps}
use lightning_lob.MapBook.{report, value_or, as_taker}
use lightning_lob.VectorBook.{level_view}
use lightning_lob.Drain.{Setting, Sweep, Round, finished, killed, again, proceed, drain}
use lightning_lob.Base.{
  [], ◌∷◌, true, false, zero, suc, none, some, inl, inr, refl, arith, List, ℕ, Option, Bool, ◌+◌,
  if◌then◌else◌, replicate, ltb, ◌==◌, not, ◌&&◌, get_or, ◌-◌, set, ◌||◌, ◌^◌,
}
use lightning_lob.Base.Int.{ℤ, leb_ℤ, ◌-ℤ◌, ◌+ℤ◌, ltb_ℤ, pos, eqb_ℤ}
use lightning_lob.Order.{
  Order, opposite, Trade, PriceLevelView, price_ok, is_limit, rests_in_book, is_fok,
}
use lightning_lob.Pool.{PriceLevel, OrderPool, new_level, level_empty}
use lightning_lob.IdIndexMap.{IdIndexMap}
use lightning_lob.Ladder.{
  Ladder, new_ladder, array_liquidity, rung, occupy, depth_from, clear_side, vacate, write_rung,
  leave_rung, advance,
}

pub record OrderBookArray : Type 0 where
  pub symbol : SymbolId
  pub min_price : Price
  pub max_price : Price
  pub range : ℕ
  pub bids : Ladder
  pub asks : Ladder
  pub pool : OrderPool
  pub id_index : IdIndexMap
  pub stp_policy : SelfTradePrevention

-- A cast of an `int64_t` to `std::size_t`.
abbrev pub to_size : ℤ → ℕ
to_size (pos n) = n
to_size (negsuc n) = 2 ^ 64 - n - 1

-- `none` where the constructor throws `std::invalid_argument`.
unfoldable pub validate_and_compute_range : (min_price max_price : Price) → Option ℕ
validate_and_compute_range min_price max_price =
    if ltb_ℤ max_price min_price
    then none
    else if leb_ℤ min_price (pos 0)
    then none
    else some (to_size (max_price -ℤ min_price) + 1)

abbrev pub array_of_range :
    SymbolId → (min_price max_price : Price) → ℕ → SelfTradePrevention → ℕ → OrderBookArray
array_of_range symbol min_price max_price order_capacity_hint policy range = record {
  symbol = symbol;
  min_price = min_price;
  max_price = max_price;
  range = range;
  bids = new_ladder range;
  asks = new_ladder range;
  pool = Pool.new_pool;
  id_index = IdIndexMap.new order_capacity_hint;
  stp_policy = policy;
}

-- What the constructor ends in: `std::invalid_argument`, an exception of the library that sizes the
-- vectors (`std::length_error` or `std::bad_alloc`), or a book.
pub data Construction : Type 0 where
  invalid_argument no_allocation : Construction
  constructed : OrderBookArray → Construction

-- `allocates levels orders` tells whether the library finds room for the vectors of that many levels
-- on each side and for the pool and the index of that many orders.
unfoldable pub new_array_book :
    (allocates : (levels orders : ℕ) → Bool)
    → SymbolId
    → (min_price max_price : Price) → ℕ
    → SelfTradePrevention
    → Construction
new_array_book allocates symbol min_price max_price order_capacity_hint policy =
    elim (validate_and_compute_range min_price max_price) [
      | none ↦ invalid_argument
      | some range ↦
          if allocates range order_capacity_hint
          then constructed
              (array_of_range symbol min_price max_price order_capacity_hint policy range)
          else no_allocation
    ]

unfoldable pub in_range : OrderBookArray → Price → Bool
in_range b price = leb_ℤ b.min_price price && leb_ℤ price b.max_price

unfoldable pub index_of : OrderBookArray → Price → ℕ
index_of b price = to_size (price -ℤ b.min_price)

unfoldable pub price_of : OrderBookArray → ℕ → Price
price_of b index = b.min_price +ℤ pos index

abbrev pub ladder : Side → OrderBookArray → Ladder
ladder buy b = b.bids
ladder sell b = b.asks

abbrev pub set_ladder : Side → Ladder → OrderBookArray → OrderBookArray
set_ladder buy l b = record b { bids = l }
set_ladder sell l b = record b { asks = l }

abbrev pub price_at : OrderBookArray → Option ℕ → Option Price
price_at b none = none
price_at b (some i) = some (price_of b i)

unfoldable pub array_best_bid : OrderBookArray → Option Price
array_best_bid b = price_at b b.bids.best

unfoldable pub array_best_ask : OrderBookArray → Option Price
array_best_ask b = price_at b b.asks.best

unfoldable pub array_spread : OrderBookArray → Option Price
unfolding array_best_bid array_best_ask
array_spread b = elim (array_best_bid b) [
  | none ↦ none
  | some bid ↦ elim (array_best_ask b) [ none ↦ none | some ask ↦ some (ask -ℤ bid) ]
]

unfoldable pub array_crosses : OrderBookArray → Order → Bool
array_crosses b o = elim (price_at b (ladder (opposite o.side) b).best) [
  | none ↦ false
  | some q ↦ price_ok o.side o.price q
]

unfoldable pub array_has_liquidity_for : OrderBookArray → Side → OrderType → Price → Quantity → Bool
array_has_liquidity_for b side type limit_price needed =
    let l = ladder (opposite side) b in
    array_liquidity (b.range + 1) side type limit_price needed l (pos 0) l.best

-- The state of the outer loop.
pub record ArrayMatching : Type 0 where
  pub taker : Order
  pub book : OrderBookArray
  pub trades : List Trade

-- The best level is drained, and if that emptied it, the next one is the best.
unfoldable pub match_best : (ℕ → Timestamp) → ArrayMatching → ℕ → ArrayMatching × Bool
match_best clock m idx =
    let book = m.book in
    let side = opposite m.taker.side in
    let l = ladder side book in
    let level = rung l idx in
    let setting : Setting = record {
      stp_policy = book.stp_policy;
      symbol = book.symbol;
      clock = clock;
    } in
    let (s, stp_killed) = drain (suc level.order_count) setting level.price (record {
      taker = m.taker;
      level = level;
      pool = book.pool;
      id_index = book.id_index;
      trades = m.trades;
    }) in
    let empty_rung = vacate l idx s.level in
    (
      record {
        taker = s.taker;
        book =
            set_ladder side
              (if level_empty s.level
                then record empty_rung { best = advance side empty_rung.bitmap idx }
                else write_rung l idx s.level)
              (record book { pool = s.pool; id_index = s.id_index });
        trades = s.trades;
      },
      stp_killed,
    )

abbrev array_round_of : ArrayMatching × Bool → Round ArrayMatching
array_round_of (m, true) = killed m
array_round_of (m, false) = again m

unfoldable pub array_match_round : (ℕ → Timestamp) → ArrayMatching → Round ArrayMatching
array_match_round clock m =
    let side = m.taker.side in
    if not (ltb_ℤ (pos 0) m.taker.remaining_quantity)
    then finished
    else elim (ladder (opposite side) m.book).best [
      | none ↦ finished
      | some idx ↦
          if is_limit m.taker.type
            && not (price_ok side m.taker.price (rung (ladder (opposite side) m.book) idx).price)
          then finished
          else array_round_of (match_best clock m idx)
    ]

unfoldable pub array_match_loop :
    (rounds : ℕ) → (ℕ → Timestamp) → ArrayMatching → ArrayMatching × Bool
array_match_loop zero clock m = (m, false)
array_match_loop (suc rounds) clock m =
    proceed m (λ n. array_match_loop rounds clock n) (array_match_round clock m)

-- A round that goes on empties a level or fills the taker, and there are `range` levels.
unfoldable pub array_match_against_book :
    (ℕ → Timestamp) → OrderBookArray → Order → ArrayMatching × Bool
array_match_against_book clock b taker =
    array_match_loop (suc b.range) clock (record { taker = taker; book = b; trades = [] })

unfoldable pub array_rest_order : OrderBookArray → Order → OrderBookArray
array_rest_order b o =
    let idx = index_of b o.price in
    let (pool_idx, pool) = Pool.acquire b.pool o in
    let l = occupy o.side (ladder o.side b) idx o.price in
    let (level, pool) = Pool.level_push_back (rung l idx) pool pool_idx in
    set_ladder o.side (write_rung l idx level)
      (record b { pool = pool; id_index = (IdIndexMap.insert b.id_index o.id pool_idx).1 })

abbrev pub array_refuse :
    OrderBookArray → OrderId → OrderStatus → RejectReason → Answer OrderBookArray
array_refuse b id status reason = record {
  report = report id status (pos 0) (pos 0) reason;
  book = b;
  trades = [];
}

-- The end of `add_order`: report, and rest what is left.
unfoldable pub array_conclude : Order → ArrayMatching → Bool → Answer OrderBookArray
array_conclude o m stp_killed =
    let left = m.taker.remaining_quantity in
    let done = o.quantity -ℤ left in
    if eqb_ℤ left (pos 0)
    then record {
      report = report o.id filled done (pos 0) no_reason;
      book = m.book;
      trades = m.trades;
    }
    else if not stp_killed && rests_in_book m.taker
    then record {
      report =
          report o.id (if ltb_ℤ (pos 0) done then partially_filled else new) done left no_reason;
      book = array_rest_order m.book m.taker;
      trades = m.trades;
    }
    else record {
      report = report o.id cancelled done (pos 0) no_reason;
      book = m.book;
      trades = m.trades;
    }

abbrev pub array_matched : (ℕ → Timestamp) → OrderBookArray → Order → ArrayMatching × Bool
array_matched clock b taker =
    if not (is_limit taker.type) || (is_fok taker.time_in_force || array_crosses b taker)
    then array_match_against_book clock b taker
    else (record { taker = taker; book = b; trades = [] }, false)

unfoldable pub array_submit : (ℕ → Timestamp) → OrderBookArray → Order → Answer OrderBookArray
array_submit clock b o =
    let (m, stp_killed) = array_matched clock b (as_taker o) in array_conclude o m stp_killed

unfoldable pub array_add_order : (ℕ → Timestamp) → OrderBookArray → Order → Answer OrderBookArray
array_add_order clock b o =
    if leb_ℤ o.quantity (pos 0)
    then array_refuse b o.id rejected invalid_quantity
    else if is_limit o.type && leb_ℤ o.price (pos 0)
    then array_refuse b o.id rejected invalid_price
    else if is_limit o.type && not (in_range b o.price)
    then array_refuse b o.id rejected price_out_of_range
    else if not (o.id == invalid_order_id) && IdIndexMap.contains b.id_index o.id
    then array_refuse b o.id rejected duplicate_order_id
    else if is_fok o.time_in_force
        && not (array_has_liquidity_for b o.side o.type o.price o.quantity)
    then array_refuse b o.id cancelled no_reason
    else array_submit clock b o

-- `cancel_order` once the order's index is found.
unfoldable pub array_cancel_at : OrderBookArray → OrderId → ℕ → OrderBookArray
array_cancel_at b id pool_idx =
    let o = (Pool.node b.pool pool_idx).order in
    let idx = index_of b o.price in
    let l = ladder o.side b in
    let level = rung l idx in
    let total = level.total_quantity -ℤ o.remaining_quantity in
    let (level, pool) =
      Pool.level_unlink (record level { total_quantity = total }) b.pool pool_idx in
    set_ladder o.side (leave_rung o.side l idx level) (record b {
      pool = Pool.release pool pool_idx;
      id_index = (IdIndexMap.erase b.id_index id).1;
    })

unfoldable pub array_cancel_order : OrderBookArray → OrderId → Bool × OrderBookArray
array_cancel_order b id = elim (IdIndexMap.find b.id_index id) [
  | none ↦ (false, b)
  | some pool_idx ↦ (true, array_cancel_at b id pool_idx)
]

unfoldable pub array_reduce_at : OrderBookArray → ℕ → Quantity → OrderBookArray
array_reduce_at b pool_idx new_quantity =
    let o = (Pool.node b.pool pool_idx).order in
    let idx = index_of b o.price in
    let l = ladder o.side b in
    let delta = o.remaining_quantity -ℤ new_quantity in
    let (level, pool) = Pool.level_reduce_quantity (rung l idx) b.pool pool_idx delta in
    set_ladder o.side (write_rung l idx level) (record b { pool = pool })

abbrev pub price_refused : OrderBookArray → Option Price → Bool
price_refused b none = false
price_refused b (some p) = not (in_range b p)

unfoldable pub array_amend_order :
    (ℕ → Timestamp) → OrderBookArray → OrderId → Quantity → Option Price → Answer OrderBookArray
array_amend_order clock b id new_quantity new_price = elim (IdIndexMap.find b.id_index id) [
  | none ↦ array_refuse b id rejected unknown_order
  | some pool_idx ↦
      let snapshot = (Pool.node b.pool pool_idx).order in
      let price = value_or new_price snapshot.price in
      if leb_ℤ new_quantity (pos 0)
      then array_refuse b id rejected invalid_quantity
      else if price_refused b new_price
      then array_refuse b id rejected price_out_of_range
      else if eqb_ℤ price snapshot.price && not (ltb_ℤ snapshot.remaining_quantity new_quantity)
      then record {
        report = report id new (pos 0) new_quantity no_reason;
        book = array_reduce_at b pool_idx new_quantity;
        trades = [];
      }
      else array_add_order (λ i. clock (suc i)) (array_cancel_order b id).1
          (record snapshot {
            price = price;
            quantity = new_quantity;
            remaining_quantity = new_quantity;
            timestamp = clock 0;
          })
]

unfoldable pub array_bid_depth : OrderBookArray → ℕ → List PriceLevelView
array_bid_depth b n = depth_from buy n b.bids b.bids.best

unfoldable pub array_ask_depth : OrderBookArray → ℕ → List PriceLevelView
array_ask_depth b n = depth_from sell n b.asks b.asks.best

unfoldable pub array_reset : OrderBookArray → OrderBookArray
array_reset b = record b {
  bids = clear_side b.bids;
  asks = clear_side b.asks;
  pool = Pool.reset b.pool;
  id_index = IdIndexMap.clear b.id_index;
}
