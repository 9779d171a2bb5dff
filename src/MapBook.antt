-- ===== src/MapBook.antt =====
-- include/lightninglob/order_book_map.hpp and src/order_book_map.cpp: the order book whose levels
-- are two `std::map`s. A map is the list of its entries in order, the best price first.
pub mod Accounts
pub mod Liquidity
pub mod Refusals
pub mod Levels
pub mod Amends
pub mod Cancels
pub mod Ordered
pub mod Rests
pub mod RoundTrip
mod Tests
use lightning_lob.Base.{
  ℕ, zero, suc, Bool, true, false, not, ◌&&◌, ◌||◌, Option, none, some, List, [], ◌∷◌, map, ◌==◌,
  if◌then◌else◌, length, take, inl, inr, refl, arith,
}
use lightning_lob.Base.Int.{pos, ◌-ℤ◌, ◌+ℤ◌, ltb_ℤ, leb_ℤ, eqb_ℤ}
use lightning_lob.Types.{
  OrderId, Price, Quantity, Timestamp, SymbolId, Side, OrderType, TimeInForce, SelfTradePrevention,
  RejectReason, OrderStatus, buy, sell, limit, market, fok, new, partially_filled, filled,
  cancelled, rejected, no_reason, invalid_quantity, invalid_price, duplicate_order_id,
  unknown_order, invalid_order_id,
}
use lightning_lob.Order.{
  Order, Trade, ExecutionReport, PriceLevelView, rests_in_book, opposite, price_ok, is_limit,
  is_fok,
}
use lightning_lob.Pool
use lightning_lob.Pool.{PriceLevel, OrderPool, new_level, level_empty}
use lightning_lob.IdIndexMap
use lightning_lob.IdIndexMap.{IdIndexMap}
use lightning_lob.Drain.{Setting, Sweep, Round, finished, killed, again, proceed, drain}

abbrev pub Levels : Type 0
Levels = List (Price × PriceLevel)

pub record OrderBookMap : Type 0 where
  pub symbol : SymbolId
  pub bids : Levels
  pub asks : Levels
  pub pool : OrderPool
  pub id_index : IdIndexMap
  pub stp_policy : SelfTradePrevention

unfoldable pub new_book : SymbolId → ℕ → SelfTradePrevention → OrderBookMap
new_book symbol order_capacity_hint policy = record {
  symbol = symbol;
  bids = [];
  asks = [];
  pool = Pool.new_pool;
  id_index = IdIndexMap.new order_capacity_hint;
  stp_policy = policy;
}

-- The order of the keys: `std::greater` for bids, `std::less` for asks.
abbrev pub before : Side → Price → Price → Bool
before buy p q = ltb_ℤ q p
before sell p q = ltb_ℤ p q

-- `find` of the map.
unfoldable pub find_level : Price → Levels → Option PriceLevel
find_level p [] = none
find_level p ((q, l) ∷ rest) = if eqb_ℤ q p then some l else find_level p rest

-- A write through a pointer into the map.
unfoldable pub set_level : Price → PriceLevel → Levels → Levels
set_level p v [] = []
set_level p v ((q, l) ∷ rest) = if eqb_ℤ q p then (q, v) ∷ rest else (q, l) ∷ set_level p v rest

-- `erase` of the map.
unfoldable pub erase_level : Price → Levels → Levels
erase_level p [] = []
erase_level p ((q, l) ∷ rest) = if eqb_ℤ q p then rest else (q, l) ∷ erase_level p rest

-- `try_emplace`, with the price of a new level.
unfoldable pub emplace_level : Side → Price → Levels → Levels
emplace_level side p [] = (p, record new_level { price = p }) ∷ []
emplace_level side p ((q, l) ∷ rest) =
    if eqb_ℤ q p
    then (q, l) ∷ rest
    else if before side p q
    then (p, record new_level { price = p }) ∷ (q, l) ∷ rest
    else (q, l) ∷ emplace_level side p rest

-- The levels of one side.
abbrev pub side_levels : Side → OrderBookMap → Levels
side_levels buy b = b.bids
side_levels sell b = b.asks

abbrev pub set_side_levels : Side → Levels → OrderBookMap → OrderBookMap
set_side_levels buy ls b = record b { bids = ls }
set_side_levels sell ls b = record b { asks = ls }

abbrev pub best_price : Levels → Option Price
best_price [] = none
best_price ((p, l) ∷ rest) = some p

unfoldable pub best_bid : OrderBookMap → Option Price
best_bid b = best_price b.bids

unfoldable pub best_ask : OrderBookMap → Option Price
best_ask b = best_price b.asks

unfoldable pub spread : OrderBookMap → Option Price
unfolding best_bid best_ask
spread b = elim (best_bid b) [
  | none ↦ none
  | some bid ↦ elim (best_ask b) [ none ↦ none | some ask ↦ some (ask -ℤ bid) ]
]

unfoldable pub crosses : OrderBookMap → Order → Bool
crosses b o = elim (best_price (side_levels (opposite o.side) b)) [
  | none ↦ false
  | some q ↦ price_ok o.side o.price q
]

-- The loop of `has_liquidity_for` over the opposite side.
unfoldable pub liquidity : Side → OrderType → Price → Quantity → Quantity → Levels → Bool
liquidity side type limit_price needed accumulated [] = false
liquidity side type limit_price needed accumulated ((p, l) ∷ rest) =
    let total = accumulated +ℤ l.total_quantity in
    let more = liquidity side type limit_price needed total rest in
    if is_limit type && not (price_ok side limit_price p)
    then false
    else if leb_ℤ needed total
    then true
    else more

unfoldable pub has_liquidity_for : OrderBookMap → Side → OrderType → Price → Quantity → Bool
has_liquidity_for b side type limit_price needed =
    liquidity side type limit_price needed (pos 0) (side_levels (opposite side) b)

-- The state of the outer loop.
pub record Matching : Type 0 where
  pub taker : Order
  pub book : OrderBookMap
  pub trades : List Trade

abbrev pub setting : (ℕ → Timestamp) → OrderBookMap → Setting
setting clock b = record { stp_policy = b.stp_policy; symbol = b.symbol; clock = clock }

-- The inner loop's state as it starts on a level.
abbrev pub opened : Matching → PriceLevel → Sweep
opened m level = record {
  taker = m.taker;
  level = level;
  pool = m.book.pool;
  id_index = m.book.id_index;
  trades = m.trades;
}

-- The best level is drained, and erased if that emptied it. A level holds `order_count` orders,
-- so one more round than that lets its loop end by its own test.
unfoldable pub match_level : (ℕ → Timestamp) → Matching → Price → PriceLevel → Matching × Bool
match_level clock m price level =
    let book = m.book in
    let side = opposite m.taker.side in
    let levels = side_levels side book in
    let (s, stp_killed) =
      drain (suc level.order_count) (setting clock book) price (opened m level) in
    (
      record {
        taker = s.taker;
        book =
            set_side_levels side
              (if level_empty s.level
                then erase_level price levels
                else set_level price s.level levels)
              (record book { pool = s.pool; id_index = s.id_index });
        trades = s.trades;
      },
      stp_killed,
    )

abbrev pub round_of : Matching × Bool → Round Matching
round_of (m, true) = killed m
round_of (m, false) = again m

unfoldable pub match_round : (ℕ → Timestamp) → Matching → Round Matching
match_round clock m =
    let side = m.taker.side in
    if not (ltb_ℤ (pos 0) m.taker.remaining_quantity)
    then finished
    else elim (side_levels (opposite side) m.book) [
      | [] ↦ finished
      | (price, level) ∷ _ ↦
          if is_limit m.taker.type && not (price_ok side m.taker.price price)
          then finished
          else round_of (match_level clock m price level)
    ]

unfoldable pub match_loop : (rounds : ℕ) → (ℕ → Timestamp) → Matching → Matching × Bool
match_loop zero clock m = (m, false)
match_loop (suc rounds) clock m = proceed m (λ n. match_loop rounds clock n) (match_round clock m)

-- A round that goes on erases a level or fills the taker.
unfoldable pub match_against_book : (ℕ → Timestamp) → OrderBookMap → Order → Matching × Bool
match_against_book clock b taker =
    match_loop (suc (length (side_levels (opposite taker.side) b))) clock
      (record { taker = taker; book = b; trades = [] })

abbrev pub level_or_new : Option PriceLevel → PriceLevel
level_or_new none = new_level
level_or_new (some l) = l

unfoldable pub rest_order : OrderBookMap → Order → OrderBookMap
unfolding emplace_level find_level set_level
rest_order b o =
    let (idx, pool) = Pool.acquire b.pool o in
    let levels = emplace_level o.side o.price (side_levels o.side b) in
    let (level, pool) = Pool.level_push_back (level_or_new (find_level o.price levels)) pool idx in
    set_side_levels o.side (set_level o.price level levels)
      (record b { pool = pool; id_index = (IdIndexMap.insert b.id_index o.id idx).1 })

-- What a call of the book gives back: the report, the book, and the trades that it made.
pub record Outcome : Type 0 where
  pub report : ExecutionReport
  pub book : OrderBookMap
  pub trades : List Trade

abbrev pub report : OrderId → OrderStatus → Quantity → Quantity → RejectReason → ExecutionReport
report id status done remaining reason = record {
  order_id = id;
  status = status;
  filled_quantity = done;
  remaining_quantity = remaining;
  reject_reason = reason;
}

abbrev pub refuse : OrderBookMap → OrderId → OrderStatus → RejectReason → Outcome
refuse b id status reason = record {
  report = report id status (pos 0) (pos 0) reason;
  book = b;
  trades = [];
}

-- The end of `add_order`: report, and rest what is left.
unfoldable pub conclude : Order → Matching → Bool → Outcome
conclude o m stp_killed =
    let left = m.taker.remaining_quantity in
    let done = o.quantity -ℤ left in
    if eqb_ℤ left (pos 0)
    then record {
      report = report o.id filled done (pos 0) no_reason;
      book = m.book;
      trades = m.trades;
    }
    else if not stp_killed && rests_in_book m.taker
    then record {
      report =
          report o.id (if ltb_ℤ (pos 0) done then partially_filled else new) done left no_reason;
      book = rest_order m.book m.taker;
      trades = m.trades;
    }
    else record {
      report = report o.id cancelled done (pos 0) no_reason;
      book = m.book;
      trades = m.trades;
    }

-- The order as `add_order` matches it, with nothing filled.
abbrev pub as_taker : Order → Order
as_taker o = record o { remaining_quantity = o.quantity }

abbrev pub tries_match : OrderBookMap → Order → Bool
tries_match b o = not (is_limit o.type) || (is_fok o.time_in_force || crosses b o)

abbrev pub matched : (ℕ → Timestamp) → OrderBookMap → Order → Matching × Bool
matched clock b taker =
    if tries_match b taker
    then match_against_book clock b taker
    else (record { taker = taker; book = b; trades = [] }, false)

-- `add_order` behind its guards.
unfoldable pub submit : (ℕ → Timestamp) → OrderBookMap → Order → Outcome
submit clock b o = let (m, stp_killed) = matched clock b (as_taker o) in conclude o m stp_killed

unfoldable pub add_order : (ℕ → Timestamp) → OrderBookMap → Order → Outcome
add_order clock b o =
    if leb_ℤ o.quantity (pos 0)
    then refuse b o.id rejected invalid_quantity
    else if is_limit o.type && leb_ℤ o.price (pos 0)
    then refuse b o.id rejected invalid_price
    else if not (o.id == invalid_order_id) && IdIndexMap.contains b.id_index o.id
    then refuse b o.id rejected duplicate_order_id
    else if is_fok o.time_in_force && not (has_liquidity_for b o.side o.type o.price o.quantity)
    then refuse b o.id cancelled no_reason
    else submit clock b o

-- `cancel_order` once the order's index and level are found.
unfoldable pub cancel_at : OrderBookMap → OrderId → ℕ → PriceLevel → OrderBookMap
cancel_at b id idx level =
    let o = (Pool.node b.pool idx).order in
    let total = level.total_quantity -ℤ o.remaining_quantity in
    let (level, pool) = Pool.level_unlink (record level { total_quantity = total }) b.pool idx in
    let levels = side_levels o.side b in
    set_side_levels o.side
      (if level_empty level then erase_level o.price levels else set_level o.price level levels)
      (record b { pool = Pool.release pool idx; id_index = (IdIndexMap.erase b.id_index id).1 })

unfoldable pub cancel_order : OrderBookMap → OrderId → Bool × OrderBookMap
cancel_order b id = elim (IdIndexMap.find b.id_index id) [
  | none ↦ (false, b)
  | some idx ↦
      let o = (Pool.node b.pool idx).order in
      elim (find_level o.price (side_levels o.side b)) [
        | none ↦ (false, b)
        | some level ↦ (true, cancel_at b id idx level)
      ]
]

-- A size-down in place. The source dereferences what `find` returns.
unfoldable pub reduce_at : OrderBookMap → ℕ → Quantity → OrderBookMap
reduce_at b idx new_quantity =
    let o = (Pool.node b.pool idx).order in
    let levels = side_levels o.side b in
    let level = level_or_new (find_level o.price levels) in
    let delta = o.remaining_quantity -ℤ new_quantity in
    let (level, pool) = Pool.level_reduce_quantity level b.pool idx delta in
    set_side_levels o.side (set_level o.price level levels) (record b { pool = pool })

abbrev pub value_or : Option Price → Price → Price
value_or none p = p
value_or (some q) p = q

-- The cancel-replace path of `amend_order`.
unfoldable pub replace_at :
    (ℕ → Timestamp) → OrderBookMap → OrderId → ℕ → Quantity → Option Price → Outcome
replace_at clock b id idx new_quantity new_price =
    let snapshot = (Pool.node b.pool idx).order in
    add_order (λ i. clock (suc i)) (cancel_order b id).1
      (record snapshot {
        price = value_or new_price snapshot.price;
        quantity = new_quantity;
        remaining_quantity = new_quantity;
        timestamp = clock 0;
      })

unfoldable pub amend_order :
    (ℕ → Timestamp) → OrderBookMap → OrderId → Quantity → Option Price → Outcome
amend_order clock b id new_quantity new_price = elim (IdIndexMap.find b.id_index id) [
  | none ↦ refuse b id rejected unknown_order
  | some idx ↦
      let snapshot = (Pool.node b.pool idx).order in
      let price_changed = not (eqb_ℤ (value_or new_price snapshot.price) snapshot.price) in
      let quantity_increased = ltb_ℤ snapshot.remaining_quantity new_quantity in
      if leb_ℤ new_quantity (pos 0)
      then refuse b id rejected invalid_quantity
      else if not price_changed && not quantity_increased
      then record {
        report = report id new (pos 0) new_quantity no_reason;
        book = reduce_at b idx new_quantity;
        trades = [];
      }
      else replace_at clock b id idx new_quantity new_price
]

abbrev view : Price × PriceLevel → PriceLevelView
view (p, l) = record { price = p; total_quantity = l.total_quantity; order_count = l.order_count }

unfoldable pub bid_depth : OrderBookMap → ℕ → List PriceLevelView
bid_depth b n = take n (map view b.bids)

unfoldable pub ask_depth : OrderBookMap → ℕ → List PriceLevelView
ask_depth b n = take n (map view b.asks)

unfoldable pub reset : OrderBookMap → OrderBookMap
reset b = record b {
  bids = [];
  asks = [];
  pool = Pool.reset b.pool;
  id_index = IdIndexMap.clear b.id_index;
}
