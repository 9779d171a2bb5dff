-- ===== src/VectorBook.antt =====
-- include/lightninglob/order_book_vector.hpp and src/order_book_vector.cpp: the order book whose
-- levels are two sorted vectors, the best price first.
pub mod Agreement
pub mod Matching
pub mod Positions
pub mod Adds
pub mod Cancels
pub mod Sorting
pub mod Kept
pub mod Calls
mod Tests
use lightning_lob.Types.{
  buy, sell, new, partially_filled, filled, cancelled, rejected, no_reason, invalid_quantity,
  invalid_price, duplicate_order_id, unknown_order, SymbolId, Side, Price, OrderId,
  SelfTradePrevention, OrderType, Timestamp, OrderStatus, Quantity, RejectReason, invalid_order_id,
}
use lightning_lob.Pool
use lightning_lob.IdIndexMap
use lightning_lob.Engine.{Answer, BookOps}
use lightning_lob.MapBook.{before, level_or_new, report, value_or, as_taker}
use lightning_lob.Drain.{Setting, Sweep, Round, finished, killed, again, proceed, drain}
use lightning_lob.Base.{
  [], ◌∷◌, true, false, zero, suc, none, some, inl, inr, refl, arith, List, ℕ, Option, Bool,
  if◌then◌else◌, get_elem?, not, length, set, take, ◌&&◌, map, ◌||◌, ◌==◌,
}
use lightning_lob.Order.{
  Order, opposite, Trade, PriceLevelView, price_ok, is_limit, rests_in_book, is_fok,
}
use lightning_lob.Pool.{PriceLevel, OrderPool, new_level, level_empty}
use lightning_lob.Base.Int.{◌-ℤ◌, eqb_ℤ, ◌+ℤ◌, pos, leb_ℤ, ltb_ℤ}
use lightning_lob.IdIndexMap.{IdIndexMap}

abbrev pub LevelVector : Type 0
LevelVector = List PriceLevel

pub record OrderBookVector : Type 0 where
  pub symbol : SymbolId
  pub bids : LevelVector
  pub asks : LevelVector
  pub pool : OrderPool
  pub id_index : IdIndexMap
  pub stp_policy : SelfTradePrevention

unfoldable pub new_vector_book : SymbolId → ℕ → SelfTradePrevention → OrderBookVector
new_vector_book symbol order_capacity_hint policy = record {
  symbol = symbol;
  bids = [];
  asks = [];
  pool = Pool.new_pool;
  id_index = IdIndexMap.new order_capacity_hint;
  stp_policy = policy;
}

-- `find_bid_position` and `find_ask_position`: the first level that is not before the price.
unfoldable pub find_position : Side → Price → LevelVector → ℕ
find_position side p [] = 0
find_position side p (l ∷ rest) =
    let n = find_position side p rest in if before side l.price p then suc n else 0

-- The level at a position, if it is there and has the price.
abbrev pub at_price : Price → Option PriceLevel → Option PriceLevel
at_price p none = none
at_price p (some l) = if eqb_ℤ l.price p then some l else none

unfoldable pub level_at : Side → Price → LevelVector → Option PriceLevel
unfolding find_position
level_at side p ls = at_price p (get_elem? ls (find_position side p ls))

-- `insert` and `erase` of the vector.
unfoldable pub insert_at : ℕ → PriceLevel → LevelVector → LevelVector
insert_at zero v ls = v ∷ ls
insert_at (suc n) v [] = v ∷ []
insert_at (suc n) v (l ∷ ls) = l ∷ insert_at n v ls

unfoldable pub erase_at : ℕ → LevelVector → LevelVector
erase_at n [] = []
erase_at zero (l ∷ ls) = ls
erase_at (suc n) (l ∷ ls) = l ∷ erase_at n ls

abbrev pub vector_side : Side → OrderBookVector → LevelVector
vector_side buy b = b.bids
vector_side sell b = b.asks

abbrev pub set_vector_side : Side → LevelVector → OrderBookVector → OrderBookVector
set_vector_side buy ls b = record b { bids = ls }
set_vector_side sell ls b = record b { asks = ls }

abbrev pub front_price : LevelVector → Option Price
front_price [] = none
front_price (l ∷ rest) = some l.price

unfoldable pub vector_best_bid : OrderBookVector → Option Price
vector_best_bid b = front_price b.bids

unfoldable pub vector_best_ask : OrderBookVector → Option Price
vector_best_ask b = front_price b.asks

unfoldable pub vector_spread : OrderBookVector → Option Price
unfolding vector_best_bid vector_best_ask
vector_spread b = elim (vector_best_bid b) [
  | none ↦ none
  | some bid ↦ elim (vector_best_ask b) [ none ↦ none | some ask ↦ some (ask -ℤ bid) ]
]

unfoldable pub vector_crosses : OrderBookVector → Order → Bool
vector_crosses b o = elim (front_price (vector_side (opposite o.side) b)) [
  | none ↦ false
  | some q ↦ price_ok o.side o.price q
]

-- The loop of `has_liquidity_for` over the opposite side.
unfoldable pub vector_liquidity :
    Side → OrderType → Price → Quantity → Quantity → LevelVector → Bool
vector_liquidity side type limit_price needed accumulated [] = false
vector_liquidity side type limit_price needed accumulated (l ∷ rest) =
    let total = accumulated +ℤ l.total_quantity in
    let more = vector_liquidity side type limit_price needed total rest in
    if is_limit type && not (price_ok side limit_price l.price)
    then false
    else if leb_ℤ needed total
    then true
    else more

unfoldable pub vector_has_liquidity_for :
    OrderBookVector → Side → OrderType → Price → Quantity → Bool
vector_has_liquidity_for b side type limit_price needed =
    vector_liquidity side type limit_price needed (pos 0) (vector_side (opposite side) b)

-- The state of the outer loop.
pub record VectorMatching : Type 0 where
  pub taker : Order
  pub book : OrderBookVector
  pub trades : List Trade

-- The front level is drained, and erased if that emptied it. A level holds `order_count` orders,
-- so one more round than that lets its loop end by its own test.
unfoldable pub match_front :
    (ℕ → Timestamp) → VectorMatching → PriceLevel → LevelVector → VectorMatching × Bool
match_front clock m level rest =
    let book = m.book in
    let setting : Setting = record {
      stp_policy = book.stp_policy;
      symbol = book.symbol;
      clock = clock;
    } in
    let (s, stp_killed) = drain (suc level.order_count) setting level.price (record {
      taker = m.taker;
      level = level;
      pool = book.pool;
      id_index = book.id_index;
      trades = m.trades;
    }) in
    (
      record {
        taker = s.taker;
        book =
            set_vector_side (opposite m.taker.side)
              (if level_empty s.level then rest else s.level ∷ rest)
              (record book { pool = s.pool; id_index = s.id_index });
        trades = s.trades;
      },
      stp_killed,
    )

abbrev pub vector_round_of : VectorMatching × Bool → Round VectorMatching
vector_round_of (m, true) = killed m
vector_round_of (m, false) = again m

unfoldable pub vector_match_round : (ℕ → Timestamp) → VectorMatching → Round VectorMatching
vector_match_round clock m =
    let side = m.taker.side in
    if not (ltb_ℤ (pos 0) m.taker.remaining_quantity)
    then finished
    else elim (vector_side (opposite side) m.book) [
      | [] ↦ finished
      | level ∷ rest ↦
          if is_limit m.taker.type && not (price_ok side m.taker.price level.price)
          then finished
          else vector_round_of (match_front clock m level rest)
    ]

unfoldable pub vector_match_loop :
    (rounds : ℕ) → (ℕ → Timestamp) → VectorMatching → VectorMatching × Bool
vector_match_loop zero clock m = (m, false)
vector_match_loop (suc rounds) clock m =
    proceed m (λ n. vector_match_loop rounds clock n) (vector_match_round clock m)

-- A round that goes on erases a level or fills the taker.
unfoldable pub vector_match_against_book :
    (ℕ → Timestamp) → OrderBookVector → Order → VectorMatching × Bool
vector_match_against_book clock b taker =
    vector_match_loop (suc (length (vector_side (opposite taker.side) b))) clock
      (record { taker = taker; book = b; trades = [] })

unfoldable pub vector_rest_order : OrderBookVector → Order → OrderBookVector
vector_rest_order b o =
    let (idx, pool) = Pool.acquire b.pool o in
    let ls = vector_side o.side b in
    let i = find_position o.side o.price ls in
    let fresh = insert_at i (record new_level { price = o.price }) ls in
    let placed : LevelVector = elim (level_at o.side o.price ls) [ none ↦ fresh | some l ↦ ls ] in
    let (level, pool) = Pool.level_push_back (level_or_new (get_elem? placed i)) pool idx in
    set_vector_side o.side (set placed i level)
      (record b { pool = pool; id_index = (IdIndexMap.insert b.id_index o.id idx).1 })

abbrev pub vector_refuse :
    OrderBookVector → OrderId → OrderStatus → RejectReason → Answer OrderBookVector
vector_refuse b id status reason = record {
  report = report id status (pos 0) (pos 0) reason;
  book = b;
  trades = [];
}

-- The end of `add_order`: report, and rest what is left.
unfoldable pub vector_conclude : Order → VectorMatching → Bool → Answer OrderBookVector
vector_conclude o m stp_killed =
    let left = m.taker.remaining_quantity in
    let done = o.quantity -ℤ left in
    if eqb_ℤ left (pos 0)
    then record {
      report = report o.id filled done (pos 0) no_reason;
      book = m.book;
      trades = m.trades;
    }
    else if not stp_killed && rests_in_book m.taker
    then record {
      report =
          report o.id (if ltb_ℤ (pos 0) done then partially_filled else new) done left no_reason;
      book = vector_rest_order m.book m.taker;
      trades = m.trades;
    }
    else record {
      report = report o.id cancelled done (pos 0) no_reason;
      book = m.book;
      trades = m.trades;
    }

unfoldable pub vector_submit : (ℕ → Timestamp) → OrderBookVector → Order → Answer OrderBookVector
vector_submit clock b o =
    let taker = as_taker o in
    let (m, stp_killed) =
      if not (is_limit taker.type) || (is_fok taker.time_in_force || vector_crosses b taker)
      then vector_match_against_book clock b taker
      else (record { taker = taker; book = b; trades = [] }, false) in
    vector_conclude o m stp_killed

unfoldable pub vector_add_order : (ℕ → Timestamp) → OrderBookVector → Order → Answer OrderBookVector
vector_add_order clock b o =
    if leb_ℤ o.quantity (pos 0)
    then vector_refuse b o.id rejected invalid_quantity
    else if is_limit o.type && leb_ℤ o.price (pos 0)
    then vector_refuse b o.id rejected invalid_price
    else if not (o.id == invalid_order_id) && IdIndexMap.contains b.id_index o.id
    then vector_refuse b o.id rejected duplicate_order_id
    else if is_fok o.time_in_force
        && not (vector_has_liquidity_for b o.side o.type o.price o.quantity)
    then vector_refuse b o.id cancelled no_reason
    else vector_submit clock b o

-- `cancel_order` once the order's index and level are found.
unfoldable pub vector_cancel_at : OrderBookVector → OrderId → ℕ → PriceLevel → OrderBookVector
vector_cancel_at b id idx level =
    let o = (Pool.node b.pool idx).order in
    let total = level.total_quantity -ℤ o.remaining_quantity in
    let (level, pool) = Pool.level_unlink (record level { total_quantity = total }) b.pool idx in
    let ls = vector_side o.side b in
    let i = find_position o.side o.price ls in
    set_vector_side o.side (if level_empty level then erase_at i ls else set ls i level)
      (record b { pool = Pool.release pool idx; id_index = (IdIndexMap.erase b.id_index id).1 })

unfoldable pub vector_cancel_order : OrderBookVector → OrderId → Bool × OrderBookVector
vector_cancel_order b id = elim (IdIndexMap.find b.id_index id) [
  | none ↦ (false, b)
  | some idx ↦
      let o = (Pool.node b.pool idx).order in
      elim (level_at o.side o.price (vector_side o.side b)) [
        | none ↦ (false, b)
        | some level ↦ (true, vector_cancel_at b id idx level)
      ]
]

-- A size-down in place. The source dereferences the position unchecked.
unfoldable pub vector_reduce_at : OrderBookVector → ℕ → Quantity → OrderBookVector
vector_reduce_at b idx new_quantity =
    let o = (Pool.node b.pool idx).order in
    let ls = vector_side o.side b in
    let i = find_position o.side o.price ls in
    let delta = o.remaining_quantity -ℤ new_quantity in
    let (level, pool) =
      Pool.level_reduce_quantity (level_or_new (get_elem? ls i)) b.pool idx delta in
    set_vector_side o.side (set ls i level) (record b { pool = pool })

unfoldable pub vector_amend_order :
    (ℕ → Timestamp) → OrderBookVector → OrderId → Quantity → Option Price → Answer OrderBookVector
vector_amend_order clock b id new_quantity new_price = elim (IdIndexMap.find b.id_index id) [
  | none ↦ vector_refuse b id rejected unknown_order
  | some idx ↦
      let snapshot = (Pool.node b.pool idx).order in
      let price = value_or new_price snapshot.price in
      if leb_ℤ new_quantity (pos 0)
      then vector_refuse b id rejected invalid_quantity
      else if eqb_ℤ price snapshot.price && not (ltb_ℤ snapshot.remaining_quantity new_quantity)
      then record {
        report = report id new (pos 0) new_quantity no_reason;
        book = vector_reduce_at b idx new_quantity;
        trades = [];
      }
      else vector_add_order (λ i. clock (suc i)) (vector_cancel_order b id).1
          (record snapshot {
            price = price;
            quantity = new_quantity;
            remaining_quantity = new_quantity;
            timestamp = clock 0;
          })
]

abbrev pub level_view : PriceLevel → PriceLevelView
level_view l = record {
  price = l.price;
  total_quantity = l.total_quantity;
  order_count = l.order_count;
}

unfoldable pub vector_bid_depth : OrderBookVector → ℕ → List PriceLevelView
vector_bid_depth b n = take n (map level_view b.bids)

unfoldable pub vector_ask_depth : OrderBookVector → ℕ → List PriceLevelView
vector_ask_depth b n = take n (map level_view b.asks)

unfoldable pub vector_reset : OrderBookVector → OrderBookVector
vector_reset b = record b {
  bids = [];
  asks = [];
  pool = Pool.reset b.pool;
  id_index = IdIndexMap.clear b.id_index;
}

-- The vector book as the engine's book.
abbrev pub vector_book_ops : BookOps OrderBookVector
vector_book_ops = record {
  construct = λ symbol min_price max_price hint policy. new_vector_book symbol hint policy;
  add_order = vector_add_order;
  cancel_order = vector_cancel_order;
  amend_order = vector_amend_order;
  reset = vector_reset;
}
