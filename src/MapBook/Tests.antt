-- ===== src/MapBook/Tests.antt =====
-- The map book on small inputs.
use lightning_lob.Pool.Acquire.{grows}
use lightning_lob.Types.{sell}
use lightning_lob.Types.{
  buy, limit, market, gtc, ioc, cancel_resting, new, rejected, no_reason, invalid_price,
}
use lightning_lob.IdIndexMap
use lightning_lob.MapBook.{
  OrderBookMap, add_order, cancel_order, amend_order, find_level, report, matched, as_taker,
  has_liquidity_for, crosses,
}
use lightning_lob.Pool
use lightning_lob.Pool.Tests.{order, two_on_level, level_of_two, level_of_two-IsLevel}
use lightning_lob.MapBook.Amends.{RestsAt, InPlace, amend_order-InPlace}
use lightning_lob.Base.{
  [], ◌∷◌, true, none, some, refl, arith, ℕ, ◌≡◌, ◌⊎◌, ◌↔◌, false, length, if◌then◌else◌, ◌==◌, inl,
}
use lightning_lob.Base.Int.{pos, ◌≤ℤ◌}
use lightning_lob.MapBook.Accounts.{Reports, add_order-Reports}
use lightning_lob.MapBook.Refusals.{Settled, add_order-Settled, add_order-immediate}
use lightning_lob.Order.{Order}
use lightning_lob.MapBook.Cancels.{Gone, cancel_order-Gone, amend_order-loses}
use lightning_lob.MapBook.Liquidity.{available, has_liquidity_for_iff}
use lightning_lob.IdIndexMap.Table.{IsTable}
use lightning_lob.MapBook.Rests.{CanRest, Rested}
use lightning_lob.IdIndexMap.Contents.{new-empty, insert-find}
use lightning_lob.MapBook.RoundTrip.{add_order-cancel_order, cancel_order-again}

abbrev clock : ℕ → ℕ
clock i = i

-- The orders 7 and 8 rest at 101.
abbrev book : OrderBookMap
book = record {
  symbol = 1;
  bids = [];
  asks = (pos 101, level_of_two) ∷ [];
  pool = two_on_level;
  id_index = (IdIndexMap.insert (IdIndexMap.insert (IdIndexMap.new 4) 7 0).1 8 1).1;
  stp_policy = cancel_resting;
}

second : RestsAt book 8 1 level_of_two (0 ∷ []) []
unfolding find_level IdIndexMap.find IdIndexMap.insert IdIndexMap.new IdIndexMap.place
    IdIndexMap.locate IdIndexMap.probe IdIndexMap.slot_at IdIndexMap.slot_for IdIndexMap.allocate
    IdIndexMap.capacity_for IdIndexMap.countr_zero Pool.node
second = record { indexed = refl; placed = refl; level_fits = level_of_two-IsLevel }

add_order-Reports_example :
    (let r = add_order clock book (order 20 buy market ioc 0 12 5) in
      Reports cancel_resting (order 20 buy market ioc 0 12 5) r.report r.trades)
add_order-Reports_example = add_order-Reports clock book (order 20 buy market ioc 0 12 5)

add_order-Settled_example :
    Settled book
      (order 20 buy limit gtc 0 12 5)
      (add_order clock book (order 20 buy limit gtc 0 12 5))
add_order-Settled_example = add_order-Settled clock book (order 20 buy limit gtc 0 12 5)

add_order-immediate_example :
    (let r = add_order clock book (order 20 buy market ioc 0 12 5) in
      (r.report.remaining_quantity ≡ pos 0)
      × (r.book.bids ≡ book.bids)
      × ((r.book ≡ book)
          ⊎ (r.book ≡ (matched clock book (as_taker (order 20 buy market ioc 0 12 5))).0.book)))
add_order-immediate_example =
    add_order-immediate clock book (order 20 buy market ioc 0 12 5) (inl refl)

has_liquidity_for_iff_example :
    (has_liquidity_for book buy limit (pos 101) (pos 15) ≡ true)
    ↔ (pos 15 ≤ℤ available buy limit (pos 101) ((pos 101, level_of_two) ∷ []))
has_liquidity_for_iff_example =
    has_liquidity_for_iff book buy limit (pos 101) (pos 15) (omega arith, tt) (omega arith)

amend_order-InPlace_example :
    (let r = amend_order clock book 8 (pos 2) none in
      (r.report ≡ report 8 new (pos 0) (pos 2) no_reason)
      × (r.trades ≡ [])
      × InPlace book r.book 1 (0 ∷ []) [] (pos 2))
unfolding Pool.node
amend_order-InPlace_example =
    amend_order-InPlace book 8 1 level_of_two (0 ∷ []) [] second (pos 2) clock none (omega arith)
      (omega arith) refl

cancel_order-Gone_example :
    (let (ok, after) = cancel_order book 8 in (ok ≡ true) × Gone book after 1 (0 ∷ []) [])
cancel_order-Gone_example = cancel_order-Gone book 8 1 level_of_two (0 ∷ []) [] second

amend_order-loses_example :
    (let r = amend_order clock book 8 (pos 5) (some (pos 0)) in
      (r.report ≡ report 8 rejected (pos 0) (pos 0) invalid_price)
      × (r.trades ≡ [])
      × Gone book r.book 1 (0 ∷ []) [])
unfolding Pool.node
amend_order-loses_example =
    amend_order-loses book 8 1 level_of_two (0 ∷ []) [] second clock (pos 5) (pos 0) refl
      (omega arith) (omega arith) refl

-- The index of the book, and a third order at 101.
none_width : length (IdIndexMap.new 4).slots ≡ 16
unfolding IdIndexMap.new IdIndexMap.allocate IdIndexMap.capacity_for IdIndexMap.countr_zero
none_width = refl

one_width : length (IdIndexMap.insert (IdIndexMap.new 4) 7 0).1.slots ≡ 16
unfolding IdIndexMap.insert IdIndexMap.new IdIndexMap.place IdIndexMap.locate IdIndexMap.probe
    IdIndexMap.slot_at IdIndexMap.slot_for IdIndexMap.allocate IdIndexMap.capacity_for
    IdIndexMap.countr_zero
one_width = refl

no_cross : crosses book (as_taker (order 9 sell limit gtc 101 5 4)) ≡ false
unfolding crosses
no_cross = refl

none_in : IsTable (IdIndexMap.new 4)
none_in = (new-empty 4 7 (omega arith) (omega arith)).0

one_in : IsTable (IdIndexMap.insert (IdIndexMap.new 4) 7 0).1
one_in =
    (insert-find (IdIndexMap.new 4) 7 0 7 none_in (omega arith) (omega arith)
      (omega (arith, none_width))).0

two_in : IsTable book.id_index
two_in =
    (insert-find (IdIndexMap.insert (IdIndexMap.new 4) 7 0).1 8 1 7 one_in (omega arith)
      (omega arith) (omega (arith, one_width))).0

abbrev third : Order
third = order 9 sell limit gtc 101 5 4

third-CanRest : CanRest book (as_taker third) (0 ∷ 1 ∷ [])
unfolding find_level IdIndexMap.find IdIndexMap.insert IdIndexMap.new IdIndexMap.place
    IdIndexMap.locate IdIndexMap.probe IdIndexMap.slot_at IdIndexMap.slot_for IdIndexMap.allocate
    IdIndexMap.capacity_for IdIndexMap.countr_zero Pool.node Pool.acquire
third-CanRest = record {
  table = two_in;
  table_fits = omega arith;
  has_id = omega arith;
  unknown = refl;
  ready = grows refl (omega arith);
  apart = (omega arith, (omega arith, tt));
  few = omega arith;
  ordered = (tt, tt);
  level_fits = level_of_two-IsLevel;
}

add_order-cancel_order_example :
    (let r = add_order clock book third in
      let idx = (Pool.acquire book.pool (as_taker third)).0 in
      let (ok, after) = cancel_order r.book 9 in
      (r.report ≡ report 9 new (pos 0) (pos 5) no_reason)
      × (r.trades ≡ [])
      × Rested book r.book (as_taker third) idx (0 ∷ 1 ∷ [])
      × (ok ≡ true)
      × Gone r.book after idx (0 ∷ 1 ∷ []) []
      × (cancel_order after 9 ≡ (false, after)))
add_order-cancel_order_example =
    add_order-cancel_order clock book third (0 ∷ 1 ∷ []) (omega arith) (omega arith) refl refl
      no_cross third-CanRest

cancel_order-again_example :
    (let after = (cancel_order book 8).1 in
      IsTable after.id_index
      × (IdIndexMap.find after.id_index 7
          ≡ (if 7 == 8 then none else IdIndexMap.find book.id_index 7))
      × (cancel_order after 8 ≡ (false, after)))
cancel_order-again_example =
    cancel_order-again book 8 1 7 level_of_two (0 ∷ []) [] second two_in (omega arith) (omega arith)
