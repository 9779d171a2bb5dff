-- ===== src/ArrayBook/Tests.antt =====
-- The array book on small inputs.
use lightning_lob.Types.{buy, sell, limit, market, gtc, ioc, cancel_resting, Side}
use lightning_lob.IdIndexMap
use lightning_lob.Pool
use lightning_lob.Pool.Tests.{order, two_on_level, level_of_two, level_of_two-IsLevel}
use lightning_lob.MapBook.Accounts.{Reports}
use lightning_lob.ArrayBook.{
  OrderBookArray, constructed, array_of_range, new_array_book, array_add_order, array_cancel_order,
  array_amend_order, array_reset, array_best_bid, array_best_ask, ladder, in_range, index_of,
  price_of, array_bid_depth, array_ask_depth, validate_and_compute_range,
}
use lightning_lob.Ladder.{Ladder, new_ladder, occupy, write_rung}
use lightning_lob.Base.Int.{◌-ℤ◌, ◌+ℤ◌, pos}
use lightning_lob.Bitset.{test_bit, new_bitset}
use lightning_lob.Ladder.Invariant.{IsLadder, occupy-IsLadder}
use lightning_lob.ArrayBook.Invariant.{IsArrayBook}
use lightning_lob.ArrayBook.Accounts.{array_add_order-Reports}
use lightning_lob.ArrayBook.Adds.{array_add_order-IsArrayBook}
use lightning_lob.ArrayBook.Cancels.{ArrayRestsAt, ArrayGone, array_cancel_order-ArrayGone}
use lightning_lob.ArrayBook.Starts.{
  Constructed, IsBestPrice, new_array_book-Constructed, new_ladder-IsLadder, array_best-IsBestPrice,
}
use lightning_lob.ArrayBook.Amends.{array_amend_order-IsArrayBook}
use lightning_lob.ArrayBook.Resets.{array_reset-IsArrayBook}
use lightning_lob.Base.{[], ◌∷◌, true, none, some, refl, arith, ℕ, ◌≡◌, take, Bool, ltb}
use lightning_lob.Base.Int.{pos}
use lightning_lob.ArrayBook.Depth.{views_down, views_up, array_depth-views}

abbrev clock : ℕ → ℕ
clock i = i

-- The orders 7 and 8 rest at 101, in a book from 100 to 109.
abbrev asks : Ladder
asks = write_rung (occupy sell (new_ladder 10) 1 (pos 101)) 1 level_of_two

abbrev book : OrderBookArray
book = record {
  symbol = 1;
  min_price = pos 100;
  max_price = pos 109;
  range = 10;
  bids = new_ladder 10;
  asks = asks;
  pool = two_on_level;
  id_index = (IdIndexMap.insert (IdIndexMap.insert (IdIndexMap.new 4) 7 0).1 8 1).1;
  stp_policy = cancel_resting;
}

book_ladders : (side : Side) → IsLadder side (pos 100) 10 (ladder side book)
unfolding ◌+ℤ◌
book_ladders buy = new_ladder-IsLadder buy (pos 100) 10
book_ladders sell =
    occupy-IsLadder sell (pos 100) 10 (new_ladder 10) 1 level_of_two
      (new_ladder-IsLadder sell (pos 100) 10) (omega arith) refl refl (pos 101)

book-IsArrayBook : IsArrayBook book
unfolding ◌-ℤ◌
book-IsArrayBook = record { ordered = omega arith; ranged = refl; ladders = book_ladders }

second : ArrayRestsAt book 8 1 (0 ∷ []) []
unfolding IdIndexMap.find IdIndexMap.insert IdIndexMap.new IdIndexMap.place IdIndexMap.locate
    IdIndexMap.probe IdIndexMap.slot_at IdIndexMap.slot_for IdIndexMap.allocate
    IdIndexMap.capacity_for IdIndexMap.countr_zero Pool.node in_range index_of occupy new_ladder
    test_bit new_bitset ◌-ℤ◌
second = record { indexed = refl; fits_price = refl; level_fits = level_of_two-IsLevel }

best_ask_is : array_best_ask book ≡ some (pos 101)
unfolding array_best_ask occupy test_bit new_ladder new_bitset price_of ◌+ℤ◌
best_ask_is = refl

-- Room for a thousand levels.
abbrev few_levels : (levels orders : ℕ) → Bool
few_levels levels orders = ltb levels 1000

is_made :
    new_array_book few_levels 1 (pos 100) (pos 109) 4 cancel_resting
    ≡ constructed (array_of_range 1 (pos 100) (pos 109) 4 cancel_resting 10)
unfolding new_array_book validate_and_compute_range ◌-ℤ◌
is_made = refl

new_array_book-Constructed_example :
    Constructed few_levels
      (pos 100)
      (pos 109)
      4
      (new_array_book few_levels 1 (pos 100) (pos 109) 4 cancel_resting)
new_array_book-Constructed_example =
    new_array_book-Constructed few_levels 1 (pos 100) (pos 109) 4 cancel_resting

array_best-IsBestPrice_example :
    IsBestPrice buy book (array_best_bid book) × IsBestPrice sell book (array_best_ask book)
array_best-IsBestPrice_example = array_best-IsBestPrice book book-IsArrayBook

array_add_order-Reports_example :
    (let r = array_add_order clock book (order 20 buy market ioc 0 12 5) in
      Reports cancel_resting (order 20 buy market ioc 0 12 5) r.report r.trades)
array_add_order-Reports_example =
    array_add_order-Reports clock book (order 20 buy market ioc 0 12 5)

array_add_order-IsArrayBook_example :
    IsArrayBook (array_add_order clock book (order 20 buy limit gtc 101 12 5)).book
unfolding index_of new_ladder ◌-ℤ◌
array_add_order-IsArrayBook_example =
    array_add_order-IsArrayBook clock book (order 20 buy limit gtc 101 12 5) book-IsArrayBook
      (omega arith)

array_cancel_order-ArrayGone_example :
    (let (ok, after) = array_cancel_order book 8 in
      (ok ≡ true) × ArrayGone book after 1 (0 ∷ []) [])
array_cancel_order-ArrayGone_example =
    array_cancel_order-ArrayGone book 8 1 (0 ∷ []) [] book-IsArrayBook second

array_amend_order-IsArrayBook_example :
    IsArrayBook (array_amend_order clock book 8 (pos 9) (some (pos 105))).book
unfolding index_of occupy new_ladder test_bit new_bitset Pool.node ◌-ℤ◌
array_amend_order-IsArrayBook_example =
    array_amend_order-IsArrayBook book 8 1 (0 ∷ []) [] book-IsArrayBook second clock (pos 9)
      (some (pos 105)) (λ ne. omega arith)

array_reset-IsArrayBook_example :
    IsArrayBook (array_reset book)
    × (array_best_bid (array_reset book) ≡ none)
    × (array_best_ask (array_reset book) ≡ none)
    × ((side : Side) → IsBestPrice side (array_reset book) none)
    × (Pool.live_count (array_reset book).pool ≡ 0)
array_reset-IsArrayBook_example = array_reset-IsArrayBook book book-IsArrayBook

array_depth-views_example :
    (array_bid_depth book 3 ≡ take 3 (views_down book.bids 10))
    × (array_ask_depth book 3 ≡ take 3 (views_up book.asks 10 0))
array_depth-views_example = array_depth-views book 3 book-IsArrayBook
