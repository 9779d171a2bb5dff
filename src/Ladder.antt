-- ===== src/Ladder.antt =====
-- include/lightninglob/order_book_array.hpp and src/order_book_array.cpp: one side of the array book,
-- and what the book's operations do to it. An index is `price - min_price`.
pub mod Invariant
use lightning_lob.Types.{buy, sell, Side, OrderType, Price, Quantity}
use lightning_lob.Pool
use lightning_lob.Pool.{PriceLevel, new_level, level_empty}
use lightning_lob.VectorBook.{level_view}
use lightning_lob.Order.{opposite, price_ok, is_limit, PriceLevelView}
use lightning_lob.Base.{
  [], ◌∷◌, true, false, zero, suc, none, some, inl, inr, refl, arith, List, ℕ, Option, ◌+◌,
  replicate, get_or, Bool, set, if◌then◌else◌, ◌==◌, ltb, ◌&&◌, ◌-◌, not,
}
use lightning_lob.Bitset.{
  Bitset, find_next_set, new_bitset, clear_bit, test_bit, find_prev_set, set_bit,
}
use lightning_lob.Base.Int.{◌+ℤ◌, leb_ℤ}

-- `bid_levels_`, `bid_bitmap_` and `best_bid_idx_`, or those of the asks.
pub record Ladder : Type 0 where
  pub levels : List PriceLevel
  pub bitmap : Bitset
  pub best : Option ℕ

unfoldable pub new_ladder : ℕ → Ladder
new_ladder range = record {
  levels = replicate range new_level;
  bitmap = new_bitset range;
  best = none;
}

abbrev pub rung : Ladder → ℕ → PriceLevel
rung l i = get_or l.levels i new_level

-- The next occupied index behind `idx` on a side.
unfoldable pub advance : Side → Bitset → ℕ → Option ℕ
advance sell bitmap idx = find_next_set bitmap (idx + 1)
advance buy bitmap idx = if idx == 0 then none else find_prev_set bitmap (idx - 1)

-- The loop of `has_liquidity_for` over the ladder of the other side. The index moves one way, so
-- the number of bits is enough rounds.
unfoldable pub array_liquidity :
    (rounds : ℕ) → Side → OrderType → Price → Quantity → Ladder → Quantity → Option ℕ → Bool
array_liquidity zero side type limit_price needed l accumulated idx = false
array_liquidity (suc rounds) side type limit_price needed l accumulated none = false
array_liquidity (suc rounds) side type limit_price needed l accumulated (some i) =
    let level = rung l i in
    let total = accumulated +ℤ level.total_quantity in
    let more =
      array_liquidity rounds side type limit_price needed l total
        (advance (opposite side) l.bitmap i) in
    if is_limit type && not (price_ok side limit_price level.price)
    then false
    else if leb_ℤ needed total
    then true
    else more

-- A level is written, and if it is empty its bit is cleared.
abbrev pub write_rung : Ladder → ℕ → PriceLevel → Ladder
write_rung l idx level = record l { levels = set l.levels idx level }

abbrev pub vacate : Ladder → ℕ → PriceLevel → Ladder
vacate l idx level = record l { levels = set l.levels idx level; bitmap = clear_bit l.bitmap idx }

-- The index is the better of the two on a side.
abbrev pub better : Side → (idx best : ℕ) → Bool
better buy idx best = ltb best idx
better sell idx best = ltb idx best

abbrev pub improved : Side → ℕ → Option ℕ → Option ℕ
improved side idx none = some idx
improved side idx (some best) = if better side idx best then some idx else some best

-- A level that is not occupied gets its price and its bit.
unfoldable pub occupy : Side → Ladder → ℕ → Price → Ladder
occupy side l idx price = if test_bit l.bitmap idx then l else record {
  levels = set l.levels idx (record (rung l idx) { price = price });
  bitmap = set_bit l.bitmap idx;
  best = improved side idx l.best;
}

abbrev pub is_best : Option ℕ → ℕ → Bool
is_best none idx = false
is_best (some best) idx = best == idx

-- A level after a cancel on it.
unfoldable pub leave_rung : Side → Ladder → ℕ → PriceLevel → Ladder
leave_rung side l idx level =
    let empty_rung = vacate l idx level in
    if level_empty level
    then (if is_best l.best idx
        then record empty_rung { best = advance side empty_rung.bitmap idx }
        else empty_rung)
    else write_rung l idx level

-- The loops of `bid_depth` and `ask_depth`: at most `n` occupied levels, the best first.
unfoldable pub depth_from : Side → (n : ℕ) → Ladder → Option ℕ → List PriceLevelView
depth_from side zero l idx = []
depth_from side (suc n) l none = []
depth_from side (suc n) l (some i) =
    level_view (rung l i) ∷ depth_from side n l (advance side l.bitmap i)

-- The loop of `clear_side` over the occupied levels; the index grows with each round.
unfoldable pub clear_rungs : (rounds : ℕ) → Ladder → Option ℕ → Ladder
clear_rungs zero l idx = l
clear_rungs (suc rounds) l none = l
clear_rungs (suc rounds) l (some i) =
    let after = vacate l i (Pool.clear_orders (rung l i)) in
    clear_rungs rounds after (find_next_set after.bitmap (i + 1))

unfoldable pub clear_side : Ladder → Ladder
clear_side l =
    let after = clear_rungs (l.bitmap.num_bits + 1) l (find_next_set l.bitmap 0) in
    record after { best = none }
