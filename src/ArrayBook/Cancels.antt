-- ===== src/ArrayBook/Cancels.antt =====
-- Cancels of an order that rests in the array book.
use lightning_lob.Types.{buy, sell, Side}
use lightning_lob.IdIndexMap
use lightning_lob.Pool
use lightning_lob.ArrayBook.{
  OrderBookArray, ladder, set_ladder, index_of, in_range, array_cancel_at, array_cancel_order,
  to_size,
}
use lightning_lob.Ladder.{Ladder, rung, leave_rung, vacate, write_rung, is_best, advance}
use lightning_lob.ArrayBook.Invariant.{
  IsArrayBook, in_range-index_of, set_ladder-IsArrayBook, left_rung-IsLadder, level_of,
}
use lightning_lob.Pool.Level.{IsLevel}
use lightning_lob.Pool.Removal.{removed, removed-IsLevel, order-removed, price-removed}
use lightning_lob.Base.{
  ◌∷◌, true, false, suc, some, refl, arith, ℕ, ◌≡◌, List, ◌++◌, set, ◌<◌, ap, ◌≢◌, Bool, ◌∙◌,
  if◌then◌else◌, length, length-append, get_or, not, get_or-set_ne, subst, sym, get_or-set_self,
  ◌+◌,
}
use lightning_lob.Order.{Order, opposite}
use lightning_lob.Pool.{PriceLevel, level_empty, new_level, OrderPool}
use lightning_lob.Ladder.Invariant.{IsLadder}
use lightning_lob.Bitset.Members.{member}
use lightning_lob.IdIndexMap.{IdIndexMap}
use lightning_lob.Base.Int.{◌-ℤ◌}

abbrev order_at : OrderBookArray → ℕ → Order
order_at b idx = (Pool.node b.pool idx).order

-- The order `id` is at `idx`, its price is in range, and the level of the price lists it between `ws`
-- and `xs`.
pub record ArrayRestsAt (b : OrderBookArray) (id idx : ℕ) (ws xs : List ℕ) : Type 0 where
  pub indexed : IdIndexMap.find b.id_index id ≡ some idx
  pub fits_price : in_range b (Pool.node b.pool idx).order.price ≡ true
  pub level_fits : IsLevel b.pool (level_of b (Pool.node b.pool idx).order) (ws ++ idx ∷ xs)

-- The order at `idx` is off its level, every other level of the side and every order is as it was,
-- and the book is well formed.
pub record ArrayGone (b after : OrderBookArray) (idx : ℕ) (ws xs : List ℕ) : Type 0 where
  pub book_fits : IsArrayBook after
  pub level_fits : IsLevel after.pool (level_of after (Pool.node b.pool idx).order) (ws ++ xs)
  pub other_levels :
      (let o = (Pool.node b.pool idx).order in
        (j : ℕ) → index_of b o.price ≢ j → rung (ladder o.side after) j ≡ rung (ladder o.side b) j)
  pub other_side :
      (let o = (Pool.node b.pool idx).order in
        ladder (opposite o.side) after ≡ ladder (opposite o.side) b)
  pub orders : (j : ℕ) → (Pool.node after.pool j).order ≡ (Pool.node b.pool j).order
  pub lowest : after.min_price ≡ b.min_price

-- What `leave_rung` writes.
leave_rung-levels :
    (side : Side) (l : Ladder) (i : ℕ) (level : PriceLevel)
    → (leave_rung side l i level).levels ≡ set l.levels i level
unfolding leave_rung
leave_rung-levels side l i level = cases (level_empty level) (is_best l.best i)
  where
    cases :
        (none_left best : Bool)
        → (let empty_rung = vacate l i level in
            let after : Ladder =
              if none_left
              then (if best
                  then record empty_rung { best = advance side empty_rung.bitmap i }
                  else empty_rung)
              else write_rung l i level in
            after.levels ≡ set l.levels i level)
    cases true true = refl
    cases true false = refl
    cases false best = refl

-- A book with one ladder, the pool and the index written.
ladder-set_ladder :
    (b : OrderBookArray) (side : Side) (l : Ladder) (pool : OrderPool) (id_index : IdIndexMap)
    → (let after = set_ladder side l (record b { pool = pool; id_index = id_index }) in
        (ladder side after ≡ l)
        × (ladder (opposite side) after ≡ ladder (opposite side) b)
        × (after.pool ≡ pool)
        × (after.min_price ≡ b.min_price))
ladder-set_ladder b buy l pool id_index = (refl, refl, refl, refl)
ladder-set_ladder b sell l pool id_index = (refl, refl, refl, refl)

module _ (b : OrderBookArray) (id idx : ℕ) (ws xs : List ℕ) (fits : IsArrayBook b)
    (at : ArrayRestsAt b id idx ws xs) where
  abbrev o : Order
  o = order_at b idx

  abbrev i : ℕ
  i = index_of b o.price

  abbrev l : Ladder
  l = ladder o.side b

  abbrev unlinked : PriceLevel × Pool.OrderPool
  unlinked = removed (rung l i) b.pool idx

  l_fits : IsLadder o.side b.min_price b.range l
  l_fits = fits.ladders o.side

  pub in_bounds : i < b.range
  in_bounds = (in_range-index_of b o.price fits at.fits_price).0

  -- The level holds an order, so its bit is on.
  pub rung_in_use : member l.bitmap i ≡ true
  rung_in_use =
      let many : (rung l i).order_count ≡ length ws + suc (length xs) =
        at.level_fits.links.count ∙ length-append ws (idx ∷ xs) in
      let kept : level_empty (rung l i) ≡ false = ground (arith, many) in
      l_fits.occupied i in_bounds ∙ ap not kept

  after_ladder : Ladder
  after_ladder = leave_rung o.side l i unlinked.0

  cancel_at-ArrayGone : ArrayGone b (array_cancel_at b id idx) idx ws xs
  unfolding array_cancel_at after_ladder index_of
  cancel_at-ArrayGone =
      let q = Pool.release unlinked.1 idx in
      let (same, other, pool, lowest) =
        ladder-set_ladder b o.side after_ladder q (IdIndexMap.erase b.id_index id).1 in
      let levels = ap (λ (r : Ladder). r.levels) same ∙ leave_rung-levels o.side l i unlinked.0 in
      let sized : i < length l.levels = omega (arith, in_bounds, l_fits.sized) in
      let here : level_of (array_cancel_at b id idx) o ≡ unlinked.0 =
        ap
          (λ p.
            get_or (ladder o.side (array_cancel_at b id idx)).levels (to_size (o.price -ℤ p))
              new_level)
          lowest
        ∙ ap (λ ls. get_or ls i new_level) levels
        ∙ get_or-set_self l.levels i unlinked.0 new_level sized in
      record {
        book_fits = set_ladder-IsArrayBook b o.side after_ladder _ _ fits (
            left_rung-IsLadder o.side b.min_price b.range l i unlinked.0 l_fits in_bounds
              rung_in_use
              (price-removed (rung l i) b.pool idx ws xs at.level_fits
                ∙ l_fits.priced i in_bounds rung_in_use));
        level_fits =
            subst (λ p. IsLevel p (level_of (array_cancel_at b id idx) o) (ws ++ xs)) (sym pool)
              (subst (λ r. IsLevel q r (ws ++ xs)) (sym here)
                (removed-IsLevel (rung l i) b.pool idx ws xs at.level_fits));
        other_levels = λ j ne.
            ap (λ ls. get_or ls j new_level) levels
            ∙ get_or-set_ne l.levels i j unlinked.0 new_level ne;
        other_side = other;
        orders = λ j.
            ap (λ p. (Pool.node p j).order) pool
            ∙ order-removed (rung l i) b.pool idx ws xs at.level_fits j;
        lowest = lowest;
      }

  -- A cancel of an order that rests in a well-formed book succeeds: the order is off its level, which
  -- is well formed with the rest, every other level and every order is as it was, and the book
  -- is well formed, with the bit off and a new best index where the level is empty.
  pub array_cancel_order-ArrayGone :
      (let (ok, after) = array_cancel_order b id in (ok ≡ true) × ArrayGone b after idx ws xs)
  unfolding array_cancel_order
  array_cancel_order-ArrayGone =
      let result : array_cancel_order b id ≡ (true, array_cancel_at b id idx) =
        rw (array_cancel_order, at.indexed) refl in
      (
        ap (λ r. r.0) result,
        subst (λ r. ArrayGone b r.1 idx ws xs) (sym result) cancel_at-ArrayGone,
      )
