-- ===== src/MapBook/Amends.antt =====
-- Cancels and amends of an order that rests in the book.
use lightning_lob.IdIndexMap
use lightning_lob.Pool
use lightning_lob.Types.{new, no_reason, Quantity, Timestamp, Price}
use lightning_lob.MapBook.{
  amend_order, reduce_at, side_levels, find_level, report, value_or, OrderBookMap, Levels,
  set_side_levels, set_level,
}
use lightning_lob.Base.{
  [], ◌∷◌, true, false, some, refl, arith, ℕ, List, ◌≡◌, ◌++◌, ◌≢◌, subst, Option, ap, ◌∙◌,
  if◌then◌else◌, sym,
}
use lightning_lob.Pool.{PriceLevel}
use lightning_lob.Pool.Level.{IsLevel}
use lightning_lob.Order.{Order}
use lightning_lob.Base.Int.{◌-ℤ◌, int_laws, pos, ◌<ℤ◌, ◌≤ℤ◌, eqb_ℤ_refl, leb_ℤ, ltb_ℤ, eqb_ℤ}
use lightning_lob.Pool.Reduce.{level_reduce_quantity-IsLevel}
use lightning_lob.MapBook.Levels.{
  pool-set_side_levels, side_levels-set_side_levels, find_level-set_level,
}

abbrev pub order_at : OrderBookMap → ℕ → Order
order_at b idx = (Pool.node b.pool idx).order

-- The order `id` is at `idx`, and the level of its price lists it between `ws` and `xs`.
pub record RestsAt (b : OrderBookMap) (id idx : ℕ) (level : PriceLevel) (ws xs : List ℕ)
    : Type 0 where
  pub indexed : IdIndexMap.find b.id_index id ≡ some idx
  pub placed :
      (let o = (Pool.node b.pool idx).order in
        find_level o.price (side_levels o.side b) ≡ some level)
  pub level_fits : IsLevel b.pool level (ws ++ idx ∷ xs)

-- The order `before` has the new quantity and stands where it stood, and no other order changed.
pub record InPlace (b after : OrderBookMap) (idx : ℕ) (ws xs : List ℕ) (quantity : Quantity)
    : Type 0 where
  pub level : PriceLevel
  pub placed :
      (let o = (Pool.node b.pool idx).order in
        find_level o.price (side_levels o.side after) ≡ some level)
  pub level_fits : IsLevel after.pool level (ws ++ idx ∷ xs)
  pub reduced :
      (Pool.node after.pool idx).order
      ≡ record (Pool.node b.pool idx).order { remaining_quantity = quantity }
  pub others : (j : ℕ) → idx ≢ j → Pool.node after.pool j ≡ Pool.node b.pool j

module _ (b : OrderBookMap) (id idx : ℕ) (level : PriceLevel) (ws xs : List ℕ)
    (at : RestsAt b id idx level ws xs) (quantity : Quantity) where
  levels : Levels
  levels = side_levels (order_at b idx).side b

  -- The book with a level and the pool written back.
  wrote : PriceLevel → Pool.OrderPool → OrderBookMap
  wrote after q =
      set_side_levels (order_at b idx).side (set_level (order_at b idx).price after levels)
        (record b { pool = q })

  wrote-InPlace :
      (after : PriceLevel) (q : Pool.OrderPool)
      → IsLevel q after (ws ++ idx ∷ xs)
      → (Pool.node q idx).order ≡ record (order_at b idx) { remaining_quantity = quantity }
      → ((j : ℕ) → idx ≢ j → Pool.node q j ≡ Pool.node b.pool j)
      → InPlace b (wrote after q) idx ws xs quantity
  unfolding levels wrote
  wrote-InPlace after q fits here apart =
      let same =
        pool-set_side_levels (order_at b idx).side (set_level (order_at b idx).price after levels)
          (record b { pool = q }) in
      record {
        level = after;
        placed =
            ap (find_level (order_at b idx).price) (
              side_levels-set_side_levels (order_at b idx).side
                (set_level (order_at b idx).price after levels) (record b { pool = q }))
            ∙ find_level-set_level (order_at b idx).price (order_at b idx).price after level levels
                at.placed
            ∙ ap (λ c. if c then some after else find_level (order_at b idx).price levels)
                (eqb_ℤ_refl (order_at b idx).price);
        level_fits = subst (λ p. IsLevel p after (ws ++ idx ∷ xs)) (sym same) fits;
        reduced = ap (λ p. (Pool.node p idx).order) same ∙ here;
        others = λ j ne. ap (λ p. Pool.node p j) same ∙ apart j ne;
      }

  reduce_at-InPlace : InPlace b (reduce_at b idx quantity) idx ws xs quantity
  unfolding reduce_at levels wrote
  reduce_at-InPlace =
      let delta = (order_at b idx).remaining_quantity -ℤ quantity in
      let (fits, here, apart) =
        level_reduce_quantity-IsLevel level b.pool ws idx xs delta at.level_fits in
      let left : (order_at b idx).remaining_quantity -ℤ delta ≡ quantity = omega int_laws in
      let (after, q) = Pool.level_reduce_quantity level b.pool idx delta in
      let same : wrote after q ≡ reduce_at b idx quantity = rw (at.placed) refl in
      subst (λ c. InPlace b c idx ws xs quantity) same
        (wrote-InPlace after q fits
          (here ∙ ap (λ k. record (order_at b idx) { remaining_quantity = k }) left) apart)

  -- An amend of a resting order to a quantity above zero that keeps the price and does not raise the
  -- quantity is done in place: the report is that of a new order with the new quantity, there is no trade, the order stands where it stood in
  -- its level with the new quantity, and no other order changed.
  pub amend_order-InPlace :
      (clock : ℕ → Timestamp) (new_price : Option Price)
      → pos 0 <ℤ quantity
      → quantity ≤ℤ (order_at b idx).remaining_quantity
      → value_or new_price (order_at b idx).price ≡ (order_at b idx).price
      → (let r = amend_order clock b id quantity new_price in
          (r.report ≡ report id new (pos 0) quantity no_reason)
          × (r.trades ≡ [])
          × InPlace b r.book idx ws xs quantity)
  unfolding amend_order
  amend_order-InPlace clock new_price some_left less same =
      let h : leb_ℤ quantity (pos 0) ≡ false = ground arith in
      let k : ltb_ℤ (order_at b idx).remaining_quantity quantity ≡ false = ground arith in
      let e : eqb_ℤ (value_or new_price (order_at b idx).price) (order_at b idx).price ≡ true =
        rw same (eqb_ℤ_refl (order_at b idx).price) in
      let result : amend_order clock b id quantity new_price ≡ record {
        report = report id new (pos 0) quantity no_reason;
        book = reduce_at b idx quantity;
        trades = [];
      } =
        rw (amend_order, at.indexed, h, k, e) refl in
      (
        ap (λ r. r.report) result,
        ap (λ r. r.trades) result,
        subst (λ r. InPlace b r.book idx ws xs quantity) (sym result) reduce_at-InPlace,
      )
