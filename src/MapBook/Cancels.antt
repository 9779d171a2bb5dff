-- ===== src/MapBook/Cancels.antt =====
-- Cancels of an order that rests in the book, and the amend that loses its order.
use lightning_lob.IdIndexMap
use lightning_lob.Pool
use lightning_lob.Types.{limit, rejected, invalid_price, Timestamp, Quantity, Price}
use lightning_lob.MapBook.Amends.{RestsAt, order_at}
use lightning_lob.MapBook.{
  add_order, amend_order, cancel_order, cancel_at, side_levels, report, replace_at, OrderBookMap,
  erase_level, set_level, Levels, refuse,
}
use lightning_lob.Base.{
  [], true, false, some, refl, arith, ℕ, List, ◌++◌, ◌≡◌, if◌then◌else◌, ap, length, ◌==◌, ◌∙◌, sym,
  subst,
}
use lightning_lob.Pool.{PriceLevel, level_empty}
use lightning_lob.Pool.Level.{IsLevel}
use lightning_lob.Order.{is_limit}
use lightning_lob.Base.Int.{pos, ◌<ℤ◌, ◌≤ℤ◌, eqb_ℤ, leb_ℤ}
use lightning_lob.MapBook.Levels.{pool-set_side_levels, side_levels-set_side_levels}
use lightning_lob.Pool.Removal.{removed, removed-IsLevel, order-removed}

-- The order at `idx` is off its level, which is erased if nothing else is on it, and every other order is
-- as it was.
pub record Gone (b after : OrderBookMap) (idx : ℕ) (ws xs : List ℕ) : Type 0 where
  pub level : PriceLevel
  pub level_fits : IsLevel after.pool level (ws ++ xs)
  pub written :
      (let o = (Pool.node b.pool idx).order in
        let levels = side_levels o.side b in
        side_levels o.side after ≡ (
          if length (ws ++ xs) == 0
          then erase_level o.price levels
          else set_level o.price level levels))
  pub orders : (j : ℕ) → (Pool.node after.pool j).order ≡ (Pool.node b.pool j).order

module _ (b : OrderBookMap) (id idx : ℕ) (level : PriceLevel) (ws xs : List ℕ)
    (at : RestsAt b id idx level ws xs) where
  unlinked : PriceLevel × Pool.OrderPool
  unlinked = removed level b.pool idx

  fits : IsLevel (Pool.release unlinked.1 idx) unlinked.0 (ws ++ xs)
  unfolding unlinked
  fits = removed-IsLevel level b.pool idx ws xs at.level_fits

  cancel_at-Gone : Gone b (cancel_at b id idx level) idx ws xs
  unfolding cancel_at unlinked
  cancel_at-Gone =
      let levels = side_levels (order_at b idx).side b in
      let ls : Levels =
        if level_empty unlinked.0
        then erase_level (order_at b idx).price levels
        else set_level (order_at b idx).price unlinked.0 levels in
      let c : OrderBookMap = record b {
        pool = Pool.release unlinked.1 idx;
        id_index = (IdIndexMap.erase b.id_index id).1;
      } in
      let same = pool-set_side_levels (order_at b idx).side ls c in
      record {
        level = unlinked.0;
        level_fits = subst (λ p. IsLevel p unlinked.0 (ws ++ xs)) (sym same) fits;
        written =
            side_levels-set_side_levels (order_at b idx).side ls c
            ∙ ap
                (λ k.
                  if k == 0
                  then erase_level (order_at b idx).price levels
                  else set_level (order_at b idx).price unlinked.0 levels)
                fits.links.count;
        orders = λ j.
            ap (λ p. (Pool.node p j).order) same
            ∙ order-removed level b.pool idx ws xs at.level_fits j;
      }

  -- A cancel of an order that rests succeeds: the order is off its level, the level is erased
  -- if that was its last order and is well formed with the rest otherwise, and no order changed.
  pub cancel_order-Gone :
      (let (ok, after) = cancel_order b id in (ok ≡ true) × Gone b after idx ws xs)
  unfolding cancel_order
  cancel_order-Gone =
      let result : cancel_order b id ≡ (true, cancel_at b id idx level) =
        rw (cancel_order, at.indexed, at.placed) refl in
      (ap (λ r. r.0) result, subst (λ r. Gone b r.1 idx ws xs) (sym result) cancel_at-Gone)

  -- An amend to a price that is not above zero takes a resting limit order out of the book, as a
  -- cancel does, and then reports a rejection.
  pub amend_order-loses :
      (clock : ℕ → Timestamp) (quantity : Quantity) (price : Price)
      → (order_at b idx).type ≡ limit
      → pos 0 <ℤ quantity
      → price ≤ℤ pos 0
      → eqb_ℤ price (order_at b idx).price ≡ false
      → (let r = amend_order clock b id quantity (some price) in
          (r.report ≡ report (order_at b idx).id rejected (pos 0) (pos 0) invalid_price)
          × (r.trades ≡ [])
          × Gone b r.book idx ws xs)
  unfolding amend_order replace_at add_order
  amend_order-loses clock quantity price is_limit_order some_left low other =
      let h : leb_ℤ quantity (pos 0) ≡ false = ground arith in
      let k : leb_ℤ price (pos 0) ≡ true = ground arith in
      let l : is_limit (order_at b idx).type ≡ true = ap is_limit is_limit_order in
      let replaced : amend_order clock b id quantity (some price)
          ≡ replace_at clock b id idx quantity (some price) =
        rw (amend_order, at.indexed, h, other) refl in
      let refused : replace_at clock b id idx quantity (some price)
          ≡ refuse (cancel_order b id).1 (order_at b idx).id rejected invalid_price =
        rw (replace_at, add_order, h, l, k) refl in
      let result = replaced ∙ refused in
      (
        ap (λ r. r.report) result,
        ap (λ r. r.trades) result,
        subst (λ r. Gone b r.book idx ws xs) (sym result) cancel_order-Gone.1,
      )
