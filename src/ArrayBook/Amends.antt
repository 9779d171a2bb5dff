-- ===== src/ArrayBook/Amends.antt =====
-- Amends of an order that rests in the array book.
use lightning_lob.Types.{Price, Quantity, Timestamp}
use lightning_lob.Pool
use lightning_lob.ArrayBook.{
  to_size, OrderBookArray, ladder, index_of, array_reduce_at, array_amend_order, array_cancel_order,
  price_refused,
}
use lightning_lob.Ladder.{rung, Ladder}
use lightning_lob.Ladder.Invariant.{write_rung-IsLadder}
use lightning_lob.ArrayBook.Invariant.{IsArrayBook, set_ladder-IsArrayBook}
use lightning_lob.ArrayBook.Adds.{array_add_order-IsArrayBook}
use lightning_lob.ArrayBook.Cancels.{
  ArrayRestsAt, array_cancel_order-ArrayGone, rung_in_use, in_bounds, ArrayGone,
}
use lightning_lob.Base.{
  inl, inr, true, false, suc, arith, ℕ, List, Option, ◌≡◌, Bool, if◌then◌else◌, ◌∷◌, ◌≢◌, ◌+◌, ◌<◌,
  ◌^◌, ap, Bool-cases, ◌==◌, length, ◌++◌, length-append, ◌∙◌, sym,
}
use lightning_lob.Pool.{level_empty, PriceLevel}
use lightning_lob.Base.Int.{leb_ℤ, pos, ◌-ℤ◌}
use lightning_lob.Engine.{Answer}
use lightning_lob.MapBook.{value_or}

either_book :
    (c : Bool) (x y : Answer OrderBookArray)
    → IsArrayBook x.book
    → IsArrayBook y.book
    → IsArrayBook (if c then x else y).book
either_book true x y hx hy = hx
either_book false x y hx hy = hy

abbrev level_count : Ladder → ℕ → ℕ
level_count l i = (rung l i).order_count

module _ (b : OrderBookArray) (id idx : ℕ) (ws xs : List ℕ) (fits : IsArrayBook b)
    (at : ArrayRestsAt b id idx ws xs) where
  reduce_at-IsArrayBook : (quantity : Quantity) → IsArrayBook (array_reduce_at b idx quantity)
  unfolding array_reduce_at Pool.level_reduce_quantity
  reduce_at-IsArrayBook quantity =
      let o = (Pool.node b.pool idx).order in
      let i = index_of b o.price in
      let l = ladder o.side b in
      let l_fits = fits.ladders o.side in
      let lt = in_bounds b id idx ws xs fits at in
      let on = rung_in_use b id idx ws xs fits at in
      let filled : level_empty (rung l i) ≡ false = ground (arith, l_fits.occupied i lt, on) in
      set_ladder-IsArrayBook b o.side _ _ b.id_index fits (
        write_rung-IsLadder o.side b.min_price b.range l i _ l_fits lt on filled
          (l_fits.priced i lt on))

  -- The level of a price after the cancel has room for one more order, if it had before it or
  -- if it is the level that the order was on.
  has_room :
      (after : OrderBookArray) (price : Price)
      → ArrayGone b after idx ws xs
      → (let o = (Pool.node b.pool idx).order in
          let i = index_of b price in
          index_of b o.price ≢ i → (rung (ladder o.side b) i).order_count + 1 < 2 ^ 32)
      → (let o = (Pool.node b.pool idx).order in
          (rung (ladder o.side after) (index_of after price)).order_count + 1 < 2 ^ 32)
  unfolding index_of
  has_room after price gone few =
      let o = (Pool.node b.pool idx).order in
      let i = index_of b price in
      let same : index_of after price ≡ i = ap (λ p. to_size (price -ℤ p)) gone.lowest in
      let count = level_count (ladder o.side after) in
      elim (Bool-cases (index_of b o.price == i)) [
        | inl taken ↦
            let e : index_of b o.price ≡ i = ground (arith, taken) in
            let own : index_of after o.price ≡ index_of b o.price =
              ap (λ p. to_size (o.price -ℤ p)) gone.lowest in
            let links = gone.level_fits.links in
            let len : length (ws ++ idx ∷ xs) ≡ length ws + suc (length xs) =
              length-append ws (idx ∷ xs) in
            let shorter : length (ws ++ xs) ≡ length ws + length xs = length-append ws xs in
            let there : index_of after price ≡ index_of after o.price = same ∙ sym e ∙ sym own in
            let level = ap count there in
            omega (arith, level, links.count, at.level_fits.links.few, len, shorter)
        | inr other ↦
            let ne : index_of b o.price ≢ i = λ e. ground (arith, other, e) in
            let level = ap count same in
            let kept = ap (λ (r : PriceLevel). r.order_count) (gone.other_levels i ne) in
            omega (arith, level, kept, few ne)
      ]

  -- An amend of an order that rests keeps a well-formed array book well formed, whether it is
  -- refused, shrinks the order in place, or takes it out and adds it anew, where the level of
  -- the new price on the order's side, if it is another level, lists fewer than 2^32 - 1 orders.
  pub array_amend_order-IsArrayBook :
      (clock : ℕ → Timestamp) (quantity : Quantity) (price : Option Price)
      → (let o = (Pool.node b.pool idx).order in
          let i = index_of b (value_or price o.price) in
          index_of b o.price ≢ i → (rung (ladder o.side b) i).order_count + 1 < 2 ^ 32)
      → IsArrayBook (array_amend_order clock b id quantity price).book
  unfolding array_amend_order
  array_amend_order-IsArrayBook clock quantity price few =
      let gone = (array_cancel_order-ArrayGone b id idx ws xs fits at).1 in
      rw (array_amend_order, at.indexed)
        (either_book (leb_ℤ quantity (pos 0)) _ _ fits (
          either_book (price_refused b price) _ _ fits (
            either_book _ _ _ (reduce_at-IsArrayBook quantity) (
              array_add_order-IsArrayBook (λ i. clock (suc i)) (array_cancel_order b id).1 _
                gone.book_fits
                (has_room (array_cancel_order b id).1
                  (value_or price (Pool.node b.pool idx).order.price) gone few)))))
