-- ===== src/ArrayBook/Adds.antt =====
-- What `add_order` does to the ladders of the array book.
use lightning_lob.Types.{
  Side, Price, Timestamp, filled, no_reason, partially_filled, cancelled, rejected,
  invalid_quantity, invalid_price, price_out_of_range, duplicate_order_id, invalid_order_id,
}
use lightning_lob.ArrayBook.{
  OrderBookArray, ArrayMatching, ladder, index_of, in_range, price_of, array_rest_order,
  array_match_against_book, array_matched, array_conclude, array_submit, array_add_order,
  array_crosses, array_refuse, array_has_liquidity_for, report, new, to_size,
}
use lightning_lob.Ladder.{Ladder, occupy, rung, write_rung, improved}
use lightning_lob.ArrayBook.Invariant.{
  IsArrayBook, in_range-index_of, set_ladder-IsArrayBook, match_against_book-IsArrayBook, level_of,
}
use lightning_lob.ArrayBook.Accounts.{Kept, matched-Kept}
use lightning_lob.Ladder.Invariant.{IsLadder, occupy-IsLadder}
use lightning_lob.Bitset.{test_bit, set_bit}
use lightning_lob.Bitset.Members.{member, test_bit-member}
use lightning_lob.Base.{
  [], true, false, refl, arith, ℕ, ◌<◌, ◌≡◌, Bool, if◌then◌else◌, ap, not, set, ◌∙◌, ◌&&◌, sym,
  get_or-set_self, ◌||◌, ◌==◌, inl, inr, ◌+◌, length, ◌^◌, Bool-cases, ◌%◌, subst,
}
use lightning_lob.Pool.{level_push_back, PriceLevel, OrderPool, level_empty, new_level}
use lightning_lob.Order.{Order, is_limit, rests_in_book, is_fok}
use lightning_lob.Base.Int.{◌+ℤ◌, pos, ◌-ℤ◌, ltb_ℤ, eqb_ℤ, leb_ℤ, leb_ℤ→lt}
use lightning_lob.MapBook.{as_taker}
use lightning_lob.Engine.{Answer}
use lightning_lob.IdIndexMap
use lightning_lob.Pool

-- The level at an index of a well-formed ladder has the price of the index once it is occupied.
occupied-price :
    (side : Side) (base : Price) (range : ℕ) (l : Ladder) (i : ℕ)
    → IsLadder side base range l
    → i < range
    → (rung (occupy side l i (base +ℤ pos i)) i).price ≡ base +ℤ pos i
unfolding occupy
occupied-price side base range l i fits lt =
    cases (test_bit l.bitmap i) (test_bit-member l.bitmap i fits.bitset)
  where
    cases :
        (taken : Bool)
        → taken ≡ member l.bitmap i
        → (rung
            (if taken then l else record {
              levels = set l.levels i (record (rung l i) { price = base +ℤ pos i });
              bitmap = set_bit l.bitmap i;
              best = improved side i l.best;
            })
            i).price
          ≡ base +ℤ pos i
    cases true same = fits.priced i lt (sym same)
    cases false same =
        ap (λ (r : PriceLevel). r.price)
          (get_or-set_self l.levels i (record (rung l i) { price = base +ℤ pos i }) new_level
            (omega (arith, fits.sized)))

push_back-price :
    (level : PriceLevel) (pool : OrderPool) (idx : ℕ)
    → level.order_count + 1 < 2 ^ 32
    → ((level_push_back level pool idx).0.price ≡ level.price)
      × (level_empty (level_push_back level pool idx).0 ≡ false)
unfolding level_push_back
push_back-price level pool idx few = (
  refl,
  let kept : (level.order_count + 1) % 2 ^ 32 ≡ level.order_count + 1 = omega (arith, few) in
      ground (arith, kept),
)

-- The number of orders of a level is as it was when the level is occupied.
occupied-count :
    (side : Side) (l : Ladder) (i : ℕ) (price : Price)
    → i < length l.levels
    → (rung (occupy side l i price) i).order_count ≡ (rung l i).order_count
unfolding occupy
occupied-count side l i price lt = elim (Bool-cases (test_bit l.bitmap i)) [
  | inl e ↦ rw e refl
  | inr e ↦ rw e (
      ap (λ (r : PriceLevel). r.order_count)
        (get_or-set_self l.levels i (record (rung l i) { price = price }) new_level lt))
]

-- An order whose price is in range is put at the back of its level.
rest_order-IsArrayBook :
    (b : OrderBookArray) (o : Order)
    → IsArrayBook b
    → in_range b o.price ≡ true
    → (level_of b o).order_count + 1 < 2 ^ 32
    → IsArrayBook (array_rest_order b o)
unfolding array_rest_order price_of
rest_order-IsArrayBook b o fits fits_price few =
    let i = index_of b o.price in
    let (lt, at) = in_range-index_of b o.price fits fits_price in
    let (pool_idx, pool) = Pool.acquire b.pool o in
    let l = ladder o.side b in
    let l_fits = fits.ladders o.side in
    let level = rung (occupy o.side l i o.price) i in
    let pushed = level_push_back level pool pool_idx in
    let count = occupied-count o.side l i o.price (omega (arith, lt, l_fits.sized)) in
    let (same, kept) = push_back-price level pool pool_idx (omega (arith, count, few)) in
    let priced : level.price ≡ b.min_price +ℤ pos i =
      ap (λ p. (rung (occupy o.side l i p) i).price) at
      ∙ occupied-price o.side b.min_price b.range l i l_fits lt in
    set_ladder-IsArrayBook b o.side (write_rung (occupy o.side l i o.price) i pushed.0) pushed.1 _
      fits
      (occupy-IsLadder o.side b.min_price b.range l i pushed.0 l_fits lt kept (same ∙ priced)
        o.price)

abbrev Fits : Answer OrderBookArray → Type 0
Fits r = IsArrayBook r.book

-- An order that may rest is a limit order.
resting-is_limit :
    (taker : Order) (stp_killed : Bool)
    → (not stp_killed && rests_in_book taker) ≡ true
    → is_limit taker.type ≡ true
unfolding rests_in_book
resting-is_limit taker stp_killed e = ground arith

-- Matching leaves the level that the order may rest on.
own_level :
    (b : OrderBookArray) (o : Order) (m : ArrayMatching)
    → Kept b (as_taker o) m
    → level_of m.book m.taker ≡ level_of b o
unfolding index_of
own_level b o m k =
    ap (λ (t : Order). rung (ladder t.side m.book) (to_size (t.price -ℤ m.book.min_price)))
      k.account.same
    ∙ ap (λ p. rung (ladder o.side m.book) (to_size (o.price -ℤ p))) k.lowest
    ∙ ap (λ l. rung l (to_size (o.price -ℤ b.min_price))) k.own

conclude-IsArrayBook :
    (b : OrderBookArray) (o : Order) (m : ArrayMatching) (stp_killed : Bool)
    → Kept b (as_taker o) m
    → IsArrayBook m.book
    → (is_limit o.type ≡ true → in_range b o.price ≡ true)
    → (level_of b o).order_count + 1 < 2 ^ 32
    → Fits (array_conclude o m stp_killed)
unfolding array_conclude in_range
conclude-IsArrayBook b o m stp_killed k fits limits few =
    cases (eqb_ℤ m.taker.remaining_quantity (pos 0)) (not stp_killed && rests_in_book m.taker) refl
  where
    cases :
        (full rests : Bool)
        → (not stp_killed && rests_in_book m.taker) ≡ rests
        → Fits (
            let left = m.taker.remaining_quantity in
            let done = o.quantity -ℤ left in
            if full
            then record {
              report = report o.id filled done (pos 0) no_reason;
              book = m.book;
              trades = m.trades;
            }
            else if rests
            then record {
              report =
                  report o.id
                    (if ltb_ℤ (pos 0) done then partially_filled else new)
                    done
                    left
                    no_reason;
              book = array_rest_order m.book m.taker;
              trades = m.trades;
            }
            else record {
              report = report o.id cancelled done (pos 0) no_reason;
              book = m.book;
              trades = m.trades;
            })
    cases true rests e = fits
    cases false true e =
        rest_order-IsArrayBook m.book m.taker fits
          (ap (λ p. leb_ℤ p m.taker.price && leb_ℤ m.taker.price m.book.max_price) k.lowest
            ∙ ap (λ p. leb_ℤ b.min_price m.taker.price && leb_ℤ m.taker.price p) k.highest
            ∙ ap (λ (t : Order). in_range b t.price) k.account.same
            ∙ limits (
                ap (λ (t : Order). is_limit t.type) (sym k.account.same)
                ∙ resting-is_limit m.taker stp_killed e))
          (subst (λ (r : PriceLevel). r.order_count + 1 < 2 ^ 32) (sym (own_level b o m k)) few)
    cases false false e = fits

matched-IsArrayBook :
    (clock : ℕ → Timestamp) (b : OrderBookArray) (taker : Order)
    → IsArrayBook b
    → IsArrayBook (array_matched clock b taker).0.book
matched-IsArrayBook clock b taker fits =
    cases (not (is_limit taker.type) || (is_fok taker.time_in_force || array_crosses b taker))
  where
    cases :
        (tries : Bool)
        → (let m : ArrayMatching × Bool =
              if tries
              then array_match_against_book clock b taker
              else (record { taker = taker; book = b; trades = [] }, false) in
            IsArrayBook m.0.book)
    cases true = match_against_book-IsArrayBook clock b taker fits
    cases false = fits

-- A call of `add_order` keeps a well-formed array book well formed, whatever the order is, where
-- the level of its price on its side lists fewer than 2^32 - 1 orders: each side's bits are
-- those of the levels that hold orders, each of these is at the price of its index, and the best
-- index is that of the best of them, or none if there is none.
pub array_add_order-IsArrayBook :
    (clock : ℕ → Timestamp) (b : OrderBookArray) (o : Order)
    → IsArrayBook b
    → (level_of b o).order_count + 1 < 2 ^ 32
    → IsArrayBook (array_add_order clock b o).book
unfolding array_add_order array_submit
array_add_order-IsArrayBook clock b o fits few =
    cases (leb_ℤ o.quantity (pos 0)) (is_limit o.type && leb_ℤ o.price (pos 0))
      (is_limit o.type && not (in_range b o.price))
      (not (o.id == invalid_order_id) && IdIndexMap.contains b.id_index o.id)
      (is_fok o.time_in_force && not (array_has_liquidity_for b o.side o.type o.price o.quantity))
      refl refl
  where
    cases :
        (no_quantity no_price outside duplicate short : Bool)
        → leb_ℤ o.quantity (pos 0) ≡ no_quantity
        → (is_limit o.type && not (in_range b o.price)) ≡ outside
        → Fits (
            if no_quantity
            then array_refuse b o.id rejected invalid_quantity
            else if no_price
            then array_refuse b o.id rejected invalid_price
            else if outside
            then array_refuse b o.id rejected price_out_of_range
            else if duplicate
            then array_refuse b o.id rejected duplicate_order_id
            else if short
            then array_refuse b o.id cancelled no_reason
            else array_submit clock b o)
    cases true no_price outside duplicate short e r = fits
    cases false true outside duplicate short e r = fits
    cases false false true duplicate short e r = fits
    cases false false false true short e r = fits
    cases false false false false true e r = fits
    cases false false false false false e r =
        let m = array_matched clock b (as_taker o) in
        conclude-IsArrayBook b o m.0 m.1
          (matched-Kept clock b o (omega (arith, leb_ℤ→lt o.quantity (pos 0) e)))
          (matched-IsArrayBook clock b (as_taker o) fits) (λ h. ground arith) few
