-- ===== src/MapBook/Refusals.antt =====
-- Calls of the book that change nothing, and orders that never rest.
use lightning_lob.IdIndexMap
use lightning_lob.Types.{
  limit, market, ioc, fok, rejected, filled, partially_filled, new, cancelled, duplicate_order_id,
  OrderType, Timestamp, Quantity, SelfTradePrevention,
}
use lightning_lob.MapBook.{
  side_levels, add_order, submit, conclude, refuse, Outcome, OrderBookMap, Matching, report, new,
  rest_order, matched, as_taker, has_liquidity_for,
}
use lightning_lob.MapBook.Accounts.{matched-Accounted, matched-own}
use lightning_lob.Base.{
  [], true, false, inl, inr, refl, arith, Bool, ◌≡◌, ◌≢◌, if◌then◌else◌, not, ◌&&◌, ℕ, ◌==◌,
  Bool-cases, ◌⊎◌, List, ◌∙◌, ap,
}
use lightning_lob.Types.{
  OrderStatus, RejectReason, rejected, no_reason, invalid_quantity, limit, invalid_price,
  invalid_order_id, filled, partially_filled, cancelled,
}
use lightning_lob.Order.{Order, rests_in_book, is_limit, is_fok, Trade}
use lightning_lob.Base.Int.{◌≤ℤ◌, pos, ◌<ℤ◌, ◌-ℤ◌, eqb_ℤ, ltb_ℤ, leb_ℤ, leb_ℤ→le, leb_ℤ→lt}
use lightning_lob.Drain.Trades.{Accounted}

-- Why `add_order` rejects an order.
pub data Invalid (b : OrderBookMap) (o : Order) : RejectReason → Type 0 where
  no_quantity : o.quantity ≤ℤ pos 0 → Invalid b o invalid_quantity
  no_price : o.type ≡ limit → o.price ≤ℤ pos 0 → Invalid b o invalid_price
  taken :
      o.id ≢ invalid_order_id
      → IdIndexMap.contains b.id_index o.id ≡ true
      → Invalid b o duplicate_order_id

-- An outcome is a rejection for a reason that holds, with the book as it was and no trade, or it
-- is not a rejection.
pub data Settled (b : OrderBookMap) (o : Order) (r : Outcome) : Type 0 where
  rejects :
      r.report.status ≡ rejected
      → Invalid b o r.report.reject_reason
      → r.book ≡ b
      → r.trades ≡ []
      → Settled b o r
  accepts :
      r.report.status ≢ rejected
      → r.report.reject_reason ≡ no_reason
      → pos 0 <ℤ o.quantity
      → Settled b o r

abbrev is_rejected : OrderStatus → Bool
is_rejected rejected = true
is_rejected _ = false

not_rejected : (s : OrderStatus) → is_rejected s ≡ false → s ≢ rejected
not_rejected s h e = absurd (ground arith)

limit_of : (t : OrderType) → is_limit t ≡ true → t ≡ limit
limit_of limit h = refl
limit_of market h = absurd (ground arith)

conclude-Settled :
    (b : OrderBookMap) (o : Order) (m : Matching) (stp_killed : Bool)
    → pos 0 <ℤ o.quantity
    → Settled b o (conclude o m stp_killed)
unfolding conclude
conclude-Settled b o m stp_killed h =
    cases (eqb_ℤ m.taker.remaining_quantity (pos 0)) (not stp_killed && rests_in_book m.taker)
      (ltb_ℤ (pos 0) (o.quantity -ℤ m.taker.remaining_quantity))
  where
    cases :
        (full rests some_done : Bool)
        → (let left = m.taker.remaining_quantity in
            let done = o.quantity -ℤ left in
            Settled b o (
              if full
              then record {
                report = report o.id filled done (pos 0) no_reason;
                book = m.book;
                trades = m.trades;
              }
              else if rests
              then record {
                report =
                    report o.id (if some_done then partially_filled else new) done left no_reason;
                book = rest_order m.book m.taker;
                trades = m.trades;
              }
              else record {
                report = report o.id cancelled done (pos 0) no_reason;
                book = m.book;
                trades = m.trades;
              }))
    cases true rests some_done = accepts (not_rejected filled refl) refl h
    cases false true true = accepts (not_rejected partially_filled refl) refl h
    cases false true false = accepts (not_rejected new refl) refl h
    cases false false some_done = accepts (not_rejected cancelled refl) refl h

-- `add_order` rejects only an order with no quantity, a limit order with no price, or a repeated id,
-- and then the book is as it was and there is no trade. An order that it does not reject has a
-- quantity above zero, and its report gives no reason.
pub add_order-Settled :
    (clock : ℕ → Timestamp) (b : OrderBookMap) (o : Order) → Settled b o (add_order clock b o)
unfolding add_order submit
add_order-Settled clock b o =
    cases (leb_ℤ o.quantity (pos 0)) (is_limit o.type && leb_ℤ o.price (pos 0))
      (not (o.id == invalid_order_id) && IdIndexMap.contains b.id_index o.id)
      (is_fok o.time_in_force && not (has_liquidity_for b o.side o.type o.price o.quantity)) refl
      refl refl
  where
    cases :
        (bad_quantity bad_price duplicate short : Bool)
        → leb_ℤ o.quantity (pos 0) ≡ bad_quantity
        → (is_limit o.type && leb_ℤ o.price (pos 0)) ≡ bad_price
        → (not (o.id == invalid_order_id) && IdIndexMap.contains b.id_index o.id) ≡ duplicate
        → Settled b o (
            if bad_quantity
            then refuse b o.id rejected invalid_quantity
            else if bad_price
            then refuse b o.id rejected invalid_price
            else if duplicate
            then refuse b o.id rejected duplicate_order_id
            else if short
            then refuse b o.id cancelled no_reason
            else submit clock b o)
    cases true bad_price duplicate short e f g =
        rejects refl (no_quantity (leb_ℤ→le o.quantity (pos 0) e)) refl refl
    cases false true duplicate short e f g =
        rejects refl
          (no_price (limit_of o.type (ground arith)) (leb_ℤ→le o.price (pos 0) (ground arith))) refl
          refl
    cases false false true short e f g =
        rejects refl (taken (ground arith) (ground arith)) refl refl
    cases false false false true e f g =
        accepts (not_rejected cancelled refl) refl (leb_ℤ→lt o.quantity (pos 0) e)
    cases false false false false e f g =
        let m = matched clock b (as_taker o) in
        conclude-Settled b o m.0 m.1 (leb_ℤ→lt o.quantity (pos 0) e)

rests_in_book-part :
    (o : Order) (left : Quantity)
    → rests_in_book (record o { remaining_quantity = left }) ≡ rests_in_book o
unfolding rests_in_book
rests_in_book-part o left = refl

conclude-immediate :
    (o : Order) (m : Matching) (stp_killed : Bool)
    → rests_in_book m.taker ≡ false
    → ((conclude o m stp_killed).report.remaining_quantity ≡ pos 0)
      × ((conclude o m stp_killed).book ≡ m.book)
unfolding conclude
conclude-immediate o m stp_killed h = elim (Bool-cases (eqb_ℤ m.taker.remaining_quantity (pos 0))) [
  | inl e ↦ rw e (refl, refl)
  | inr e ↦ elim (Bool-cases stp_killed) [
    | inl k ↦ rw (e, k) (refl, refl)
    | inr k ↦ rw (e, k, h) (refl, refl)
  ]
]

rests_in_book-taker :
    (policy : SelfTradePrevention) (o taker : Order) (trades : List Trade)
    → Accounted policy (as_taker o) taker trades
    → rests_in_book taker ≡ rests_in_book o
rests_in_book-taker policy o taker trades a =
    ap rests_in_book a.same ∙ rests_in_book-part o taker.remaining_quantity

abbrev Immediate : Order → Type 0
Immediate o = (o.type ≡ market) ⊎ (o.time_in_force ≡ ioc) ⊎ (o.time_in_force ≡ fok)

Immediate-rests_in_book : (o : Order) → Immediate o → rests_in_book o ≡ false
unfolding rests_in_book
Immediate-rests_in_book o (inl e) = ground arith
Immediate-rests_in_book o (inr (inl e)) = ground arith
Immediate-rests_in_book o (inr (inr e)) = ground arith

-- An order that is a market order, or immediate-or-cancel, or fill-or-kill leaves nothing
-- behind: the report has no remaining quantity, the levels of the order's own side are as they
-- were, and the book is as it was or as matching left it.
pub add_order-immediate :
    (clock : ℕ → Timestamp) (b : OrderBookMap) (o : Order)
    → (o.type ≡ market) ⊎ (o.time_in_force ≡ ioc) ⊎ (o.time_in_force ≡ fok)
    → ((add_order clock b o).report.remaining_quantity ≡ pos 0)
      × (side_levels o.side (add_order clock b o).book ≡ side_levels o.side b)
      × (((add_order clock b o).book ≡ b)
          ⊎ ((add_order clock b o).book ≡ (matched clock b (as_taker o)).0.book))
unfolding add_order submit
add_order-immediate clock b o h =
    cases (leb_ℤ o.quantity (pos 0)) (is_limit o.type && leb_ℤ o.price (pos 0))
      (not (o.id == invalid_order_id) && IdIndexMap.contains b.id_index o.id)
      (is_fok o.time_in_force && not (has_liquidity_for b o.side o.type o.price o.quantity)) refl
  where
    Leaves : Outcome → Type 0
    Leaves r =
        (r.report.remaining_quantity ≡ pos 0)
        × (side_levels o.side r.book ≡ side_levels o.side b)
        × ((r.book ≡ b) ⊎ (r.book ≡ (matched clock b (as_taker o)).0.book))

    cases :
        (bad_quantity bad_price duplicate short : Bool)
        → leb_ℤ o.quantity (pos 0) ≡ bad_quantity
        → Leaves (
            if bad_quantity
            then refuse b o.id rejected invalid_quantity
            else if bad_price
            then refuse b o.id rejected invalid_price
            else if duplicate
            then refuse b o.id rejected duplicate_order_id
            else if short
            then refuse b o.id cancelled no_reason
            else submit clock b o)
    cases true bad_price duplicate short e = (refl, refl, inl refl)
    cases false true duplicate short e = (refl, refl, inl refl)
    cases false false true short e = (refl, refl, inl refl)
    cases false false false true e = (refl, refl, inl refl)
    cases false false false false e =
        let m = matched clock b (as_taker o) in
        let nonneg : pos 0 ≤ℤ o.quantity = omega (arith, leb_ℤ→lt o.quantity (pos 0) e) in
        let a = matched-Accounted clock b o nonneg in
        let (none_left, kept) = conclude-immediate o m.0 m.1 (
          rests_in_book-taker b.stp_policy o m.0.taker m.0.trades a
          ∙ Immediate-rests_in_book o h) in
        (none_left, ap (side_levels o.side) kept ∙ matched-own clock b o nonneg, inr kept)
