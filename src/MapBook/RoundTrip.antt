-- ===== src/MapBook/RoundTrip.antt =====
-- An order that add_order leaves in the book, and the cancel that takes it out again.
use lightning_lob.IdIndexMap
use lightning_lob.Pool
use lightning_lob.Types.{limit, gtc, new, no_reason, Timestamp, invalid_order_id}
use lightning_lob.MapBook.{
  OrderBookMap, add_order, cancel_order, as_taker, submit, conclude, crosses, report, rest_order,
  Matching, matched, cancel_at, erase_level, side_levels, set_level,
}
use lightning_lob.Base.{
  [], true, false, none, refl, arith, ℕ, ◌≡◌, ap, ◌≢◌, ◌==◌, ◌∙◌, List, if◌then◌else◌, subst, sym,
}
use lightning_lob.Order.{Order, is_fok, is_limit, rests_in_book}
use lightning_lob.Base.Int.{pos, ◌<ℤ◌, leb_ℤ, eqb_ℤ, ◌-ℤ◌, int_laws}
use lightning_lob.IdIndexMap.Contents.{contains-none}
use lightning_lob.Pool.{PriceLevel, level_empty}
use lightning_lob.MapBook.Amends.{RestsAt}
use lightning_lob.MapBook.Rests.{id_index-set_side_levels, CanRest, Rested, rest_order-Rested}
use lightning_lob.IdIndexMap.Table.{IsTable}
use lightning_lob.IdIndexMap.Erase.{erase-find}
use lightning_lob.MapBook.Cancels.{Gone, cancel_order-Gone}

submit-rest_order :
    (clock : ℕ → Timestamp) (b : OrderBookMap) (o : Order)
    → pos 0 <ℤ o.quantity
    → o.type ≡ limit
    → o.time_in_force ≡ gtc
    → crosses b (as_taker o) ≡ false
    → submit clock b o ≡ record {
      report = report o.id new (pos 0) o.quantity no_reason;
      book = rest_order b (as_taker o);
      trades = [];
    }
unfolding submit conclude rests_in_book
submit-rest_order clock b o some_quantity is_limit_order is_gtc apart =
    let l : is_limit o.type ≡ true = ap is_limit is_limit_order in
    let f : is_fok o.time_in_force ≡ false = ap is_fok is_gtc in
    let left : eqb_ℤ o.quantity (pos 0) ≡ false = ground arith in
    let rests : rests_in_book (as_taker o) ≡ true = rw (is_limit_order, is_gtc) refl in
    let nothing : o.quantity -ℤ o.quantity ≡ pos 0 = omega int_laws in
    let m : Matching = record { taker = as_taker o; book = b; trades = [] } in
    let unmatched : matched clock b (as_taker o) ≡ (m, false) = rw (l, f, apart) refl in
    ap (λ r. conclude o r.0 r.1) unmatched ∙ rw (conclude, left, rests, nothing) refl

add_order-submit :
    (clock : ℕ → Timestamp) (b : OrderBookMap) (o : Order)
    → pos 0 <ℤ o.quantity
    → pos 0 <ℤ o.price
    → o.type ≡ limit
    → o.time_in_force ≡ gtc
    → o.id ≢ 0
    → IdIndexMap.find b.id_index o.id ≡ none
    → add_order clock b o ≡ submit clock b o
unfolding add_order
add_order-submit clock b o some_quantity some_price is_limit_order is_gtc has_id unknown =
    let q : leb_ℤ o.quantity (pos 0) ≡ false = ground arith in
    let p : leb_ℤ o.price (pos 0) ≡ false = ground arith in
    let f : is_fok o.time_in_force ≡ false = ap is_fok is_gtc in
    let l : is_limit o.type ≡ true = ap is_limit is_limit_order in
    let e : (o.id == invalid_order_id) ≡ false = ground (arith, has_id) in
    rw (q, l, p, e, contains-none b.id_index o.id unknown, f) refl

cancel_order-refused :
    (b : OrderBookMap) (id : ℕ)
    → IdIndexMap.find b.id_index id ≡ none
    → cancel_order b id ≡ (false, b)
unfolding cancel_order
cancel_order-refused b id unknown = rw (cancel_order, unknown) refl

cancel_order-cancel_at :
    (b : OrderBookMap) (id idx : ℕ) (level : PriceLevel) (ws xs : List ℕ)
    → RestsAt b id idx level ws xs
    → cancel_order b id ≡ (true, cancel_at b id idx level)
unfolding cancel_order
cancel_order-cancel_at b id idx level ws xs at = rw (cancel_order, at.indexed, at.placed) refl

id_index-cancel_at :
    (b : OrderBookMap) (id idx : ℕ) (level : PriceLevel)
    → (cancel_at b id idx level).id_index ≡ (IdIndexMap.erase b.id_index id).1
unfolding cancel_at
id_index-cancel_at b id idx level =
    let o = (Pool.node b.pool idx).order in
    let (after, pool) =
      Pool.level_unlink
        (record level { total_quantity = level.total_quantity -ℤ o.remaining_quantity }) b.pool
        idx in
    id_index-set_side_levels o.side
      (if level_empty after
        then erase_level o.price (side_levels o.side b)
        else set_level o.price after (side_levels o.side b))
      (record b { pool = Pool.release pool idx; id_index = (IdIndexMap.erase b.id_index id).1 })

-- A cancel of an order that rests under an id that is not zero, in a book whose index is well
-- formed, takes the id out of the index, which stays well formed and finds every other id that
-- is not zero as before: a second cancel is refused and changes nothing.
pub cancel_order-again :
    (b : OrderBookMap) (id idx q : ℕ) (level : PriceLevel) (ws xs : List ℕ)
    → RestsAt b id idx level ws xs
    → IsTable b.id_index
    → id ≢ 0
    → q ≢ 0
    → (let after = (cancel_order b id).1 in
        IsTable after.id_index
        × (IdIndexMap.find after.id_index q
            ≡ (if q == id then none else IdIndexMap.find b.id_index q))
        × (cancel_order after id ≡ (false, after)))
cancel_order-again b id idx q level ws xs at t has_id q_has =
    let result = ap (λ r. r.1) (cancel_order-cancel_at b id idx level ws xs at) in
    let index_is = ap (λ a. a.id_index) result ∙ id_index-cancel_at b id idx level in
    let erased = erase-find b.id_index id q t has_id q_has in
    let gone = (erase-find b.id_index id id t has_id has_id).3 in
    let after = (cancel_order b id).1 in
    (
      subst IsTable (sym index_is) erased.0,
      ap (λ m. IdIndexMap.find m q) index_is ∙ erased.3,
      cancel_order-refused after id (ap (λ m. IdIndexMap.find m id) index_is ∙ gone ∙ ground arith),
    )

-- A good-till-cancel limit order that does not cross, with a quantity and a price above zero, a
-- new id that is not zero, a slot for it in the pool, a well-formed index, and well-formed
-- levels in order, is reported as new, with no trade and all of it open, and rests last on the
-- level of its price; every other order is as it was; a cancel by its id then succeeds and
-- leaves the level with the orders that it had, and a second cancel is refused.
pub add_order-cancel_order :
    (clock : ℕ → Timestamp) (b : OrderBookMap) (o : Order) (xs : List ℕ)
    → pos 0 <ℤ o.quantity
    → pos 0 <ℤ o.price
    → o.type ≡ limit
    → o.time_in_force ≡ gtc
    → crosses b (as_taker o) ≡ false
    → CanRest b (as_taker o) xs
    → (let r = add_order clock b o in
        let idx = (Pool.acquire b.pool (as_taker o)).0 in
        let (ok, after) = cancel_order r.book o.id in
        (r.report ≡ report o.id new (pos 0) o.quantity no_reason)
        × (r.trades ≡ [])
        × Rested b r.book (as_taker o) idx xs
        × (ok ≡ true)
        × Gone r.book after idx xs []
        × (cancel_order after o.id ≡ (false, after)))
add_order-cancel_order clock b o xs some_quantity some_price is_limit_order is_gtc apart can =
    let result =
      add_order-submit clock b o some_quantity some_price is_limit_order is_gtc can.has_id
        can.unknown
      ∙ submit-rest_order clock b o some_quantity is_limit_order is_gtc apart in
    let idx = (Pool.acquire b.pool (as_taker o)).0 in
    let rested : Rested b (add_order clock b o).book (as_taker o) idx xs =
      subst (λ r. Rested b r.book (as_taker o) idx xs) (sym result)
        (rest_order-Rested b (as_taker o) xs can) in
    let (ok, gone) =
      cancel_order-Gone (add_order clock b o).book o.id idx rested.level xs [] rested.rests in
    let again =
      cancel_order-again (add_order clock b o).book o.id idx o.id rested.level xs [] rested.rests
        rested.table can.has_id can.has_id in
    (ap (λ r. r.report) result, ap (λ r. r.trades) result, rested, ok, gone, again.2)
