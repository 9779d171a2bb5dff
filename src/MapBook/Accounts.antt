-- ===== src/MapBook/Accounts.antt =====
-- The account of one call of `add_order` on the map book: the trades it makes, and its report.
use lightning_lob.Base.{
  ℕ, zero, suc, ◌≡◌, refl, sym, ap, subst, ◌∙◌, Bool, true, false, not, ◌&&◌, [], ◌∷◌, arith, List,
  if◌then◌else◌, ltb→lt, ◌==◌, All, All-map,
}
use lightning_lob.Base.Int.{
  pos, ◌+ℤ◌, ◌-ℤ◌, ◌≤ℤ◌, ◌<ℤ◌, ltb_ℤ, eqb_ℤ, parts_of_eq, int_laws, leb_ℤ, eqb_ℤ→eq, leb_ℤ→lt,
  pos_of_ne, ltb_ℤ→le,
}
use lightning_lob.Types.{
  Price, Timestamp, Side, buy, sell, OrderStatus, new, partially_filled, filled, cancelled,
  rejected, SelfTradePrevention,
}
use lightning_lob.Order.{Order, Trade, ExecutionReport, opposite, price_ok, is_limit}
use lightning_lob.Pool.{PriceLevel, OrderPool}
use lightning_lob.IdIndexMap
use lightning_lob.IdIndexMap.{IdIndexMap}
use lightning_lob.Drain.{finished, drain}
use lightning_lob.Drain.Trades.{
  traded, admits, IsProper, Accounted, OfRound, ends, kills, goes, round_inv, drain-Accounted,
}
use lightning_lob.MapBook.{
  OrderBookMap, Matching, Outcome, as_taker, tries_match, matched, conclude, report, rest_order,
  has_liquidity_for, refuse, add_order, submit, Levels, side_levels, set_side_levels, setting,
  opened, match_level, round_of, match_round, match_loop, match_against_book, Quantity,
  RejectReason, invalid_quantity, no_reason, invalid_price, duplicate_order_id, invalid_order_id,
  rests_in_book, is_fok,
}

-- The account of the taker, and the policy and the taker's own side, which the book keeps.
record Kept (b : OrderBookMap) (o : Order) (m : Matching) : Type 0 where
  account : Accounted b.stp_policy o m.taker m.trades
  policy : m.book.stp_policy ≡ b.stp_policy
  own : side_levels o.side m.book ≡ side_levels o.side b

side_levels-opposite :
    (side : Side) (ls : Levels) (b : OrderBookMap) (pool : OrderPool) (id_index : IdIndexMap)
    → side_levels side
        (set_side_levels (opposite side) ls (record b { pool = pool; id_index = id_index }))
      ≡ side_levels side b
side_levels-opposite buy ls b pool id_index = refl
side_levels-opposite sell ls b pool id_index = refl

set_side_levels-stp_policy :
    (side : Side) (ls : Levels) (b : OrderBookMap)
    → (set_side_levels side ls b).stp_policy ≡ b.stp_policy
set_side_levels-stp_policy buy ls b = refl
set_side_levels-stp_policy sell ls b = refl

match_level-Kept :
    (clock : ℕ → Timestamp) (b : OrderBookMap) (o : Order) (m : Matching) (price : Price)
    (level : PriceLevel)
    → admits o price ≡ true
    → Kept b o m
    → Kept b o (match_level clock m price level).0
unfolding match_level
match_level-Kept clock b o m price level fits k =
    let e = setting clock m.book in
    let t = (drain (suc level.order_count) e price (opened m level)).0 in
    let side = ap (λ (t : Order). t.side) k.account.same in
    let after = (match_level clock m price level).0.book in
    record {
      account =
          subst (λ p. Accounted p o t.taker t.trades) k.policy
            (drain-Accounted _ e price o (opened m level) fits (rw k.policy k.account));
      policy = set_side_levels-stp_policy (opposite m.taker.side) _ _ ∙ k.policy;
      own =
          ap (λ s. side_levels s after) (sym side)
          ∙ side_levels-opposite m.taker.side _ m.book _ _
          ∙ ap (λ s. side_levels s m.book) side
          ∙ k.own;
    }

match_round-Kept :
    (clock : ℕ → Timestamp) (b : OrderBookMap) (o : Order) (m : Matching)
    → Kept b o m
    → OfRound (Kept b o) (match_round clock m)
unfolding match_round
match_round-Kept clock b o m k =
    cases (ltb_ℤ (pos 0) m.taker.remaining_quantity) (side_levels (opposite m.taker.side) m.book)
  where
    fits :
        (price : Price)
        → (is_limit m.taker.type && not (price_ok m.taker.side m.taker.price price)) ≡ false
        → admits o price ≡ true
    fits price e = ap (λ (t : Order). admits t price) (sym k.account.same) ∙ ground arith

    leaves : (r : Matching × Bool) → Kept b o r.0 → OfRound (Kept b o) (round_of r)
    leaves (n, true) h = kills h
    leaves (n, false) h = goes h

    admitted :
        (price : Price) (level : PriceLevel) (outside : Bool)
        → (is_limit m.taker.type && not (price_ok m.taker.side m.taker.price price)) ≡ outside
        → OfRound
            (Kept b o)
            (if outside then finished else round_of (match_level clock m price level))
    admitted price level true e = ends
    admitted price level false e =
        leaves _ (match_level-Kept clock b o m price level (fits price e) k)

    cases :
        (running : Bool) (levels : Levels)
        → OfRound (Kept b o) (
            if not running then finished else elim levels [
              | [] ↦ finished
              | (price, level) ∷ _ ↦
                  if is_limit m.taker.type && not (price_ok m.taker.side m.taker.price price)
                  then finished
                  else round_of (match_level clock m price level)
            ])
    cases false levels = ends
    cases true [] = ends
    cases true ((price, level) ∷ rest) = admitted price level _ refl

match_loop-Kept :
    (rounds : ℕ) (clock : ℕ → Timestamp) (b : OrderBookMap) (o : Order) (m : Matching)
    → Kept b o m
    → Kept b o (match_loop rounds clock m).0
unfolding match_loop
match_loop-Kept zero clock b o m k = k
match_loop-Kept (suc rounds) clock b o m k =
    round_inv (Kept b o) (match_round clock m) m (λ n. match_loop rounds clock n) k
      (match_round-Kept clock b o m k) (match_loop-Kept rounds clock b o)

matched-Kept :
    (clock : ℕ → Timestamp) (b : OrderBookMap) (o : Order)
    → pos 0 ≤ℤ o.quantity
    → Kept b (as_taker o) (matched clock b (as_taker o)).0
unfolding match_against_book
matched-Kept clock b o h = cases (tries_match b (as_taker o))
  where
    start : Kept b (as_taker o) (record { taker = as_taker o; book = b; trades = [] })
    start = record {
      account = record { same = refl; nonneg = h; conserved = omega int_laws; proper = tt };
      policy = refl;
      own = refl;
    }

    cases :
        (tries : Bool)
        → (let m : Matching × Bool =
              if tries
              then match_against_book clock b (as_taker o)
              else (record { taker = as_taker o; book = b; trades = [] }, false) in
            Kept b (as_taker o) m.0)
    cases true =
        match_loop-Kept _ clock b (as_taker o)
          (record { taker = as_taker o; book = b; trades = [] }) start
    cases false = start

-- Matching of an order whose quantity is not negative leaves it the order with some quantity traded
-- away: what is left and what was traded sum to its quantity, and each trade is proper.
pub matched-Accounted :
    (clock : ℕ → Timestamp) (b : OrderBookMap) (o : Order)
    → pos 0 ≤ℤ o.quantity
    → (let m = (matched clock b (as_taker o)).0 in
        Accounted b.stp_policy (as_taker o) m.taker m.trades)
matched-Accounted clock b o h = (matched-Kept clock b o h).account

-- Matching leaves the levels of the order's own side.
pub matched-own :
    (clock : ℕ → Timestamp) (b : OrderBookMap) (o : Order)
    → pos 0 ≤ℤ o.quantity
    → side_levels o.side (matched clock b (as_taker o)).0.book ≡ side_levels o.side b
matched-own clock b o h = (matched-Kept clock b o h).own

-- What a report says of the order's quantity.
abbrev pub ReportFits : Order → OrderStatus → ExecutionReport → Type 0
ReportFits o filled r = (r.filled_quantity ≡ o.quantity) × (r.remaining_quantity ≡ pos 0)
ReportFits o partially_filled r =
    (pos 0 <ℤ r.filled_quantity)
    × (pos 0 <ℤ r.remaining_quantity)
    × (r.filled_quantity +ℤ r.remaining_quantity ≡ o.quantity)
ReportFits o new r =
    (r.filled_quantity ≤ℤ pos 0)
    × (pos 0 <ℤ r.remaining_quantity)
    × (r.filled_quantity +ℤ r.remaining_quantity ≡ o.quantity)
ReportFits o cancelled r = (r.filled_quantity <ℤ o.quantity) × (r.remaining_quantity ≡ pos 0)
ReportFits o rejected r = (r.filled_quantity ≡ pos 0) × (r.remaining_quantity ≡ pos 0)

-- The report of a call fits the order and the trades of the call.
pub record Reports (policy : SelfTradePrevention) (o : Order) (r : ExecutionReport)
    (trades : List Trade) : Type 0 where
  pub order_id : r.order_id ≡ o.id
  pub fits : ReportFits o r.status r
  pub counted : r.filled_quantity ≡ traded trades
  pub proper : All (IsProper policy o) trades

-- The three reports at the end of a call, of a taker of which `left` is not traded.
module _ (policy : SelfTradePrevention) (o taker : Order) (trades : List Trade)
    (a : Accounted policy (as_taker o) taker trades) where
  abbrev left : Quantity
  left = taker.remaining_quantity

  abbrev done : Quantity
  done = o.quantity -ℤ left

  sum : done ≡ traded trades
  sum = omega (int_laws, parts_of_eq _ _ a.conserved)

  proper : All (IsProper policy o) trades
  proper =
      All-map
        (λ t p. record {
          taker = p.taker;
          side = p.side;
          participant = p.participant;
          price = p.price;
          allowed = p.allowed;
        })
        trades a.proper

  pub filled-Reports :
      eqb_ℤ left (pos 0) ≡ true
      → Reports policy o (report o.id filled done (pos 0) no_reason) trades
  filled-Reports e = record {
    order_id = refl;
    fits = (omega (int_laws, parts_of_eq _ _ (eqb_ℤ→eq left (pos 0) e)), refl);
    counted = sum;
    proper = proper;
  }

  pub rested-Reports :
      (some_done : Bool)
      → eqb_ℤ left (pos 0) ≡ false
      → ltb_ℤ (pos 0) done ≡ some_done
      → Reports policy o
          (report o.id (if some_done then partially_filled else new) done left no_reason)
          trades
  rested-Reports true e d = record {
    order_id = refl;
    fits = (ltb→lt _ _ d, pos_of_ne left a.nonneg e, omega int_laws);
    counted = sum;
    proper = proper;
  }
  rested-Reports false e d = record {
    order_id = refl;
    fits = (ltb_ℤ→le (pos 0) done d, pos_of_ne left a.nonneg e, omega int_laws);
    counted = sum;
    proper = proper;
  }

  pub cancelled-Reports :
      eqb_ℤ left (pos 0) ≡ false
      → Reports policy o (report o.id cancelled done (pos 0) no_reason) trades
  cancelled-Reports e = record {
    order_id = refl;
    fits = (omega (int_laws, pos_of_ne left a.nonneg e), refl);
    counted = sum;
    proper = proper;
  }

pub refused-Reports :
    (policy : SelfTradePrevention) (o : Order) (status : OrderStatus) (why : RejectReason)
    → ReportFits o status (report o.id status (pos 0) (pos 0) why)
    → Reports policy o (report o.id status (pos 0) (pos 0) why) []
refused-Reports policy o status why fits = record {
  order_id = refl;
  fits = fits;
  counted = refl;
  proper = tt;
}

abbrev Fitting : OrderBookMap → Order → Outcome → Type 0
Fitting b o r = Reports b.stp_policy o r.report r.trades

conclude-Reports :
    (b : OrderBookMap) (o : Order) (m : Matching) (stp_killed : Bool)
    → Accounted b.stp_policy (as_taker o) m.taker m.trades
    → Fitting b o (conclude o m stp_killed)
unfolding conclude
conclude-Reports b o m stp_killed a =
    cases (eqb_ℤ m.taker.remaining_quantity (pos 0)) (not stp_killed && rests_in_book m.taker) refl
  where
    cases :
        (full rests : Bool)
        → eqb_ℤ m.taker.remaining_quantity (pos 0) ≡ full
        → Fitting b o (
            let left = m.taker.remaining_quantity in
            let done = o.quantity -ℤ left in
            if full
            then record {
              report = report o.id filled done (pos 0) no_reason;
              book = m.book;
              trades = m.trades;
            }
            else if rests
            then record {
              report =
                  report o.id
                    (if ltb_ℤ (pos 0) done then partially_filled else new)
                    done
                    left
                    no_reason;
              book = rest_order m.book m.taker;
              trades = m.trades;
            }
            else record {
              report = report o.id cancelled done (pos 0) no_reason;
              book = m.book;
              trades = m.trades;
            })
    cases true rests e = filled-Reports b.stp_policy o m.taker m.trades a e
    cases false true e = rested-Reports b.stp_policy o m.taker m.trades a _ e refl
    cases false false e = cancelled-Reports b.stp_policy o m.taker m.trades a e

-- Every call of `add_order` reports the order's own id, counts as filled what its trades sum to, and
-- reports the rest by the status: all is filled, or a part is filled and the rest is left, or
-- nothing and all is left, or less than all is filled and none is left, or nothing at all. Each
-- trade is the order's as the taker, at a price that its limit admits, and against another
-- participant where self-trade prevention is on.
pub add_order-Reports :
    (clock : ℕ → Timestamp) (b : OrderBookMap) (o : Order)
    → (let r = add_order clock b o in Reports b.stp_policy o r.report r.trades)
unfolding add_order submit
add_order-Reports clock b o =
    cases (leb_ℤ o.quantity (pos 0)) (is_limit o.type && leb_ℤ o.price (pos 0))
      (not (o.id == invalid_order_id) && IdIndexMap.contains b.id_index o.id)
      (is_fok o.time_in_force && not (has_liquidity_for b o.side o.type o.price o.quantity)) refl
  where
    cases :
        (no_quantity no_price duplicate short : Bool)
        → leb_ℤ o.quantity (pos 0) ≡ no_quantity
        → Fitting b o (
            if no_quantity
            then refuse b o.id rejected invalid_quantity
            else if no_price
            then refuse b o.id rejected invalid_price
            else if duplicate
            then refuse b o.id rejected duplicate_order_id
            else if short
            then refuse b o.id cancelled no_reason
            else submit clock b o)
    cases true no_price duplicate short e =
        refused-Reports b.stp_policy o rejected invalid_quantity (refl, refl)
    cases false true duplicate short e =
        refused-Reports b.stp_policy o rejected invalid_price (refl, refl)
    cases false false true short e =
        refused-Reports b.stp_policy o rejected duplicate_order_id (refl, refl)
    cases false false false true e =
        refused-Reports b.stp_policy o cancelled no_reason (leb_ℤ→lt o.quantity (pos 0) e, refl)
    cases false false false false e =
        let m = matched clock b (as_taker o) in
        conclude-Reports b o m.0 m.1
          (matched-Accounted clock b o (omega (arith, leb_ℤ→lt o.quantity (pos 0) e)))
