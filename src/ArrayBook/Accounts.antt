-- ===== src/ArrayBook/Accounts.antt =====
-- The account of one call of `add_order` on the array book: the trades it makes, and its report.
use lightning_lob.Types.{buy, sell, Side}
use lightning_lob.IdIndexMap
use lightning_lob.ArrayBook.{
  OrderBookArray, ArrayMatching, ladder, set_ladder, match_best, array_match_round,
  array_match_against_book, array_matched, array_conclude, array_refuse, array_rest_order,
  array_submit, array_add_order, array_crosses, in_range, array_has_liquidity_for, new,
}
use lightning_lob.Ladder.{Ladder, rung}
use lightning_lob.ArrayBook.Rounds.{match_round_cases, match_loop_inv}
use lightning_lob.Drain.Trades.{admits, Accounted, OfRound, drain-Accounted}
use lightning_lob.Drain.{Setting, Sweep, drain}
use lightning_lob.Engine.{Answer}
use lightning_lob.MapBook.{as_taker, report}
use lightning_lob.MapBook.Accounts.{
  Reports, filled-Reports, rested-Reports, cancelled-Reports, refused-Reports,
}
use lightning_lob.Base.{
  [], true, false, suc, refl, arith, ℕ, ◌≡◌, Bool, ap, subst, sym, if◌then◌else◌, ◌∙◌, not, ◌||◌,
  ◌&&◌, ◌==◌,
}
use lightning_lob.Order.{Order, opposite, is_limit, is_fok, rests_in_book}
use lightning_lob.Types.{
  Side, Timestamp, filled, rejected, no_reason, invalid_quantity, invalid_price, partially_filled,
  price_out_of_range, duplicate_order_id, cancelled, invalid_order_id,
}
use lightning_lob.Base.Int.{pos, eqb_ℤ, leb_ℤ, ◌≤ℤ◌, ◌-ℤ◌, int_laws, ltb_ℤ, leb_ℤ→lt}
use lightning_lob.Pool.{OrderPool}

-- What matching for the order `o` on the book `b` keeps: the account of the taker, and the policy and
-- the prices and the own side of the book.
pub record Kept (b : OrderBookArray) (o : Order) (m : ArrayMatching) : Type 0 where
  pub account : Accounted b.stp_policy o m.taker m.trades
  pub policy : m.book.stp_policy ≡ b.stp_policy
  pub lowest : m.book.min_price ≡ b.min_price
  pub highest : m.book.max_price ≡ b.max_price
  pub own : ladder o.side m.book ≡ ladder o.side b

-- A ladder put in its place leaves the rest of the book.
set_ladder-stp_policy :
    (side : Side) (l : Ladder) (b : OrderBookArray)
    → (set_ladder side l b).stp_policy ≡ b.stp_policy
set_ladder-stp_policy buy l b = refl
set_ladder-stp_policy sell l b = refl

set_ladder-min_price :
    (side : Side) (l : Ladder) (b : OrderBookArray) → (set_ladder side l b).min_price ≡ b.min_price
set_ladder-min_price buy l b = refl
set_ladder-min_price sell l b = refl

set_ladder-max_price :
    (side : Side) (l : Ladder) (b : OrderBookArray) → (set_ladder side l b).max_price ≡ b.max_price
set_ladder-max_price buy l b = refl
set_ladder-max_price sell l b = refl

ladder-set_ladder-opposite :
    (side : Side) (l : Ladder) (b : OrderBookArray) (pool : OrderPool)
    (id_index : IdIndexMap.IdIndexMap)
    → ladder side (set_ladder (opposite side) l (record b { pool = pool; id_index = id_index }))
      ≡ ladder side b
ladder-set_ladder-opposite buy l b pool id_index = refl
ladder-set_ladder-opposite sell l b pool id_index = refl

match_best-Kept :
    (clock : ℕ → Timestamp) (b : OrderBookArray) (o : Order) (m : ArrayMatching) (idx : ℕ)
    → admits o (rung (ladder (opposite m.taker.side) m.book) idx).price ≡ true
    → Kept b o m
    → Kept b o (match_best clock m idx).0
unfolding match_best
match_best-Kept clock b o m idx fits k =
    let side = opposite m.taker.side in
    let level = rung (ladder side m.book) idx in
    let e : Setting = record {
      stp_policy = m.book.stp_policy;
      symbol = m.book.symbol;
      clock = clock;
    } in
    let start : Sweep = record {
      taker = m.taker;
      level = level;
      pool = m.book.pool;
      id_index = m.book.id_index;
      trades = m.trades;
    } in
    let t = (drain (suc level.order_count) e level.price start).0 in
    record {
      account =
          subst (λ p. Accounted p o t.taker t.trades) k.policy
            (drain-Accounted (suc level.order_count) e level.price o start fits
              (rw k.policy k.account));
      policy = set_ladder-stp_policy side _ _ ∙ k.policy;
      lowest = set_ladder-min_price side _ _ ∙ k.lowest;
      highest = set_ladder-max_price side _ _ ∙ k.highest;
      own =
          subst (λ s. ladder s (match_best clock m idx).0.book ≡ ladder s m.book)
            (ap (λ (t : Order). t.side) k.account.same)
            (ladder-set_ladder-opposite m.taker.side _ m.book _ _)
          ∙ k.own;
    }

match_round-Kept :
    (clock : ℕ → Timestamp) (b : OrderBookArray) (o : Order) (m : ArrayMatching)
    → Kept b o m
    → OfRound (Kept b o) (array_match_round clock m)
match_round-Kept clock b o m k = match_round_cases (Kept b o) clock m (λ idx _ e.
    match_best-Kept clock b o m idx
      (ap (λ (t : Order). admits t (rung (ladder (opposite m.taker.side) m.book) idx).price)
          (sym k.account.same)
        ∙ ground arith)
      k)

-- Matching of an order whose quantity is not negative leaves it the order with some quantity traded
-- away, and leaves the range of prices of the book.
pub matched-Kept :
    (clock : ℕ → Timestamp) (b : OrderBookArray) (o : Order)
    → pos 0 ≤ℤ o.quantity
    → Kept b (as_taker o) (array_matched clock b (as_taker o)).0
unfolding array_match_against_book
matched-Kept clock b o h =
    cases (not (is_limit o.type) || (is_fok o.time_in_force || array_crosses b (as_taker o)))
  where
    start : Kept b (as_taker o) (record { taker = as_taker o; book = b; trades = [] })
    start = record {
      account = record { same = refl; nonneg = h; conserved = omega int_laws; proper = tt };
      policy = refl;
      lowest = refl;
      highest = refl;
      own = refl;
    }

    cases :
        (tries : Bool)
        → (let m : ArrayMatching × Bool =
              if tries
              then array_match_against_book clock b (as_taker o)
              else (record { taker = as_taker o; book = b; trades = [] }, false) in
            Kept b (as_taker o) m.0)
    cases true =
        match_loop_inv (Kept b (as_taker o)) clock (match_round-Kept clock b (as_taker o)) _ _ start
    cases false = start

abbrev Fitting : OrderBookArray → Order → Answer OrderBookArray → Type 0
Fitting b o r = Reports b.stp_policy o r.report r.trades

conclude-Reports :
    (b : OrderBookArray) (o : Order) (m : ArrayMatching) (stp_killed : Bool)
    → Accounted b.stp_policy (as_taker o) m.taker m.trades
    → Fitting b o (array_conclude o m stp_killed)
unfolding array_conclude
conclude-Reports b o m stp_killed a =
    cases (eqb_ℤ m.taker.remaining_quantity (pos 0)) (not stp_killed && rests_in_book m.taker) refl
  where
    cases :
        (full rests : Bool)
        → eqb_ℤ m.taker.remaining_quantity (pos 0) ≡ full
        → Fitting b o (
            let left = m.taker.remaining_quantity in
            let done = o.quantity -ℤ left in
            if full
            then record {
              report = report o.id filled done (pos 0) no_reason;
              book = m.book;
              trades = m.trades;
            }
            else if rests
            then record {
              report =
                  report o.id
                    (if ltb_ℤ (pos 0) done then partially_filled else new)
                    done
                    left
                    no_reason;
              book = array_rest_order m.book m.taker;
              trades = m.trades;
            }
            else record {
              report = report o.id cancelled done (pos 0) no_reason;
              book = m.book;
              trades = m.trades;
            })
    cases true rests e = filled-Reports b.stp_policy o m.taker m.trades a e
    cases false true e = rested-Reports b.stp_policy o m.taker m.trades a _ e refl
    cases false false e = cancelled-Reports b.stp_policy o m.taker m.trades a e

-- Every call of `add_order` reports the order's own id, counts as filled what its trades sum to, and
-- reports the rest by the status: all is filled, or a part is filled and the rest is left, or
-- nothing and all is left, or less than all is filled and none is left, or nothing at all. Each
-- trade is the order's as the taker, at a price that its limit admits, and against another
-- participant where self-trade prevention is on.
pub array_add_order-Reports :
    (clock : ℕ → Timestamp) (b : OrderBookArray) (o : Order)
    → (let r = array_add_order clock b o in Reports b.stp_policy o r.report r.trades)
unfolding array_add_order array_submit
array_add_order-Reports clock b o =
    cases (leb_ℤ o.quantity (pos 0)) (is_limit o.type && leb_ℤ o.price (pos 0))
      (is_limit o.type && not (in_range b o.price))
      (not (o.id == invalid_order_id) && IdIndexMap.contains b.id_index o.id)
      (is_fok o.time_in_force && not (array_has_liquidity_for b o.side o.type o.price o.quantity))
      refl
  where
    cases :
        (no_quantity no_price outside duplicate short : Bool)
        → leb_ℤ o.quantity (pos 0) ≡ no_quantity
        → Fitting b o (
            if no_quantity
            then array_refuse b o.id rejected invalid_quantity
            else if no_price
            then array_refuse b o.id rejected invalid_price
            else if outside
            then array_refuse b o.id rejected price_out_of_range
            else if duplicate
            then array_refuse b o.id rejected duplicate_order_id
            else if short
            then array_refuse b o.id cancelled no_reason
            else array_submit clock b o)
    cases true no_price outside duplicate short e =
        refused-Reports b.stp_policy o rejected invalid_quantity (refl, refl)
    cases false true outside duplicate short e =
        refused-Reports b.stp_policy o rejected invalid_price (refl, refl)
    cases false false true duplicate short e =
        refused-Reports b.stp_policy o rejected price_out_of_range (refl, refl)
    cases false false false true short e =
        refused-Reports b.stp_policy o rejected duplicate_order_id (refl, refl)
    cases false false false false true e =
        refused-Reports b.stp_policy o cancelled no_reason (leb_ℤ→lt o.quantity (pos 0) e, refl)
    cases false false false false false e =
        let m = array_matched clock b (as_taker o) in
        conclude-Reports b o m.0 m.1
          (matched-Kept clock b o (omega (arith, leb_ℤ→lt o.quantity (pos 0) e))).account
