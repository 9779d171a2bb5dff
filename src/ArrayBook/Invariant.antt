-- ===== src/ArrayBook/Invariant.antt =====
-- The invariant of the array book: both ladders are well formed over the range of prices.
use lightning_lob.Types.{buy, sell, Price, Side, Timestamp}
use lightning_lob.ArrayBook.{
  OrderBookArray, ladder, set_ladder, index_of, price_of, in_range, match_best, ArrayMatching,
  to_size, array_match_against_book,
}
use lightning_lob.Ladder.{rung, Ladder, leave_rung, vacate, is_best, advance, write_rung}
use lightning_lob.Ladder.Invariant.{
  no_best, best_at, IsLadder, IsBest, write_rung-IsLadder, IsBest-cleared, vacate-IsLadder,
}
use lightning_lob.Base.Int.{◌≤ℤ◌, ◌+ℤ◌, ◌-ℤ◌, pos}
use lightning_lob.Drain.Prices.{drain-price}
use lightning_lob.Base.{
  [], true, false, suc, none, some, inl, inr, refl, arith, ◌≡◌, ◌+◌, ◌<◌, ℕ, Option, if◌then◌else◌,
  Bool-cases, subst, ◌==◌, ap, ◌∙◌, sym,
}
use lightning_lob.Pool.{OrderPool, PriceLevel, level_empty}
use lightning_lob.Bitset.{Bitset, clear_bit}
use lightning_lob.IdIndexMap.{IdIndexMap}
use lightning_lob.Bitset.Members.{member}
use lightning_lob.Order.{opposite, Order}
use lightning_lob.Drain.{Setting, Sweep, drain}
use lightning_lob.ArrayBook.Rounds.{match_loop_inv, match_round_cases}

pub record IsArrayBook (b : OrderBookArray) : Type 0 where
  pub ordered : b.min_price ≤ℤ b.max_price
  pub ranged : b.range ≡ to_size (b.max_price -ℤ b.min_price) + 1
  pub ladders : (side : Side) → IsLadder side b.min_price b.range (ladder side b)

-- The level of the price of an order.
abbrev pub level_of : OrderBookArray → Order → PriceLevel
level_of b o = rung (ladder o.side b) (index_of b o.price)

-- A price in range has an index in range, and is the price of it.
pub in_range-index_of :
    (b : OrderBookArray) (price : Price)
    → IsArrayBook b
    → in_range b price ≡ true
    → (index_of b price < b.range) × (price ≡ price_of b (index_of b price))
unfolding in_range index_of price_of ◌+ℤ◌ ◌-ℤ◌
in_range-index_of b price fits h =
    (ground (arith, fits.ordered, fits.ranged), ground (arith, fits.ordered, fits.ranged))

pub set_ladder-IsArrayBook :
    (b : OrderBookArray) (side : Side) (l : Ladder) (pool : OrderPool) (id_index : IdIndexMap)
    → IsArrayBook b
    → IsLadder side b.min_price b.range l
    → IsArrayBook (set_ladder side l (record b { pool = pool; id_index = id_index }))
set_ladder-IsArrayBook b buy l pool id_index fits new_fits = record {
  ordered = fits.ordered;
  ranged = fits.ranged;
  ladders = cases;
}
  where
    cases :
        (side : Side)
        → IsLadder side b.min_price b.range
            (ladder side (set_ladder buy l (record b { pool = pool; id_index = id_index })))
    cases buy = new_fits
    cases sell = fits.ladders sell
set_ladder-IsArrayBook b sell l pool id_index fits new_fits = record {
  ordered = fits.ordered;
  ranged = fits.ranged;
  ladders = cases;
}
  where
    cases :
        (side : Side)
        → IsLadder side b.min_price b.range
            (ladder side (set_ladder sell l (record b { pool = pool; id_index = id_index })))
    cases buy = fits.ladders buy
    cases sell = new_fits

pub best_in :
    (side : Side) (range : ℕ) (bits : Bitset) (best : Option ℕ) (i : ℕ)
    → IsBest side range bits best
    → best ≡ some i
    → (i < range) × (member bits i ≡ true)
best_in side range bits _ i (no_best free) e = absurd (cc e)
best_in side range bits _ i (best_at k in_range on ahead) e =
    let same : k ≡ i = cc e in
    (subst (λ t. t < range) same in_range, subst (λ t. member bits t ≡ true) same on)

pub not_best_none :
    (side : Side) (range : ℕ) (bits : Bitset) (best : Option ℕ) (i : ℕ)
    → IsBest side range bits best
    → best ≡ none
    → i < range
    → member bits i ≡ false
not_best_none side range bits _ i (no_best free) e lt = free i lt
not_best_none side range bits _ i (best_at k in_range on ahead) e lt = absurd (cc e)

-- The level at an index of a well-formed ladder is written with one of its price, which may be empty:
-- what then becomes of the bit and of the best index.
pub left_rung-IsLadder :
    (side : Side) (base : Price) (range : ℕ) (l : Ladder) (i : ℕ) (level : PriceLevel)
    → IsLadder side base range l
    → i < range
    → member l.bitmap i ≡ true
    → level.price ≡ base +ℤ pos i
    → IsLadder side base range (leave_rung side l i level)
unfolding leave_rung
left_rung-IsLadder side base range l i level fits lt on price =
    elim (Bool-cases (level_empty level)) [
      | inr e ↦ rw e (write_rung-IsLadder side base range l i level fits lt on e price)
      | inl e ↦ rw e (cases e l.best refl)
    ]
  where
    cases :
        level_empty level ≡ true
        → (best : Option ℕ) → l.best ≡ best
        → IsLadder side base range (
            let empty_rung = vacate l i level in
            if is_best best i
            then record empty_rung { best = advance side empty_rung.bitmap i }
            else empty_rung)
    cases e none same = absurd (
        let off = not_best_none side range l.bitmap l.best i fits.best_fits same lt in cc (on, off))
    cases e (some k) same =
        let cleared =
          IsBest-cleared side range l.bitmap i k fits.bitset fits.bits lt
            (subst (IsBest side range l.bitmap) same fits.best_fits) in
        elim (Bool-cases (k == i)) [
          | inl h ↦ rw h (
              vacate-IsLadder side base range l i level fits lt
                (advance side (clear_bit l.bitmap i) i) e
                (subst
                  (λ c.
                    IsBest side range (clear_bit l.bitmap i)
                      (if c then advance side (clear_bit l.bitmap i) i else some k))
                  h cleared))
          | inr h ↦ rw h (
              vacate-IsLadder side base range l i level fits lt l.best e (
                subst (IsBest side range (clear_bit l.bitmap i)) (sym same) (
                  subst
                    (λ c.
                      IsBest side range (clear_bit l.bitmap i)
                        (if c then advance side (clear_bit l.bitmap i) i else some k))
                    h cleared)))
        ]

-- The level that matching leaves is written as a cancel writes it, since it was the best.
matched_rung :
    (side : Side) (l : Ladder) (i : ℕ) (level : PriceLevel)
    → l.best ≡ some i
    → leave_rung side l i level ≡ (
        if level_empty level
        then record (vacate l i level) { best = advance side (vacate l i level).bitmap i }
        else write_rung l i level)
unfolding leave_rung
matched_rung side l i level best =
    let here : (i == i) ≡ true = ground arith in
    let is_it : is_best l.best i ≡ true = ap (λ b. is_best b i) best ∙ here in rw is_it refl

match_best-IsArrayBook :
    (clock : ℕ → Timestamp) (m : ArrayMatching) (idx : ℕ)
    → IsArrayBook m.book
    → (ladder (opposite m.taker.side) m.book).best ≡ some idx
    → IsArrayBook (match_best clock m idx).0.book
unfolding match_best
match_best-IsArrayBook clock m idx fits best =
    let side = opposite m.taker.side in
    let b = m.book in
    let l = ladder side b in
    let level = rung l idx in
    let l_fits = fits.ladders side in
    let (in_range, on) = best_in side b.range l.bitmap l.best idx l_fits.best_fits best in
    let e : Setting = record { stp_policy = b.stp_policy; symbol = b.symbol; clock = clock } in
    let start : Sweep = record {
      taker = m.taker;
      level = level;
      pool = b.pool;
      id_index = b.id_index;
      trades = m.trades;
    } in
    let s = (drain (suc level.order_count) e level.price start).0 in
    set_ladder-IsArrayBook b side _ s.pool s.id_index fits (
      subst (IsLadder side b.min_price b.range) (matched_rung side l idx s.level best) (
        left_rung-IsLadder side b.min_price b.range l idx s.level l_fits in_range on (
          drain-price (suc level.order_count) e level.price start ∙ l_fits.priced idx in_range on)))

-- Matching keeps the invariant.
pub match_against_book-IsArrayBook :
    (clock : ℕ → Timestamp) (b : OrderBookArray) (taker : Order)
    → IsArrayBook b
    → IsArrayBook (array_match_against_book clock b taker).0.book
unfolding array_match_against_book
match_against_book-IsArrayBook clock b taker fits =
    match_loop_inv (λ n. IsArrayBook n.book) clock
      (λ m h.
        match_round_cases (λ n. IsArrayBook n.book) clock m
          (λ idx best _. match_best-IsArrayBook clock m idx h best))
      (suc b.range) (record { taker = taker; book = b; trades = [] }) fits
