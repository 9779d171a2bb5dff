-- ===== src/ArrayBook/Resets.antt =====
-- `reset` of the array book: the levels that hold orders are found by their bits, and cleared.
use lightning_lob.Types.{buy, sell, Side, Price}
use lightning_lob.Pool
use lightning_lob.ArrayBook.{OrderBookArray, ladder, array_reset, array_best_bid, array_best_ask}
use lightning_lob.Ladder.{Ladder, rung, vacate, clear_rungs, clear_side, advance}
use lightning_lob.Ladder.Invariant.{
  IsLadder, IsBest, no_best, best_at, vacate-IsLadder, IsBest-cleared,
}
use lightning_lob.ArrayBook.Invariant.{IsArrayBook, best_in, not_best_none}
use lightning_lob.Bitset.{Bitset, find_next_set, clear_bit}
use lightning_lob.Bitset.Search.{NextSet, next_at, no_next, find_next_set-NextSet}
use lightning_lob.Base.{
  true, zero, suc, none, some, refl, arith, ℕ, Option, ◌+◌, ◌≡◌, ltb→lt, ◌≤◌, ◌==◌, subst,
  if◌then◌else◌,
}
use lightning_lob.ArrayBook.Starts.{IsBestPrice, price_at-IsBestPrice}

-- The loop's ladder with the index that it stands at for the best one, as if it were of the asks.
abbrev IsAt : Price → ℕ → Ladder → Option ℕ → Type 0
IsAt base range l idx = IsLadder sell base range (record l { best = idx })

next-IsBest :
    (range : ℕ) (bits : Bitset) (r : Option ℕ)
    → bits.num_bits ≡ range
    → NextSet bits 0 r
    → IsBest sell range bits r
next-IsBest range bits _ size (next_at p lo hi on gap) =
    best_at p (omega arith) on (λ j j_in h. gap j (omega arith) (ltb→lt j p h))
next-IsBest range bits _ size (no_next gap) = no_best (λ j j_in. gap j (omega arith) (omega arith))

next_above :
    (bits : Bitset) (from : ℕ) (r : Option ℕ) (i : ℕ) → NextSet bits from r → r ≡ some i → from ≤ i
next_above bits from _ i (next_at p lo hi on gap) e = let at : p ≡ i = cc e in omega arith
next_above bits from _ i (no_next gap) e = absurd (cc e)

-- A level is cleared, and the search goes on behind it.
clear_one-IsAt :
    (base : Price) (range : ℕ) (l : Ladder) (i : ℕ)
    → IsAt base range l (some i)
    → (let after = vacate l i (Pool.clear_orders (rung l i)) in
        IsAt base range after (find_next_set after.bitmap (i + 1)))
unfolding Pool.clear_orders advance
clear_one-IsAt base range l i fits =
    let (lt, on) = best_in sell range l.bitmap (some i) i fits.best_fits refl in
    let cleared = IsBest-cleared sell range l.bitmap i i fits.bitset fits.bits lt fits.best_fits in
    let here : (i == i) ≡ true = ground arith in
    vacate-IsLadder sell base range (record l { best = some i }) i (Pool.clear_orders (rung l i))
      fits lt (find_next_set (clear_bit l.bitmap i) (i + 1)) refl
      (subst
        (λ c.
          IsBest sell range (clear_bit l.bitmap i)
            (if c then find_next_set (clear_bit l.bitmap i) (i + 1) else some i))
        here cleared)

clear_rungs-IsAt :
    (base : Price) (range rounds : ℕ) (l : Ladder) (idx : Option ℕ) (from : ℕ)
    → IsAt base range l idx
    → ((i : ℕ) → idx ≡ some i → from ≤ i)
    → range ≤ from + rounds
    → IsAt base range (clear_rungs rounds l idx) none
unfolding clear_rungs
clear_rungs-IsAt base range zero l none from fits above enough = fits
clear_rungs-IsAt base range zero l (some i) from fits above enough =
    let (lt, on) = best_in sell range l.bitmap (some i) i fits.best_fits refl in
    let le = above i refl in absurd (omega arith)
clear_rungs-IsAt base range (suc rounds) l none from fits above enough = fits
clear_rungs-IsAt base range (suc rounds) l (some i) from fits above enough =
    let after = vacate l i (Pool.clear_orders (rung l i)) in
    let next = clear_one-IsAt base range l i fits in
    let le = above i refl in
    clear_rungs-IsAt base range rounds after _ (i + 1) next
      (λ k e.
        next_above after.bitmap (i + 1) _ k (find_next_set-NextSet after.bitmap next.bitset (i + 1))
          e)
      (omega arith)

-- A cleared side has no level that holds orders.
clear_side-IsLadder :
    (side : Side) (base : Price) (range : ℕ) (l : Ladder)
    → IsLadder side base range l
    → IsLadder side base range (clear_side l)
unfolding clear_side
clear_side-IsLadder side base range l fits =
    let first =
      next-IsBest range l.bitmap _ fits.bits (find_next_set-NextSet l.bitmap fits.bitset 0) in
    let start : IsAt base range l (find_next_set l.bitmap 0) = record {
      sized = fits.sized;
      bits = fits.bits;
      bitset = fits.bitset;
      occupied = fits.occupied;
      priced = fits.priced;
      best_fits = first;
    } in
    let done =
      clear_rungs-IsAt base range (l.bitmap.num_bits + 1) l _ 0 start (λ i e. omega arith)
        (omega (arith, fits.bits)) in
    record {
      sized = done.sized;
      bits = done.bits;
      bitset = done.bitset;
      occupied = done.occupied;
      priced = done.priced;
      best_fits = no_best (λ j lt. not_best_none sell range _ none j done.best_fits refl lt);
    }

-- A reset of a well-formed book leaves it well formed, with no best price on either side, no level that
-- holds orders, and no order in the pool.
pub array_reset-IsArrayBook :
    (b : OrderBookArray)
    → IsArrayBook b
    → IsArrayBook (array_reset b)
      × (array_best_bid (array_reset b) ≡ none)
      × (array_best_ask (array_reset b) ≡ none)
      × ((side : Side) → IsBestPrice side (array_reset b) none)
      × (Pool.live_count (array_reset b).pool ≡ 0)
unfolding array_reset clear_side array_best_bid array_best_ask Pool.live_count Pool.reset
array_reset-IsArrayBook b fits =
    let kept : IsArrayBook (array_reset b) = record {
      ordered = fits.ordered;
      ranged = fits.ranged;
      ladders = each;
    } in
    (kept, refl, refl, empty_side kept, refl)
  where
    each : (side : Side) → IsLadder side b.min_price b.range (ladder side (array_reset b))
    each buy = clear_side-IsLadder buy b.min_price b.range b.bids (fits.ladders buy)
    each sell = clear_side-IsLadder sell b.min_price b.range b.asks (fits.ladders sell)

    empty_side : IsArrayBook (array_reset b) → (side : Side) → IsBestPrice side (array_reset b) none
    empty_side kept buy = price_at-IsBestPrice buy (array_reset b) kept
    empty_side kept sell = price_at-IsBestPrice sell (array_reset b) kept
