-- ===== src/ArrayBook/Depth.antt =====
-- The depth of the array book against the list of all its levels.
use lightning_lob.Types.{buy, sell, Side, Price}
use lightning_lob.Order.{PriceLevelView}
use lightning_lob.ArrayBook.{OrderBookArray, array_bid_depth, array_ask_depth}
use lightning_lob.Ladder.{Ladder, rung, advance, depth_from}
use lightning_lob.Ladder.Invariant.{IsLadder, IsBest, no_best, best_at}
use lightning_lob.ArrayBook.Invariant.{IsArrayBook}
use lightning_lob.Bitset.{Bitset, find_next_set, find_prev_set}
use lightning_lob.Bitset.Members.{member, IsBitset}
use lightning_lob.Bitset.Search.{
  NextSet, next_at, no_next, PrevSet, prev_at, no_prev, find_next_set-NextSet,
  find_prev_set-PrevSet,
}
use lightning_lob.VectorBook.{level_view}
use lightning_lob.Base.{
  [], ◌∷◌, true, false, zero, suc, none, some, inl, inr, refl, arith, ℕ, List, Option, ◌≡◌,
  if◌then◌else◌, ◌+◌, ◌<◌, ◌≤◌, take, ◌-◌, Bool-cases, ◌==◌, subst, sym, ap,
}
use lightning_lob.Pool.{PriceLevel, level_empty}

abbrev shown : PriceLevel → List PriceLevelView → List PriceLevelView
shown level views = if level_empty level then views else level_view level ∷ views

-- The levels that hold orders, of `rounds` levels from `from` on, the lowest first.
unfoldable pub views_up : Ladder → (rounds from : ℕ) → List PriceLevelView
views_up l zero from = []
views_up l (suc rounds) from = shown (rung l from) (views_up l rounds (from + 1))

-- The levels below an index that hold orders, the highest first.
unfoldable pub views_down : Ladder → ℕ → List PriceLevelView
views_down l zero = []
views_down l (suc i) = shown (rung l i) (views_down l i)

-- The highest member below an index, if there is one.
data Below (bits : Bitset) (i : ℕ) : Option ℕ → Type 0 where
  none_below : ((j : ℕ) → j < i → member bits j ≡ false) → Below bits i none
  below_at :
      (p : ℕ)
      → p < i
      → member bits p ≡ true
      → ((j : ℕ) → p < j → j < i → member bits j ≡ false)
      → Below bits i (some p)

advance-Below :
    (bits : Bitset) (p : ℕ) → IsBitset bits → p < bits.num_bits → Below bits p (advance buy bits p)
unfolding advance
advance-Below bits p b lt = elim (Bool-cases (p == 0)) [
  | inl e ↦ rw e (none_below (λ j h. absurd (ground arith)))
  | inr e ↦ rw e (
      cases (find_prev_set bits (p - 1)) (ground arith)
        (find_prev_set-PrevSet bits b (p - 1) (omega arith)))
]
  where
    cases : (r : Option ℕ) → 0 < p → PrevSet bits (p - 1) r → Below bits p r
    cases _ h (prev_at q le on gap) =
        below_at q (omega arith) on (λ j lo hi. gap j lo (omega arith))
    cases _ h (no_prev gap) = none_below (λ j hi. gap j (omega arith))

module _ (side : Side) (base : Price) (range : ℕ) (l : Ladder)
    (fits : IsLadder side base range l) where
  held : (i : ℕ) → i < range → member l.bitmap i ≡ true → level_empty (rung l i) ≡ false
  held i lt on = ground (arith, fits.occupied i lt, on)

  free : (i : ℕ) → i < range → member l.bitmap i ≡ false → level_empty (rung l i) ≡ true
  free i lt off = ground (arith, fits.occupied i lt, off)

  -- From the next member on, the loop finds the levels that hold orders.
  depth-up :
      (rounds n from : ℕ) (r : Option ℕ)
      → from + rounds ≡ range
      → NextSet l.bitmap from r
      → depth_from sell n l r ≡ take n (views_up l rounds from)
  unfolding depth_from views_up advance
  depth-up rounds zero from r e next = refl
  depth-up zero (suc n) from _ e (next_at p lo hi on gap) = absurd (omega (arith, fits.bits))
  depth-up zero (suc n) from _ e (no_next gap) = refl
  depth-up (suc rounds) (suc n) from _ e (next_at p lo hi on gap) = elim (Bool-cases (from == p)) [
    | inl same ↦
        let at : from ≡ p = ground arith in
        let some_orders : level_empty (rung l from) ≡ false =
          held from (omega arith) (subst (λ t. member l.bitmap t ≡ true) (sym at) on) in
        let rest =
          depth-up rounds n (from + 1) (find_next_set l.bitmap (from + 1)) (omega arith)
            (find_next_set-NextSet l.bitmap fits.bitset (from + 1)) in
        rw some_orders (
          subst
            (λ t.
              level_view (rung l t) ∷ depth_from sell n l (find_next_set l.bitmap (t + 1))
              ≡ level_view (rung l from) ∷ take n (views_up l rounds (from + 1)))
            at (ap (◌∷◌ (level_view (rung l from))) rest))
    | inr other ↦ rw (free from (omega arith) (gap from (omega arith) (ground arith))) (
        depth-up rounds (suc n) (from + 1) (some p) (omega arith)
          (next_at p (ground arith) hi on (λ q h k. gap q (omega arith) k)))
  ]
  depth-up (suc rounds) (suc n) from _ e (no_next gap) =
      rw (free from (omega arith) (gap from (omega arith) (omega (arith, fits.bits)))) (
        depth-up rounds (suc n) (from + 1) none (omega arith)
          (no_next (λ q h k. gap q (omega arith) k)))

  -- From the highest member below an index on, it finds those below the index.
  depth-down :
      (n i : ℕ) (r : Option ℕ)
      → i ≤ range
      → Below l.bitmap i r
      → depth_from buy n l r ≡ take n (views_down l i)
  unfolding depth_from views_down
  depth-down zero i r le next = refl
  depth-down (suc n) zero _ le (below_at p lt on gap) = absurd (omega arith)
  depth-down (suc n) zero _ le (none_below gap) = refl
  depth-down (suc n) (suc i) _ le (below_at p lt on gap) = elim (Bool-cases (i == p)) [
    | inl same ↦
        let at : i ≡ p = ground arith in
        let on_here = subst (λ t. member l.bitmap t ≡ true) (sym at) on in
        let rest =
          depth-down n i (advance buy l.bitmap i) (omega arith)
            (advance-Below l.bitmap i fits.bitset (omega (arith, fits.bits))) in
        rw (held i (omega arith) on_here) (
          subst
            (λ t.
              level_view (rung l t) ∷ depth_from buy n l (advance buy l.bitmap t)
              ≡ level_view (rung l i) ∷ take n (views_down l i))
            at (ap (◌∷◌ (level_view (rung l i))) rest))
    | inr other ↦ rw (free i (omega arith) (gap i (ground arith) (omega arith))) (
        depth-down (suc n) i (some p) (omega arith)
          (below_at p (ground arith) on (λ j h k. gap j h (omega arith))))
  ]
  depth-down (suc n) (suc i) _ le (none_below gap) =
      rw (free i (omega arith) (gap i (omega arith)))
        (depth-down (suc n) i none (omega arith) (none_below (λ j k. gap j (omega arith))))

best-NextSet :
    (range : ℕ) (bits : Bitset) (r : Option ℕ)
    → bits.num_bits ≡ range
    → IsBest sell range bits r
    → NextSet bits 0 r
best-NextSet range bits _ size (no_best off) = no_next (λ q lo hi. off q (omega arith))
best-NextSet range bits _ size (best_at p lt on ahead) =
    next_at p (omega arith) (omega arith) on (λ q lo hi. ahead q (omega arith) (ground arith))

best-Below :
    (range : ℕ) (bits : Bitset) (r : Option ℕ) → IsBest buy range bits r → Below bits range r
best-Below range bits _ (no_best off) = none_below off
best-Below range bits _ (best_at p lt on ahead) =
    below_at p lt on (λ j lo hi. ahead j hi (ground arith))

-- The depth of a well-formed book lists the first `n` of the levels that hold orders, from the highest
-- bid down and from the lowest ask up.
pub array_depth-views :
    (b : OrderBookArray) (n : ℕ)
    → IsArrayBook b
    → (array_bid_depth b n ≡ take n (views_down b.bids b.range))
      × (array_ask_depth b n ≡ take n (views_up b.asks b.range 0))
unfolding array_bid_depth array_ask_depth
array_depth-views b n fits =
    let bids = fits.ladders buy in
    let asks = fits.ladders sell in
    (
      depth-down buy b.min_price b.range b.bids bids n b.range b.bids.best (omega arith)
          (best-Below b.range b.bids.bitmap b.bids.best bids.best_fits),
      depth-up sell b.min_price b.range b.asks asks b.range n 0 b.asks.best (omega arith)
          (best-NextSet b.range b.asks.bitmap b.asks.best asks.bits asks.best_fits),
    )
