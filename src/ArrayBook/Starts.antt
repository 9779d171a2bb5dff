-- ===== src/ArrayBook/Starts.antt =====
-- A new array book, and the best prices that a well-formed one reports.
use lightning_lob.Types.{buy, sell, Side, Price, SymbolId, SelfTradePrevention}
use lightning_lob.ArrayBook.{
  OrderBookArray, ladder, array_of_range, Construction, invalid_argument, no_allocation,
  constructed, validate_and_compute_range, new_array_book, price_of, price_at, array_best_bid,
  array_best_ask, to_size,
}
use lightning_lob.Ladder.{Ladder, rung, new_ladder, better}
use lightning_lob.Ladder.Invariant.{IsLadder, IsBest, no_best, best_at}
use lightning_lob.ArrayBook.Invariant.{IsArrayBook}
use lightning_lob.Bitset.{new_bitset}
use lightning_lob.Bitset.Members.{member, new_bitset-IsBitset}
use lightning_lob.Base.Int.{pos, ◌<ℤ◌, ◌≤ℤ◌, ltb_ℤ, leb_ℤ, ◌-ℤ◌, leb_ℤ→lt, ltb_ℤ→le}
use lightning_lob.Base.{
  true, false, zero, suc, none, some, inl, inr, refl, arith, ℕ, Option, get_or, length-replicate,
  ◌<◌, replicate, ◌⊎◌, ◌≡◌, ◌∙◌, sym, Bool, ap, not, if◌then◌else◌, ◌+◌, ltb→lt, leb→le,
}
use lightning_lob.Pool.{new_level, level_empty}

get_or-replicate : (n i : ℕ) → get_or (replicate n new_level) i new_level ≡ new_level
get_or-replicate zero i = refl
get_or-replicate (suc n) zero = refl
get_or-replicate (suc n) (suc i) = get_or-replicate n i

pub new_ladder-IsLadder :
    (side : Side) (base : Price) (range : ℕ) → IsLadder side base range (new_ladder range)
unfolding new_ladder new_bitset
new_ladder-IsLadder side base range =
    let (bits, free) = new_bitset-IsBitset range in
    record {
      sized = length-replicate range new_level;
      bits = refl;
      bitset = bits;
      occupied = λ i lt. free i ∙ sym (ap (λ r. not (level_empty r)) (get_or-replicate range i));
      priced = λ i lt on. absurd (cc (free i, on));
      best_fits = no_best (λ j lt. free j);
    }

pub array_of_range-IsArrayBook :
    (symbol : SymbolId) (min_price max_price : Price) (hint : ℕ) (policy : SelfTradePrevention)
    → min_price ≤ℤ max_price
    → IsArrayBook (
        array_of_range symbol min_price max_price hint policy
          (to_size (max_price -ℤ min_price) + 1))
array_of_range-IsArrayBook symbol min_price max_price hint policy le = record {
  ordered = le;
  ranged = refl;
  ladders = each;
}
  where
    each :
        (side : Side)
        → IsLadder side min_price (to_size (max_price -ℤ min_price) + 1) (
            ladder side (
              array_of_range symbol min_price max_price hint policy
                (to_size (max_price -ℤ min_price) + 1)))
    each buy = new_ladder-IsLadder buy min_price _
    each sell = new_ladder-IsLadder sell min_price _

-- What the constructor gives for a lowest and a highest price and a number of orders.
abbrev pub Constructed :
    (allocates : (levels orders : ℕ) → Bool)
    → (min_price max_price : Price) → (hint : ℕ) → Construction
    → Type 0
Constructed allocates min_price max_price hint invalid_argument =
    (max_price <ℤ min_price) ⊎ (min_price ≤ℤ pos 0)
Constructed allocates min_price max_price hint no_allocation =
    (min_price ≤ℤ max_price)
    × (pos 0 <ℤ min_price)
    × (allocates (to_size (max_price -ℤ min_price) + 1) hint ≡ false)
Constructed allocates min_price max_price hint (constructed b) =
    (b.min_price ≡ min_price)
    × (b.max_price ≡ max_price)
    × (pos 0 <ℤ min_price)
    × (allocates b.range hint ≡ true)
    × IsArrayBook b

-- The constructor of the array book throws an invalid argument only if the prices are out of
-- order or the lowest is not above zero, fails to allocate only if the prices are in order and
-- the library has no room for the levels, and makes a well-formed book over these prices
-- otherwise.
pub new_array_book-Constructed :
    (allocates : (levels orders : ℕ) → Bool) (symbol : SymbolId) (min_price max_price : Price)
    (hint : ℕ) (policy : SelfTradePrevention)
    → Constructed allocates min_price max_price hint
        (new_array_book allocates symbol min_price max_price hint policy)
unfolding new_array_book validate_and_compute_range
new_array_book-Constructed allocates symbol min_price max_price hint policy =
    cases (ltb_ℤ max_price min_price) (leb_ℤ min_price (pos 0)) (allocates range hint) refl refl
      refl
  where
    range : ℕ
    range = to_size (max_price -ℤ min_price) + 1

    cases :
        (crossed low room : Bool)
        → ltb_ℤ max_price min_price ≡ crossed
        → leb_ℤ min_price (pos 0) ≡ low
        → allocates range hint ≡ room
        → (let r : Option ℕ = if crossed then none else if low then none else some range in
            Constructed allocates min_price max_price hint (elim r [
              | none ↦ invalid_argument
              | some n ↦
                  if allocates n hint
                  then constructed (array_of_range symbol min_price max_price hint policy n)
                  else no_allocation
            ]))
    cases true low room e h a = inl (ltb→lt _ _ e)
    cases false true room e h a = inr (leb→le _ _ h)
    cases false false false e h a =
        rw a (ltb_ℤ→le max_price min_price e, leb_ℤ→lt min_price (pos 0) h, a)
    cases false false true e h a = rw a (
      refl,
      refl,
      leb_ℤ→lt min_price (pos 0) h,
      a,
      array_of_range-IsArrayBook symbol min_price max_price hint policy
          (ltb_ℤ→le max_price min_price e),
    )

-- A level of the side that holds orders, at the price `p`, with none of a better price.
pub record BestLevel (side : Side) (b : OrderBookArray) (p : Price) : Type 0 where
  pub index : ℕ
  pub index_in : index < b.range
  pub price_is : p ≡ price_of b index
  pub holds_orders : level_empty (rung (ladder side b) index) ≡ false
  pub level_price : (rung (ladder side b) index).price ≡ p
  pub none_better :
      (j : ℕ)
      → j < b.range
      → better side j index ≡ true
      → level_empty (rung (ladder side b) j) ≡ true

-- What a best price, or its absence, says of a side.
abbrev pub IsBestPrice : Side → OrderBookArray → Option Price → Type 0
IsBestPrice side b none = (j : ℕ) → j < b.range → level_empty (rung (ladder side b) j) ≡ true
IsBestPrice side b (some p) = BestLevel side b p

pub price_at-IsBestPrice :
    (side : Side) (b : OrderBookArray)
    → IsArrayBook b
    → IsBestPrice side b (price_at b (ladder side b).best)
unfolding price_of
price_at-IsBestPrice side b fits = cases (ladder side b).best (fits.ladders side).best_fits
  where
    l : Ladder
    l = ladder side b

    empty_at : (j : ℕ) → j < b.range → member l.bitmap j ≡ false → level_empty (rung l j) ≡ true
    empty_at j lt off = ground (arith, (fits.ladders side).occupied j lt, off)

    cases :
        (best : Option ℕ) → IsBest side b.range l.bitmap best → IsBestPrice side b (price_at b best)
    cases _ (no_best free) = λ j lt. empty_at j lt (free j lt)
    cases _ (best_at i lt on ahead) = record {
      index = i;
      index_in = lt;
      price_is = refl;
      holds_orders = ground (arith, (fits.ladders side).occupied i lt, on);
      level_price = (fits.ladders side).priced i lt on;
      none_better = λ j j_in h. empty_at j j_in (ahead j j_in h);
    }

-- In a well-formed book, the best bid is the price of the highest level of the bids that holds orders,
-- and the best ask that of the lowest level of the asks; there is none only where no level holds
-- orders.
pub array_best-IsBestPrice :
    (b : OrderBookArray)
    → IsArrayBook b
    → IsBestPrice buy b (array_best_bid b) × IsBestPrice sell b (array_best_ask b)
unfolding array_best_bid array_best_ask
array_best-IsBestPrice b fits = (price_at-IsBestPrice buy b fits, price_at-IsBestPrice sell b fits)
