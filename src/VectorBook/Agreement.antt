-- ===== src/VectorBook/Agreement.antt =====
-- What the vector book says of its levels, against the map book on the same levels.
use lightning_lob.MapBook.{
  OrderBookMap, liquidity, has_liquidity_for, find_level, Levels, side_levels, before,
}
use lightning_lob.VectorBook.{
  OrderBookVector, vector_side, vector_liquidity, vector_has_liquidity_for, find_position, level_at,
  LevelVector, at_price,
}
use lightning_lob.Types.{buy, sell, Side, OrderType, Price, Quantity}
use lightning_lob.Base.{
  [], ◌∷◌, true, false, suc, none, some, refl, arith, ◌≡◌, ◌∙◌, ap, sym, ℕ, Bool, get_elem?,
  if◌then◌else◌, All, All-map,
}
use lightning_lob.Pool.{PriceLevel}
use lightning_lob.Base.Int.{◌+ℤ◌, pos, eqb_ℤ}
use lightning_lob.Order.{opposite}

-- The entries of a map that hold the levels, each under its own price.
abbrev pub entries : LevelVector → Levels
entries [] = []
entries (l ∷ rest) = (l.price, l) ∷ entries rest

abbrev pub as_map : OrderBookVector → OrderBookMap
as_map b = record {
  symbol = b.symbol;
  bids = entries b.bids;
  asks = entries b.asks;
  pool = b.pool;
  id_index = b.id_index;
  stp_policy = b.stp_policy;
}

liquidity-entries :
    (side : Side) (type : OrderType) (limit_price : Price) (needed accumulated : Quantity)
    (ls : LevelVector)
    → vector_liquidity side type limit_price needed accumulated ls
      ≡ liquidity side type limit_price needed accumulated (entries ls)
unfolding vector_liquidity liquidity
liquidity-entries side type limit_price needed accumulated [] = refl
liquidity-entries side type limit_price needed accumulated (l ∷ rest) =
    rw (liquidity-entries side type limit_price needed (accumulated +ℤ l.total_quantity) rest)

pub side_levels-as_map :
    (side : Side) (b : OrderBookVector) → side_levels side (as_map b) ≡ entries (vector_side side b)
side_levels-as_map buy b = refl
side_levels-as_map sell b = refl

-- The fill-or-kill test of the vector book is that of the map book on the same levels.
pub vector_has_liquidity_for-as_map :
    (b : OrderBookVector) (side : Side) (type : OrderType) (limit_price : Price) (needed : Quantity)
    → vector_has_liquidity_for b side type limit_price needed
      ≡ has_liquidity_for (as_map b) side type limit_price needed
unfolding vector_has_liquidity_for has_liquidity_for
vector_has_liquidity_for-as_map b side type limit_price needed =
    liquidity-entries side type limit_price needed (pos 0) (vector_side (opposite side) b)
    ∙ ap (liquidity side type limit_price needed (pos 0))
        (sym (side_levels-as_map (opposite side) b))

-- The levels stand strictly in the order of the side.
abbrev pub Sorted : Side → LevelVector → Type 0
Sorted side [] = Unit {0}
Sorted side (l ∷ rest) =
    All (λ (k : PriceLevel). before side l.price k.price ≡ true) rest × Sorted side rest

behind_not_eq : (side : Side) (p q : Price) → before side p q ≡ true → eqb_ℤ q p ≡ false
behind_not_eq buy p q h = ground arith
behind_not_eq sell p q h = ground arith

pub ahead_not_eq : (side : Side) (p q : Price) → before side p q ≡ true → eqb_ℤ p q ≡ false
ahead_not_eq buy p q h = ground arith
ahead_not_eq sell p q h = ground arith

before_trans :
    (side : Side) (l p k : Price)
    → before side l p ≡ false
    → eqb_ℤ l p ≡ false
    → before side l k ≡ true
    → before side p k ≡ true
before_trans buy l p k h e b = ground arith
before_trans sell l p k h e b = ground arith

-- Past the price there is no level of it.
find_level-behind :
    (side : Side) (p : Price) (ls : LevelVector)
    → All (λ (k : PriceLevel). before side p k.price ≡ true) ls
    → find_level p (entries ls) ≡ none
unfolding find_level
find_level-behind side p [] h = refl
find_level-behind side p (k ∷ rest) h =
    rw (behind_not_eq side p k.price h.0) (find_level-behind side p rest h.1)

-- In a sorted vector the search by position finds the level that a map of the same levels has.
pub level_at-entries :
    (side : Side) (p : Price) (ls : LevelVector)
    → Sorted side ls
    → level_at side p ls ≡ find_level p (entries ls)
unfolding level_at find_position find_level
level_at-entries side p [] sorted = refl
level_at-entries side p (l ∷ rest) sorted =
    cases (before side l.price p) (eqb_ℤ l.price p) refl refl
      (level_at-entries side p rest sorted.1)
  where
    n : ℕ
    n = find_position side p rest

    cases :
        (ahead here : Bool)
        → before side l.price p ≡ ahead
        → eqb_ℤ l.price p ≡ here
        → at_price p (get_elem? rest n) ≡ find_level p (entries rest)
        → at_price p (get_elem? (l ∷ rest) (if ahead then suc n else 0))
          ≡ (if here then some l else find_level p (entries rest))
    cases true here h e hyp = rw (sym e ∙ ahead_not_eq side l.price p h) hyp
    cases false true h e hyp = rw e refl
    cases false false h e hyp = rw e (
        sym (
          find_level-behind side p rest
            (All-map (λ k b. before_trans side l.price p k.price h e b) rest sorted.0)))
