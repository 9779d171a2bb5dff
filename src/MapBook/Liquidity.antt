-- ===== src/MapBook/Liquidity.antt =====
-- The fill-or-kill test against the sum that it stands for.
use lightning_lob.MapBook.{liquidity, has_liquidity_for, side_levels, OrderBookMap, Levels}
use lightning_lob.Base.Int.{int_laws, pos, ◌≤ℤ◌, ◌<ℤ◌, ◌+ℤ◌, leb_ℤ, leb_ℤ→lt, leb_ℤ→le}
use lightning_lob.Base.{
  [], ◌∷◌, true, inl, inr, refl, arith, if◌then◌else◌, Bool-cases, ◌&&◌, ◌≡◌, not, ◌↔◌, All,
}
use lightning_lob.Types.{Side, Price, OrderType, Quantity}
use lightning_lob.Pool.{PriceLevel}
use lightning_lob.Order.{is_limit, opposite, price_ok}

-- What the levels hold at prices that the limit admits, up to the first that it does not admit.
unfoldable pub available : Side → OrderType → Price → Levels → Quantity
available side type limit_price [] = pos 0
available side type limit_price ((p, l) ∷ rest) =
    let more = available side type limit_price rest in
    if is_limit type && not (price_ok side limit_price p) then pos 0 else l.total_quantity +ℤ more

abbrev pub HasTotal : Price × PriceLevel → Type 0
HasTotal (p, l) = pos 0 ≤ℤ l.total_quantity

available-nonneg :
    (side : Side) (type : OrderType) (limit_price : Price) (ls : Levels)
    → All HasTotal ls
    → pos 0 ≤ℤ available side type limit_price ls
unfolding available
available-nonneg side type limit_price [] h = omega arith
available-nonneg side type limit_price ((p, l) ∷ rest) h =
    elim (Bool-cases (is_limit type && not (price_ok side limit_price p))) [
      | inl e ↦ rw e (omega arith)
      | inr e ↦ rw e (
          let more = available-nonneg side type limit_price rest h.1 in
          let here = h.0 in omega int_laws)
    ]

liquidity_iff :
    (side : Side) (type : OrderType) (limit_price : Price) (needed accumulated : Quantity)
    (ls : Levels)
    → All HasTotal ls
    → accumulated <ℤ needed
    → (liquidity side type limit_price needed accumulated ls ≡ true)
      ↔ (needed ≤ℤ accumulated +ℤ available side type limit_price ls)
unfolding liquidity available
liquidity_iff side type limit_price needed accumulated [] h lt =
    (λ e. absurd (ground arith), λ e. absurd (omega int_laws))
liquidity_iff side type limit_price needed accumulated ((p, l) ∷ rest) h lt =
    elim (Bool-cases (is_limit type && not (price_ok side limit_price p))) [
      | inl e ↦ rw e (λ c. absurd (ground arith), λ c. absurd (omega int_laws))
      | inr e ↦ rw e (elim (Bool-cases (leb_ℤ needed (accumulated +ℤ l.total_quantity))) [
        | inl k ↦ rw k (
            let more = available-nonneg side type limit_price rest h.1 in
            let enough = leb_ℤ→le needed (accumulated +ℤ l.total_quantity) k in
            (λ _. omega int_laws, λ _. refl))
        | inr k ↦ rw k (
            let (to, from) =
              liquidity_iff side type limit_price needed (accumulated +ℤ l.total_quantity) rest h.1
                (leb_ℤ→lt needed (accumulated +ℤ l.total_quantity) k) in
            (λ c. let t = to c in omega int_laws, λ c. from (omega int_laws)))
      ])
    ]

-- In a book whose totals are not negative, the test for a positive quantity passes exactly when the
-- admitted levels of the other side hold that quantity together.
pub has_liquidity_for_iff :
    (b : OrderBookMap) (side : Side) (type : OrderType) (limit_price : Price) (needed : Quantity)
    → All HasTotal (side_levels (opposite side) b)
    → pos 0 <ℤ needed
    → (has_liquidity_for b side type limit_price needed ≡ true)
      ↔ (needed ≤ℤ available side type limit_price (side_levels (opposite side) b))
unfolding has_liquidity_for
has_liquidity_for_iff b side type limit_price needed h lt =
    let (to, from) =
      liquidity_iff side type limit_price needed (pos 0) (side_levels (opposite side) b) h lt in
    (λ c. let t = to c in omega int_laws, λ c. from (omega int_laws))
