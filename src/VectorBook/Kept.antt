-- ===== src/VectorBook/Kept.antt =====
-- The order of the levels of the vector book across add_order and cancel_order.
use lightning_lob.Pool
use lightning_lob.IdIndexMap
use lightning_lob.VectorBook.{
  OrderBookVector, vector_add_order, vector_cancel_order, vector_cancel_at, vector_rest_order,
  match_front, vector_side, LevelVector, VectorMatching, level_at, find_position, erase_at,
  insert_at, vector_match_round, vector_match_loop, vector_conclude, vector_submit,
  vector_match_against_book, vector_round_of, vector_has_liquidity_for, vector_crosses,
}
use lightning_lob.VectorBook.Cancels.{IsSortedBook, price-level_unlink}
use lightning_lob.VectorBook.Adds.{pushed_at, price-level_push_back}
use lightning_lob.VectorBook.Positions.{
  Placed, level_at-Placed, price-Placed, insert-entries, get-Placed,
}
use lightning_lob.Drain.{Round, finished, killed, again, Setting, Sweep, drain, proceed}
use lightning_lob.Base.{
  [], ◌∷◌, true, false, zero, suc, none, some, inl, inr, refl, ℕ, Option-cases, if◌then◌else◌,
  subst, Option, set, Bool-cases, All, ◌≡◌, ◌∙◌, sym, Bool, ◌&&◌, not, ◌||◌, ◌==◌, length,
}
use lightning_lob.Pool.{PriceLevel, new_level, level_empty, OrderPool}
use lightning_lob.Order.{Order, opposite, is_fok, is_limit, price_ok, rests_in_book}
use lightning_lob.Types.{Timestamp, invalid_order_id}
use lightning_lob.Base.Int.{◌-ℤ◌, eqb_ℤ, pos, leb_ℤ, ltb_ℤ}
use lightning_lob.VectorBook.Agreement.{Sorted}
use lightning_lob.Drain.Prices.{drain-price}
use lightning_lob.VectorBook.Sorting.{
  erase_at-Sorted, set-Sorted, set_vector_side-IsSortedBook, insert_at-Sorted,
}
use lightning_lob.MapBook.{before, as_taker}
use lightning_lob.VectorBook.Matching.{vector_next}

cancel_at-IsSortedBook :
    (b : OrderBookVector) (id idx : ℕ) (level : PriceLevel)
    → (let o = (Pool.node b.pool idx).order in
        Placed o.side o.price (vector_side o.side b) (some level))
    → IsSortedBook b
    → IsSortedBook (vector_cancel_at b id idx level)
unfolding vector_cancel_at
cancel_at-IsSortedBook b id idx level placed sorted =
    let o = (Pool.node b.pool idx).order in
    let ls = vector_side o.side b in
    let start : PriceLevel = record level {
      total_quantity = level.total_quantity -ℤ o.remaining_quantity;
    } in
    let (after, pool) = Pool.level_unlink start b.pool idx in
    let i = find_position o.side o.price ls in
    let left : Sorted o.side (if level_empty after then erase_at i ls else set ls i after) =
      elim (Bool-cases (level_empty after)) [
        | inl e ↦ rw e (erase_at-Sorted o.side ls i (sorted o.side))
        | inr e ↦ rw e (
            set-Sorted o.side o.price ls level after placed
              (price-level_unlink start b.pool idx ∙ price-Placed o.side o.price ls level placed)
              (sorted o.side))
      ] in
    set_vector_side-IsSortedBook o.side _ b (Pool.release pool idx)
      (IdIndexMap.erase b.id_index id).1 sorted left

pub vector_cancel_order-IsSortedBook :
    (b : OrderBookVector) (id : ℕ) → IsSortedBook b → IsSortedBook (vector_cancel_order b id).1
unfolding vector_cancel_order
vector_cancel_order-IsSortedBook b id sorted = elim (Option-cases (IdIndexMap.find b.id_index id)) [
  | inl e ↦ rw (vector_cancel_order, e) sorted
  | inr (idx, e) ↦
      let o = (Pool.node b.pool idx).order in
      let ls = vector_side o.side b in
      elim (Option-cases (level_at o.side o.price ls)) [
        | inl f ↦ rw (vector_cancel_order, e, f) sorted
        | inr (level, f) ↦
            let placed : Placed o.side o.price ls (some level) =
              subst (Placed o.side o.price ls) f (level_at-Placed o.side o.price ls) in
            rw (vector_cancel_order, e, f) (cancel_at-IsSortedBook b id idx level placed sorted)
      ]
]

rest_order-IsSortedBook :
    (b : OrderBookVector) (o : Order) → IsSortedBook b → IsSortedBook (vector_rest_order b o)
unfolding vector_rest_order
rest_order-IsSortedBook b o sorted =
    cases (level_at o.side o.price ls) (level_at-Placed o.side o.price ls)
  where
    ls : LevelVector
    ls = vector_side o.side b

    i : ℕ
    i = find_position o.side o.price ls

    fresh : PriceLevel
    fresh = record new_level { price = o.price }

    idx : ℕ
    idx = (Pool.acquire b.pool o).0

    pool : OrderPool
    pool = (Pool.acquire b.pool o).1

    cases :
        (found : Option PriceLevel)
        → Placed o.side o.price ls found
        → IsSortedBook (
            pushed_at b o.side o.price pool idx
              (IdIndexMap.insert b.id_index o.id idx).1
              (elim found [ none ↦ insert_at i fresh ls | some l ↦ ls ])
              i)
    cases none placed =
        let got = (insert-entries o.side o.price ls fresh placed refl).0 in
        let (level, q) = Pool.level_push_back fresh pool idx in
        rw got (
          set_vector_side-IsSortedBook o.side _ b q (IdIndexMap.insert b.id_index o.id idx).1 sorted
            (insert_at-Sorted o.side o.price ls fresh level placed refl
              (price-level_push_back fresh pool idx) (sorted o.side)))
    cases (some l) placed =
        let got = (get-Placed o.side o.price ls l placed).0 in
        let (level, q) = Pool.level_push_back l pool idx in
        rw got (
          set_vector_side-IsSortedBook o.side _ b q (IdIndexMap.insert b.id_index o.id idx).1 sorted
            (set-Sorted o.side o.price ls l level placed
              (price-level_push_back l pool idx ∙ price-Placed o.side o.price ls l placed)
              (sorted o.side)))

match_front-IsSortedBook :
    (clock : ℕ → Timestamp) (m : VectorMatching) (level : PriceLevel) (rest : LevelVector)
    → Sorted (opposite m.taker.side) (level ∷ rest)
    → IsSortedBook m.book
    → IsSortedBook (match_front clock m level rest).0.book
unfolding match_front
match_front-IsSortedBook clock m level rest s sorted =
    let book = m.book in
    let setting : Setting = record {
      stp_policy = book.stp_policy;
      symbol = book.symbol;
      clock = clock;
    } in
    let start : Sweep = record {
      taker = m.taker;
      level = level;
      pool = book.pool;
      id_index = book.id_index;
      trades = m.trades;
    } in
    let swept = (drain (suc level.order_count) setting level.price start).0 in
    let side = opposite m.taker.side in
    let price = drain-price (suc level.order_count) setting level.price start in
    let left : Sorted side (if level_empty swept.level then rest else swept.level ∷ rest) =
      elim (Bool-cases (level_empty swept.level)) [
        | inl e ↦ rw e s.1
        | inr e ↦ rw e (
          subst (λ q. All (λ (k : PriceLevel). before side q k.price ≡ true) rest) (sym price) s.0,
          s.1,
        )
      ] in
    set_vector_side-IsSortedBook side _ book swept.pool swept.id_index sorted left

-- What a round gives, if it gives anything, is sorted.
abbrev RoundSorted : Round VectorMatching → Type 0
RoundSorted finished = Unit
RoundSorted (killed m) = IsSortedBook m.book
RoundSorted (again m) = IsSortedBook m.book

match_round-RoundSorted :
    (clock : ℕ → Timestamp) (m : VectorMatching)
    → IsSortedBook m.book
    → RoundSorted (vector_match_round clock m)
unfolding vector_match_round
match_round-RoundSorted clock m sorted =
    elim (Bool-cases (ltb_ℤ (pos 0) m.taker.remaining_quantity)) [
      | inl e ↦
          rw e (next (vector_side (opposite m.taker.side) m.book) (sorted (opposite m.taker.side)))
      | inr e ↦ rw e tt
    ]
  where
    leaves : (r : VectorMatching × Bool) → IsSortedBook r.0.book → RoundSorted (vector_round_of r)
    leaves (n, true) s = s
    leaves (n, false) s = s

    next :
        (ls : LevelVector)
        → Sorted (opposite m.taker.side) ls
        → RoundSorted (vector_next clock m ls)
    next [] s = tt
    next (level ∷ rest) s =
        elim (Bool-cases
          (is_limit m.taker.type && not (price_ok m.taker.side m.taker.price level.price))) [
            | inl e ↦ rw e tt
            | inr e ↦ rw e (
                leaves (match_front clock m level rest)
                  (match_front-IsSortedBook clock m level rest s sorted))
          ]

match_loop-IsSortedBook :
    (rounds : ℕ) (clock : ℕ → Timestamp) (m : VectorMatching)
    → IsSortedBook m.book
    → IsSortedBook (vector_match_loop rounds clock m).0.book
unfolding vector_match_loop
match_loop-IsSortedBook zero clock m sorted = sorted
match_loop-IsSortedBook (suc rounds) clock m sorted =
    cases (vector_match_round clock m) (match_round-RoundSorted clock m sorted)
      (match_loop-IsSortedBook rounds clock)
  where
    cases :
        (r : Round VectorMatching)
        → RoundSorted r
        → ((n : VectorMatching)
            → IsSortedBook n.book
            → IsSortedBook (vector_match_loop rounds clock n).0.book)
        → IsSortedBook (proceed m (λ n. vector_match_loop rounds clock n) r).0.book
    cases finished s next = sorted
    cases (killed n) s next = s
    cases (again n) s next = next n s

conclude-IsSortedBook :
    (o : Order) (m : VectorMatching) (stp_killed : Bool)
    → IsSortedBook m.book
    → IsSortedBook (vector_conclude o m stp_killed).book
unfolding vector_conclude
conclude-IsSortedBook o m stp_killed sorted =
    elim (Bool-cases (eqb_ℤ m.taker.remaining_quantity (pos 0))) [
      | inl e ↦ rw e sorted
      | inr e ↦ elim (Bool-cases (not stp_killed && rests_in_book m.taker)) [
        | inl f ↦ rw (e, f) (rest_order-IsSortedBook m.book m.taker sorted)
        | inr f ↦ rw (e, f) sorted
      ]
    ]

submit-IsSortedBook :
    (clock : ℕ → Timestamp) (b : OrderBookVector) (o : Order)
    → IsSortedBook b
    → IsSortedBook (vector_submit clock b o).book
unfolding vector_submit vector_match_against_book
submit-IsSortedBook clock b o sorted =
    let taker = as_taker o in
    let m : VectorMatching = record { taker = taker; book = b; trades = [] } in
    let r = vector_match_against_book clock b taker in
    elim (Bool-cases
      (not (is_limit o.type) || (is_fok o.time_in_force || vector_crosses b taker))) [
        | inl e ↦ rw e (
            conclude-IsSortedBook o r.0 r.1 (
              match_loop-IsSortedBook (suc (length (vector_side (opposite o.side) b))) clock m
                sorted))
        | inr e ↦ rw e (conclude-IsSortedBook o m false sorted)
      ]

-- A call of add_order keeps the levels sorted, whatever the order is.
pub vector_add_order-IsSortedBook :
    (clock : ℕ → Timestamp) (b : OrderBookVector) (o : Order)
    → IsSortedBook b
    → IsSortedBook (vector_add_order clock b o).book
unfolding vector_add_order
vector_add_order-IsSortedBook clock b o sorted =
    let fok_fails =
      is_fok o.time_in_force && not (vector_has_liquidity_for b o.side o.type o.price o.quantity) in
    elim (Bool-cases (leb_ℤ o.quantity (pos 0))) [
      | inl e ↦ rw e sorted
      | inr e ↦ elim (Bool-cases (is_limit o.type && leb_ℤ o.price (pos 0))) [
        | inl f ↦ rw (e, f) sorted
        | inr f ↦
            elim (Bool-cases
              (not (o.id == invalid_order_id) && IdIndexMap.contains b.id_index o.id)) [
                | inl g ↦ rw (e, f, g) sorted
                | inr g ↦ elim (Bool-cases fok_fails) [
                  | inl h ↦ rw (e, f, g, h) sorted
                  | inr h ↦ rw (e, f, g, h) (submit-IsSortedBook clock b o sorted)
                ]
              ]
      ]
    ]
