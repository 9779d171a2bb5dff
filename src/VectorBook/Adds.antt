-- ===== src/VectorBook/Adds.antt =====
-- add_order of the vector book against that of the map book.
use lightning_lob.Types.{new, cancelled, partially_filled, no_reason, OrderStatus, invalid_order_id}
use lightning_lob.Pool
use lightning_lob.IdIndexMap
use lightning_lob.MapBook.{
  Outcome, rest_order, conclude, add_order, submit, level_or_new, Levels, OrderBookMap, find_level,
  set_side_levels, emplace_level, set_level, best_price, crosses, as_taker, side_levels, report,
  tries_match, has_liquidity_for, Matching, refuse,
}
use lightning_lob.VectorBook.{
  OrderBookVector, vector_rest_order, vector_conclude, LevelVector, vector_side, set_vector_side,
  level_at, find_position, front_price, vector_crosses, VectorMatching, vector_submit,
  vector_add_order, insert_at, vector_has_liquidity_for, vector_match_against_book, vector_refuse,
}
use lightning_lob.VectorBook.Agreement.{
  as_map, entries, side_levels-as_map, vector_has_liquidity_for-as_map,
}
use lightning_lob.VectorBook.Positions.{
  Placed, level_at-Placed, insert-entries, get-Placed, price-Placed, set-entries,
}
use lightning_lob.Base.{
  [], ◌∷◌, false, none, some, inl, inr, refl, ◌≡◌, ℕ, get_elem?, Option, set, ◌∙◌, ap, sym, Bool,
  if◌then◌else◌, Bool-cases, not, subst, ◌||◌, ◌&&◌, ◌==◌,
}
use lightning_lob.Engine.{Answer}
use lightning_lob.Pool.{PriceLevel, OrderPool, new_level}
use lightning_lob.Types.{Side, Price, Timestamp, partially_filled, no_reason}
use lightning_lob.Order.{Order, opposite, price_ok, is_limit, is_fok, rests_in_book}
use lightning_lob.VectorBook.Matching.{
  as_map-set_vector_side, as_matching, vector_match_against_book-as_map,
}
use lightning_lob.Base.Int.{◌-ℤ◌, ltb_ℤ, pos, eqb_ℤ, leb_ℤ}
use lightning_lob.IdIndexMap.{}

abbrev pub as_outcome : Answer OrderBookVector → Outcome
as_outcome a = record { report = a.report; book = as_map a.book; trades = a.trades }

pub price-level_push_back :
    (level : PriceLevel) (pool : OrderPool) (idx : ℕ)
    → (Pool.level_push_back level pool idx).0.price ≡ level.price
unfolding Pool.level_push_back
price-level_push_back level pool idx = refl

-- A push on the level at a position, and on the level that the map finds.
module _ (b : OrderBookVector) (side : Side) (p : Price) (pool : OrderPool) (idx : ℕ)
    (id_index : IdIndexMap.IdIndexMap) where
  abbrev pub pushed_at : (placed : LevelVector) → ℕ → OrderBookVector
  pushed_at placed i =
      let (level, q) = Pool.level_push_back (level_or_new (get_elem? placed i)) pool idx in
      set_vector_side side (set placed i level) (record b { pool = q; id_index = id_index })

  abbrev pushed_on : Levels → OrderBookMap
  pushed_on levels =
      let (level, q) = Pool.level_push_back (level_or_new (find_level p levels)) pool idx in
      set_side_levels side (set_level p level levels)
        (record (as_map b) { pool = q; id_index = id_index })

  pushed-as_map :
      (placed : LevelVector) (i : ℕ) (levels : Levels) (l : PriceLevel)
      → get_elem? placed i ≡ some l
      → find_level p levels ≡ some l
      → l.price ≡ p
      → ((after : PriceLevel)
          → after.price ≡ p
          → entries (set placed i after) ≡ set_level p after levels)
      → as_map (pushed_at placed i) ≡ pushed_on levels
  pushed-as_map placed i levels l got finds price written =
      let (level, q) = Pool.level_push_back l pool idx in
      rw (got, finds)
        (as_map-set_vector_side side (set placed i level)
            (record b { pool = q; id_index = id_index })
          ∙ ap (λ ls. set_side_levels side ls (record (as_map b) { pool = q; id_index = id_index }))
              (written level (price-level_push_back l pool idx ∙ price)))

pub vector_rest_order-as_map :
    (b : OrderBookVector) (o : Order) → as_map (vector_rest_order b o) ≡ rest_order (as_map b) o
unfolding vector_rest_order rest_order
vector_rest_order-as_map b o =
    cases (level_at o.side o.price ls) (level_at-Placed o.side o.price ls)
    ∙ ap (λ levels. pushed_on b o.side o.price pool idx index (emplace_level o.side o.price levels))
        (sym (side_levels-as_map o.side b))
  where
    ls : LevelVector
    ls = vector_side o.side b

    i : ℕ
    i = find_position o.side o.price ls

    fresh : PriceLevel
    fresh = record new_level { price = o.price }

    idx : ℕ
    idx = (Pool.acquire b.pool o).0

    pool : OrderPool
    pool = (Pool.acquire b.pool o).1

    index : IdIndexMap.IdIndexMap
    index = (IdIndexMap.insert b.id_index o.id idx).1

    cases :
        (found : Option PriceLevel)
        → Placed o.side o.price ls found
        → as_map (
            pushed_at b o.side o.price pool idx index
              (elim found [ none ↦ insert_at i fresh ls | some l ↦ ls ])
              i)
          ≡ pushed_on b o.side o.price pool idx index (emplace_level o.side o.price (entries ls))
    cases none placed =
        let (got, finds, _) = insert-entries o.side o.price ls fresh placed refl in
        pushed-as_map b o.side o.price pool idx index (insert_at i fresh ls) i
          (emplace_level o.side o.price (entries ls)) fresh got finds refl
          (λ after at. (insert-entries o.side o.price ls after placed at).2)
    cases (some l) placed =
        let (got, finds, kept) = get-Placed o.side o.price ls l placed in
        subst
          (λ levels.
            as_map (pushed_at b o.side o.price pool idx index ls i)
            ≡ pushed_on b o.side o.price pool idx index levels)
          (sym kept)
          (pushed-as_map b o.side o.price pool idx index ls i (entries ls) l got finds
            (price-Placed o.side o.price ls l placed)
            (λ after at. set-entries o.side o.price ls l after placed at))

-- The tests that both books make on the same levels.
front_price-entries : (ls : LevelVector) → front_price ls ≡ best_price (entries ls)
front_price-entries [] = refl
front_price-entries (l ∷ rest) = refl

vector_crosses-as_map :
    (b : OrderBookVector) (o : Order) → vector_crosses b o ≡ crosses (as_map b) o
unfolding vector_crosses crosses
vector_crosses-as_map b o =
    let side = opposite o.side in
    let same : front_price (vector_side side b) ≡ best_price (side_levels side (as_map b)) =
      front_price-entries (vector_side side b) ∙ ap best_price (sym (side_levels-as_map side b)) in
    ap (λ (best : Option Price). elim best [ none ↦ false | some q ↦ price_ok o.side o.price q ])
      same

vector_conclude-as_map :
    (o : Order) (m : VectorMatching) (stp_killed : Bool)
    → as_outcome (vector_conclude o m stp_killed) ≡ conclude o (as_matching m) stp_killed
unfolding vector_conclude conclude
vector_conclude-as_map o m stp_killed =
    let left = m.taker.remaining_quantity in
    let done = o.quantity -ℤ left in
    let status : OrderStatus = if ltb_ℤ (pos 0) done then partially_filled else new in
    elim (Bool-cases (eqb_ℤ left (pos 0))) [
      | inl e ↦ rw e refl
      | inr e ↦ elim (Bool-cases (not stp_killed && rests_in_book m.taker)) [
        | inl f ↦
            rw (e, f)
              (ap
                (λ (b : OrderBookMap). record {
                  report = report o.id status done left no_reason;
                  book = b;
                  trades = m.trades;
                })
                (vector_rest_order-as_map m.book m.taker))
        | inr f ↦ rw (e, f) refl
      ]
    ]

vector_submit-as_map :
    (clock : ℕ → Timestamp) (b : OrderBookVector) (o : Order)
    → as_outcome (vector_submit clock b o) ≡ submit clock (as_map b) o
unfolding vector_submit submit
vector_submit-as_map clock b o =
    let taker = as_taker o in
    let same : tries_match (as_map b) taker
        ≡ (not (is_limit o.type) || (is_fok o.time_in_force || vector_crosses b taker)) =
      ap (λ c. not (is_limit o.type) || (is_fok o.time_in_force || c))
        (sym (vector_crosses-as_map b taker)) in
    let start : VectorMatching = record { taker = taker; book = b; trades = [] } in
    let r = vector_match_against_book clock b taker in
    elim (Bool-cases
      (not (is_limit o.type) || (is_fok o.time_in_force || vector_crosses b taker))) [
        | inl e ↦
            rw (e, same ∙ e)
              (vector_conclude-as_map o r.0 r.1
                ∙ ap (λ (k : Matching × Bool). conclude o k.0 k.1)
                    (vector_match_against_book-as_map clock b taker))
        | inr e ↦ rw (e, same ∙ e) (vector_conclude-as_map o start false)
      ]

-- A call of add_order on the vector book does what it does on the map book with the same levels:
-- the report and the trades are the same, and so are the levels, the pool and the index afterwards.
pub vector_add_order-as_map :
    (clock : ℕ → Timestamp) (b : OrderBookVector) (o : Order)
    → as_outcome (vector_add_order clock b o) ≡ add_order clock (as_map b) o
unfolding vector_add_order add_order
vector_add_order-as_map clock b o =
    let has = vector_has_liquidity_for-as_map b o.side o.type o.price o.quantity in
    elim (Bool-cases (leb_ℤ o.quantity (pos 0))) [
      | inl e ↦ rw e refl
      | inr e ↦ elim (Bool-cases (is_limit o.type && leb_ℤ o.price (pos 0))) [
        | inl f ↦ rw (e, f) refl
        | inr f ↦
            elim (Bool-cases
              (not (o.id == invalid_order_id) && IdIndexMap.contains b.id_index o.id)) [
                | inl g ↦ rw (e, f, g) refl
                | inr g ↦ rw (e, f, g) (fill_or_kill has)
              ]
      ]
    ]
  where
    fill_or_kill :
        vector_has_liquidity_for b o.side o.type o.price o.quantity
          ≡ has_liquidity_for (as_map b) o.side o.type o.price o.quantity
        → as_outcome (
            if is_fok o.time_in_force
              && not (vector_has_liquidity_for b o.side o.type o.price o.quantity)
            then vector_refuse b o.id cancelled no_reason
            else vector_submit clock b o)
          ≡ (if is_fok o.time_in_force
                && not (has_liquidity_for (as_map b) o.side o.type o.price o.quantity)
              then refuse (as_map b) o.id cancelled no_reason
              else submit clock (as_map b) o)
    fill_or_kill has =
        let test = λ (c : Bool). is_fok o.time_in_force && not c in
        elim (Bool-cases (test (vector_has_liquidity_for b o.side o.type o.price o.quantity))) [
          | inl e ↦ rw (e, ap test (sym has) ∙ e) refl
          | inr e ↦ rw (e, ap test (sym has) ∙ e) (vector_submit-as_map clock b o)
        ]
