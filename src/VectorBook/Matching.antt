-- ===== src/VectorBook/Matching.antt =====
-- Matching in the vector book, against the map book on the same levels.
use lightning_lob.Types.{buy, sell, Price}
use lightning_lob.MapBook.{
  Matching, match_level, match_round, match_loop, side_levels, set_side_levels, erase_level,
  set_level, round_of, Levels, match_against_book,
}
use lightning_lob.VectorBook.{
  VectorMatching, match_front, vector_match_round, vector_match_loop, LevelVector, OrderBookVector,
  set_vector_side, vector_round_of, vector_side, vector_match_against_book,
}
use lightning_lob.VectorBook.Agreement.{as_map, entries, side_levels-as_map}
use lightning_lob.Drain.{Round, finished, killed, again, Setting, Sweep, drain, proceed}
use lightning_lob.Base.{
  [], ◌∷◌, true, false, zero, suc, inl, inr, refl, arith, ℕ, length, ◌≡◌, ap, if◌then◌else◌,
  Bool-cases, ◌∙◌, Bool, ◌&&◌, not, sym,
}
use lightning_lob.Types.{Side, Timestamp}
use lightning_lob.Pool.{PriceLevel, level_empty}
use lightning_lob.Order.{opposite, is_limit, Order, price_ok}
use lightning_lob.Base.Int.{eqb_ℤ, ltb_ℤ, pos}
use lightning_lob.Drain.Prices.{drain-price}

abbrev pub as_matching : VectorMatching → Matching
as_matching m = record { taker = m.taker; book = as_map m.book; trades = m.trades }

abbrev pub as_round : Round VectorMatching → Round Matching
as_round finished = finished
as_round (killed m) = killed (as_matching m)
as_round (again m) = again (as_matching m)

-- A write to one side of the levels.
pub as_map-set_vector_side :
    (side : Side) (ls : LevelVector) (b : OrderBookVector)
    → as_map (set_vector_side side ls b) ≡ set_side_levels side (entries ls) (as_map b)
as_map-set_vector_side buy ls b = refl
as_map-set_vector_side sell ls b = refl

pub length-entries : (ls : LevelVector) → length (entries ls) ≡ length ls
length-entries [] = refl
length-entries (l ∷ ls) = ap suc (length-entries ls)

-- What becomes of the front level.
front-entries :
    (level after : PriceLevel) (rest : LevelVector)
    → after.price ≡ level.price
    → entries (if level_empty after then rest else after ∷ rest) ≡ (
        if level_empty after
        then erase_level level.price (entries (level ∷ rest))
        else set_level level.price after (entries (level ∷ rest)))
unfolding erase_level set_level
front-entries level after rest e =
    let same : eqb_ℤ level.price level.price ≡ true = ground arith in
    elim (Bool-cases (level_empty after)) [
      | inl gone ↦ rw (gone, same) refl
      | inr left ↦ rw (left, same) (ap (λ p. (p, after) ∷ entries rest) e)
    ]

match_front-as_map :
    (clock : ℕ → Timestamp) (m : VectorMatching) (level : PriceLevel) (rest : LevelVector)
    → side_levels (opposite m.taker.side) (as_map m.book) ≡ entries (level ∷ rest)
    → (let (r, stp_killed) = match_front clock m level rest in
        (as_matching r, stp_killed) ≡ match_level clock (as_matching m) level.price level)
unfolding match_front match_level
match_front-as_map clock m level rest at =
    let book = m.book in
    let side = opposite m.taker.side in
    let setting : Setting = record {
      stp_policy = book.stp_policy;
      symbol = book.symbol;
      clock = clock;
    } in
    let start : Sweep = record {
      taker = m.taker;
      level = level;
      pool = book.pool;
      id_index = book.id_index;
      trades = m.trades;
    } in
    let d = drain (suc level.order_count) setting level.price start in
    let s = d.0 in
    let left = if level_empty s.level then rest else s.level ∷ rest in
    let wanted =
      front-entries level s.level rest
        (drain-price (suc level.order_count) setting level.price start) in
    let c : OrderBookVector = record book { pool = s.pool; id_index = s.id_index } in
    let same : as_map (set_vector_side side left c)
        ≡ set_side_levels side
            (if level_empty s.level
              then erase_level level.price (side_levels side (as_map m.book))
              else set_level level.price s.level (side_levels side (as_map m.book)))
            (as_map c) =
      as_map-set_vector_side side left c
      ∙ ap (λ ls. set_side_levels side ls (as_map c)) (rw at wanted) in
    ap (λ b. (record { taker = s.taker; book = b; trades = s.trades }, d.1)) same

on_round :
    (r : VectorMatching × Bool) → as_round (vector_round_of r) ≡ round_of (as_matching r.0, r.1)
on_round (m, true) = refl
on_round (m, false) = refl

-- One round of the outer loop, on the levels of the other side.
module _ (clock : ℕ → Timestamp) (m : VectorMatching) where
  abbrev pub stops_at : Price → Bool
  stops_at p = is_limit m.taker.type && not (price_ok m.taker.side m.taker.price p)

  abbrev pub vector_next : LevelVector → Round VectorMatching
  vector_next [] = finished
  vector_next (level ∷ rest) =
      if stops_at level.price then finished else vector_round_of (match_front clock m level rest)

  abbrev map_next : Levels → Round Matching
  map_next [] = finished
  map_next ((p, level) ∷ _) =
      if stops_at p then finished else round_of (match_level clock (as_matching m) p level)

  next-as_map :
      (ls : LevelVector)
      → side_levels (opposite m.taker.side) (as_map m.book) ≡ entries ls
      → as_round (vector_next ls) ≡ map_next (entries ls)
  next-as_map [] at = refl
  next-as_map (level ∷ rest) at = elim (Bool-cases (stops_at level.price)) [
    | inl e ↦ rw e refl
    | inr e ↦ rw e (
        on_round (match_front clock m level rest)
        ∙ ap round_of (match_front-as_map clock m level rest at))
  ]

  pub vector_match_round-as_map :
      as_round (vector_match_round clock m) ≡ match_round clock (as_matching m)
  unfolding vector_match_round match_round
  vector_match_round-as_map =
      let ls = vector_side (opposite m.taker.side) m.book in
      let at = side_levels-as_map (opposite m.taker.side) m.book in
      elim (Bool-cases (ltb_ℤ (pos 0) m.taker.remaining_quantity)) [
        | inl e ↦ rw e (next-as_map ls at ∙ ap map_next (sym at))
        | inr e ↦ rw e refl
      ]

-- The outer loop, round by round.
pub vector_match_loop-as_map :
    (rounds : ℕ) (clock : ℕ → Timestamp) (m : VectorMatching)
    → (let (r, stp_killed) = vector_match_loop rounds clock m in
        (as_matching r, stp_killed) ≡ match_loop rounds clock (as_matching m))
unfolding vector_match_loop match_loop
vector_match_loop-as_map zero clock m = refl
vector_match_loop-as_map (suc rounds) clock m =
    cases (vector_match_round clock m) (vector_match_loop-as_map rounds clock)
    ∙ ap (proceed (as_matching m) (λ n. match_loop rounds clock n))
        (vector_match_round-as_map clock m)
  where
    cases :
        (r : Round VectorMatching)
        → ((n : VectorMatching)
            → (let (k, stp_killed) = vector_match_loop rounds clock n in
                (as_matching k, stp_killed) ≡ match_loop rounds clock (as_matching n)))
        → (let (n, stp_killed) = proceed m (λ n. vector_match_loop rounds clock n) r in
            (as_matching n, stp_killed)
            ≡ proceed (as_matching m) (λ n. match_loop rounds clock n) (as_round r))
    cases finished next = refl
    cases (killed n) next = refl
    cases (again n) next = next n

pub vector_match_against_book-as_map :
    (clock : ℕ → Timestamp) (b : OrderBookVector) (taker : Order)
    → (let (r, stp_killed) = vector_match_against_book clock b taker in
        (as_matching r, stp_killed) ≡ match_against_book clock (as_map b) taker)
unfolding vector_match_against_book match_against_book
vector_match_against_book-as_map clock b taker =
    let side = opposite taker.side in
    let m : VectorMatching = record { taker = taker; book = b; trades = [] } in
    let rounds : length (vector_side side b) ≡ length (side_levels side (as_map b)) =
      sym (length-entries (vector_side side b)) ∙ ap length (sym (side_levels-as_map side b)) in
    vector_match_loop-as_map (suc (length (vector_side side b))) clock m
    ∙ ap (λ n. match_loop (suc n) clock (as_matching m)) rounds
