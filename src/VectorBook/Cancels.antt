-- ===== src/VectorBook/Cancels.antt =====
-- cancel_order of the vector book against that of the map book.
use lightning_lob.Pool
use lightning_lob.IdIndexMap
use lightning_lob.MapBook.{
  cancel_order, cancel_at, find_level, side_levels, erase_level, set_level, set_side_levels,
}
use lightning_lob.VectorBook.{
  OrderBookVector, vector_cancel_order, vector_cancel_at, vector_side, LevelVector, find_position,
  level_at, erase_at,
}
use lightning_lob.VectorBook.Agreement.{
  as_map, entries, Sorted, side_levels-as_map, level_at-entries,
}
use lightning_lob.VectorBook.Positions.{
  Placed, price-Placed, erase-entries, set-entries, level_at-Placed,
}
use lightning_lob.Base.{
  true, some, inl, inr, refl, ℕ, ◌≡◌, Option-cases, if◌then◌else◌, ap, set, ◌∙◌, sym, Bool-cases,
  subst,
}
use lightning_lob.Types.{Side, Price}
use lightning_lob.Pool.{PriceLevel, OrderPool, level_empty}
use lightning_lob.Base.Int.{◌-ℤ◌}
use lightning_lob.VectorBook.Matching.{as_map-set_vector_side}

-- Both sides stand in their order.
abbrev pub IsSortedBook : OrderBookVector → Type 0
IsSortedBook b = (side : Side) → Sorted side (vector_side side b)

pub price-level_unlink :
    (level : PriceLevel) (pool : OrderPool) (idx : ℕ)
    → (Pool.level_unlink level pool idx).0.price ≡ level.price
unfolding Pool.level_unlink
price-level_unlink level pool idx = refl

-- What becomes of the level that the order leaves.
left-entries :
    (side : Side) (p : Price) (ls : LevelVector) (found after : PriceLevel)
    → Placed side p ls (some found)
    → after.price ≡ p
    → (let i = find_position side p ls in
        entries (if level_empty after then erase_at i ls else set ls i after) ≡ (
          if level_empty after then erase_level p (entries ls) else set_level p after (entries ls)))
left-entries side p ls found after placed price = elim (Bool-cases (level_empty after)) [
  | inl e ↦ rw e (erase-entries side p ls found placed)
  | inr e ↦ rw e (set-entries side p ls found after placed price)
]

vector_cancel_at-as_map :
    (b : OrderBookVector) (id idx : ℕ) (level : PriceLevel)
    → (let o = (Pool.node b.pool idx).order in
        Placed o.side o.price (vector_side o.side b) (some level))
    → as_map (vector_cancel_at b id idx level) ≡ cancel_at (as_map b) id idx level
unfolding vector_cancel_at cancel_at
vector_cancel_at-as_map b id idx level placed =
    let o = (Pool.node b.pool idx).order in
    let ls = vector_side o.side b in
    let start : PriceLevel = record level {
      total_quantity = level.total_quantity -ℤ o.remaining_quantity;
    } in
    let (after, pool) = Pool.level_unlink start b.pool idx in
    let i = find_position o.side o.price ls in
    let kept : OrderBookVector = record b {
      pool = Pool.release pool idx;
      id_index = (IdIndexMap.erase b.id_index id).1;
    } in
    as_map-set_vector_side o.side (if level_empty after then erase_at i ls else set ls i after) kept
    ∙ ap (λ levels. set_side_levels o.side levels (as_map kept))
        (left-entries o.side o.price ls level after placed
            (price-level_unlink start b.pool idx ∙ price-Placed o.side o.price ls level placed)
          ∙ ap
              (λ levels.
                if level_empty after
                then erase_level o.price levels
                else set_level o.price after levels)
              (sym (side_levels-as_map o.side b)))

-- A cancel on a vector book whose levels are sorted does what it does on the map book with the same
-- levels: it succeeds or not alike, and leaves the same levels, pool and index.
pub vector_cancel_order-as_map :
    (b : OrderBookVector) (id : ℕ)
    → IsSortedBook b
    → (let (ok, after) = vector_cancel_order b id in
        (ok, as_map after) ≡ cancel_order (as_map b) id)
unfolding vector_cancel_order cancel_order
vector_cancel_order-as_map b id sorted = elim (Option-cases (IdIndexMap.find b.id_index id)) [
  | inl e ↦ rw (vector_cancel_order, cancel_order, e) refl
  | inr (idx, e) ↦
      let o = (Pool.node b.pool idx).order in
      let ls = vector_side o.side b in
      let same : find_level o.price (side_levels o.side (as_map b)) ≡ level_at o.side o.price ls =
        ap (find_level o.price) (side_levels-as_map o.side b)
        ∙ sym (level_at-entries o.side o.price ls (sorted o.side)) in
      elim (Option-cases (level_at o.side o.price ls)) [
        | inl f ↦ rw (vector_cancel_order, cancel_order, e, f, same ∙ f) refl
        | inr (level, f) ↦
            let placed : Placed o.side o.price ls (some level) =
              subst (Placed o.side o.price ls) f (level_at-Placed o.side o.price ls) in
            rw (vector_cancel_order, cancel_order, e, f, same ∙ f)
              (ap (λ a. (true, a)) (vector_cancel_at-as_map b id idx level placed))
      ]
]
