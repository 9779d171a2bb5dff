-- ===== src/MapBook/Rests.antt =====
-- What rests in the book can be found: the order that add_order leaves, and the index behind a
-- cancel.
use lightning_lob.Types.{buy, sell}
use lightning_lob.IdIndexMap
use lightning_lob.Pool
use lightning_lob.MapBook.{
  OrderBookMap, rest_order, side_levels, Levels, set_side_levels, emplace_level, find_level,
  set_level,
}
use lightning_lob.Base.{
  [], ◌∷◌, none, some, refl, arith, ℕ, List, length, ◌≢◌, ◌≡◌, ◌*◌, ◌<◌, ◌^◌, if◌then◌else◌, ◌==◌,
  ◌+◌, ◌∙◌, ◌++◌, subst, ap, sym,
}
use lightning_lob.Order.{Order}
use lightning_lob.Types.{Side}
use lightning_lob.IdIndexMap.Table.{IsTable}
use lightning_lob.Pool.{PriceLevel}
use lightning_lob.Pool.Acquire.{Fresh, acquire-Fresh, Ready, IsLevel-Fresh}
use lightning_lob.MapBook.Amends.{RestsAt}
use lightning_lob.MapBook.Ordered.{emplaced, find_level-emplace_level, IsOrdered}
use lightning_lob.Pool.Chain.{Apart}
use lightning_lob.IdIndexMap.Contents.{insert-find, contains-none}
use lightning_lob.Pool.Level.{IsLevel, level_push_back-IsLevel}
use lightning_lob.MapBook.Levels.{
  pool-set_side_levels, side_levels-set_side_levels, find_level-set_level,
}

-- The order can rest: its id is new to the index, the pool has a slot for it that its level does
-- not list, and the level of its price, or the new one, lists `xs`.
pub record CanRest (b : OrderBookMap) (o : Order) (xs : List ℕ) : Type 0 where
  pub table : IsTable b.id_index
  pub table_fits : length b.id_index.slots * 2 < 2 ^ 64
  pub has_id : o.id ≢ 0
  pub unknown : IdIndexMap.find b.id_index o.id ≡ none
  pub ready : Ready b.pool
  pub apart : Apart (Pool.acquire b.pool o).0 xs
  pub few : length xs + 1 < 2 ^ 32
  pub ordered : IsOrdered o.side (side_levels o.side b)
  pub level_fits : IsLevel b.pool (emplaced (find_level o.price (side_levels o.side b)) o.price) xs

-- The order is last on its level, and found by its id; every other slot and id is as it was.
pub record Rested (b after : OrderBookMap) (o : Order) (idx : ℕ) (xs : List ℕ) : Type 0 where
  pub level : PriceLevel
  pub rests : RestsAt after o.id idx level xs []
  pub holds : (Pool.node after.pool idx).order ≡ o
  pub others : (j : ℕ) → idx ≢ j → (Pool.node after.pool j).order ≡ (Pool.node b.pool j).order
  pub table : IsTable after.id_index
  pub other_ids :
      (q : ℕ) → q ≢ 0 → q ≢ o.id → IdIndexMap.find after.id_index q ≡ IdIndexMap.find b.id_index q

pub id_index-set_side_levels :
    (side : Side) (ls : Levels) (b : OrderBookMap)
    → (set_side_levels side ls b).id_index ≡ b.id_index
id_index-set_side_levels buy ls b = refl
id_index-set_side_levels sell ls b = refl

-- The index after an insert of a key that it did not have.
pub insert-new :
    (m : IdIndexMap.IdIndexMap) (key value q : ℕ)
    → IsTable m
    → key ≢ 0
    → q ≢ 0
    → length m.slots * 2 < 2 ^ 64
    → IdIndexMap.find m key ≡ none
    → (let after = (IdIndexMap.insert m key value).1 in
        IsTable after
        × (IdIndexMap.find after q ≡ (if q == key then some value else IdIndexMap.find m q)))
insert-new m key value q t has q_has fits unknown =
    let r = insert-find m key value q t has q_has fits in
    (r.0, r.3 ∙ rw (contains-none m key unknown) refl)

module _ (b : OrderBookMap) (o : Order) (xs : List ℕ) (can : CanRest b o xs) where
  abbrev slot : ℕ
  slot = (Pool.acquire b.pool o).0

  abbrev filled : Pool.OrderPool
  filled = (Pool.acquire b.pool o).1

  abbrev start : PriceLevel
  start = emplaced (find_level o.price (side_levels o.side b)) o.price

  abbrev levels : Levels
  levels = emplace_level o.side o.price (side_levels o.side b)

  abbrev pushed : PriceLevel × Pool.OrderPool
  pushed = Pool.level_push_back start filled slot

  fresh : Fresh b.pool filled o slot
  fresh = acquire-Fresh b.pool o can.ready

  found : find_level o.price levels ≡ some start
  found = find_level-emplace_level o.side o.price (side_levels o.side b) can.ordered

  rested : OrderBookMap
  rested =
      set_side_levels o.side (set_level o.price pushed.0 levels)
        (record b { pool = pushed.1; id_index = (IdIndexMap.insert b.id_index o.id slot).1 })

  rest_order-rested : rest_order b o ≡ rested
  unfolding rest_order rested
  rest_order-rested = rw found refl

  pushed-IsLevel :
      IsLevel pushed.1 pushed.0 (xs ++ slot ∷ [])
      × (pushed.0.price ≡ start.price)
      × ((j : ℕ) → (Pool.node pushed.1 j).order ≡ (Pool.node filled j).order)
  pushed-IsLevel =
      level_push_back-IsLevel start filled slot xs fresh.in_range fresh.not_null can.apart can.few
        (IsLevel-Fresh b.pool filled o slot fresh start xs can.apart can.level_fits)

  rested-Rested : Rested b rested o slot xs
  unfolding rested
  rested-Rested =
      let indexed : OrderBookMap = record b {
        pool = pushed.1;
        id_index = (IdIndexMap.insert b.id_index o.id slot).1;
      } in
      let written = set_level o.price pushed.0 levels in
      let pool_is = pool-set_side_levels o.side written indexed in
      let index_is = id_index-set_side_levels o.side written indexed in
      let holds : (Pool.node rested.pool slot).order ≡ o =
        ap (λ p. (Pool.node p slot).order) pool_is
        ∙ pushed-IsLevel.2 slot
        ∙ ap (λ (n : Pool.OrderNode). n.order) fresh.holds in
      let new_key = λ (q : ℕ) (has : q ≢ 0).
        insert-new b.id_index o.id slot q can.table can.has_id has can.table_fits can.unknown in
      record {
        level = pushed.0;
        rests = record {
          indexed =
              ap (λ m. IdIndexMap.find m o.id) index_is
              ∙ (new_key o.id can.has_id).1
              ∙ ground arith;
          placed =
              subst (λ k. find_level k.price (side_levels k.side rested) ≡ some pushed.0)
                (sym holds)
                (ap (find_level o.price) (side_levels-set_side_levels o.side written indexed)
                  ∙ find_level-set_level o.price o.price pushed.0 start levels found
                  ∙ ground arith);
          level_fits =
              subst (λ p. IsLevel p pushed.0 (xs ++ slot ∷ [])) (sym pool_is) pushed-IsLevel.0;
        };
        holds = holds;
        others = λ j apart.
            ap (λ p. (Pool.node p j).order) pool_is
            ∙ pushed-IsLevel.2 j
            ∙ ap (λ (n : Pool.OrderNode). n.order) (fresh.others j apart);
        table = subst IsTable (sym index_is) (new_key o.id can.has_id).0;
        other_ids = λ q has apart.
            ap (λ m. IdIndexMap.find m q) index_is ∙ (new_key q has).1 ∙ ground (arith, apart);
      }

  pub rest_order-Rested : Rested b (rest_order b o) o slot xs
  rest_order-Rested = subst (λ a. Rested b a o slot xs) (sym rest_order-rested) rested-Rested
