-- ===== src/Pool/Reduce.antt =====
-- A reduction of one order, and the release of a slot, seen from a level.
use mathlib.Core.Path.{ap₂}
use lightning_lob.Base.{[], ◌∷◌, refl, ℕ, List, ◌≡◌, ◌≢◌, ◌++◌, ap, ◌∙◌, sym, ◌<◌}
use lightning_lob.Pool.{
  OrderPool, level_reduce_quantity, release, PriceLevel, node, set_remaining, OrderNode,
}
use lightning_lob.Pool.Level.{open_quantity, IsLevel, IsLinked}
use lightning_lob.Types.{Quantity, null_index}
use lightning_lob.Pool.Chain.{
  Chain-frame, Chain-Middle, Chain-frame_links, Apart, Distinct, Apart-append,
}
use lightning_lob.Base.Int.{◌-ℤ◌, ◌+ℤ◌, int_laws}
use lightning_lob.Pool.Nodes.{
  node-set_remaining_ne, node_count-set_remaining, prev-set_remaining, next-set_remaining,
  node-set_remaining_self, node_count,
}

abbrev pub open_at : OrderPool → ℕ → Quantity
open_at pool i = (node pool i).order.remaining_quantity

open_at-set_remaining :
    (p : OrderPool) (i j : ℕ) (q : Quantity) → i ≢ j → open_at (set_remaining p i q) j ≡ open_at p j
open_at-set_remaining p i j q h =
    ap (λ (n : OrderNode). n.order.remaining_quantity) (node-set_remaining_ne p i j q h)

-- The quantities of orders that are not reduced.
pub open_quantity-set_remaining-Apart :
    (p : OrderPool) (i : ℕ) (q : Quantity) (xs : List ℕ)
    → Apart i xs
    → open_quantity (set_remaining p i q) xs ≡ open_quantity p xs
unfolding open_quantity
open_quantity-set_remaining-Apart p i q [] a = refl
open_quantity-set_remaining-Apart p i q (x ∷ xs) a =
    ap₂ ◌+ℤ◌ (open_at-set_remaining p i x q a.0) (open_quantity-set_remaining-Apart p i q xs a.1)

-- The level's total falls by what the order loses.
open_quantity-set_remaining :
    (p : OrderPool) (ws : List ℕ) (i : ℕ) (xs : List ℕ) (qty : Quantity)
    → i < node_count p
    → Distinct (ws ++ i ∷ xs)
    → open_quantity (set_remaining p i (open_at p i -ℤ qty)) (ws ++ i ∷ xs)
      ≡ open_quantity p (ws ++ i ∷ xs) -ℤ qty
unfolding open_quantity
open_quantity-set_remaining p [] i xs qty lt d =
    let left = open_at p i -ℤ qty in
    let here : open_at (set_remaining p i left) i ≡ left =
      ap (λ (n : OrderNode). n.order.remaining_quantity) (node-set_remaining_self p i left lt) in
    rw (here, open_quantity-set_remaining-Apart p i left xs d.0) (omega int_laws)
open_quantity-set_remaining p (w ∷ ws) i xs qty lt d =
    let left = open_at p i -ℤ qty in
    let apart = (Apart-append w ws (i ∷ xs) d.0).1.0 in
    rw
      (
        open_at-set_remaining p i w left (λ e. apart (sym e)),
        open_quantity-set_remaining p ws i xs qty lt d.1,
      )
      (omega int_laws)

-- A reduction of an order in the list, wherever it stands, keeps the level well formed. That order
-- has the quantity less, and every other slot is as it was.
pub level_reduce_quantity-IsLevel :
    (level : PriceLevel) (pool : OrderPool) (ws : List ℕ) (i : ℕ) (xs : List ℕ) (qty : Quantity)
    → IsLevel pool level (ws ++ i ∷ xs)
    → (let (after, q) = level_reduce_quantity level pool i qty in
        IsLevel q after (ws ++ i ∷ xs)
        × (let o = (node pool i).order in
            (node q i).order ≡ record o { remaining_quantity = o.remaining_quantity -ℤ qty })
        × ((j : ℕ) → i ≢ j → node q j ≡ node pool j))
unfolding level_reduce_quantity
level_reduce_quantity-IsLevel level pool ws i xs qty l =
    let left = open_at pool i -ℤ qty in
    let lt = (Chain-Middle pool null_index i ws xs level.head level.tail l.links.chain).in_range in
    (
      record {
        links = record {
          chain =
              Chain-frame_links pool (set_remaining pool i left) null_index (ws ++ i ∷ xs)
                level.head level.tail (node_count-set_remaining pool i left)
                (λ j _. (prev-set_remaining pool i j left, next-set_remaining pool i j left))
                l.links.chain;
          distinct = l.links.distinct;
          count = l.links.count;
          few = l.links.few;
        };
        total =
            ap (λ k. k -ℤ qty) l.total
            ∙ sym (open_quantity-set_remaining pool ws i xs qty lt l.links.distinct);
      },
      ap (λ (n : OrderNode). n.order) (node-set_remaining_self pool i left lt),
      λ j h. node-set_remaining_ne pool i j left h,
    )

-- The release of a slot changes no node.
pub IsLinked-release :
    (pool : OrderPool) (i : ℕ) (level : PriceLevel) (xs : List ℕ)
    → IsLinked pool level xs
    → IsLinked (release pool i) level xs
unfolding release node
IsLinked-release pool i level xs l = record {
  chain =
      Chain-frame pool (release pool i) null_index xs level.head level.tail refl (λ j _. refl)
        l.chain;
  distinct = l.distinct;
  count = l.count;
  few = l.few;
}

pub node-release : (pool : OrderPool) (i j : ℕ) → node (release pool i) j ≡ node pool j
unfolding release node
node-release pool i j = refl
