-- ===== src/Pool/Removal.antt =====
-- A cancel takes an order off its level: the total first, then the links, then the node.
use lightning_lob.Pool.{OrderPool, OrderNode, PriceLevel, node, level_unlink, release}
use lightning_lob.Pool.Level.{
  IsLevel, open_quantity, level_unlink-IsLinked, open_quantity-frame, open_quantity-append,
  IsLinked,
}
use lightning_lob.Pool.Reduce.{node-release, IsLinked-release}
use lightning_lob.Base.{◌∷◌, ℕ, List, ◌++◌, ◌≡◌, ap, ◌∙◌, sym}
use lightning_lob.Base.Int.{◌-ℤ◌, int_laws, parts_of_eq}

-- The level and the pool after a cancel of the order at `idx`.
abbrev pub removed : PriceLevel → OrderPool → ℕ → PriceLevel × OrderPool
removed level pool idx =
    let total = level.total_quantity -ℤ (node pool idx).order.remaining_quantity in
    level_unlink (record level { total_quantity = total }) pool idx

module _ (level : PriceLevel) (pool : OrderPool) (idx : ℕ) (ws xs : List ℕ)
    (fits : IsLevel pool level (ws ++ idx ∷ xs)) where
  abbrev after : PriceLevel × OrderPool
  after = removed level pool idx

  unlinked :
      IsLinked after.1 after.0 (ws ++ xs)
      × (after.0.total_quantity ≡ level.total_quantity -ℤ (node pool idx).order.remaining_quantity)
      × (after.0.price ≡ level.price)
      × ((j : ℕ) → (node after.1 j).order ≡ (node pool j).order)
  unlinked = level_unlink-IsLinked _ pool idx ws xs (record {
    chain = fits.links.chain;
    distinct = fits.links.distinct;
    count = fits.links.count;
    few = fits.links.few;
  })

  pub order-removed : (j : ℕ) → (node (release after.1 idx) j).order ≡ (node pool j).order
  order-removed j = ap (λ (n : OrderNode). n.order) (node-release after.1 idx j) ∙ unlinked.3 j

  pub price-removed : after.0.price ≡ level.price
  price-removed = unlinked.2

  -- The level is well formed with the other orders, and has their total.
  pub removed-IsLevel : IsLevel (release after.1 idx) after.0 (ws ++ xs)
  unfolding open_quantity
  removed-IsLevel = record {
    links = IsLinked-release after.1 idx after.0 (ws ++ xs) unlinked.0;
    total =
        unlinked.1
        ∙ omega (
          int_laws,
          parts_of_eq _ _ (fits.total ∙ open_quantity-append pool ws (idx ∷ xs)),
          parts_of_eq _ _ (open_quantity-append pool ws xs),
        )
        ∙ sym (open_quantity-frame pool (release after.1 idx) (ws ++ xs) order-removed);
  }
