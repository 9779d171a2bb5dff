-- ===== src/Pool/Nodes.antt =====
-- Reads after writes in the pool.
use lightning_lob.Base.{
  refl, ℕ, length, ◌<◌, ◌≢◌, ◌≡◌, get_or-set_self, get_or-set_ne, length-set, get_or-set_image,
}
use lightning_lob.Pool.{OrderPool, node, set_next, set_prev, set_remaining, default_node, OrderNode}
use lightning_lob.Types.{Quantity}

abbrev pub node_count : OrderPool → ℕ
node_count pool = length pool.nodes

module _ (pool : OrderPool) (i j x : ℕ) where
  pub node-set_next_self :
      i < node_count pool → node (set_next pool i x) i ≡ record (node pool i) { next = x }
  unfolding node set_next
  node-set_next_self h = get_or-set_self pool.nodes i _ default_node h

  pub node-set_prev_self :
      i < node_count pool → node (set_prev pool i x) i ≡ record (node pool i) { prev = x }
  unfolding node set_prev
  node-set_prev_self h = get_or-set_self pool.nodes i _ default_node h

  pub node-set_next_ne : i ≢ j → node (set_next pool i x) j ≡ node pool j
  unfolding node set_next
  node-set_next_ne h = get_or-set_ne pool.nodes i j _ default_node h

  pub node-set_prev_ne : i ≢ j → node (set_prev pool i x) j ≡ node pool j
  unfolding node set_prev
  node-set_prev_ne h = get_or-set_ne pool.nodes i j _ default_node h

module _ (pool : OrderPool) (i : ℕ) where
  pub node_count-set_next : (x : ℕ) → node_count (set_next pool i x) ≡ node_count pool
  unfolding set_next
  node_count-set_next x = length-set pool.nodes i _

  pub node_count-set_prev : (x : ℕ) → node_count (set_prev pool i x) ≡ node_count pool
  unfolding set_prev
  node_count-set_prev x = length-set pool.nodes i _

  pub node_count-set_remaining :
      (q : Quantity) → node_count (set_remaining pool i q) ≡ node_count pool
  unfolding set_remaining
  node_count-set_remaining q = length-set pool.nodes i _

  pub node-set_remaining_self :
      (q : Quantity)
      → i < node_count pool
      → (let n = node pool i in
          let o = n.order in
          node (set_remaining pool i q) i
          ≡ record n { order = record o { remaining_quantity = q } })
  unfolding node set_remaining
  node-set_remaining_self q h = get_or-set_self pool.nodes i _ default_node h

  pub node-set_remaining_ne :
      (j : ℕ) (q : Quantity) → i ≢ j → node (set_remaining pool i q) j ≡ node pool j
  unfolding node set_remaining
  node-set_remaining_ne j q h = get_or-set_ne pool.nodes i j _ default_node h

-- Links do not touch the orders, and quantities do not touch the links.
module _ (pool : OrderPool) (i j : ℕ) where
  pub order-set_next : (x : ℕ) → (node (set_next pool i x) j).order ≡ (node pool j).order
  unfolding node set_next
  order-set_next x =
      get_or-set_image (λ (n : OrderNode). n.order) pool.nodes i j _ default_node refl

  pub order-set_prev : (x : ℕ) → (node (set_prev pool i x) j).order ≡ (node pool j).order
  unfolding node set_prev
  order-set_prev x =
      get_or-set_image (λ (n : OrderNode). n.order) pool.nodes i j _ default_node refl

  pub prev-set_remaining :
      (q : Quantity) → (node (set_remaining pool i q) j).prev ≡ (node pool j).prev
  unfolding node set_remaining
  prev-set_remaining q =
      get_or-set_image (λ (n : OrderNode). n.prev) pool.nodes i j _ default_node refl

  pub next-set_remaining :
      (q : Quantity) → (node (set_remaining pool i q) j).next ≡ (node pool j).next
  unfolding node set_remaining
  next-set_remaining q =
      get_or-set_image (λ (n : OrderNode). n.next) pool.nodes i j _ default_node refl
