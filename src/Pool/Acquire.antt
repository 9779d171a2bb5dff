-- ===== src/Pool/Acquire.antt =====
-- OrderPool::acquire: the slot of a new order, and the levels that do not list it.
use mathlib.Core.Path.{ap₂}
use lightning_lob.Pool.{
  OrderPool, acquire, node, fresh_node, default_node, PriceLevel, set_node, OrderNode,
}
use lightning_lob.Pool.Nodes.{node_count}
use lightning_lob.Base.{
  [], ◌∷◌, zero, suc, refl, arith, ℕ, List, ◌≡◌, ◌<◌, ◌≢◌, get_or, length, set, ◌++◌, subst, ap,
  ◌≤◌, sym, ◌∙◌, length-set, get_or-set_self, get_or-set_ne, ◌%◌, ◌^◌, length-append,
}
use lightning_lob.Order.{Order}
use lightning_lob.Pool.Chain.{Apart, Chain, prev_link, next_link}
use lightning_lob.Pool.Level.{open_quantity, IsLevel}
use lightning_lob.Base.Int.{◌+ℤ◌}
use lightning_lob.Types.{null_index}

-- The pool has a slot to give: the last that was released, or one behind the others.
pub data Ready (pool : OrderPool) : Type 0 where
  reuses :
      (idx : ℕ) (rest : List ℕ)
      → pool.free_list ≡ idx ∷ rest
      → idx < node_count pool
      → idx ≢ null_index
      → Ready pool
  grows : pool.free_list ≡ [] → node_count pool < null_index → Ready pool

get_or-snoc :
    (xs : List OrderNode) (v : OrderNode) → get_or (xs ++ v ∷ []) (length xs) default_node ≡ v
get_or-snoc [] v = refl
get_or-snoc (x ∷ xs) v = get_or-snoc xs v

get_or-snoc_ne :
    (xs : List OrderNode) (v : OrderNode) (j : ℕ)
    → length xs ≢ j
    → get_or (xs ++ v ∷ []) j default_node ≡ get_or xs j default_node
get_or-snoc_ne [] v zero h = absurd (h refl)
get_or-snoc_ne [] v (suc j) h = refl
get_or-snoc_ne (x ∷ xs) v zero h = refl
get_or-snoc_ne (x ∷ xs) v (suc j) h = get_or-snoc_ne xs v j (λ e. h (ap suc e))

-- The slot holds the order, and no other slot changed.
pub record Fresh (p q : OrderPool) (o : Order) (idx : ℕ) : Type 0 where
  pub in_range : idx < node_count q
  pub not_null : idx ≢ null_index
  pub holds : node q idx ≡ fresh_node o
  pub others : (j : ℕ) → idx ≢ j → node q j ≡ node p j
  pub no_fewer : node_count p ≤ node_count q

pub acquire-Fresh :
    (pool : OrderPool) (o : Order)
    → Ready pool
    → (let (idx, q) = acquire pool o in Fresh pool q o idx)
unfolding acquire node set_node
acquire-Fresh pool o (reuses idx rest e lt ne) =
    let result : acquire pool o
        ≡ (idx, record { nodes = set pool.nodes idx (fresh_node o); free_list = rest }) =
      rw (acquire, set_node, e) refl in
    subst (λ r. Fresh pool r.1 o r.0) (sym result)
      (record {
        in_range = rw (length-set pool.nodes idx (fresh_node o)) lt;
        not_null = ne;
        holds = get_or-set_self pool.nodes idx (fresh_node o) default_node lt;
        others = λ j apart. get_or-set_ne pool.nodes idx j (fresh_node o) default_node apart;
        no_fewer = omega (arith, length-set pool.nodes idx (fresh_node o));
      })
acquire-Fresh pool o (grows e room) =
    let n = length pool.nodes in
    let result : acquire pool o
        ≡ (n % 2 ^ 32, record { nodes = pool.nodes ++ fresh_node o ∷ []; free_list = [] }) =
      rw (acquire, e)
        (ap (λ f. (n % 2 ^ 32, record { nodes = pool.nodes ++ fresh_node o ∷ []; free_list = f }))
          e) in
    let after : OrderPool = record { nodes = pool.nodes ++ fresh_node o ∷ []; free_list = [] } in
    let whole : n % 2 ^ 32 ≡ n = omega (arith, room) in
    let longer = length-append pool.nodes (fresh_node o ∷ []) in
    subst (λ r. Fresh pool r.1 o r.0) (sym (result ∙ ap (λ i. (i, after)) whole))
      (record {
        in_range = omega (arith, longer);
        not_null = omega (arith, room);
        holds = get_or-snoc pool.nodes (fresh_node o);
        others = λ j apart. get_or-snoc_ne pool.nodes (fresh_node o) j apart;
        no_fewer = omega (arith, longer);
      })

-- A level that does not list the slot is as it was.
module _ (p q : OrderPool) (o : Order) (idx : ℕ) (f : Fresh p q o idx) where
  Chain-Fresh :
      (prev : ℕ) (xs : List ℕ) (head tail : ℕ)
      → Apart idx xs
      → Chain p prev xs head tail
      → Chain q prev xs head tail
  Chain-Fresh prev [] head tail a c = c
  Chain-Fresh prev (x ∷ xs) head tail a (h, lt, ne, back, rest) =
      let same : node q x ≡ node p x = f.others x a.0 in
      (
        h,
        omega (arith, lt, f.no_fewer),
        ne,
        ap prev_link same ∙ back,
        subst (λ k. Chain q x xs k tail) (ap next_link (sym same))
            (Chain-Fresh x xs (node p x).next tail a.1 rest),
      )

  open_quantity-Fresh : (xs : List ℕ) → Apart idx xs → open_quantity q xs ≡ open_quantity p xs
  unfolding open_quantity
  open_quantity-Fresh [] a = refl
  open_quantity-Fresh (x ∷ xs) a =
      ap₂ ◌+ℤ◌ (ap (λ (n : OrderNode). n.order.remaining_quantity) (f.others x a.0))
        (open_quantity-Fresh xs a.1)

  pub IsLevel-Fresh :
      (level : PriceLevel) (xs : List ℕ) → Apart idx xs → IsLevel p level xs → IsLevel q level xs
  IsLevel-Fresh level xs a l = record {
    links = record {
      chain = Chain-Fresh null_index xs level.head level.tail a l.links.chain;
      distinct = l.links.distinct;
      count = l.links.count;
      few = l.links.few;
    };
    total = l.total ∙ sym (open_quantity-Fresh xs a);
  }
