-- ===== src/Pool.antt =====
-- include/lightninglob/order_pool.hpp: the pool of order slots, and the intrusive FIFO list of one
-- price level. A function that changes the level or the pool returns the new one. Reading a slot
-- out of range is undefined in the source (an `assert`); here it gives the default node.
pub mod Nodes
pub mod Chain
pub mod Level
pub mod Reduce
pub mod Removal
pub mod Acquire
pub mod Tests
use lightning_lob.Base.{
  ℕ, suc, ◌+◌, ◌-◌, ◌%◌, ◌^◌, Bool, not, List, [], ◌∷◌, ◌++◌, ◌==◌, if◌then◌else◌, length, get_or,
  set, true, false, zero, none, some, inl, inr, refl, arith,
}
use lightning_lob.Base.Int.{pos, ◌+ℤ◌, ◌-ℤ◌}
use lightning_lob.Types.{
  Price, Quantity, null_index, invalid_order_id, no_participant, buy, limit, gtc,
}
use lightning_lob.Order.{Order}

pub record OrderNode : Type 0 where
  pub order : Order
  pub prev : ℕ
  pub next : ℕ

pub record PriceLevel : Type 0 where
  pub price : Price
  pub total_quantity : Quantity
  pub order_count : ℕ
  pub head : ℕ
  pub tail : ℕ

-- The head of `free_list` is the back of the vector.
pub record OrderPool : Type 0 where
  pub nodes : List OrderNode
  pub free_list : List ℕ

-- A level as it is constructed: `PriceLevel{}`.
abbrev pub new_level : PriceLevel
new_level = record {
  price = pos 0;
  total_quantity = pos 0;
  order_count = 0;
  head = null_index;
  tail = null_index;
}

abbrev pub level_empty : PriceLevel → Bool
level_empty level = level.order_count == 0

unfoldable pub clear_orders : PriceLevel → PriceLevel
clear_orders level = record level {
  total_quantity = pos 0;
  order_count = 0;
  head = null_index;
  tail = null_index;
}

-- `Order{}`
abbrev pub default_order : Order
default_order = record {
  id = invalid_order_id;
  price = pos 0;
  quantity = pos 0;
  remaining_quantity = pos 0;
  timestamp = 0;
  symbol = 0;
  participant_id = no_participant;
  side = buy;
  type = limit;
  time_in_force = gtc;
}

abbrev pub default_node : OrderNode
default_node = record { order = default_order; prev = null_index; next = null_index }

abbrev pub fresh_node : Order → OrderNode
fresh_node o = record { order = o; prev = null_index; next = null_index }

unfoldable pub new_pool : OrderPool
new_pool = record { nodes = []; free_list = [] }

unfoldable pub node : OrderPool → ℕ → OrderNode
node pool idx = get_or pool.nodes idx default_node

-- `pool[idx] = n`
unfoldable pub set_node : OrderPool → ℕ → OrderNode → OrderPool
set_node pool idx n = record pool { nodes = set pool.nodes idx n }

-- The index is a `uint32_t`, so the size is cut to 32 bits.
unfoldable pub acquire : OrderPool → Order → ℕ × OrderPool
unfolding set_node
acquire pool o = elim pool.free_list [
  | idx ∷ rest ↦ (idx, set_node (record pool { free_list = rest }) idx (fresh_node o))
  | [] ↦ (length pool.nodes % 2 ^ 32, record pool { nodes = pool.nodes ++ fresh_node o ∷ [] })
]

unfoldable pub release : OrderPool → ℕ → OrderPool
release pool idx = record pool { free_list = idx ∷ pool.free_list }

unfoldable pub reset : OrderPool → OrderPool
reset pool = record { nodes = []; free_list = [] }

unfoldable pub live_count : OrderPool → ℕ
live_count pool = length pool.nodes - length pool.free_list

-- `pool[idx].prev = p`, `pool[idx].next = n`, `pool[idx].order.remaining_quantity = q`
unfoldable pub set_prev : OrderPool → ℕ → ℕ → OrderPool
unfolding node set_node
set_prev pool idx p = set_node pool idx (record (node pool idx) { prev = p })

unfoldable pub set_next : OrderPool → ℕ → ℕ → OrderPool
unfolding node set_node
set_next pool idx n = set_node pool idx (record (node pool idx) { next = n })

unfoldable pub set_remaining : OrderPool → ℕ → Quantity → OrderPool
unfolding node set_node
set_remaining pool idx q =
    let n = node pool idx in
    let o = n.order in set_node pool idx (record n { order = record o { remaining_quantity = q } })

-- `++order_count` of a `uint32_t`.
unfoldable pub level_push_back : PriceLevel → OrderPool → ℕ → PriceLevel × OrderPool
unfolding node set_prev set_next
level_push_back level pool idx =
    let pool = set_next (set_prev pool idx level.tail) idx null_index in
    let at_end = not (level.tail == null_index) in
    let quantity = (node pool idx).order.remaining_quantity in
    (
      record level {
        head = if at_end then level.head else idx;
        tail = idx;
        order_count = (level.order_count + 1) % 2 ^ 32;
        total_quantity = level.total_quantity +ℤ quantity;
      },
      if at_end then set_next pool level.tail idx else pool,
    )

-- `--order_count` of a `uint32_t`.
abbrev pub decremented : ℕ → ℕ
decremented n = (n + 2 ^ 32 - 1) % 2 ^ 32

-- `head` and `tail` are written where the list has no neighbour on that side.
unfoldable pub level_unlink : PriceLevel → OrderPool → ℕ → PriceLevel × OrderPool
unfolding node set_prev set_next
level_unlink level pool idx =
    let before = (node pool idx).prev in
    let behind = (node pool idx).next in
    let first = before == null_index in
    let last = behind == null_index in
    let pool = if first then pool else set_next pool before behind in
    (
      record level {
        head = if first then behind else level.head;
        tail = if last then before else level.tail;
        order_count = decremented level.order_count;
      },
      if last then pool else set_prev pool behind before,
    )

unfoldable pub level_reduce_quantity :
    PriceLevel → OrderPool → ℕ → Quantity → PriceLevel × OrderPool
unfolding node set_remaining
level_reduce_quantity level pool idx qty = (
  record level { total_quantity = level.total_quantity -ℤ qty },
  set_remaining pool idx ((node pool idx).order.remaining_quantity -ℤ qty),
)
