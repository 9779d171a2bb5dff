-- ===== src/Pool/Level.antt =====
-- The level operations keep the FIFO list: a push appends, an unlink removes, a reduction changes
-- the quantities alone.
use mathlib.Core.Path.{ap₂}
use lightning_lob.Base.{
  [], ◌∷◌, true, false, refl, arith, List, ℕ, ◌<◌, ◌≢◌, ◌≡◌, length, ◌^◌, ◌∙◌, ap, sym, Bool, ◌==◌,
  if◌then◌else◌, not, ==_iff, ◌++◌, subst₂, ◌+◌, length-append, ◌-◌, ◌%◌,
}
use lightning_lob.Pool.{
  OrderPool, level_push_back, PriceLevel, node, set_next, set_prev, OrderNode, level_unlink,
}
use lightning_lob.Types.{Quantity, null_index}
use lightning_lob.Pool.Chain.{
  Chain, Distinct, Linked, prev_link, next_link, Bridged, Distinct-remove, last_or, Apart,
  Chain-Middle, first_or_null, Chain-not_null, Distinct-across, tail_after, Chain-behind,
  Apart-append, Chain-remove, Apart-last, Chain-last, Chain-last_range, Chain-snoc, Distinct-snoc,
  Chain-behind_range, Chain-tail_range,
}
use lightning_lob.Base.Int.{pos, ◌+ℤ◌, int_laws, +ℤ_assoc}
use lightning_lob.Pool.Nodes.{
  node_count, node_count-set_next, node_count-set_prev, node-set_next_self, node-set_prev_self,
  node-set_next_ne, node-set_prev_ne, order-set_prev, order-set_next,
}
use lightning_lob.Order.{Order}

-- The quantities that the orders of a level still have open.
unfoldable pub open_quantity : OrderPool → List ℕ → Quantity
open_quantity pool [] = pos 0
open_quantity pool (x ∷ xs) = (node pool x).order.remaining_quantity +ℤ open_quantity pool xs

-- The links and the count of the level are those of the orders at the pool indices `xs`, oldest
-- first.
pub record IsLinked (pool : OrderPool) (level : PriceLevel) (xs : List ℕ) : Type 0 where
  pub chain : Chain pool null_index xs level.head level.tail
  pub distinct : Distinct xs
  pub count : level.order_count ≡ length xs
  pub few : length xs < 2 ^ 32

-- And so is the total.
pub record IsLevel (pool : OrderPool) (level : PriceLevel) (xs : List ℕ) : Type 0 where
  pub links : IsLinked pool level xs
  pub total : level.total_quantity ≡ open_quantity pool xs

-- A push writes the new node, and the node at the tail if there is one.
push_back-Linked :
    (level : PriceLevel) (pool : OrderPool) (idx : ℕ)
    → idx < node_count pool
    → idx ≢ null_index
    → level.tail ≢ idx
    → (level.tail ≢ null_index → level.tail < node_count pool)
    → Linked pool (level_push_back level pool idx).1 level.tail idx
unfolding level_push_back
push_back-Linked level pool idx lt ne apart tail_lt = cases (level.tail == null_index) refl
  where
    mid : OrderPool
    mid = set_next (set_prev pool idx level.tail) idx null_index

    mid_size : node_count mid ≡ node_count pool
    mid_size =
        node_count-set_next (set_prev pool idx level.tail) idx null_index
        ∙ node_count-set_prev pool idx level.tail

    mid_idx : node mid idx ≡ record (node pool idx) { prev = level.tail; next = null_index }
    mid_idx =
        node-set_next_self (set_prev pool idx level.tail) idx idx null_index
          (rw (node_count-set_prev pool idx level.tail) lt)
        ∙ ap (λ (n : OrderNode). record n { next = null_index })
            (node-set_prev_self pool idx idx level.tail lt)

    mid_others : (j : ℕ) → j ≢ idx → node mid j ≡ node pool j
    mid_others j h =
        node-set_next_ne (set_prev pool idx level.tail) idx j null_index (λ e. h (sym e))
        ∙ node-set_prev_ne pool idx j level.tail (λ e. h (sym e))

    cases :
        (none_there : Bool)
        → (level.tail == null_index) ≡ none_there
        → Linked pool (if not none_there then set_next mid level.tail idx else mid) level.tail idx
    cases true e = record {
      same_size = mid_size;
      in_range = lt;
      not_null = ne;
      back = ap prev_link mid_idx;
      end = ap next_link mid_idx;
      forward = λ h. absurd (h ((==_iff _ _).0 e));
      others = λ j h k. mid_others j h;
    }
    cases false e =
        let there : level.tail ≢ null_index = λ h. ground arith in
        let same = node-set_next_ne mid level.tail idx idx apart in
        record {
          same_size = node_count-set_next mid level.tail idx ∙ mid_size;
          in_range = lt;
          not_null = ne;
          back = ap prev_link (same ∙ mid_idx);
          end = ap next_link (same ∙ mid_idx);
          forward = λ h.
              node-set_next_self mid level.tail idx idx (rw mid_size (tail_lt h))
              ∙ ap (λ (n : OrderNode). record n { next = idx }) (mid_others level.tail apart);
          others = λ j h k. node-set_next_ne mid level.tail j idx (λ f. k (sym f)) ∙ mid_others j h;
        }

-- An unlink writes the two neighbours of the node, where they are.
unlink-Bridged :
    (level : PriceLevel) (pool : OrderPool) (idx : ℕ)
    → (let before = (node pool idx).prev in
        let behind = (node pool idx).next in
        (before ≢ null_index → before < node_count pool)
        → (behind ≢ null_index → behind < node_count pool)
        → (before ≢ null_index → before ≢ behind)
        → Bridged pool (level_unlink level pool idx).1 before behind)
unfolding level_unlink
unlink-Bridged level pool idx before_lt behind_lt apart =
    cases (before == null_index) (behind == null_index) refl refl
  where
    before : ℕ
    before = (node pool idx).prev

    behind : ℕ
    behind = (node pool idx).next

    mid : OrderPool
    mid = set_next pool before behind

    back : (h : before ≢ null_index) → node mid before ≡ record (node pool before) { next = behind }
    back h = node-set_next_self pool before before behind (before_lt h)

    cases :
        (first last : Bool)
        → (before == null_index) ≡ first
        → (behind == null_index) ≡ last
        → Bridged pool
            (let q = if first then pool else mid in if last then q else set_prev q behind before)
            before
            behind
    cases true true e f = record {
      same_size = refl;
      forward = λ h. absurd (h ((==_iff _ _).0 e));
      back = λ h. absurd (h ((==_iff _ _).0 f));
      others = λ j h k. refl;
    }
    cases true false e f =
        let there : behind ≢ null_index = λ h. ground arith in
        record {
          same_size = node_count-set_prev pool behind before;
          forward = λ h. absurd (h ((==_iff _ _).0 e));
          back = λ h. node-set_prev_self pool behind behind before (behind_lt h);
          others = λ j h k. node-set_prev_ne pool behind j before (λ g. k (sym g));
        }
    cases false true e f =
        let there : before ≢ null_index = λ h. ground arith in
        record {
          same_size = node_count-set_next pool before behind;
          forward = back;
          back = λ h. absurd (h ((==_iff _ _).0 f));
          others = λ j h k. node-set_next_ne pool before j behind (λ g. h (sym g));
        }
    cases false false e f =
        let there : before ≢ null_index = λ h. ground arith in
        let size = node_count-set_next pool before behind in
        record {
          same_size = node_count-set_prev mid behind before ∙ size;
          forward = λ h. node-set_prev_ne mid behind before before (λ g. apart h (sym g)) ∙ back h;
          back = λ h.
              node-set_prev_self mid behind behind before (rw size (behind_lt h))
              ∙ ap (λ (n : OrderNode). record n { prev = before })
                  (node-set_next_ne pool before behind behind (apart there));
          others = λ j h k.
              node-set_prev_ne mid behind j before (λ g. k (sym g))
              ∙ node-set_next_ne pool before j behind (λ g. h (sym g));
        }

module _ (level : PriceLevel) (pool : OrderPool) (i : ℕ) where
  -- The neighbours of a node of the chain meet the conditions of the two writes.
  middle-Bridged :
      (ws xs : List ℕ)
      → Chain pool null_index (ws ++ i ∷ xs) level.head level.tail
      → Distinct (ws ++ i ∷ xs)
      → Bridged pool (level_unlink level pool i).1 (last_or null_index ws) (first_or_null xs)
  middle-Bridged ws xs c d =
      let m = Chain-Middle pool null_index i ws xs level.head level.tail c in
      let q = (level_unlink level pool i).1 in
      subst₂ (Bridged pool q) m.prev_is m.next_is (
        unlink-Bridged level pool i
          (λ h. rw m.prev_is (
            Chain-last_range pool null_index ws (i ∷ xs) level.head level.tail c
              (λ e. absurd (e refl)) (rw m.prev_is at h)))
          (λ h. rw m.next_is (
            Chain-behind_range pool null_index i ws xs level.head level.tail c (rw m.next_is at h)))
          (λ h. rw (m.prev_is, m.next_is) (apart ws xs d (rw m.prev_is at h))))
    where
      apart :
          (ws xs : List ℕ)
          → Distinct (ws ++ i ∷ xs)
          → last_or null_index ws ≢ null_index
          → last_or null_index ws ≢ first_or_null xs
      apart [] xs d h = absurd (h refl)
      apart (w ∷ ws) xs d h = Distinct-across w i ws xs d h

  unlink_ends :
      ((level_unlink level pool i).0.head
        ≡ (if (node pool i).prev == null_index then (node pool i).next else level.head))
      × ((level_unlink level pool i).0.tail
          ≡ (if (node pool i).next == null_index then (node pool i).prev else level.tail))
  unfolding level_unlink
  unlink_ends = (refl, refl)

  new_tail :
      (before : ℕ) (xs : List ℕ)
      → Apart null_index xs
      → (if first_or_null xs == null_index then before else level.tail)
        ≡ tail_after before xs level.tail
  new_tail before [] a = refl
  new_tail before (x ∷ xs) a = ground (arith, a.0)

  unlink-Chain :
      (ws xs : List ℕ)
      → Chain pool null_index (ws ++ i ∷ xs) level.head level.tail
      → Distinct (ws ++ i ∷ xs)
      → Chain
          (level_unlink level pool i).1
          null_index
          (ws ++ xs)
          (level_unlink level pool i).0.head
          (level_unlink level pool i).0.tail
  unlink-Chain [] xs c d =
      let b = middle-Bridged [] xs c d in
      let m = Chain-Middle pool null_index i [] xs level.head level.tail c in
      let none = Chain-not_null pool null_index (i ∷ xs) level.head level.tail c in
      rw (unlink_ends.0, unlink_ends.1, m.prev_is, m.next_is, new_tail null_index xs none.1)
        (Chain-behind pool _ null_index i xs level.head level.tail b d.1 none.1 c)
  unlink-Chain (w ∷ ws) xs c d =
      let b = middle-Bridged (w ∷ ws) xs c d in
      let m = Chain-Middle pool null_index i (w ∷ ws) xs level.head level.tail c in
      let none = Chain-not_null pool null_index (w ∷ ws ++ i ∷ xs) level.head level.tail c in
      let before : (last_or w ws == null_index) ≡ false =
        ground
          (arith, Apart-last null_index w ws (Apart-append null_index (w ∷ ws) (i ∷ xs) none).0) in
      let apart = (Apart-append null_index (w ∷ ws) (i ∷ xs) none).1.1 in
      rw
        (
          unlink_ends.0,
          unlink_ends.1,
          m.prev_is,
          m.next_is,
          before,
          new_tail (last_or w ws) xs apart,
        )
        (Chain-remove pool _ null_index i w ws xs level.head level.tail b d c)

  unlink_counts :
      ((level_unlink level pool i).0.order_count ≡ (level.order_count + 2 ^ 32 - 1) % 2 ^ 32)
      × ((level_unlink level pool i).0.total_quantity ≡ level.total_quantity)
      × ((level_unlink level pool i).0.price ≡ level.price)
  unfolding level_unlink
  unlink_counts = (refl, refl, refl)

  pub order-level_unlink :
      (j : ℕ) → (node (level_unlink level pool i).1 j).order ≡ (node pool j).order
  unfolding level_unlink
  order-level_unlink j = cases ((node pool i).prev == null_index) ((node pool i).next == null_index)
    where
      before : ℕ
      before = (node pool i).prev

      behind : ℕ
      behind = (node pool i).next

      cases :
          (first last : Bool)
          → (let q = if first then pool else set_next pool before behind in
              (node (if last then q else set_prev q behind before) j).order ≡ (node pool j).order)
      cases true true = refl
      cases true false = order-set_prev pool behind j before
      cases false true = order-set_next pool before j behind
      cases false false =
          order-set_prev (set_next pool before behind) behind j before
          ∙ order-set_next pool before j behind

  -- An order of a well-linked level, wherever it stands, is unlinked: the level lists the others in
  -- their order, its links and its count are right, and its total and price and every order are
  -- as they were.
  pub level_unlink-IsLinked :
      (ws xs : List ℕ)
      → IsLinked pool level (ws ++ i ∷ xs)
      → (let (after, q) = level_unlink level pool i in
          IsLinked q after (ws ++ xs)
          × (after.total_quantity ≡ level.total_quantity)
          × (after.price ≡ level.price)
          × ((j : ℕ) → (node q j).order ≡ (node pool j).order))
  level_unlink-IsLinked ws xs l =
      let long = length-append ws (i ∷ xs) in
      let short = length-append ws xs in
      (
        record {
          chain = unlink-Chain ws xs l.chain l.distinct;
          distinct = Distinct-remove i ws xs l.distinct;
          count = omega (arith, unlink_counts.0, l.count, l.few);
          few = omega (arith, l.few);
        },
        unlink_counts.1,
        unlink_counts.2,
        order-level_unlink,
      )

-- The open quantities depend on the orders alone.
pub open_quantity-frame :
    (p q : OrderPool) (xs : List ℕ)
    → ((j : ℕ) → (node q j).order ≡ (node p j).order)
    → open_quantity q xs ≡ open_quantity p xs
unfolding open_quantity
open_quantity-frame p q [] same = refl
open_quantity-frame p q (x ∷ xs) same =
    ap₂ ◌+ℤ◌ (ap (λ (o : Order). o.remaining_quantity) (same x)) (open_quantity-frame p q xs same)

pub open_quantity-append :
    (p : OrderPool) (xs ys : List ℕ)
    → open_quantity p (xs ++ ys) ≡ open_quantity p xs +ℤ open_quantity p ys
unfolding open_quantity
open_quantity-append p [] ys = omega int_laws
open_quantity-append p (x ∷ xs) ys =
    rw (open_quantity-append p xs ys) (sym (+ℤ_assoc _ (open_quantity p xs) (open_quantity p ys)))

module _ (level : PriceLevel) (pool : OrderPool) (idx : ℕ) where
  push_ends :
      ((level_push_back level pool idx).0.head
        ≡ (if not (level.tail == null_index) then level.head else idx))
      × ((level_push_back level pool idx).0.tail ≡ idx)
      × ((level_push_back level pool idx).0.order_count ≡ (level.order_count + 1) % 2 ^ 32)
      × ((level_push_back level pool idx).0.price ≡ level.price)
  unfolding level_push_back
  push_ends = (refl, refl, refl, refl)

  push_total :
      (level_push_back level pool idx).0.total_quantity
      ≡ level.total_quantity +ℤ (node pool idx).order.remaining_quantity
  unfolding level_push_back
  push_total =
      ap (λ (o : Order). level.total_quantity +ℤ o.remaining_quantity)
        (order-set_next (set_prev pool idx level.tail) idx idx null_index
          ∙ order-set_prev pool idx idx level.tail)

  pub order-level_push_back :
      (j : ℕ) → (node (level_push_back level pool idx).1 j).order ≡ (node pool j).order
  unfolding level_push_back
  order-level_push_back j = cases (level.tail == null_index)
    where
      mid : OrderPool
      mid = set_next (set_prev pool idx level.tail) idx null_index

      mid_order : (node mid j).order ≡ (node pool j).order
      mid_order =
          order-set_next (set_prev pool idx level.tail) idx j null_index
          ∙ order-set_prev pool idx j level.tail

      cases :
          (none_there : Bool)
          → (node (if not none_there then set_next mid level.tail idx else mid) j).order
            ≡ (node pool j).order
      cases true = mid_order
      cases false = order-set_next mid level.tail j idx ∙ mid_order

  push-Chain :
      (xs : List ℕ)
      → idx < node_count pool
      → idx ≢ null_index
      → Apart idx xs
      → Distinct xs
      → Chain pool null_index xs level.head level.tail
      → Chain
          (level_push_back level pool idx).1
          null_index
          (xs ++ idx ∷ [])
          (level_push_back level pool idx).0.head
          (level_push_back level pool idx).0.tail
  push-Chain [] lt ne a d (h, t) =
      let l = push_back-Linked level pool idx lt ne (λ e. ne (sym e ∙ t)) (λ k. absurd (k t)) in
      let test : (level.tail == null_index) ≡ true = ground (arith, t) in
      rw (push_ends.0, push_ends.1, test) (refl, rw l.same_size lt, ne, l.back ∙ t, (l.end, refl))
  push-Chain (x ∷ xs) lt ne a d c =
      let last = Chain-last pool null_index (x ∷ xs) level.head level.tail c in
      let none = Chain-not_null pool null_index (x ∷ xs) level.head level.tail c in
      let there : level.tail ≢ null_index = λ e. Apart-last null_index x xs none (sym e ∙ last) in
      let test : (level.tail == null_index) ≡ false = ground (arith, there) in
      let l =
        push_back-Linked level pool idx lt ne (λ e. Apart-last idx x xs a (sym e ∙ last))
          (λ k. Chain-tail_range pool null_index x xs level.head level.tail c) in
      rw (push_ends.0, push_ends.1, test)
        (Chain-snoc pool _ idx null_index x xs level.head level.tail l d a c)

  -- A push of an order in a slot of the pool that the level does not list, on a well-formed level
  -- of fewer than 2^32 - 1 orders, leaves the level well formed with the order last, and its price
  -- and every order as they were.
  pub level_push_back-IsLevel :
      (xs : List ℕ)
      → idx < node_count pool
      → idx ≢ null_index
      → Apart idx xs
      → length xs + 1 < 2 ^ 32
      → IsLevel pool level xs
      → (let (after, q) = level_push_back level pool idx in
          IsLevel q after (xs ++ idx ∷ [])
          × (after.price ≡ level.price)
          × ((j : ℕ) → (node q j).order ≡ (node pool j).order))
  unfolding open_quantity
  level_push_back-IsLevel xs lt ne a few l =
      let long = length-append xs (idx ∷ []) in
      let q = (level_push_back level pool idx).1 in
      (
        record {
          links = record {
            chain = push-Chain xs lt ne a l.links.distinct l.links.chain;
            distinct = Distinct-snoc idx xs l.links.distinct a;
            count = omega (arith, push_ends.2, l.links.count);
            few = omega arith;
          };
          total =
              push_total
              ∙ ap (λ k. k +ℤ (node pool idx).order.remaining_quantity) l.total
              ∙ sym (
                  open_quantity-frame pool q (xs ++ idx ∷ []) order-level_push_back
                  ∙ open_quantity-append pool xs (idx ∷ [])
                  ∙ omega int_laws);
        },
        push_ends.3,
        order-level_push_back,
      )
