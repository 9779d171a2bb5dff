-- ===== src/Drain/Steps.antt =====
-- One round of the loop on a well-formed level.
use mathlib.Core.Path.{ap₂}
use lightning_lob.Base.{
  [], ◌∷◌, inl, inr, refl, List, ℕ, ◌≡◌, ◌≢◌, ap, ◌∙◌, sym, if◌then◌else◌, Bool-cases,
}
use lightning_lob.Pool.{OrderPool, node, OrderNode, level_unlink, release, level_reduce_quantity}
use lightning_lob.Drain.{
  Sweep, execute, Setting, drop_maker, cancel_maker, settle, maker_order, trade_quantity,
}
use lightning_lob.Order.{Order}
use lightning_lob.Pool.Chain.{Apart}
use lightning_lob.Pool.Level.{
  IsLinked, IsLevel, open_quantity, level_unlink-IsLinked, open_quantity-frame,
}
use lightning_lob.Base.Int.{◌-ℤ◌, int_laws, eqb_ℤ, parts_of_eq, pos, eqb_ℤ→eq}
use lightning_lob.Types.{Price}
use lightning_lob.Pool.Reduce.{node-release, IsLinked-release, level_reduce_quantity-IsLevel}

-- The orders at pool indices.
abbrev pub orders_at : OrderPool → List ℕ → List Order
orders_at pool [] = []
orders_at pool (x ∷ xs) = (node pool x).order ∷ orders_at pool xs

orders_at-frame :
    (p q : OrderPool) (xs : List ℕ)
    → ((j : ℕ) → (node q j).order ≡ (node p j).order)
    → orders_at q xs ≡ orders_at p xs
orders_at-frame p q [] same = refl
orders_at-frame p q (x ∷ xs) same = ap₂ ◌∷◌ (same x) (orders_at-frame p q xs same)

orders_at-Apart :
    (p q : OrderPool) (i : ℕ) (xs : List ℕ)
    → Apart i xs
    → ((j : ℕ) → i ≢ j → node q j ≡ node p j)
    → orders_at q xs ≡ orders_at p xs
orders_at-Apart p q i [] a same = refl
orders_at-Apart p q i (x ∷ xs) a same =
    ap₂ ◌∷◌ (ap (λ (n : OrderNode). n.order) (same x a.0)) (orders_at-Apart p q i xs a.1 same)

-- The level of the sweep holds the orders at `xs`, and they are `makers`.
pub record OnLevel (s : Sweep) (xs : List ℕ) (makers : List Order) : Type 0 where
  pub level : IsLevel s.pool s.level xs
  pub orders : orders_at s.pool xs ≡ makers

module _ (s : Sweep) (x : ℕ) (xs : List ℕ) where
  -- The order is taken off, when the total does not count it any more.
  drop_maker-OnLevel :
      IsLinked s.pool s.level (x ∷ xs)
      → s.level.total_quantity ≡ open_quantity s.pool xs
      → OnLevel (drop_maker x s) xs (orders_at s.pool xs)
  unfolding drop_maker
  drop_maker-OnLevel l total =
      let (links, same_total, same_price, same) = level_unlink-IsLinked s.level s.pool x [] xs l in
      let q = (level_unlink s.level s.pool x).1 in
      let same_q : (j : ℕ) → (node (release q x) j).order ≡ (node s.pool j).order =
        λ j. ap (λ (n : OrderNode). n.order) (node-release q x j) ∙ same j in
      record {
        level = record {
          links = IsLinked-release q x (level_unlink s.level s.pool x).0 xs links;
          total = same_total ∙ total ∙ sym (open_quantity-frame s.pool (release q x) xs same_q);
        };
        orders = orders_at-frame s.pool (release q x) xs same_q;
      }

module _ (s : Sweep) (x : ℕ) (xs : List ℕ) (l : IsLevel s.pool s.level (x ∷ xs)) where
  -- A cancelled order leaves the others as they are.
  pub cancel_maker-OnLevel : OnLevel (cancel_maker x s) xs (orders_at s.pool xs)
  unfolding cancel_maker open_quantity
  cancel_maker-OnLevel =
      let level = s.level in
      let total = level.total_quantity -ℤ (maker_order x s).remaining_quantity in
      drop_maker-OnLevel (record s { level = record level { total_quantity = total } }) x xs
        (record {
          chain = l.links.chain;
          distinct = l.links.distinct;
          count = l.links.count;
          few = l.links.few;
        })
        (omega (int_laws, parts_of_eq _ _ l.total))

  -- A filled order is taken off, and another stays at the head.
  pub settle-OnLevel :
      (let maker = maker_order x s in
        let filled = eqb_ℤ maker.remaining_quantity (pos 0) in
        OnLevel
          (settle x s)
          (if filled then xs else x ∷ xs)
          (if filled then orders_at s.pool xs else maker ∷ orders_at s.pool xs))
  unfolding settle open_quantity
  settle-OnLevel = elim (Bool-cases (eqb_ℤ (maker_order x s).remaining_quantity (pos 0))) [
    | inl e ↦ rw e (
        drop_maker-OnLevel s x xs l.links (
          omega (
            int_laws,
            parts_of_eq _ _ l.total,
            parts_of_eq (maker_order x s).remaining_quantity (pos 0)
                (eqb_ℤ→eq (maker_order x s).remaining_quantity (pos 0) e),
          )))
    | inr e ↦ rw e (record { level = l; orders = refl })
  ]

  -- A trade debits the order at the head, and the level.
  pub execute-IsLevel :
      (e : Setting) (price : Price)
      → (let t = execute e price x s in
          let maker = maker_order x s in
          IsLevel t.pool t.level (x ∷ xs)
          × (maker_order x t ≡ record maker {
            remaining_quantity = maker.remaining_quantity -ℤ trade_quantity x s;
          })
          × (orders_at t.pool xs ≡ orders_at s.pool xs))
  unfolding execute
  execute-IsLevel e price =
      let qty = trade_quantity x s in
      let (level, here, others) = level_reduce_quantity-IsLevel s.level s.pool [] x xs qty l in
      (
        level,
        here,
        orders_at-Apart s.pool (level_reduce_quantity s.level s.pool x qty).1 x xs
            l.links.distinct.0 others,
      )
