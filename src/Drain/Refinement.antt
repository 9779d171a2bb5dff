-- ===== src/Drain/Refinement.antt =====
-- The loop on the linked list of a level against the plain description of it.
use lightning_lob.Drain.Fifo.{Drained, debited, fill_quantity, trade_of, fifo}
use lightning_lob.Drain.Trades.{is_running, cancelled_head}
use lightning_lob.Drain.Steps.{
  OnLevel, orders_at, execute-IsLevel, cancel_maker-OnLevel, settle-OnLevel,
}
use lightning_lob.Base.{
  [], ◌∷◌, true, false, zero, suc, inl, inr, refl, arith, List, Bool, ℕ, if◌then◌else◌, ◌++◌, ◌≡◌,
  length, ◌<◌, ap, subst, sym, Bool-cases, ◌∙◌,
}
use lightning_lob.Types.{no_prevention, cancel_resting, cancel_incoming, cancel_both}
use mathlib.Core.Path.{ap₂}
use lightning_lob.Order.{Order, Trade}
use lightning_lob.Drain.{
  Setting, Sweep, drain_round, finished, self_trade, maker_order, cancels_incoming, again,
  cancels_resting, killed, settle, execute, drain, Round, proceed, cancel_maker, trade_quantity,
  drop_maker,
}
use lightning_lob.Types.{Quantity, Price, SelfTradePrevention}
use lightning_lob.Base.Int.{◌-ℤ◌, min_ℤ, ltb_ℤ, pos, eqb_ℤ}
use lightning_lob.Pool.Level.{IsLevel}

-- A level and a taker are left as the plain description says.
pub record Agrees (r : Sweep × Bool) (d : Drained) : Type 0 where
  pub indices : List ℕ
  pub on_level : OnLevel r.0 indices d.makers
  pub taker : r.0.taker ≡ d.taker
  pub trades : r.0.trades ≡ d.trades
  pub flag : r.1 ≡ d.stp_killed

module _ (e : Setting) (price : Price) (s : Sweep) where
  round_idle : is_running s ≡ false → drain_round e price s ≡ finished
  unfolding drain_round
  round_idle h = rw h

  round_self :
      is_running s ≡ true
      → self_trade e.stp_policy s.taker (maker_order s.level.head s) ≡ true
      → drain_round e price s ≡ (
          if cancels_incoming e.stp_policy
          then killed (cancelled_head e s)
          else again (cancelled_head e s))
  unfolding drain_round
  round_self h k = rw (h, k)

  round_trade :
      is_running s ≡ true
      → self_trade e.stp_policy s.taker (maker_order s.level.head s) ≡ false
      → drain_round e price s ≡ again (settle s.level.head (execute e price s.level.head s))
  unfolding drain_round
  round_trade h k = rw (h, k)

-- From here on the loop agrees, whatever list it is on, if it has more rounds than orders.
abbrev Loop : Setting → Price → (rounds : ℕ) → Type 0
Loop e price rounds =
    (s : Sweep) (xs : List ℕ)
    → length xs < rounds
    → IsLevel s.pool s.level xs
    → Agrees (drain rounds e price s) (fifo e price s.taker s.trades (orders_at s.pool xs))

Agrees-round :
    (e : Setting) (price : Price) (s : Sweep) (n : ℕ) (d : Drained) (r : Round Sweep)
    → drain_round e price s ≡ r
    → Agrees (proceed s (λ t. drain n e price t) r) d
    → Agrees (drain (suc n) e price s) d
unfolding drain
Agrees-round e price s n d r er a =
    subst (λ q. Agrees (proceed s (λ t. drain n e price t) q) d) (sym er) a

drain_idle :
    (e : Setting) (price : Price) (s : Sweep) (n : ℕ)
    → is_running s ≡ false
    → drain n e price s ≡ (s, false)
unfolding drain
drain_idle e price s zero h = refl
drain_idle e price s (suc n) h =
    ap (λ q. proceed s (λ t. drain n e price t) q) (round_idle e price s h)

-- The taker or the maker is filled by a trade.
pub filled_of :
    (a b : Quantity)
    → eqb_ℤ (b -ℤ min_ℤ a b) (pos 0) ≡ false
    → ltb_ℤ (pos 0) (a -ℤ min_ℤ a b) ≡ false
unfolding ◌-ℤ◌
filled_of a b h = ground arith

one_cancelled :
    (policy : SelfTradePrevention) (taker maker : Order)
    → self_trade policy taker maker ≡ true
    → cancels_incoming policy ≡ false
    → cancels_resting policy ≡ false
    → ⊥
unfolding self_trade
one_cancelled no_prevention taker maker h p q = ground arith
one_cancelled cancel_resting taker maker h p q = ground arith
one_cancelled cancel_incoming taker maker h p q = ground arith
one_cancelled cancel_both taker maker h p q = ground arith

fifo-ap :
    (e : Setting) (price : Price) {o p : Order} {ts us : List Trade} {ms ns : List Order}
    → o ≡ p
    → ts ≡ us
    → ms ≡ ns
    → fifo e price o ts ms ≡ fifo e price p us ns
fifo-ap e price h k l = rw (h, k, l)

-- A trade with the order at the head.
traded_head :
    (e : Setting) (price : Price) (s : Sweep) (xs : List ℕ)
    → IsLevel s.pool s.level (s.level.head ∷ xs)
    → (let t = execute e price s.level.head s in
        let maker = maker_order s.level.head s in
        IsLevel t.pool t.level (s.level.head ∷ xs)
        × (maker_order s.level.head t ≡ debited maker (fill_quantity s.taker maker))
        × (orders_at t.pool xs ≡ orders_at s.pool xs)
        × (t.taker ≡ debited s.taker (fill_quantity s.taker maker))
        × (t.trades ≡ s.trades ++ trade_of e price (e.clock (length s.trades)) s.taker maker ∷ []))
unfolding execute trade_quantity
traded_head e price s xs l =
    let (level, here, others) = execute-IsLevel s s.level.head xs l e price in
    (level, here, others, refl, refl)

-- Taking a filled order off, or leaving one that is not, does not touch the taker.
settle-taker :
    (i : ℕ) (s : Sweep) → ((settle i s).taker ≡ s.taker) × ((settle i s).trades ≡ s.trades)
unfolding settle drop_maker
settle-taker i s = elim (Bool-cases (eqb_ℤ (maker_order i s).remaining_quantity (pos 0))) [
  | inl h ↦ rw h (refl, refl)
  | inr h ↦ rw h (refl, refl)
]

-- One round on the order at the head of a list.
module _ (e : Setting) (price : Price) (s : Sweep) (n : ℕ) (xs : List ℕ) (loop : Loop e price n)
    (lt : length xs < n) (l : IsLevel s.pool s.level (s.level.head ∷ xs)) where
  meets : Drained
  meets = fifo e price s.taker s.trades (orders_at s.pool (s.level.head ∷ xs))

  step_idle :
      ltb_ℤ (pos 0) s.taker.remaining_quantity ≡ false → Agrees (drain (suc n) e price s) meets
  unfolding fifo meets
  step_idle h =
      subst (λ r. Agrees r meets) (sym (drain_idle e price s (suc n) (ground arith)))
        (rw h (record {
          indices = s.level.head ∷ xs;
          on_level = record { level = l; orders = refl };
          taker = refl;
          trades = refl;
          flag = refl;
        }))

  running : ltb_ℤ (pos 0) s.taker.remaining_quantity ≡ true → is_running s ≡ true
  running h = let ne = l.links.chain.2 in ground arith

  -- The order is the taker's own.
  step_self :
      ltb_ℤ (pos 0) s.taker.remaining_quantity ≡ true
      → self_trade e.stp_policy s.taker (maker_order s.level.head s) ≡ true
      → Agrees (drain (suc n) e price s) meets
  unfolding fifo meets cancel_maker drop_maker
  step_self h k = cases (cancels_incoming e.stp_policy) (cancels_resting e.stp_policy) refl refl
    where
      gone : OnLevel (cancel_maker s.level.head s) xs (orders_at s.pool xs)
      gone = cancel_maker-OnLevel s s.level.head xs l

      round : drain_round e price s ≡ (
          if cancels_incoming e.stp_policy
          then killed (cancelled_head e s)
          else again (cancelled_head e s))
      round = round_self e price s (running h) k

      cases :
          (incoming resting : Bool)
          → cancels_incoming e.stp_policy ≡ incoming
          → cancels_resting e.stp_policy ≡ resting
          → Agrees (drain (suc n) e price s) meets
      cases true true p q =
          Agrees-round e price s n meets (killed (cancel_maker s.level.head s)) (round ∙ rw (p, q))
            (rw (h, k, p, q)
              (record { indices = xs; on_level = gone; taker = refl; trades = refl; flag = refl }))
      cases true false p q = Agrees-round e price s n meets (killed s) (round ∙ rw (p, q)) (
          rw (h, k, p, q)
            (record {
              indices = s.level.head ∷ xs;
              on_level = record { level = l; orders = refl };
              taker = refl;
              trades = refl;
              flag = refl;
            }))
      cases false true p q =
          Agrees-round e price s n meets (again (cancel_maker s.level.head s)) (round ∙ rw (p, q)) (
            rw (h, k, p)
              (subst
                (λ ms.
                  Agrees (drain n e price (cancel_maker s.level.head s))
                    (fifo e price s.taker s.trades ms))
                gone.orders (loop (cancel_maker s.level.head s) xs lt gone.level)))
      cases false false p q =
          absurd (one_cancelled e.stp_policy s.taker (maker_order s.level.head s) k p q)

  -- A trade with the order.
  step_trade :
      ltb_ℤ (pos 0) s.taker.remaining_quantity ≡ true
      → self_trade e.stp_policy s.taker (maker_order s.level.head s) ≡ false
      → Agrees (drain (suc n) e price s) meets
  unfolding fifo meets
  step_trade h k =
      Agrees-round e price s n meets (again (settle s.level.head t))
        (round_trade e price s (running h) k)
        (rw (h, k) (cases (eqb_ℤ (maker.remaining_quantity -ℤ qty) (pos 0)) refl))
    where
      t : Sweep
      t = execute e price s.level.head s

      maker : Order
      maker = maker_order s.level.head s

      qty : Quantity
      qty = fill_quantity s.taker maker

      spent : Drained
      spent = record {
        taker = debited s.taker qty;
        makers = debited maker qty ∷ orders_at s.pool xs;
        trades = s.trades ++ trade_of e price (e.clock (length s.trades)) s.taker maker ∷ [];
        stp_killed = false;
      }

      next : Drained
      next =
          fifo e price (debited s.taker qty)
            (s.trades ++ trade_of e price (e.clock (length s.trades)) s.taker maker ∷ [])
            (orders_at s.pool xs)

      u : Sweep
      u = settle s.level.head t

      head :
          IsLevel t.pool t.level (s.level.head ∷ xs)
          × (maker_order s.level.head t ≡ debited maker qty)
          × (orders_at t.pool xs ≡ orders_at s.pool xs)
          × (t.taker ≡ debited s.taker qty)
          × (t.trades ≡ s.trades ++ trade_of e price (e.clock (length s.trades)) s.taker maker ∷ [])
      head = traded_head e price s xs l

      same : (u.taker ≡ t.taker) × (u.trades ≡ t.trades)
      same = settle-taker s.level.head t

      idle : eqb_ℤ (maker.remaining_quantity -ℤ qty) (pos 0) ≡ false → is_running u ≡ false
      idle c =
          let done = filled_of s.taker.remaining_quantity maker.remaining_quantity c in
          let none_left : ltb_ℤ (pos 0) u.taker.remaining_quantity ≡ false =
            ap {A = Order} (λ o. ltb_ℤ (pos 0) o.remaining_quantity) (same.0 ∙ head.3) ∙ done in
          ground arith

      settled :
          (b : Bool)
          → eqb_ℤ (maker.remaining_quantity -ℤ qty) (pos 0) ≡ b
          → OnLevel u
              (if b then xs else s.level.head ∷ xs)
              (if b then orders_at t.pool xs else maker_order s.level.head t ∷ orders_at t.pool xs)
      settled b c =
          subst
            (λ z.
              OnLevel u (if z then xs else s.level.head ∷ xs) (
                if z
                then orders_at t.pool xs
                else maker_order s.level.head t ∷ orders_at t.pool xs))
            (ap {A = Order} (λ o. eqb_ℤ o.remaining_quantity (pos 0)) head.1 ∙ c)
            (settle-OnLevel t s.level.head xs head.0)

      cases :
          (b : Bool)
          → eqb_ℤ (maker.remaining_quantity -ℤ qty) (pos 0) ≡ b
          → Agrees (drain n e price (settle s.level.head t)) (if b then next else spent)
      cases true c =
          subst (λ d. Agrees (drain n e price u) d)
            (fifo-ap e price (same.0 ∙ head.3) (same.1 ∙ head.4) ((settled true c).orders ∙ head.2))
            (loop u xs lt (settled true c).level)
      cases false c =
          subst (λ r. Agrees r spent) (sym (drain_idle e price u n (idle c)))
            (record {
              indices = s.level.head ∷ xs;
              on_level =
                  subst (λ ms. OnLevel u (s.level.head ∷ xs) ms) (ap₂ ◌∷◌ head.1 head.2)
                    (settled false c);
              taker = same.0 ∙ head.3;
              trades = same.1 ∙ head.4;
              flag = refl;
            })

  step : Agrees (drain (suc n) e price s) meets
  step = elim (Bool-cases (ltb_ℤ (pos 0) s.taker.remaining_quantity)) [
    | inl h ↦ elim (Bool-cases (self_trade e.stp_policy s.taker (maker_order s.level.head s))) [
      | inl k ↦ step_self h k
      | inr k ↦ step_trade h k
    ]
    | inr h ↦ step_idle h
  ]

-- On a well-formed level that lists the orders at `xs`, the loop with more rounds than orders leaves
-- the taker, the orders of the level, the trades and the flag as the plain description does, and the
-- level well formed.
pub drain-Agrees :
    (e : Setting) (price : Price) (rounds : ℕ) (s : Sweep) (xs : List ℕ)
    → length xs < rounds
    → IsLevel s.pool s.level xs
    → Agrees (drain rounds e price s) (fifo e price s.taker s.trades (orders_at s.pool xs))
unfolding fifo meets
drain-Agrees e price zero s xs lt l = absurd (omega arith)
drain-Agrees e price (suc n) s [] lt l =
    subst (λ r. Agrees r (fifo e price s.taker s.trades []))
      (sym (drain_idle e price s (suc n) (let h = l.links.chain.0 in ground arith)))
      (record {
        indices = [];
        on_level = record { level = l; orders = refl };
        taker = refl;
        trades = refl;
        flag = refl;
      })
drain-Agrees e price (suc n) s (x ∷ xs) lt l =
    let h = l.links.chain.0 in
    subst
      (λ y.
        Agrees (drain (suc n) e price s)
          (fifo e price s.taker s.trades (orders_at s.pool (y ∷ xs))))
      h
      (step e price s n xs (drain-Agrees e price n) (omega arith)
        (subst (λ y. IsLevel s.pool s.level (y ∷ xs)) (sym h) l))
