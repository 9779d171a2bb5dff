-- ===== src/Drain/Ends.antt =====
-- How the loop over one level ends.
use lightning_lob.Drain.Fifo.{Drained, debited, fill_quantity, trade_of, meet, fifo}
use lightning_lob.Drain.Trades.{is_running}
use lightning_lob.Base.{
  [], ◌∷◌, true, false, inl, inr, refl, arith, ◌≡◌, List, ℕ, length, Bool, ◌++◌, ◌<◌, ◌⊎◌, ◌∙◌, ap,
}
use lightning_lob.Drain.{Setting, Sweep, self_trade, cancels_incoming, drain}
use lightning_lob.Base.Int.{ltb_ℤ, pos, eqb_ℤ, ◌-ℤ◌}
use lightning_lob.Types.{Price}
use lightning_lob.Order.{Order, Trade}
use lightning_lob.Drain.Steps.{OnLevel, orders_at}
use lightning_lob.Pool.Level.{IsLevel}
use lightning_lob.Drain.Refinement.{Agrees, filled_of, drain-Agrees}

-- It was stopped, or no order is left, or the taker is filled.
pub data Ended (d : Drained) : Type 0 where
  stopped : d.stp_killed ≡ true → Ended d
  emptied : d.makers ≡ [] → Ended d
  satisfied : ltb_ℤ (pos 0) d.taker.remaining_quantity ≡ false → Ended d

meet_ends :
    (e : Setting) (price : Price) (taker : Order) (trades : List Trade) (maker : Order)
    (makers : List Order) (skipped next : Drained)
    → Ended skipped
    → Ended next
    → Ended (meet e price taker trades maker makers skipped next)
meet_ends e price taker trades maker makers skipped next hs hn =
    cases (ltb_ℤ (pos 0) taker.remaining_quantity) (self_trade e.stp_policy taker maker)
      (cancels_incoming e.stp_policy)
      (eqb_ℤ (maker.remaining_quantity -ℤ fill_quantity taker maker) (pos 0)) refl refl refl refl
  where
    cases :
        (unfilled self incoming used : Bool)
        → ltb_ℤ (pos 0) taker.remaining_quantity ≡ unfilled
        → self_trade e.stp_policy taker maker ≡ self
        → cancels_incoming e.stp_policy ≡ incoming
        → eqb_ℤ (maker.remaining_quantity -ℤ fill_quantity taker maker) (pos 0) ≡ used
        → Ended (meet e price taker trades maker makers skipped next)
    cases false self incoming used h k p c = rw h (satisfied h)
    cases true true true used h k p c = rw (h, k, p) (stopped refl)
    cases true true false used h k p c = rw (h, k, p) hs
    cases true false incoming true h k p c = rw (h, k, c) hn
    cases true false incoming false h k p c =
        rw (h, k, c) (satisfied (filled_of taker.remaining_quantity maker.remaining_quantity c))

fifo_ends :
    (e : Setting) (price : Price) (taker : Order) (trades : List Trade) (makers : List Order)
    → Ended (fifo e price taker trades makers)
unfolding fifo
fifo_ends e price taker trades [] = emptied refl
fifo_ends e price taker trades (maker ∷ makers) =
    meet_ends e price taker trades maker makers (fifo e price taker trades makers)
      (fifo e price (debited taker (fill_quantity taker maker))
        (trades ++ trade_of e price (e.clock (length trades)) taker maker ∷ []) makers)
      (fifo_ends e price taker trades makers)
      (fifo_ends e price (debited taker (fill_quantity taker maker))
        (trades ++ trade_of e price (e.clock (length trades)) taker maker ∷ []) makers)

no_order :
    (t : Sweep) (xs : List ℕ) (makers : List Order)
    → OnLevel t xs makers
    → makers ≡ []
    → is_running t ≡ false
no_order t [] makers on h = let null = on.level.links.chain.0 in ground arith
no_order t (x ∷ xs) makers on h = absurd (cc (on.orders, h))

-- With more rounds than orders the loop over a well-formed level is never cut short: it was stopped by
-- self-trade prevention, or its own test has failed.
pub drain_ends :
    (e : Setting) (price : Price) (rounds : ℕ) (s : Sweep) (xs : List ℕ)
    → length xs < rounds
    → IsLevel s.pool s.level xs
    → (let (t, stp_killed) = drain rounds e price s in (stp_killed ≡ true) ⊎ (is_running t ≡ false))
drain_ends e price rounds s xs lt l =
    cases (fifo e price s.taker s.trades (orders_at s.pool xs))
      (drain-Agrees e price rounds s xs lt l)
      (fifo_ends e price s.taker s.trades (orders_at s.pool xs))
  where
    cases :
        (d : Drained)
        → Agrees (drain rounds e price s) d
        → Ended d
        → (let (t, stp_killed) = drain rounds e price s in
            (stp_killed ≡ true) ⊎ (is_running t ≡ false))
    cases d a (stopped h) = inl (a.flag ∙ h)
    cases d a (emptied h) =
        inr (no_order (drain rounds e price s).0 a.indices d.makers a.on_level h)
    cases d a (satisfied h) = inr (
        let none_left : ltb_ℤ (pos 0) (drain rounds e price s).0.taker.remaining_quantity ≡ false =
          ap {A = Order} (λ o. ltb_ℤ (pos 0) o.remaining_quantity) a.taker ∙ h in
        ground arith)
