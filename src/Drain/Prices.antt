-- ===== src/Drain/Prices.antt =====
-- The price of a level during the loop over it.
use lightning_lob.Drain.{
  Setting, Sweep, drain, settle, execute, cancel_maker, drop_maker, cancels_resting, maker_order,
}
use lightning_lob.Drain.Trades.{drain_inv, drain_round_cases, cancelled_head}
use lightning_lob.Base.{inl, inr, refl, ℕ, ◌≡◌, Bool-cases, ◌∙◌}
use lightning_lob.Types.{Price}
use lightning_lob.Base.Int.{eqb_ℤ, pos}
use lightning_lob.Pool

settle-price : (i : ℕ) (s : Sweep) → (settle i s).level.price ≡ s.level.price
unfolding settle drop_maker Pool.level_unlink
settle-price i s = elim (Bool-cases (eqb_ℤ (maker_order i s).remaining_quantity (pos 0))) [
  | inl e ↦ rw e refl
  | inr e ↦ rw e refl
]

cancelled-price : (e : Setting) (s : Sweep) → (cancelled_head e s).level.price ≡ s.level.price
unfolding cancel_maker drop_maker Pool.level_unlink
cancelled-price e s = elim (Bool-cases (cancels_resting e.stp_policy)) [
  | inl h ↦ rw h refl
  | inr h ↦ rw h refl
]

execute-price :
    (e : Setting) (price : Price) (i : ℕ) (s : Sweep)
    → (execute e price i s).level.price ≡ s.level.price
unfolding execute Pool.level_reduce_quantity
execute-price e price i s = refl

pub drain-price :
    (rounds : ℕ) (e : Setting) (price : Price) (s : Sweep)
    → (drain rounds e price s).0.level.price ≡ s.level.price
drain-price rounds e price s =
    drain_inv (λ t. t.level.price ≡ s.level.price) e price
      (λ t h.
        drain_round_cases (λ u. u.level.price ≡ s.level.price) e price t
          (λ _ _. cancelled-price e t ∙ h)
          (λ _ _.
            settle-price t.level.head (execute e price t.level.head t)
            ∙ execute-price e price t.level.head t
            ∙ h))
      rounds s refl
