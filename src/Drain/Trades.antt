-- ===== src/Drain/Trades.antt =====
-- What the loop does to the taker, and what each trade is like, whatever the level holds.
use lightning_lob.Base.{
  ℕ, zero, suc, ◌≡◌, refl, sym, Bool, true, false, not, ◌&&◌, ◌||◌, List, [], ◌∷◌, ◌++◌, arith,
  ◌==◌, if◌then◌else◌, Bool-cases, inl, inr, ap, All, All-append,
}
use lightning_lob.Base.Int.{pos, eqb_ℤ, ltb_ℤ, ◌+ℤ◌, ◌-ℤ◌, ◌≤ℤ◌, +ℤ_assoc, parts_of_eq, int_laws}
use lightning_lob.Types.{Price, Quantity, SelfTradePrevention, null_index, no_participant}
use lightning_lob.Order.{Order, Trade, price_ok, is_limit}
use lightning_lob.Drain.{
  Setting, Sweep, Round, finished, killed, again, prevents, cancels_resting, cancels_incoming,
  maker_order, self_trade, drop_maker, cancel_maker, trade_quantity, execute, settle, proceed,
  drain_round, drain,
}

-- The sum of the quantities of trades.
abbrev pub traded : List Trade → Quantity
traded [] = pos 0
traded (t ∷ ts) = t.quantity +ℤ traded ts

pub traded-append : (ts us : List Trade) → traded (ts ++ us) ≡ traded ts +ℤ traded us
traded-append [] us = omega int_laws
traded-append (t ∷ ts) us =
    rw (traded-append ts us) (sym (+ℤ_assoc t.quantity (traded ts) (traded us)))

-- The order may trade at the price.
abbrev pub admits : Order → Price → Bool
admits o p = not (is_limit o.type) || price_ok o.side o.price p

-- The two participants of a trade are one, and the policy forbids that.
abbrev pub forbidden : SelfTradePrevention → Trade → Bool
forbidden policy t =
    prevents policy
    && (not (t.taker_participant_id == no_participant)
        && (t.taker_participant_id == t.maker_participant_id))

-- A trade that the order may make as the taker.
pub record IsProper (policy : SelfTradePrevention) (o : Order) (t : Trade) : Type 0 where
  pub taker : t.taker_order_id ≡ o.id
  pub side : t.taker_side ≡ o.side
  pub participant : t.taker_participant_id ≡ o.participant_id
  pub price : admits o t.price ≡ true
  pub allowed : forbidden policy t ≡ false

-- The taker is the order `o` with some of its quantity traded away.
pub record Accounted (policy : SelfTradePrevention) (o taker : Order) (trades : List Trade)
    : Type 0 where
  pub same : taker ≡ record o { remaining_quantity = taker.remaining_quantity }
  pub nonneg : pos 0 ≤ℤ taker.remaining_quantity
  pub conserved : taker.remaining_quantity +ℤ traded trades ≡ o.quantity
  pub proper : All (IsProper policy o) trades

-- The state in which a round leaves the loop or goes on, if it does either, satisfies `P`.
pub data OfRound {ℓ} {S : Type 0} (P : S → Type ℓ) : Round S → Type ℓ where
  ends : OfRound P finished
  kills : {t : S} → P t → OfRound P (killed t)
  goes : {t : S} → P t → OfRound P (again t)

pub round_inv {ℓ} :
    {S : Type 0} (P : S → Type ℓ) (r : Round S) (s : S) (next : S → S × Bool)
    → P s
    → OfRound P r
    → ((t : S) → P t → P (next t).0)
    → P (proceed s next r).0
round_inv P _ s next h ends keep = h
round_inv P _ s next h (kills k) keep = k
round_inv P _ s next h (goes k) keep = keep _ k

-- The loop goes on: there is an order, and the taker is not filled.
abbrev pub is_running : Sweep → Bool
is_running s = not (s.level.head == null_index) && ltb_ℤ (pos 0) s.taker.remaining_quantity

abbrev pub cancelled_head : Setting → Sweep → Sweep
cancelled_head e s = if cancels_resting e.stp_policy then cancel_maker s.level.head s else s

-- A round ends the loop, or leads to one of two states.
pub drain_round_cases {ℓ} :
    (P : Sweep → Type ℓ) (e : Setting) (price : Price) (s : Sweep)
    → (is_running s ≡ true
        → self_trade e.stp_policy s.taker (maker_order s.level.head s) ≡ true
        → P (cancelled_head e s))
    → (is_running s ≡ true
        → self_trade e.stp_policy s.taker (maker_order s.level.head s) ≡ false
        → P (settle s.level.head (execute e price s.level.head s)))
    → OfRound P (drain_round e price s)
unfolding drain_round
drain_round_cases P e price s h k =
    cases (is_running s) (self_trade e.stp_policy s.taker (maker_order s.level.head s))
      (cancels_incoming e.stp_policy) h k
  where
    cases :
        (running self incoming : Bool)
        → (running ≡ true → self ≡ true → P (cancelled_head e s))
        → (running ≡ true → self ≡ false → P (settle s.level.head (execute e price s.level.head s)))
        → OfRound P (
            if not running
            then finished
            else if self
            then (if incoming then killed (cancelled_head e s) else again (cancelled_head e s))
            else again (settle s.level.head (execute e price s.level.head s)))
    cases false self incoming h k = ends
    cases true true true h k = kills (h refl refl)
    cases true true false h k = goes (h refl refl)
    cases true false incoming h k = goes (k refl refl)

-- A property that every round keeps holds after the loop.
pub drain_inv {ℓ} :
    (P : Sweep → Type ℓ) (e : Setting) (price : Price)
    → ((s : Sweep) → P s → OfRound P (drain_round e price s))
    → (rounds : ℕ) (s : Sweep) → P s
    → P (drain rounds e price s).0
unfolding drain
drain_inv P e price keep zero s h = h
drain_inv P e price keep (suc rounds) s h =
    round_inv P (drain_round e price s) s (drain rounds e price) h (keep s h)
      (drain_inv P e price keep rounds)

trade_quantity-le : (i : ℕ) (s : Sweep) → trade_quantity i s ≤ℤ s.taker.remaining_quantity
unfolding trade_quantity
trade_quantity-le i s = ground arith

execute-Accounted :
    (e : Setting) (price : Price) (o : Order) (i : ℕ) (s : Sweep)
    → admits o price ≡ true
    → self_trade e.stp_policy s.taker (maker_order i s) ≡ false
    → Accounted e.stp_policy o s.taker s.trades
    → Accounted e.stp_policy o (execute e price i s).taker (execute e price i s).trades
unfolding execute self_trade
execute-Accounted e price o i s fits other a =
    let q = trade_quantity i s in
    let left = s.taker.remaining_quantity in
    record {
      same = ap {A = Order} (λ t. record t { remaining_quantity = left -ℤ q }) a.same;
      nonneg = omega (int_laws, trade_quantity-le i s);
      conserved = rw (traded-append s.trades) (omega (int_laws, parts_of_eq _ _ a.conserved));
      proper = All-append (IsProper e.stp_policy o) s.trades _ a.proper (
        record {
          taker = ap (λ t. t.id) a.same;
          side = ap (λ t. t.side) a.same;
          participant = ap (λ t. t.participant_id) a.same;
          price = fits;
          allowed = other;
        },
        tt,
      );
    }

abbrev Kept : Setting → Order → Sweep → Type 0
Kept e o s = Accounted e.stp_policy o s.taker s.trades

settle-Kept : (e : Setting) (o : Order) (i : ℕ) (s : Sweep) → Kept e o s → Kept e o (settle i s)
unfolding settle drop_maker
settle-Kept e o i s a = elim (Bool-cases (eqb_ℤ (maker_order i s).remaining_quantity (pos 0))) [
  | inl h ↦ rw h a
  | inr h ↦ rw h a
]

cancelled-Kept : (e : Setting) (o : Order) (s : Sweep) → Kept e o s → Kept e o (cancelled_head e s)
unfolding cancel_maker drop_maker
cancelled-Kept e o s a = elim (Bool-cases (cancels_resting e.stp_policy)) [
  | inl h ↦ rw h a
  | inr h ↦ rw h a
]

drain_round-Kept :
    (e : Setting) (price : Price) (o : Order)
    → admits o price ≡ true
    → (s : Sweep) → Kept e o s
    → OfRound (Kept e o) (drain_round e price s)
drain_round-Kept e price o fits s a =
    drain_round_cases (Kept e o) e price s (λ _ _. cancelled-Kept e o s a)
      (λ _ other.
        settle-Kept e o s.level.head (execute e price s.level.head s)
          (execute-Accounted e price o s.level.head s fits other a))

-- The loop over a level at a price that the taker's order admits keeps the account of the taker and
-- makes proper trades only, whatever the level holds.
pub drain-Accounted :
    (rounds : ℕ) (e : Setting) (price : Price) (o : Order) (s : Sweep)
    → admits o price ≡ true
    → Accounted e.stp_policy o s.taker s.trades
    → (let t = (drain rounds e price s).0 in Accounted e.stp_policy o t.taker t.trades)
drain-Accounted rounds e price o s fits a =
    drain_inv (Kept e o) e price (drain_round-Kept e price o fits) rounds s a
