-- ===== src/Engine/Positions.antt =====
-- The positions that the engine follows, against the trades that its calls report.
use lightning_lob.Types.{Side, Quantity, Timestamp}
use lightning_lob.Risk.{position, on_fill, check_new_order, signed, RiskManager}
use lightning_lob.Risk.Positions.{position-on_fill, position-check_new_order, same_account}
use lightning_lob.Engine.{
  Engine, Response, BookOps, on_trade, on_trades, submit_order, submit_to, permitted, unknown,
  find_book,
}
use lightning_lob.Base.{
  [], ◌∷◌, true, false, none, some, inl, inr, refl, ℕ, Bool, List, ◌<◌, if◌then◌else◌, ◌^◌, ◌≡◌,
  ◌∙◌, ap, Bool-cases, Option, All,
}
use lightning_lob.Order.{Trade, OrderRequest, opposite}
use lightning_lob.Base.Int.{◌+ℤ◌, pos, int_laws, +ℤ_assoc}

-- What one leg of a trade adds to the position of `participant` in `symbol`.
abbrev pub leg : (symbol participant s p : ℕ) → Side → Quantity → Quantity
leg symbol participant s p side quantity =
    if same_account s p symbol participant then signed side quantity else pos 0

abbrev pub net_of_trade : (symbol participant : ℕ) → Trade → Quantity
net_of_trade symbol participant t =
    leg symbol participant t.symbol t.taker_participant_id t.taker_side t.quantity
    +ℤ leg symbol participant t.symbol t.maker_participant_id (opposite t.taker_side) t.quantity

unfoldable pub net : (symbol participant : ℕ) → List Trade → Quantity
net symbol participant [] = pos 0
net symbol participant (t ∷ ts) = net_of_trade symbol participant t +ℤ net symbol participant ts

-- The participants of a trade are 32-bit numbers.
abbrev pub Fits : Trade → Type 0
Fits t = (t.taker_participant_id < 2 ^ 32) × (t.maker_participant_id < 2 ^ 32)

plus_zero : (a : Quantity) → a ≡ a +ℤ pos 0
plus_zero a = omega int_laws

plus_if : (c : Bool) (a x : Quantity) → (if c then a +ℤ x else a) ≡ a +ℤ (if c then x else pos 0)
plus_if true a x = refl
plus_if false a x = omega int_laws

position-on_trade :
    (m : RiskManager) (symbol participant : ℕ) (t : Trade)
    → Fits t
    → participant < 2 ^ 32
    → position (on_trade m t) symbol participant
      ≡ position m symbol participant +ℤ net_of_trade symbol participant t
unfolding on_trade
position-on_trade m symbol participant t (taker_fits, maker_fits) h =
    let first = on_fill m t.symbol t.taker_participant_id t.taker_side t.quantity in
    let after_maker =
      position-on_fill first t.symbol t.maker_participant_id symbol participant
        (opposite t.taker_side) t.quantity maker_fits h
      ∙ plus_if (same_account t.symbol t.maker_participant_id symbol participant)
          (position first symbol participant) (signed (opposite t.taker_side) t.quantity) in
    let after_taker =
      position-on_fill m t.symbol t.taker_participant_id symbol participant t.taker_side t.quantity
        taker_fits h
      ∙ plus_if (same_account t.symbol t.taker_participant_id symbol participant)
          (position m symbol participant) (signed t.taker_side t.quantity) in
    after_maker
    ∙ ap
        (λ k.
          k
          +ℤ leg symbol participant t.symbol t.maker_participant_id (opposite t.taker_side)
              t.quantity)
        after_taker
    ∙ +ℤ_assoc (position m symbol participant) _ _

-- The trades of a call, one after the other.
position-on_trades :
    (m : RiskManager) (symbol participant : ℕ) (ts : List Trade)
    → All Fits ts
    → participant < 2 ^ 32
    → position (on_trades m ts) symbol participant
      ≡ position m symbol participant +ℤ net symbol participant ts
unfolding on_trades net
position-on_trades m symbol participant [] fits h = omega int_laws
position-on_trades m symbol participant (t ∷ ts) fits h =
    position-on_trades (on_trade m t) symbol participant ts fits.1 h
    ∙ ap (λ k. k +ℤ net symbol participant ts) (position-on_trade m symbol participant t fits.0 h)
    ∙ +ℤ_assoc (position m symbol participant) (net_of_trade symbol participant t)
        (net symbol participant ts)

trades_from :
    (m n : RiskManager) (symbol participant : ℕ) (ts : List Trade)
    → position n symbol participant ≡ position m symbol participant
    → All Fits ts
    → participant < 2 ^ 32
    → position (on_trades n ts) symbol participant
      ≡ position m symbol participant +ℤ net symbol participant ts
trades_from m n symbol participant ts same fits h =
    position-on_trades n symbol participant ts fits h
    ∙ ap (λ k. k +ℤ net symbol participant ts) same

module _ {B : Type 0} (ops : BookOps B) where
  submit_to-positions :
      (clock : ℕ → Timestamp) (e : Engine B) (request : OrderRequest) (b : B)
      (symbol participant : ℕ)
      → participant < 2 ^ 32
      → (let r = submit_to ops clock e request b in
          All Fits r.trades
          → position r.engine.risk_manager symbol participant
            ≡ position e.risk_manager symbol participant +ℤ net symbol participant r.trades)
  unfolding submit_to net
  submit_to-positions clock e request b symbol participant h =
      let (why, risk) =
        check_new_order e.risk_manager request.symbol request.participant_id request.side
          request.quantity (clock 0) in
      let kept : position risk symbol participant ≡ position e.risk_manager symbol participant =
        position-check_new_order e.risk_manager request.symbol request.participant_id symbol
          participant request.side request.quantity (clock 0) in
      elim (Bool-cases (permitted why)) [
        | inl k ↦ rw k (λ fits. trades_from e.risk_manager risk symbol participant _ kept fits h)
        | inr k ↦ rw k (λ fits. kept ∙ plus_zero (position e.risk_manager symbol participant))
      ]

  -- Whatever the books do, after a call of `submit_order` the position of every participant in every
  -- symbol is what it was with both legs of each reported trade added, if the trades name 32-bit
  -- participants.
  pub submit_order-positions :
      (clock : ℕ → Timestamp) (e : Engine B) (request : OrderRequest) (symbol participant : ℕ)
      → participant < 2 ^ 32
      → All Fits (submit_order ops clock e request).trades
      → (let r = submit_order ops clock e request in
          position r.engine.risk_manager symbol participant
          ≡ position e.risk_manager symbol participant +ℤ net symbol participant r.trades)
  unfolding submit_order net
  submit_order-positions clock e request symbol participant h =
      cases (find_book request.symbol e.books)
    where
      cases :
          (found : Option B)
          → (let r : Response B = elim found [
            | none ↦ unknown ops e request.client_order_id
            | some b ↦ submit_to ops clock e request b
          ] in
              All Fits r.trades
              → position r.engine.risk_manager symbol participant
                ≡ position e.risk_manager symbol participant +ℤ net symbol participant r.trades)
      cases none = λ _. plus_zero (position e.risk_manager symbol participant)
      cases (some b) = submit_to-positions clock e request b symbol participant h
