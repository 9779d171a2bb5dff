-- ===== src/Engine.antt =====
-- include/lightninglob/matching_engine.hpp: the engine over the books of its symbols. The template's
-- parameter `BookT` is an interface. A call of a book gives its trades in order, and the engine's
-- trade callback runs on each; what a book does does not depend on that.
pub mod Positions
mod Tests
use lightning_lob.Types.{
  buy, sell, unknown_symbol, rejected, no_reason, invalid_order_id, SymbolId, RejectReason, OrderId,
  Price, Timestamp, ParticipantId, SelfTradePrevention, Quantity,
}
use lightning_lob.Risk.{RiskManager, check_new_order, on_fill, set_limits, SymbolRiskLimits}
use lightning_lob.MapBook
use lightning_lob.MapBook.{report}
use lightning_lob.Base.{
  [], ◌∷◌, true, false, zero, suc, none, some, inl, inr, refl, arith, List, ℕ, Option,
  if◌then◌else◌, Bool, ◌==◌, ◌+◌, ◌%◌, ◌^◌,
}
use lightning_lob.Order.{ExecutionReport, Trade, OrderRequest, opposite, Order}
use lightning_lob.Base.Int.{pos}

-- What a call of a book gives.
pub record Answer (B : Type 0) : Type 0 where
  pub report : ExecutionReport
  pub book : B
  pub trades : List Trade

-- What the engine calls of a book.
pub record BookOps (B : Type 0) : Type 0 where
  pub construct : SymbolId → (min_price max_price : Price) → ℕ → SelfTradePrevention → B
  pub add_order : (ℕ → Timestamp) → B → Order → Answer B
  pub cancel_order : B → OrderId → Bool × B
  pub amend_order : (ℕ → Timestamp) → B → OrderId → Quantity → Option Price → Answer B
  pub reset : B → B

pub record Engine (B : Type 0) : Type 0 where
  pub books : List (SymbolId × B)
  pub risk_manager : RiskManager
  pub next_order_id : OrderId

-- What a call of the engine gives, with the trades that the user's callback is called with.
pub record Response (B : Type 0) : Type 0 where
  pub report : ExecutionReport
  pub engine : Engine B
  pub trades : List Trade

-- `find` of the map, and a write through it.
unfoldable pub find_book : {B : Type 0} → SymbolId → List (SymbolId × B) → Option B
find_book symbol [] = none
find_book symbol ((s, b) ∷ rest) = if s == symbol then some b else find_book symbol rest

unfoldable pub put_book : {B : Type 0} → SymbolId → B → List (SymbolId × B) → List (SymbolId × B)
put_book symbol v [] = (symbol, v) ∷ []
put_book symbol v ((s, b) ∷ rest) =
    if s == symbol then (s, v) ∷ rest else (s, b) ∷ put_book symbol v rest

-- Both legs of a trade are followed.
unfoldable pub on_trade : RiskManager → Trade → RiskManager
on_trade m t =
    let m = on_fill m t.symbol t.taker_participant_id t.taker_side t.quantity in
    on_fill m t.symbol t.maker_participant_id (opposite t.taker_side) t.quantity

unfoldable pub on_trades : RiskManager → List Trade → RiskManager
on_trades m [] = m
on_trades m (t ∷ ts) = on_trades (on_trade m t) ts

abbrev pub permitted : RejectReason → Bool
permitted no_reason = true
permitted _ = false

abbrev pub order_of : OrderRequest → OrderId → Timestamp → Order
order_of request id receipt_time = record {
  id = id;
  price = request.price;
  quantity = request.quantity;
  remaining_quantity = request.quantity;
  timestamp = receipt_time;
  symbol = request.symbol;
  participant_id = request.participant_id;
  side = request.side;
  type = request.type;
  time_in_force = request.time_in_force;
}

module _ {B : Type 0} (ops : BookOps B) where
  -- `try_emplace`: a symbol that is known keeps its book.
  unfoldable pub add_symbol :
      Engine B → SymbolId → (min_price max_price : Price) → ℕ → SelfTradePrevention → Engine B
  add_symbol e symbol min_price max_price hint policy = elim (find_book symbol e.books) [
    | some b ↦ e
    | none ↦ record e {
      books = put_book symbol (ops.construct symbol min_price max_price hint policy) e.books;
    }
  ]

  unfoldable pub reset_symbol : Engine B → SymbolId → Engine B
  reset_symbol e symbol = elim (find_book symbol e.books) [
    | none ↦ e
    | some b ↦ record e { books = put_book symbol (ops.reset b) e.books }
  ]

  -- A book's answer is written back, and its trades are followed.
  abbrev pub settled_by : Engine B → SymbolId → Answer B → Response B
  settled_by e symbol answer = record {
    report = answer.report;
    engine = record e {
      books = put_book symbol answer.book e.books;
      risk_manager = on_trades e.risk_manager answer.trades;
    };
    trades = answer.trades;
  }

  abbrev pub unknown : Engine B → OrderId → Response B
  unknown e id = record {
    report = report id rejected (pos 0) (pos 0) unknown_symbol;
    engine = e;
    trades = [];
  }

  -- `submit_order` once the book is found. An id that the request leaves open is the next one.
  unfoldable pub submit_to : (ℕ → Timestamp) → Engine B → OrderRequest → B → Response B
  submit_to clock e request b =
      let open_id = request.client_order_id == invalid_order_id in
      let id = if open_id then e.next_order_id else request.client_order_id in
      let (risk_reason, risk) =
        check_new_order e.risk_manager request.symbol request.participant_id request.side
          request.quantity (clock 0) in
      let checked_engine : Engine B = record e {
        risk_manager = risk;
        next_order_id = if open_id then (e.next_order_id + 1) % 2 ^ 64 else e.next_order_id;
      } in
      if permitted risk_reason
      then settled_by checked_engine request.symbol
          (ops.add_order (λ i. clock (suc i)) b (order_of request id (clock 0)))
      else record {
        report = report id rejected (pos 0) (pos 0) risk_reason;
        engine = checked_engine;
        trades = [];
      }

  unfoldable pub submit_order : (ℕ → Timestamp) → Engine B → OrderRequest → Response B
  submit_order clock e request = elim (find_book request.symbol e.books) [
    | none ↦ unknown e request.client_order_id
    | some b ↦ submit_to clock e request b
  ]

  unfoldable pub engine_cancel_order : Engine B → SymbolId → OrderId → Bool × Engine B
  engine_cancel_order e symbol id = elim (find_book symbol e.books) [
    | none ↦ (false, e)
    | some b ↦
        let (ok, after) = ops.cancel_order b id in
        (ok, record e { books = put_book symbol after e.books })
  ]

  unfoldable pub engine_amend_order :
      (ℕ → Timestamp) → Engine B → SymbolId → OrderId → Quantity → Option Price → Response B
  engine_amend_order clock e symbol id new_quantity new_price = elim (find_book symbol e.books) [
    | none ↦ unknown e id
    | some b ↦ settled_by e symbol (ops.amend_order clock b id new_quantity new_price)
  ]

  unfoldable pub set_risk_limits : Engine B → SymbolId → ParticipantId → SymbolRiskLimits → Engine B
  set_risk_limits e symbol participant limits = record e {
    risk_manager = set_limits e.risk_manager symbol participant limits;
  }

-- The map book as the engine's book.
abbrev answer_of : MapBook.Outcome → Answer MapBook.OrderBookMap
answer_of r = record { report = r.report; book = r.book; trades = r.trades }

abbrev pub map_book_ops : BookOps MapBook.OrderBookMap
map_book_ops = record {
  construct = λ symbol min_price max_price hint policy. MapBook.new_book symbol hint policy;
  add_order = λ clock b o. answer_of (MapBook.add_order clock b o);
  cancel_order = MapBook.cancel_order;
  amend_order =
      λ clock b id quantity price. answer_of (MapBook.amend_order clock b id quantity price);
  reset = MapBook.reset;
}
