-- ===== src/Engine/Tests.antt =====
-- The engine over a small book.
use lightning_lob.Types.{buy, limit, gtc, filled, no_reason}
use lightning_lob.Engine.{Engine, BookOps, submit_order, submit_to, find_book}
use lightning_lob.Engine.Positions.{submit_order-positions, net}
use lightning_lob.Risk.{position, check_new_order, find_state}
use lightning_lob.MapBook.{report}
use lightning_lob.Base.{[], ◌∷◌, false, suc, refl, arith, ℕ, ◌≡◌}
use lightning_lob.Order.{OrderRequest}
use lightning_lob.Base.Int.{pos, ◌+ℤ◌}

-- A book that fills every order against the participant 9; its state counts the orders.
abbrev filling_ops : BookOps ℕ
filling_ops = record {
  construct = λ symbol min_price max_price hint policy. 0;
  add_order = λ clock n o. record {
    report = report o.id filled o.quantity (pos 0) no_reason;
    book = suc n;
    trades =
        record {
          taker_order_id = o.id;
          maker_order_id = 1;
          symbol = o.symbol;
          price = o.price;
          quantity = o.quantity;
          timestamp = clock 0;
          taker_side = o.side;
          taker_participant_id = o.participant_id;
          maker_participant_id = 9;
        }
        ∷ [];
  };
  cancel_order = λ n id. (false, n);
  amend_order = λ clock n id quantity price. record {
    report = report id filled (pos 0) (pos 0) no_reason;
    book = n;
    trades = [];
  };
  reset = λ n. 0;
}

abbrev clock : ℕ → ℕ
clock i = i

abbrev engine : Engine ℕ
engine = record { books = (1, 0) ∷ []; risk_manager = []; next_order_id = 5 }

abbrev request : OrderRequest
request = record {
  client_order_id = 0;
  symbol = 1;
  participant_id = 3;
  side = buy;
  type = limit;
  price = pos 101;
  quantity = pos 4;
  time_in_force = gtc;
}

next_id : (submit_order filling_ops clock engine request).report.order_id ≡ 5
unfolding submit_order submit_to find_book check_new_order find_state
next_id = refl

submit_order-positions_example :
    position (submit_order filling_ops clock engine request).engine.risk_manager 1 9
    ≡ position [] 1 9 +ℤ net 1 9 (submit_order filling_ops clock engine request).trades
unfolding submit_order submit_to find_book check_new_order find_state
submit_order-positions_example =
    submit_order-positions filling_ops clock engine request 1 9 (omega arith)
      ((omega arith, omega arith), tt)
