-- ===== src/Gateway/Tests.antt =====
-- A gateway of two lanes.
use lightning_lob.Types.{buy, limit, gtc}
use lightning_lob.Order.{OrderRequest}
use lightning_lob.Gateway.{OrderGateway, lane_at, poll_once}
use lightning_lob.Gateway.Lanes.{Queues, handled, firsts}
use lightning_lob.Gateway.Sweeps.{poll_once-Queues}
use lightning_lob.Gateway.Served.{Event, arrives, sweeps, Among, run_events, logs, run_events-Among}
use lightning_lob.Ring.Window.{window, Holds}
use mathlib.Core.List.{tail}
use lightning_lob.Base.{[], ◌∷◌, zero, suc, inr, refl, arith, ℕ, ◌+◌, List, ◌<◌, ◌%◌, ◌≡◌, length}
use lightning_lob.Base.Int.{pos}

abbrev request : ℕ → OrderRequest
request id = record {
  client_order_id = id;
  symbol = 1;
  participant_id = 0;
  side = buy;
  type = limit;
  price = pos 100;
  quantity = pos 5;
  time_in_force = gtc;
}

abbrev blank : OrderRequest
blank = request 0

-- The first lane holds one request, and the second, which is next, two.
abbrev gateway : OrderGateway
gateway = record {
  lanes =
      record { write_idx = 1; read_idx = 0; buffer = request 1 ∷ blank ∷ blank ∷ blank ∷ [] }
      ∷ record { write_idx = 1; read_idx = 3; buffer = request 3 ∷ blank ∷ blank ∷ request 2 ∷ [] }
      ∷ [];
  next_lane = 1;
}

abbrev queue : ℕ → List OrderRequest
queue zero = request 1 ∷ []
queue (suc j) = request 2 ∷ request 3 ∷ []

gateway-Holds : (j : ℕ) → j < 2 → Holds 4 blank (lane_at 4 blank gateway.lanes j) (queue j)
unfolding window
gateway-Holds zero lt = record {
  slots = refl;
  reads = omega arith;
  room = omega arith;
  writes = refl;
  items = refl;
}
gateway-Holds (suc zero) lt = record {
  slots = refl;
  reads = omega arith;
  room = omega arith;
  writes = refl;
  items = refl;
}
gateway-Holds (suc (suc j)) lt = absurd (omega arith)

gateway-Queues : Queues 4 blank gateway queue
gateway-Queues = record { next_in = λ _. omega arith; holds = gateway-Holds }

poll_once-Queues_example :
    (let rs = firsts (λ d. queue ((1 + d) % 2)) 2 0 in
      let (drained, state, after) = poll_once 4 blank logs gateway [] in
      Queues 4 blank after (λ j. tail (queue j))
      × (state ≡ handled logs rs [])
      × (drained ≡ length rs)
      × (length after.lanes ≡ 2)
      × (after.next_lane ≡ 0))
poll_once-Queues_example =
    poll_once-Queues 4 blank logs gateway queue [] gateway-Queues (omega arith)

-- The request 3 waits behind the request 2; another arrives between two sweeps.
abbrev events : List Event
events = sweeps ∷ arrives 0 (request 9) ∷ sweeps ∷ []

run_events-Among_example : Among (request 3) (run_events 4 blank events gateway [])
run_events-Among_example =
    run_events-Among 4 blank events gateway queue [] 1 (request 3) gateway-Queues (omega arith)
      (tt, (omega arith, (tt, tt))) (inr (request 2 ∷ [], [], refl, omega arith))
