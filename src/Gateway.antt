-- ===== src/Gateway.antt =====
-- include/lightninglob/order_gateway.hpp: one ring for each producer, and the matching thread that
-- polls them in turn. `capacity` is the lanes' capacity, and `blank` is `OrderRequest{}`.
pub mod Lanes
pub mod Sweeps
pub mod Served
mod Tests
use lightning_lob.Ring.{SpscRingBuffer, new_ring, try_push, try_pop, is_empty}
use lightning_lob.Order.{OrderRequest}
use lightning_lob.Base.{
  [], ◌∷◌, true, false, zero, suc, none, some, inl, inr, refl, arith, List, ℕ, replicate, length,
  get_or, Bool, Option, set, ◌+◌, if◌then◌else◌, ◌&&◌, ◌%◌, ltb,
}

-- A lane is a `unique_ptr` to a ring of its own.
abbrev pub Lane : Type 0
Lane = SpscRingBuffer OrderRequest

pub record OrderGateway : Type 0 where
  pub lanes : List Lane
  pub next_lane : ℕ

-- The state of the loop of `poll_once`; `state` is what the handler changes.
pub record Poll (S : Type 0) : Type 0 where
  pub drained : ℕ
  pub lanes : List Lane
  pub state : S

module _ (capacity : ℕ) (blank : OrderRequest) where
  unfoldable pub new_gateway : (num_producers : ℕ) → OrderGateway
  new_gateway num_producers = record {
    lanes = replicate num_producers (new_ring capacity blank);
    next_lane = 0;
  }

  abbrev pub lane_count : OrderGateway → ℕ
  lane_count g = length g.lanes

  abbrev pub lane_at : List Lane → ℕ → Lane
  lane_at lanes i = get_or lanes i (new_ring capacity blank)

  unfoldable pub gateway_submit : OrderGateway → ℕ → OrderRequest → Bool × OrderGateway
  gateway_submit g lane_index request =
      let (pushed, lane) = try_push capacity blank (lane_at g.lanes lane_index) request in
      (pushed, record g { lanes = set g.lanes lane_index lane })

  unfoldable pub all_lanes_empty : List Lane → Bool
  all_lanes_empty [] = true
  all_lanes_empty (lane ∷ rest) = is_empty capacity blank lane && all_lanes_empty rest

  module _ {S : Type 0} (handler : OrderRequest → S → S) where
    -- A lane is polled: a request that it gives is handled.
    abbrev pub handle : Option OrderRequest → Poll S → Poll S
    handle none p = p
    handle (some request) p = record p { drained = p.drained + 1; state = handler request p.state }

    abbrev pub visit : ℕ → Poll S → Poll S
    visit lane p =
        let (popped, after) = try_pop capacity blank (lane_at p.lanes lane) in
        handle popped (record p { lanes = set p.lanes lane after })

    -- The rounds of the loop from `i` on.
    unfoldable pub poll_lanes : (next_lane n rounds i : ℕ) → Poll S → Poll S
    poll_lanes next_lane n zero i p = p
    poll_lanes next_lane n (suc rounds) i p =
        poll_lanes next_lane n rounds (i + 1) (visit ((next_lane + i) % n) p)

    unfoldable pub poll_once : OrderGateway → S → ℕ × S × OrderGateway
    poll_once g s =
        let n = lane_count g in
        let p = poll_lanes g.next_lane n n 0 (record { drained = 0; lanes = g.lanes; state = s }) in
        (
          p.drained,
          p.state,
          record {
            lanes = p.lanes;
            next_lane = if ltb 0 n then (g.next_lane + 1) % n else g.next_lane;
          },
        )
