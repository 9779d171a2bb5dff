-- ===== src/Gateway/Sweeps.antt =====
-- A sweep of the gateway, and what is served of each lane.
use mathlib.Core.List.{tail}
use lightning_lob.Gateway.{OrderGateway, Poll, lane_at, gateway_submit, poll_lanes, poll_once}
use lightning_lob.Gateway.Lanes.{Queues, Visited, handled, firsts, poll_lanes-Visited}
use lightning_lob.Ring.{new_ring, try_push}
use lightning_lob.Ring.Window.{Holds}
use lightning_lob.Ring.Wrap.{mod_below, mod_above}
use lightning_lob.Ring.Queue.{try_push-Holds}
use lightning_lob.Base.{
  [], ◌∷◌, true, false, inl, inr, refl, arith, ℕ, ◌<◌, ◌+◌, List, ◌%◌, length, ◌≡◌, Bool-cases, ltb,
  ◌-◌, if◌then◌else◌, ◌&&◌, ◌==◌, ◌++◌, ap, Bool, subst, ◌∙◌, length-set, sym, set, get_or-set_self,
  ◌≢◌, get_or-set_ne,
}
use lightning_lob.Order.{OrderRequest}

-- The place, counted from `start`, of an index.
pub place_of : (start j n : ℕ) → start < n → j < n → (d : ℕ) × (d < n) × ((start + d) % n ≡ j)
place_of start j n start_in j_in = elim (Bool-cases (ltb j start)) [
  | inl e ↦ (j + n - start, ground arith, up e)
  | inr e ↦ (j - start, omega arith, ap (λ k. k % n) (ground (arith, e)) ∙ mod_below j n j_in)
]
  where
    up : ltb j start ≡ true → (start + (j + n - start)) % n ≡ j
    up e =
        ap (λ k. k % n) (ground (arith, e))
        ∙ mod_above (j + n) n (omega arith) (omega arith)
        ∙ omega arith

module _ (capacity : ℕ) (blank : OrderRequest) where
  -- What a queue becomes when the request is pushed on the lane or refused by it.
  abbrev pub joined :
      Bool → ℕ → OrderRequest → (queue : ℕ → List OrderRequest) → ℕ → List OrderRequest
  joined pushed lane request queue j =
      if pushed && (lane == j) then queue j ++ request ∷ [] else queue j

  -- One sweep over well-formed lanes, of which there is one at least, takes the oldest request of each
  -- lane that has one, and no more of it; it handles them in the order of the lanes from `next_lane`
  -- on, counts them, and moves `next_lane` on by one.
  pub poll_once-Queues :
      {S : Type 0} (handler : OrderRequest → S → S) (g : OrderGateway)
      (queue : ℕ → List OrderRequest) (s : S)
      → Queues capacity blank g queue
      → 0 < length g.lanes
      → (let n = length g.lanes in
          let rs = firsts (λ d. queue ((g.next_lane + d) % n)) n 0 in
          let (drained, state, after) = poll_once capacity blank handler g s in
          Queues capacity blank after (λ j. tail (queue j))
          × (state ≡ handled handler rs s)
          × (drained ≡ length rs)
          × (length after.lanes ≡ n)
          × (after.next_lane ≡ (g.next_lane + 1) % n))
  unfolding poll_once
  poll_once-Queues {S} handler g queue s q some_lane =
      let n = length g.lanes in
      let start_in = q.next_in some_lane in
      let places = λ (d : ℕ). queue ((g.next_lane + d) % n) in
      let start : Poll S = record { drained = 0; lanes = g.lanes; state = s } in
      let none_yet : Visited capacity blank n g.next_lane 0 g.lanes places = record {
        sized = refl;
        holds = λ d d_in.
            let not_past : ltb d 0 ≡ false = ground arith in
            rw not_past (q.holds ((g.next_lane + d) % n) (omega arith));
      } in
      let (visited, state, drained) =
        poll_lanes-Visited capacity blank handler n g.next_lane n 0 start places start_in
          (omega arith) none_yet in
      let lanes = (poll_lanes capacity blank handler g.next_lane n n 0 start).lanes in
      let on : ltb 0 n ≡ true = ground arith in
      let moved : (if ltb 0 n then (g.next_lane + 1) % n else g.next_lane) ≡ (g.next_lane + 1) % n =
        rw on refl in
      (
        record {
          next_in = λ _. rw (moved, visited.sized) (omega arith);
          holds = λ j j_in.
              let (d, d_in, at) =
                place_of g.next_lane j n start_in (omega (arith, visited.sized)) in
              let past : ltb d n ≡ true = ground arith in
              subst (λ t. Holds capacity blank (lane_at capacity blank lanes t) (tail (queue t))) at
                (subst
                  (λ c.
                    Holds capacity blank (lane_at capacity blank lanes ((g.next_lane + d) % n))
                      (if c then tail (places d) else places d))
                  past (visited.holds d d_in));
        },
        state,
        drained ∙ omega arith,
        visited.sized,
        moved,
      )

  -- A request is pushed on a lane that has room, behind what the lane holds, and refused by one that
  -- has none, and no other lane changes.
  pub gateway_submit-Queues :
      (g : OrderGateway) (queue : ℕ → List OrderRequest) (lane : ℕ) (request : OrderRequest)
      → Queues capacity blank g queue
      → lane < length g.lanes
      → (let (pushed, after) = gateway_submit capacity blank g lane request in
          (pushed ≡ ltb (length (queue lane) + 1) capacity)
          × Queues capacity blank after (joined pushed lane request queue))
  unfolding gateway_submit
  gateway_submit-Queues g queue lane request q lane_in =
      let at_lane = lane_at capacity blank g.lanes lane in
      let (pushed, after) =
        try_push-Holds capacity blank at_lane (queue lane) request (q.holds lane lane_in) in
      let (p, r) = try_push capacity blank at_lane request in
      (
        pushed,
        record {
          next_in = λ some_lane.
              rw (length-set g.lanes lane r)
                (q.next_in (rw (sym (length-set g.lanes lane r)) some_lane));
          holds = λ j j_in. elim (Bool-cases (lane == j)) [
            | inl e ↦
                let at : lane ≡ j = ground arith in
                let own : (p && (lane == lane)) ≡ p = ground arith in
                subst
                  (λ t.
                    Holds capacity blank (lane_at capacity blank (set g.lanes lane r) t)
                      (joined p lane request queue t))
                  at
                  (subst
                    (λ c.
                      Holds capacity blank (lane_at capacity blank (set g.lanes lane r) lane)
                        (if c then queue lane ++ request ∷ [] else queue lane))
                    (sym own)
                    (rw (get_or-set_self g.lanes lane r (new_ring capacity blank) lane_in) after))
            | inr e ↦
                let apart : lane ≢ j = λ at. ground arith in
                let unused : (p && (lane == j)) ≡ false = ground (arith, e) in
                rw (unused, get_or-set_ne g.lanes lane j r (new_ring capacity blank) apart)
                  (q.holds j (omega (arith, j_in, length-set g.lanes lane r)))
          ];
        },
      )
