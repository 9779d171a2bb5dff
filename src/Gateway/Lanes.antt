-- ===== src/Gateway/Lanes.antt =====
-- The lanes of the gateway as queues, and what one sweep takes from them.
use mathlib.Core.List.{head?, tail}
use lightning_lob.Gateway.{OrderGateway, Poll, Lane, lane_at, visit, handle, poll_lanes}
use lightning_lob.Ring.Window.{Holds}
use lightning_lob.Ring.Wrap.{places_apart}
use lightning_lob.Ring.Queue.{try_pop-Holds}
use lightning_lob.Base.{
  [], ◌∷◌, true, false, zero, suc, none, some, inl, inr, refl, arith, List, ℕ, ◌+◌, ◌<◌, length,
  Option, ◌≡◌, ◌%◌, if◌then◌else◌, ltb, set, subst, ◌==◌, ◌≢◌, ap, Bool-cases, sym, ltb→lt, ◌∙◌,
  length-set, get_or-set_self, get_or-set_ne,
}
use lightning_lob.Order.{OrderRequest}
use lightning_lob.Ring.{try_pop, new_ring}

-- What the handler makes of requests, the first of them first.
abbrev pub handled : {S : Type 0} → (OrderRequest → S → S) → List OrderRequest → S → S
handled handler [] s = s
handled handler (r ∷ rs) s = handled handler rs (handler r s)

abbrev pub first_of : List OrderRequest → List OrderRequest → List OrderRequest
first_of [] rs = rs
first_of (r ∷ _) rs = r ∷ rs

-- The first requests of the queues in the `rounds` places from `i` on.
unfoldable pub firsts : (queue : ℕ → List OrderRequest) → (rounds i : ℕ) → List OrderRequest
firsts queue zero i = []
firsts queue (suc rounds) i = first_of (queue i) (firsts queue rounds (i + 1))

module _ (capacity : ℕ) (blank : OrderRequest) where
  -- Each lane of the gateway holds what its queue lists, oldest first.
  pub record Queues (g : OrderGateway) (queue : ℕ → List OrderRequest) : Type 0 where
    pub next_in : 0 < length g.lanes → g.next_lane < length g.lanes
    pub holds :
        (j : ℕ)
        → j < length g.lanes
        → Holds capacity blank (lane_at capacity blank g.lanes j) (queue j)

  -- The lanes when the rounds before `i` have taken their requests, by their places from `start` on.
  pub record Visited (n start i : ℕ) (lanes : List Lane) (queue : ℕ → List OrderRequest)
      : Type 0 where
    pub sized : length lanes ≡ n
    pub holds :
        (d : ℕ)
        → d < n
        → Holds capacity blank
            (lane_at capacity blank lanes ((start + d) % n))
            (if ltb d i then tail (queue d) else queue d)

  -- The lane at place `i` is left with the rest of its queue.
  set-Visited :
      (n start i : ℕ) (lanes : List Lane) (lane : Lane) (queue : ℕ → List OrderRequest)
      → start < n
      → i < n
      → Holds capacity blank lane (tail (queue i))
      → Visited n start i lanes queue
      → Visited n start (i + 1) (set lanes ((start + i) % n) lane) queue
  set-Visited n start i lanes lane queue start_in i_in after v = record {
    sized = length-set lanes ((start + i) % n) lane ∙ v.sized;
    holds = λ d d_in. elim (Bool-cases (i == d)) [
      | inl e ↦
          let at : i ≡ d = ground arith in
          let past : ltb i (i + 1) ≡ true = ground arith in
          let place : (start + i) % n < length lanes = omega (arith, v.sized) in
          subst
            (λ t.
              Holds capacity blank
                (lane_at capacity blank (set lanes ((start + i) % n) lane) ((start + t) % n))
                (if ltb t (i + 1) then tail (queue t) else queue t))
            at
            (rw (past, get_or-set_self lanes ((start + i) % n) lane (new_ring capacity blank) place)
              after)
      | inr e ↦
          let same : ltb d (i + 1) ≡ ltb d i = ground arith in
          rw (same, get_or-set_ne lanes _ _ lane (new_ring capacity blank) (apart d d_in e))
            (v.holds d d_in)
    ];
  }
    where
      apart : (d : ℕ) → d < n → (i == d) ≡ false → (start + i) % n ≢ (start + d) % n
      apart d d_in e = elim (Bool-cases (ltb i d)) [
        | inl less ↦ places_apart start i d n start_in (ltb→lt i d less) d_in
        | inr more ↦ λ same. places_apart start d i n start_in (ground arith) i_in (sym same)
      ]

  module _ {S : Type 0} (handler : OrderRequest → S → S) where
    handle-lanes :
        (r : Option OrderRequest) (p : Poll S) → (handle capacity blank handler r p).lanes ≡ p.lanes
    handle-lanes none p = refl
    handle-lanes (some r) p = refl

    handle-handled :
        (xs rs : List OrderRequest) (p : Poll S)
        → handled handler rs (handle capacity blank handler (head? xs) p).state
          ≡ handled handler (first_of xs rs) p.state
    handle-handled [] rs p = refl
    handle-handled (x ∷ xs) rs p = refl

    handle-drained :
        (xs rs : List OrderRequest) (p : Poll S)
        → (handle capacity blank handler (head? xs) p).drained + length rs
          ≡ p.drained + length (first_of xs rs)
    handle-drained [] rs p = refl
    handle-drained (x ∷ xs) rs p = omega arith

    pub poll_lanes-Visited :
        (n start rounds i : ℕ) (p : Poll S) (queue : ℕ → List OrderRequest)
        → start < n
        → i + rounds ≡ n
        → Visited n start i p.lanes queue
        → (let after = poll_lanes capacity blank handler start n rounds i p in
            Visited n start n after.lanes queue
            × (after.state ≡ handled handler (firsts queue rounds i) p.state)
            × (after.drained ≡ p.drained + length (firsts queue rounds i)))
    unfolding poll_lanes firsts
    poll_lanes-Visited n start zero i p queue start_in e v =
        let at : i ≡ n = omega (arith, e) in
        (subst (λ t. Visited n start t p.lanes queue) at v, refl, omega arith)
    poll_lanes-Visited n start (suc rounds) i p queue start_in e v =
        let i_in : i < n = omega (arith, e) in
        let place = (start + i) % n in
        let lane = lane_at capacity blank p.lanes place in
        let not_past : ltb i i ≡ false = ground arith in
        let here : Holds capacity blank lane (queue i) =
          subst (λ c. Holds capacity blank lane (if c then tail (queue i) else queue i)) not_past
            (v.holds i i_in) in
        let (popped, after) = try_pop-Holds capacity blank lane (queue i) here in
        let taken : Poll S = record p {
          lanes = set p.lanes place (try_pop capacity blank lane).1;
        } in
        let step : visit capacity blank handler place p
            ≡ handle capacity blank handler (head? (queue i)) taken =
          ap (λ r. handle capacity blank handler r taken) popped in
        let visited =
          subst (λ ls. Visited n start (i + 1) ls queue)
            (sym (handle-lanes (head? (queue i)) taken))
            (set-Visited n start i p.lanes _ queue start_in i_in after v) in
        let (lanes, state, drained) =
          poll_lanes-Visited n start rounds (i + 1)
            (handle capacity blank handler (head? (queue i)) taken) queue start_in
            (omega (arith, e)) visited in
        subst
          (λ q.
            let end_of = poll_lanes capacity blank handler start n rounds (i + 1) q in
            let rs = first_of (queue i) (firsts queue rounds (i + 1)) in
            Visited n start n end_of.lanes queue
            × (end_of.state ≡ handled handler rs p.state)
            × (end_of.drained ≡ p.drained + length rs))
          (sym step)
          (
            lanes,
            state ∙ handle-handled (queue i) (firsts queue rounds (i + 1)) taken,
            drained ∙ handle-drained (queue i) (firsts queue rounds (i + 1)) taken,
          )
