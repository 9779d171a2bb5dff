-- ===== src/Gateway/Served.antt =====
-- Sweeps of the gateway and pushes on its lanes, in any order.
use mathlib.Core.List.{tail, append-nil, append_assoc}
use lightning_lob.Gateway.{OrderGateway, gateway_submit, poll_once}
use lightning_lob.Gateway.Lanes.{Queues, handled, first_of, firsts}
use lightning_lob.Gateway.Sweeps.{joined, poll_once-Queues, gateway_submit-Queues, place_of}
use lightning_lob.Base.{
  [], ◌∷◌, true, false, zero, suc, inl, inr, refl, arith, ℕ, List, ◌<◌, ◌++◌, ◌≡◌, ◌⊎◌, ◌≤◌, Bool,
  sym, ◌+◌, length, if◌then◌else◌, ◌∙◌, Bool-cases, ap, All, ◌==◌, subst, ◌&&◌, length-set, ◌%◌,
}
use lightning_lob.Order.{OrderRequest}

-- A producer pushes a request on its lane, or the matching thread sweeps.
pub data Event : Type 0 where
  arrives : (lane : ℕ) → OrderRequest → Event
  sweeps : Event

abbrev pub IsFor : ℕ → Event → Type 0
IsFor n (arrives lane request) = lane < n
IsFor n sweeps = Unit

abbrev pub count_sweeps : List Event → ℕ
count_sweeps [] = 0
count_sweeps (arrives lane request ∷ rest) = count_sweeps rest
count_sweeps (sweeps ∷ rest) = suc (count_sweeps rest)

-- The handler that lists the requests.
abbrev pub logs : OrderRequest → List OrderRequest → List OrderRequest
logs request log = log ++ request ∷ []

abbrev pub Among : OrderRequest → List OrderRequest → Type 0
Among r [] = ⊥
Among r (x ∷ xs) = (x ≡ r) ⊎ Among r xs

Among-append :
    (r : OrderRequest) (xs ys : List OrderRequest) → Among r xs ⊎ Among r ys → Among r (xs ++ ys)
Among-append r [] ys (inl h) = absurd h
Among-append r [] ys (inr h) = h
Among-append r (x ∷ xs) ys (inl (inl e)) = inl e
Among-append r (x ∷ xs) ys (inl (inr h)) = inr (Among-append r xs ys (inl h))
Among-append r (x ∷ xs) ys (inr h) = inr (Among-append r xs ys (inr h))

handled-logs : (rs log : List OrderRequest) → handled logs rs log ≡ log ++ rs
handled-logs [] log = sym (append-nil log)
handled-logs (r ∷ rs) log = handled-logs rs (log ++ r ∷ []) ∙ append_assoc log (r ∷ []) rs

-- The first request of a queue that is visited is among the first requests.
Among-firsts :
    (queue : ℕ → List OrderRequest) (rounds i d : ℕ) (r : OrderRequest) (rest : List OrderRequest)
    → i ≤ d
    → d < i + rounds
    → queue d ≡ r ∷ rest
    → Among r (firsts queue rounds i)
unfolding firsts
Among-firsts queue zero i d r rest lo hi e = absurd (omega arith)
Among-firsts queue (suc rounds) i d r rest lo hi e = elim (Bool-cases (i == d)) [
  | inl at ↦
      let same : i ≡ d = ground arith in
      subst (λ q. Among r (first_of q (firsts queue rounds (i + 1)))) (sym (ap queue same ∙ e))
        (inl refl)
  | inr apart ↦
      later (queue i) (Among-firsts queue rounds (i + 1) d r rest (ground arith) (omega arith) e)
]
  where
    later :
        (xs : List OrderRequest)
        → Among r (firsts queue rounds (i + 1))
        → Among r (first_of xs (firsts queue rounds (i + 1)))
    later [] h = h
    later (x ∷ xs) h = inr h

module _ (capacity : ℕ) (blank : OrderRequest) where
  -- What the handler has listed after events.
  unfoldable pub run_events : List Event → OrderGateway → List OrderRequest → List OrderRequest
  run_events [] g log = log
  run_events (arrives lane request ∷ rest) g log =
      run_events rest (gateway_submit capacity blank g lane request).1 log
  run_events (sweeps ∷ rest) g log =
      let (drained, after_log, after) = poll_once capacity blank logs g log in
      run_events rest after after_log

  -- The request is handled, or stands in the queue behind fewer others than there are sweeps.
  abbrev pub Waits : OrderRequest → List OrderRequest → List OrderRequest → ℕ → Type 0
  Waits r log queue left =
      Among r log
      ⊎ ((ws : List OrderRequest) × (rest : List OrderRequest) × (queue ≡ ws ++ r ∷ rest)
          × (length ws < left))

  Waits-joined :
      (pushed : Bool) (lane j left : ℕ) (request r : OrderRequest) (log : List OrderRequest)
      (queue : ℕ → List OrderRequest)
      → Waits r log (queue j) left
      → Waits r log (joined capacity blank pushed lane request queue j) left
  Waits-joined pushed lane j left request r log queue (inl h) = inl h
  Waits-joined pushed lane j left request r log queue (inr (ws, rest, e, few)) =
      cases (pushed && (lane == j))
    where
      cases : (c : Bool) → Waits r log (if c then queue j ++ request ∷ [] else queue j) left
      cases true = inr (
        ws,
        rest ++ request ∷ [],
        ap (λ q. q ++ request ∷ []) e ∙ append_assoc ws (r ∷ rest) (request ∷ []),
        few,
      )
      cases false = inr (ws, rest, e, few)

  Waits-swept :
      (places : ℕ → List OrderRequest) (n d left : ℕ) (r : OrderRequest)
      (log queue : List OrderRequest)
      → d < n
      → places d ≡ queue
      → Waits r log queue (suc left)
      → Waits r (log ++ firsts places n 0) (tail queue) left
  Waits-swept places n d left r log queue d_in at (inl h) = inl (Among-append r log _ (inl h))
  Waits-swept places n d left r log queue d_in at (inr ([], rest, e, few)) = inl (
      Among-append r log _
        (inr (Among-firsts places n 0 d r rest (omega arith) (omega arith) (at ∙ e))))
  Waits-swept places n d left r log queue d_in at (inr (w ∷ ws, rest, e, few)) =
      inr (ws, rest, ap tail e, omega (arith, few))

  -- Whatever the producers push and where, and whatever the other lanes hold, a request that waits
  -- in a lane is handled by the time of as many sweeps as there are requests before it in that lane,
  -- and one more.
  pub run_events-Among :
      (events : List Event) (g : OrderGateway) (queue : ℕ → List OrderRequest)
      (log : List OrderRequest) (j : ℕ) (r : OrderRequest)
      → Queues capacity blank g queue
      → j < length g.lanes
      → All (IsFor (length g.lanes)) events
      → Waits r log (queue j) (count_sweeps events)
      → Among r (run_events events g log)
  unfolding run_events gateway_submit
  run_events-Among [] g queue log j r q j_in ok (inl h) = h
  run_events-Among [] g queue log j r q j_in ok (inr (ws, rest, e, few)) =
      absurd (omega (arith, few))
  run_events-Among (arrives lane request ∷ events) g queue log j r q j_in ok w =
      let (pushed, after) = gateway_submit-Queues capacity blank g queue lane request q ok.0 in
      let same = length-set g.lanes lane _ in
      run_events-Among events _ _ log j r after (omega (arith, same))
        (subst (λ n. All (IsFor n) events) (sym same) ok.1)
        (Waits-joined (gateway_submit capacity blank g lane request).0 lane j _ request r log queue
          w)
  run_events-Among (sweeps ∷ events) g queue log j r q j_in ok w =
      let n = length g.lanes in
      let some_lane : 0 < n = omega (arith, j_in) in
      let places = λ (d : ℕ). queue ((g.next_lane + d) % n) in
      let (after, state, drained, same, moved) =
        poll_once-Queues capacity blank logs g queue log q some_lane in
      let (d, d_in, at) = place_of g.next_lane j n (q.next_in some_lane) j_in in
      run_events-Among events _ _ _ j r after (omega (arith, same))
        (subst (λ k. All (IsFor k) events) (sym same) ok.1)
        (subst (λ l. Waits r l (tail (queue j)) (count_sweeps events))
          (sym (state ∙ handled-logs (firsts places n 0) log))
          (Waits-swept places n d (count_sweeps events) r log (queue j) d_in (ap queue at) w))
