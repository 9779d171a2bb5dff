-- ===== src/Replay/Tally.antt =====
-- The counts of a replay against the reports that the engine gave.
use lightning_lob.Types.{OrderStatus, new, partially_filled, filled, cancelled, rejected, Timestamp}
use lightning_lob.Order.{OrderRequest}
use lightning_lob.Engine.{Engine, BookOps, submit_order}
use lightning_lob.Replay.{ReplayStats, tally, replay_from, replay}
use lightning_lob.Base.{
  [], ◌∷◌, true, false, suc, refl, arith, Bool, ℕ, List, if◌then◌else◌, ◌+◌, ◌≡◌, length, ap,
}

abbrev pub is_rejected : OrderStatus → Bool
is_rejected rejected = true
is_rejected _ = false

abbrev pub is_filled : OrderStatus → Bool
is_filled filled = true
is_filled _ = false

abbrev pub is_partially_filled : OrderStatus → Bool
is_partially_filled partially_filled = true
is_partially_filled _ = false

abbrev pub count_if : (OrderStatus → Bool) → List OrderStatus → ℕ
count_if p [] = 0
count_if p (s ∷ rest) = (if p s then 1 else 0) + count_if p rest

module _ {B : Type 0} (ops : BookOps B) (clock : ℕ → ℕ → Timestamp) where
  -- The engine and the statuses of the reports when the requests are submitted one after the other.
  unfoldable pub submit_all : (i : ℕ) → Engine B → List OrderRequest → Engine B × List OrderStatus
  submit_all i engine [] = (engine, [])
  submit_all i engine (request ∷ rest) =
      let r = submit_order ops (clock i) engine request in
      let (after, statuses) = submit_all (i + 1) r.engine rest in
      (after, r.report.status ∷ statuses)

  -- The counts `s` with those of the statuses added.
  pub record Counts (s : ReplayStats) (statuses : List OrderStatus) (after : ReplayStats)
      : Type 0 where
    pub same_total : after.total ≡ s.total
    pub each_one :
        after.accepted + after.rejected_orders ≡ s.accepted + s.rejected_orders + length statuses
    pub rejections : after.rejected_orders ≡ s.rejected_orders + count_if is_rejected statuses
    pub fills : after.filled_orders ≡ s.filled_orders + count_if is_filled statuses
    pub partial_fills :
        after.partially_filled_orders
        ≡ s.partially_filled_orders + count_if is_partially_filled statuses

  tally-Counts :
      (status : OrderStatus) (s : ReplayStats) (statuses : List OrderStatus) (after : ReplayStats)
      → Counts (tally status s) statuses after
      → Counts s (status ∷ statuses) after
  tally-Counts new s statuses after c =
      omega (arith, c.same_total, c.each_one, c.rejections, c.fills, c.partial_fills)
  tally-Counts partially_filled s statuses after c =
      omega (arith, c.same_total, c.each_one, c.rejections, c.fills, c.partial_fills)
  tally-Counts filled s statuses after c =
      omega (arith, c.same_total, c.each_one, c.rejections, c.fills, c.partial_fills)
  tally-Counts cancelled s statuses after c =
      omega (arith, c.same_total, c.each_one, c.rejections, c.fills, c.partial_fills)
  tally-Counts rejected s statuses after c =
      omega (arith, c.same_total, c.each_one, c.rejections, c.fills, c.partial_fills)

  replay_from-Counts :
      (i : ℕ) (engine : Engine B) (orders : List OrderRequest) (s : ReplayStats)
      → (let (after, statuses) = submit_all i engine orders in
          let r = replay_from ops clock i engine orders s in
          (r.0 ≡ after) × Counts s statuses r.1 × (length statuses ≡ length orders))
  unfolding replay_from submit_all
  replay_from-Counts i engine [] s = (
    refl,
    record {
      same_total = refl;
      each_one = omega arith;
      rejections = omega arith;
      fills = omega arith;
      partial_fills = omega arith;
    },
    refl,
  )
  replay_from-Counts i engine (request ∷ rest) s =
      let r = submit_order ops (clock i) engine request in
      let (same, counts, sized) =
        replay_from-Counts (i + 1) r.engine rest (tally r.report.status s) in
      (same, tally-Counts r.report.status s _ _ counts, ap suc sized)

  -- A replay leaves the engine that submitting the orders one after the other leaves, and counts the
  -- reports that the engine gave: every order is accepted or rejected, and as many are rejected,
  -- filled and filled in part as there are reports that say so.
  pub replay-Counts :
      (engine : Engine B) (orders : List OrderRequest)
      → (let (after, statuses) = submit_all 0 engine orders in
          let (replayed, stats) = replay ops clock engine orders in
          (replayed ≡ after)
          × (stats.total ≡ length orders)
          × (stats.accepted + stats.rejected_orders ≡ stats.total)
          × (stats.rejected_orders ≡ count_if is_rejected statuses)
          × (stats.filled_orders ≡ count_if is_filled statuses)
          × (stats.partially_filled_orders ≡ count_if is_partially_filled statuses))
  unfolding replay
  replay-Counts engine orders =
      let (same, c, sized) = replay_from-Counts 0 engine orders _ in
      (
        same,
        c.same_total,
        omega (arith, c.each_one, c.same_total, sized),
        omega (arith, c.rejections),
        omega (arith, c.fills),
        omega (arith, c.partial_fills),
      )
