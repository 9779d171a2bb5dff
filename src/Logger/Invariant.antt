-- ===== src/Logger/Invariant.antt =====
-- What the caller of the logger and its worker leave true between their steps.
use mathlib.Core.List.{append_assoc, map-append}
use lightning_lob.Logger.{
  LogRecord, LogLevel, new_logger, blank_record, line, count_push, pop_record, emit, count_write,
}
use lightning_lob.Base.{
  [], ◌∷◌, true, false, none, some, refl, arith, Bool, ℕ, List, ◌≡◌, length, ◌++◌, map,
  if◌then◌else◌, ◌+◌, ◌<◌, ap, sym, ◌∙◌, length-append, ◌%◌, ◌≤◌, subst, ◌-◌, ◌^◌,
}
use lightning_lob.Types.{Timestamp}
use lightning_lob.Names.{Bytes}
use lightning_lob.Ring.Window.{Holds}
use lightning_lob.Ring.{SpscRingBuffer}
use lightning_lob.Ring.Queue.{try_pop-Holds, new_ring-Holds}
use lightning_lob.Logger.Threads.{
  caller_idle, joining, push_tried, flushing, worker_idle, wrote, exited, took, Worker, Caller,
  LogSystem, started,
}

-- The record that the worker has taken and not yet written.
abbrev pub in_flight : Worker → List LogRecord
in_flight (took r) = r ∷ []
in_flight _ = []

abbrev pub uncounted_write : Worker → ℕ
uncounted_write wrote = 1
uncounted_write _ = 0

abbrev pub uncounted_push : Bool → Caller → ℕ
uncounted_push true (push_tried true) = 1
uncounted_push false (push_tried false) = 1
uncounted_push _ _ = 0

-- A 64-bit counter of `total` events, the last `uncounted` of which it does not count yet.
abbrev pub Counts : (counter uncounted total : ℕ) → Type 0
Counts counter uncounted total = (uncounted ≤ total) × (counter ≡ (total - uncounted) % 2 ^ 64)

abbrev pub CallerKnows : (stop : Bool) (pushed : ℕ) → Caller → Type 0
CallerKnows stop pushed (flushing _ target) = (target ≡ pushed % 2 ^ 64) × (stop ≡ false)
CallerKnows stop pushed joining = Unit
CallerKnows stop pushed _ = stop ≡ false

abbrev pub WorkerKnows : (stop : Bool) → List LogRecord → Worker → Type 0
WorkerKnows stop xs exited = (xs ≡ []) × (stop ≡ true)
WorkerKnows stop xs _ = Unit

module _ (capacity : ℕ) (format : Timestamp → Bytes → Bytes → Bytes) where
  -- What is written, in flight or in the queue is what the queue took, and the counters count it.
  pub record Inv (s : LogSystem) (xs : List LogRecord) : Type 0 where
    pub holds : Holds capacity blank_record s.logger.queue xs
    pub fifo :
        s.logger.out ++ map (line capacity format) (in_flight s.worker ++ xs)
        ≡ map (line capacity format) s.accepted
    pub pushes : Counts s.logger.pushed_count (uncounted_push true s.caller) (length s.accepted)
    pub drops : Counts s.logger.dropped (uncounted_push false s.caller) s.refused
    pub writes : Counts s.logger.processed_count (uncounted_write s.worker) (length s.logger.out)
    pub stops : s.draining ≡ true → s.stop ≡ true
    pub caller_knows : CallerKnows s.stop (length s.accepted) s.caller
    pub worker_knows : WorkerKnows s.stop xs s.worker

  pub started-Inv :
      (min_level : LogLevel) → 0 < capacity → Inv (started capacity format min_level) []
  unfolding new_logger
  started-Inv min_level h = record {
    holds = new_ring-Holds capacity blank_record h;
    fifo = refl;
    pushes = (omega arith, refl);
    drops = (omega arith, refl);
    writes = (omega arith, refl);
    stops = λ e. e;
    caller_knows = refl;
    worker_knows = tt;
  }

  abbrev pub Kept : LogSystem → Type 0
  Kept t = (xs : List LogRecord) × Inv t xs

  pub still_running :
      (stop after : Bool) (xs ys : List LogRecord) (w : Worker)
      → stop ≡ false
      → WorkerKnows stop xs w
      → WorkerKnows after ys w
  still_running stop after xs ys worker_idle e k = tt
  still_running stop after xs ys wrote e k = tt
  still_running stop after xs ys (took r) e k = tt
  still_running stop after xs ys exited e k = absurd (cc (e, k.1))

  -- A push that was tried.
  pub pushed-Inv :
      (s : LogSystem) (xs : List LogRecord) (r : LogRecord) (pushed : Bool)
      (queue : SpscRingBuffer LogRecord)
      → s.caller ≡ caller_idle
      → Inv s xs
      → Holds capacity blank_record queue (if pushed then xs ++ r ∷ [] else xs)
      → Kept (
          let l = s.logger in
          record s {
            logger = record l { queue = queue };
            caller = push_tried pushed;
            accepted = if pushed then s.accepted ++ r ∷ [] else s.accepted;
            refused = if pushed then s.refused else s.refused + 1;
          })
  pushed-Inv s xs r true queue at v holds =
      let idle : s.stop ≡ false = rw at at v.caller_knows in
      let f = line capacity format in
      let ys = in_flight s.worker in
      let pushes : Counts s.logger.pushed_count 0 (length s.accepted) = rw at at v.pushes in
      let drops : Counts s.logger.dropped 0 s.refused = rw at at v.drops in
      (
        xs ++ r ∷ [],
        record {
          holds = holds;
          fifo =
              ap (λ zs. s.logger.out ++ map f zs) (sym (append_assoc ys xs (r ∷ [])))
              ∙ ap (λ zs. s.logger.out ++ zs) (map-append f (ys ++ xs) (r ∷ []))
              ∙ sym (append_assoc s.logger.out (map f (ys ++ xs)) (f r ∷ []))
              ∙ ap (λ zs. zs ++ f r ∷ []) v.fifo
              ∙ sym (map-append f s.accepted (r ∷ []));
          pushes =
              let more = length-append s.accepted (r ∷ []) in
              (omega (arith, more), omega (arith, pushes, more));
          drops = drops;
          writes = v.writes;
          stops = v.stops;
          caller_knows = idle;
          worker_knows = still_running s.stop s.stop xs (xs ++ r ∷ []) s.worker idle v.worker_knows;
        },
      )
  pushed-Inv s xs r false queue at v holds =
      let idle : s.stop ≡ false = rw at at v.caller_knows in
      let pushes : Counts s.logger.pushed_count 0 (length s.accepted) = rw at at v.pushes in
      let drops : Counts s.logger.dropped 0 s.refused = rw at at v.drops in
      (
        xs,
        record {
          holds = holds;
          fifo = v.fifo;
          pushes = pushes;
          drops = (omega arith, omega (arith, drops));
          writes = v.writes;
          stops = v.stops;
          caller_knows = idle;
          worker_knows = v.worker_knows;
        },
      )

  -- The counter that follows it.
  pub counted-Inv :
      (s : LogSystem) (xs : List LogRecord) (pushed : Bool)
      → s.caller ≡ push_tried pushed
      → Inv s xs
      → Kept
          (record s { logger = count_push capacity format pushed s.logger; caller = caller_idle })
  counted-Inv s xs true at v =
      let pushes : Counts s.logger.pushed_count 1 (length s.accepted) = rw at at v.pushes in
      let drops : Counts s.logger.dropped 0 s.refused = rw at at v.drops in
      (
        xs,
        record {
          holds = v.holds;
          fifo = v.fifo;
          pushes = (omega arith, omega (arith, pushes));
          drops = drops;
          writes = v.writes;
          stops = v.stops;
          caller_knows = rw at at v.caller_knows;
          worker_knows = v.worker_knows;
        },
      )
  counted-Inv s xs false at v =
      let pushes : Counts s.logger.pushed_count 0 (length s.accepted) = rw at at v.pushes in
      let drops : Counts s.logger.dropped 1 s.refused = rw at at v.drops in
      (
        xs,
        record {
          holds = v.holds;
          fifo = v.fifo;
          pushes = pushes;
          drops = (omega arith, omega (arith, drops));
          writes = v.writes;
          stops = v.stops;
          caller_knows = rw at at v.caller_knows;
          worker_knows = v.worker_knows;
        },
      )

  -- The worker takes the oldest record.
  pub taken-Inv :
      (s : LogSystem) (xs : List LogRecord) (r : LogRecord)
      → s.worker ≡ worker_idle
      → (pop_record capacity format s.logger).0 ≡ some r
      → Inv s xs
      → Kept (record s { logger = (pop_record capacity format s.logger).1; worker = took r })
  unfolding pop_record
  taken-Inv s [] r at popped v =
      let (first, _) = try_pop-Holds capacity blank_record s.logger.queue [] v.holds in
      absurd (cc (first, popped))
  taken-Inv s (x ∷ xs) r at popped v =
      let (first, rest) = try_pop-Holds capacity blank_record s.logger.queue (x ∷ xs) v.holds in
      let f = line capacity format in
      let same : x ≡ r = cc (first, popped) in
      let fifo : s.logger.out ++ map f (x ∷ xs) ≡ map f s.accepted = rw at at v.fifo in
      let writes : Counts s.logger.processed_count 0 (length s.logger.out) = rw at at v.writes in
      (
        xs,
        record {
          holds = rest;
          fifo = ap (λ y. s.logger.out ++ map f (y ∷ xs)) (sym same) ∙ fifo;
          pushes = v.pushes;
          drops = v.drops;
          writes = writes;
          stops = v.stops;
          caller_knows = v.caller_knows;
          worker_knows = tt;
        },
      )

  -- The caller moves between places at which its last push is counted.
  pub caller-Inv :
      (s : LogSystem) (xs : List LogRecord) (c : Caller) (stop : Bool)
      → uncounted_push true s.caller ≡ uncounted_push true c
      → uncounted_push false s.caller ≡ uncounted_push false c
      → CallerKnows stop (length s.accepted) c
      → (s.draining ≡ true → stop ≡ true)
      → WorkerKnows stop xs s.worker
      → Inv s xs
      → Inv (record s { caller = c; stop = stop }) xs
  caller-Inv s xs c stop same_pushes same_drops knows stops worker_knows v = record {
    holds = v.holds;
    fifo = v.fifo;
    pushes = subst (λ n. Counts s.logger.pushed_count n (length s.accepted)) same_pushes v.pushes;
    drops = subst (λ n. Counts s.logger.dropped n s.refused) same_drops v.drops;
    writes = v.writes;
    stops = stops;
    caller_knows = knows;
    worker_knows = worker_knows;
  }

  -- The worker writes the record out, and then counts it.
  pub emitted-Inv :
      (s : LogSystem) (xs : List LogRecord) (r : LogRecord)
      → s.worker ≡ took r
      → Inv s xs
      → Inv (record s { logger = emit capacity format s.logger r; worker = wrote }) xs
  emitted-Inv s xs r at v =
      let f = line capacity format in
      let fifo : s.logger.out ++ map f (r ∷ xs) ≡ map f s.accepted = rw at at v.fifo in
      let writes : Counts s.logger.processed_count 0 (length s.logger.out) = rw at at v.writes in
      record {
        holds = v.holds;
        fifo = append_assoc s.logger.out (f r ∷ []) (map f xs) ∙ fifo;
        pushes = v.pushes;
        drops = v.drops;
        writes =
            let more = length-append s.logger.out (f r ∷ []) in
            (omega (arith, more), omega (arith, writes, more));
        stops = v.stops;
        caller_knows = v.caller_knows;
        worker_knows = tt;
      }

  pub counted_write-Inv :
      (s : LogSystem) (xs : List LogRecord)
      → s.worker ≡ wrote
      → Inv s xs
      → Inv (record s { logger = count_write capacity format s.logger; worker = worker_idle }) xs
  counted_write-Inv s xs at v =
      let writes : Counts s.logger.processed_count 1 (length s.logger.out) = rw at at v.writes in
      record {
        holds = v.holds;
        fifo = rw at at v.fifo;
        pushes = v.pushes;
        drops = v.drops;
        writes = (omega arith, omega (arith, writes));
        stops = v.stops;
        caller_knows = v.caller_knows;
        worker_knows = tt;
      }

  -- The worker ends at an empty queue.
  pub exited-Inv :
      (s : LogSystem) (xs : List LogRecord)
      → s.worker ≡ worker_idle
      → s.draining ≡ true
      → (pop_record capacity format s.logger).0 ≡ none
      → Inv s xs
      → Inv (record s { worker = exited }) xs
  unfolding pop_record
  exited-Inv s [] at drained empty v = record {
    holds = v.holds;
    fifo = rw at at v.fifo;
    pushes = v.pushes;
    drops = v.drops;
    writes = rw at at v.writes;
    stops = v.stops;
    caller_knows = v.caller_knows;
    worker_knows = (refl, v.stops drained);
  }
  exited-Inv s (x ∷ xs) at drained empty v =
      let (first, _) = try_pop-Holds capacity blank_record s.logger.queue (x ∷ xs) v.holds in
      absurd (cc (first, empty))
