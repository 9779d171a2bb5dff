-- ===== src/Logger/Steps.antt =====
-- The steps of the caller of the logger and of its worker, and what is true between them.
use lightning_lob.Logger.{LogRecord, LogLevel, blank_record, record_of, push_record}
use lightning_lob.Base.{
  [], true, false, refl, arith, ℕ, List, ◌≡◌, length, ◌<◌, subst, ap, sym, ◌%◌, ◌^◌,
}
use lightning_lob.Types.{Timestamp}
use lightning_lob.Names.{Bytes}
use lightning_lob.Ring.Queue.{try_push-Holds}
use lightning_lob.Logger.Invariant.{
  Inv, Kept, pushed-Inv, started-Inv, counted-Inv, caller-Inv, uncounted_push, still_running,
  taken-Inv, exited-Inv, emitted-Inv, counted_write-Inv, Counts,
}
use lightning_lob.Logger.Threads.{
  caller_idle, joining, flushing, try_log, count_log, begin_flush, end_flush, request_stop,
  see_stop, take_record, exit_loop, emit_record, count_record, here, next, LogSystem, LogStep,
  LogReach, started,
}

module _ (capacity : ℕ) (format : Timestamp → Bytes → Bytes → Bytes) where
  LogStep-Inv :
      (s t : LogSystem) (xs : List LogRecord)
      → LogStep capacity format s t
      → Inv capacity format s xs
      → Kept capacity format t
  unfolding push_record
  LogStep-Inv s t xs (try_log now level message at wanted e) v =
      let r = record_of now level message in
      let (_, after) = try_push-Holds capacity blank_record s.logger.queue xs r v.holds in
      subst (Kept capacity format) (sym e) (pushed-Inv capacity format s xs r _ _ at v after)
  LogStep-Inv s t xs (count_log pushed at e) v =
      subst (Kept capacity format) (sym e) (counted-Inv capacity format s xs pushed at v)
  LogStep-Inv s t xs (begin_flush destroying at e) v =
      let idle : s.stop ≡ false = rw at at v.caller_knows in
      let pushes : Counts s.logger.pushed_count 0 (length s.accepted) = rw at at v.pushes in
      subst (Kept capacity format) (sym e) (
        xs,
        caller-Inv capacity format s xs (flushing destroying s.logger.pushed_count) s.stop
            (ap (uncounted_push true) at) (ap (uncounted_push false) at)
            (omega (arith, pushes), idle) v.stops v.worker_knows v,
      )
  LogStep-Inv s t xs (end_flush target at done e) v =
      let knows : (target ≡ length s.accepted % 2 ^ 64) × (s.stop ≡ false) =
        rw at at v.caller_knows in
      subst (Kept capacity format) (sym e) (
        xs,
        caller-Inv capacity format s xs caller_idle s.stop (ap (uncounted_push true) at)
            (ap (uncounted_push false) at) knows.1 v.stops v.worker_knows v,
      )
  LogStep-Inv s t xs (request_stop target at done e) v =
      let knows : (target ≡ length s.accepted % 2 ^ 64) × (s.stop ≡ false) =
        rw at at v.caller_knows in
      subst (Kept capacity format) (sym e) (
        xs,
        caller-Inv capacity format s xs joining true (ap (uncounted_push true) at)
            (ap (uncounted_push false) at) tt (λ _. refl)
            (still_running capacity format s.stop true xs xs s.worker knows.1 v.worker_knows) v,
      )
  LogStep-Inv s t xs (see_stop at stopped e) v = subst (Kept capacity format) (sym e) (
    xs,
    record {
      holds = v.holds;
      fifo = v.fifo;
      pushes = v.pushes;
      drops = v.drops;
      writes = v.writes;
      stops = λ _. stopped;
      caller_knows = v.caller_knows;
      worker_knows = v.worker_knows;
    },
  )
  LogStep-Inv s t xs (take_record r at e) v =
      subst (Kept capacity format) (sym e.1) (taken-Inv capacity format s xs r at e.0 v)
  LogStep-Inv s t xs (exit_loop at drained empty e) v =
      subst (Kept capacity format) (sym e) (xs, exited-Inv capacity format s xs at drained empty v)
  LogStep-Inv s t xs (emit_record r at e) v =
      subst (Kept capacity format) (sym e) (xs, emitted-Inv capacity format s xs r at v)
  LogStep-Inv s t xs (count_record at e) v =
      subst (Kept capacity format) (sym e) (xs, counted_write-Inv capacity format s xs at v)

  pub LogReach-Inv :
      (min_level : LogLevel) (t : LogSystem)
      → 0 < capacity
      → LogReach capacity format (started capacity format min_level) t
      → Kept capacity format t
  LogReach-Inv min_level t h here = ([], started-Inv capacity format min_level h)
  LogReach-Inv min_level t h (next {t = u} r step) =
      let (xs, v) = LogReach-Inv min_level u h r in LogStep-Inv u t xs step v
