-- ===== src/Logger/Tests.antt =====
-- The logger on small inputs: a queue of four slots, and lines that are the messages.
use lightning_lob.Logger.{
  LogRecord, info, debug, error, text_of, log, record_of, new_logger, drain_stragglers, copy_bytes,
  message_size, count_push, pop_record, emit, count_write, push_record, blank_record, line,
}
use lightning_lob.Logger.Threads.{
  caller_idle, joining, push_tried, flushing, worker_idle, wrote, exited, took, try_log, count_log,
  begin_flush, request_stop, see_stop, take_record, exit_loop, emit_record, count_record, here,
  next, LogSystem, started, LogReach,
}
use lightning_lob.Base.{
  [], ◌∷◌, true, false, refl, arith, length, List, ◌≡◌, map, ◌++◌, take, ◌-◌, ◌+◌, ◌%◌, ◌^◌,
}
use lightning_lob.Types.{Timestamp}
use lightning_lob.Names.{Bytes}
use lightning_lob.Ring.Window.{Holds}
use lightning_lob.Ring.{try_push, new_ring, try_pop}
use lightning_lob.Logger.Invariant.{in_flight, uncounted_push, Counts, uncounted_write}
use lightning_lob.Logger.Written.{flush-lines, exit-lines, drain_stragglers-all, LogReach-lines}
use lightning_lob.Ring.Queue.{try_push-Holds, new_ring-Holds}
use lightning_lob.Logger.Text.{record_of-text}

abbrev message_line : Timestamp → Bytes → Bytes → Bytes
message_line now level text = text

cut_at_zero : text_of (record_of 5 info (7 ∷ 8 ∷ 0 ∷ 9 ∷ [])).message ≡ 7 ∷ 8 ∷ []
unfolding text_of record_of copy_bytes
cut_at_zero = refl

filtered_out :
    log 4 message_line 5 (new_logger 4 message_line info) debug (7 ∷ [])
    ≡ new_logger 4 message_line info
unfolding log new_logger
filtered_out = refl

read_back :
    (length (record_of 5 info (7 ∷ 0 ∷ 9 ∷ [])).message ≡ message_size)
    × (text_of (record_of 5 info (7 ∷ 0 ∷ 9 ∷ [])).message
        ≡ text_of (take (message_size - 1) (7 ∷ 0 ∷ 9 ∷ [])))
read_back = record_of-text 5 info (7 ∷ 0 ∷ 9 ∷ [])

-- One call of `log`, then a flush that the destructor makes, and the end of the worker.
abbrev first : LogRecord
first = record_of 5 error (7 ∷ 8 ∷ [])

abbrev tried : LogSystem
tried =
    let s = started 4 message_line info in
    let l = s.logger in
    record s {
      logger = (push_record 4 message_line l first).1;
      caller = push_tried true;
      accepted = first ∷ [];
    }

abbrev pushed : LogSystem
pushed = record tried { logger = count_push 4 message_line true tried.logger; caller = caller_idle }

abbrev taken : LogSystem
taken = record pushed { logger = (pop_record 4 message_line pushed.logger).1; worker = took first }

abbrev emitted : LogSystem
emitted = record taken { logger = emit 4 message_line taken.logger first; worker = wrote }

abbrev written : LogSystem
written = record emitted {
  logger = count_write 4 message_line emitted.logger;
  worker = worker_idle;
}

abbrev waiting : LogSystem
waiting = record written { caller = flushing true 1 }

abbrev stopping : LogSystem
stopping = record waiting { caller = joining; stop = true }

abbrev last_loop : LogSystem
last_loop = record stopping { draining = true }

abbrev ended : LogSystem
ended = record last_loop { worker = exited }

tried-LogReach : LogReach 4 message_line (started 4 message_line info) tried
unfolding new_logger push_record try_push new_ring
tried-LogReach =
    next {t = started 4 message_line info} here (try_log 5 error (7 ∷ 8 ∷ []) refl refl refl)

taken-LogReach : LogReach 4 message_line (started 4 message_line info) taken
unfolding new_logger push_record try_push new_ring pop_record try_pop
taken-LogReach =
    next {t = pushed} (next {t = tried} tried-LogReach (count_log true refl refl))
      (take_record first refl (refl, refl))

waiting-LogReach : LogReach 4 message_line (started 4 message_line info) waiting
unfolding new_logger push_record pop_record
waiting-LogReach =
    next {t = written}
      (next {t = emitted} (next {t = taken} taken-LogReach (emit_record first refl refl))
        (count_record refl refl))
      (begin_flush true refl refl)

ended-LogReach : LogReach 4 message_line (started 4 message_line info) ended
unfolding new_logger push_record try_push new_ring pop_record try_pop
ended-LogReach =
    next {t = last_loop}
      (next {t = stopping} (next {t = waiting} waiting-LogReach (request_stop 1 refl refl refl))
        (see_stop refl refl refl))
      (exit_loop refl refl refl refl)

LogReach-lines_example :
    (xs : List LogRecord) × Holds 4 blank_record taken.logger.queue xs
    × (taken.logger.out ++ map (line 4 message_line) (in_flight taken.worker ++ xs)
        ≡ map (line 4 message_line) taken.accepted)
    × Counts taken.logger.pushed_count (uncounted_push true taken.caller) (length taken.accepted)
    × Counts taken.logger.dropped (uncounted_push false taken.caller) taken.refused
    × Counts taken.logger.processed_count (uncounted_write taken.worker) (length taken.logger.out)
LogReach-lines_example = LogReach-lines 4 message_line info taken (omega arith) taken-LogReach

flush-lines_example : waiting.logger.out ≡ map (line 4 message_line) waiting.accepted
unfolding new_logger push_record pop_record
flush-lines_example =
    flush-lines 4 message_line info waiting true 1 (omega arith) waiting-LogReach refl (omega arith)
      (ground arith)

exit-lines_example : ended.logger.out ≡ map (line 4 message_line) ended.accepted
exit-lines_example = exit-lines 4 message_line info ended (omega arith) ended-LogReach refl

pushed-Holds : Holds 4 blank_record pushed.logger.queue (first ∷ [])
unfolding new_logger push_record try_push new_ring
pushed-Holds =
    (try_push-Holds 4 blank_record (new_ring 4 blank_record) [] first
      (new_ring-Holds 4 blank_record (omega arith))).1

drain_stragglers-all_example :
    (let (after, over) = drain_stragglers 4 message_line 4 pushed.logger in
      (over ≡ true)
      × (after.out ≡ pushed.logger.out ++ map (line 4 message_line) (first ∷ []))
      × (after.processed_count ≡ (pushed.logger.processed_count + length (first ∷ [])) % 2 ^ 64)
      × Holds 4 blank_record after.queue [])
unfolding new_logger push_record
drain_stragglers-all_example =
    drain_stragglers-all 4 message_line pushed.logger (first ∷ []) 4 pushed-Holds (omega arith)
      (omega arith)
