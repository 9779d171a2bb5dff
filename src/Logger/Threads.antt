-- ===== src/Logger/Threads.antt =====
-- The caller of the logger and its worker as two threads. A push or a pop is one step here, since
-- the ring's own interleavings are those of two threads of a ring; every counter and the stream are
-- steps of their own. One thread calls the logger, and destroys it.
use lightning_lob.Logger.{
  Logger, LogRecord, LogLevel, new_logger, filtered, record_of, push_record, count_push, flushed,
  pop_record, emit, count_write,
}
use lightning_lob.Base.{
  [], ◌∷◌, true, false, none, some, Bool, ℕ, List, ◌≡◌, ◌++◌, if◌then◌else◌, ◌+◌,
}
use lightning_lob.Types.{Timestamp}
use lightning_lob.Names.{Bytes}

-- Between the steps of a call: of `log`, and of `flush`, which the destructor calls as well.
pub data Caller : Type 0 where
  caller_idle joining : Caller
  push_tried : Bool → Caller
  flushing : (destroying : Bool) → (target : ℕ) → Caller

pub data Worker : Type 0 where
  worker_idle wrote exited : Worker
  took : LogRecord → Worker

-- `accepted` are the records that the queue took, in order, and `refused` is the number of the others.
pub record LogSystem : Type 0 where
  pub logger : Logger
  pub caller : Caller
  pub worker : Worker
  pub stop : Bool
  pub draining : Bool
  pub accepted : List LogRecord
  pub refused : ℕ

module _ (capacity : ℕ) (format : Timestamp → Bytes → Bytes → Bytes) where
  pub data LogStep (s t : LogSystem) : Type 0 where
    try_log :
        (now : Timestamp) (level : LogLevel) (message : Bytes)
        → s.caller ≡ caller_idle
        → filtered s.logger level ≡ false
        → (let r = record_of now level message in
            let (pushed, after) = push_record capacity format s.logger r in
            t ≡ record s {
              logger = after;
              caller = push_tried pushed;
              accepted = if pushed then s.accepted ++ r ∷ [] else s.accepted;
              refused = if pushed then s.refused else s.refused + 1;
            })
        → LogStep s t
    count_log :
        (pushed : Bool)
        → s.caller ≡ push_tried pushed
        → t ≡ record s { logger = count_push capacity format pushed s.logger; caller = caller_idle }
        → LogStep s t
    begin_flush :
        (destroying : Bool)
        → s.caller ≡ caller_idle
        → t ≡ record s { caller = flushing destroying s.logger.pushed_count }
        → LogStep s t
    end_flush :
        (target : ℕ)
        → s.caller ≡ flushing false target
        → flushed s.logger target ≡ true
        → t ≡ record s { caller = caller_idle }
        → LogStep s t
    request_stop :
        (target : ℕ)
        → s.caller ≡ flushing true target
        → flushed s.logger target ≡ true
        → t ≡ record s { caller = joining; stop = true }
        → LogStep s t
    see_stop :
        s.worker ≡ worker_idle → s.stop ≡ true → t ≡ record s { draining = true } → LogStep s t
    take_record :
        (r : LogRecord)
        → s.worker ≡ worker_idle
        → (let (popped, after) = pop_record capacity format s.logger in
            (popped ≡ some r) × (t ≡ record s { logger = after; worker = took r }))
        → LogStep s t
    exit_loop :
        s.worker ≡ worker_idle
        → s.draining ≡ true
        → (pop_record capacity format s.logger).0 ≡ none
        → t ≡ record s { worker = exited }
        → LogStep s t
    emit_record :
        (r : LogRecord)
        → s.worker ≡ took r
        → t ≡ record s { logger = emit capacity format s.logger r; worker = wrote }
        → LogStep s t
    count_record :
        s.worker ≡ wrote
        → t ≡ record s { logger = count_write capacity format s.logger; worker = worker_idle }
        → LogStep s t

  pub data LogReach (s : LogSystem) : LogSystem → Type 0 where
    here : LogReach s s
    next : {t u : LogSystem} → LogReach s t → LogStep t u → LogReach s u

  abbrev pub started : LogLevel → LogSystem
  started min_level = record {
    logger = new_logger capacity format min_level;
    caller = caller_idle;
    worker = worker_idle;
    stop = false;
    draining = false;
    accepted = [];
    refused = 0;
  }
