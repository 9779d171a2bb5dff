-- ===== src/Logger.antt =====
-- include/lightninglob/logger.hpp and src/logger.cpp: records on a ring, which a thread of its own
-- writes out. `capacity` is that of the queue, 8192 in the source, and `format` is the call of
-- `std::format`, from the time, the name of the level and the message to the line.
pub mod Text
pub mod Threads
pub mod Invariant
pub mod Steps
mod Tests
pub mod Written
use Prim.Native.Nat.{min}
use lightning_lob.Names.{Bytes, codes}
use lightning_lob.Types.{Timestamp}
use lightning_lob.Ring.{SpscRingBuffer, new_ring, try_push, try_pop}
use lightning_lob.Base.{
  [], ◌∷◌, true, false, zero, suc, none, some, inl, inr, refl, arith, ℕ, replicate, if◌then◌else◌,
  List, Bool, ◌==◌, ltb, not, ◌+◌, ◌++◌, Option, length, ◌-◌, set, ◌%◌, ◌^◌,
}

pub data LogLevel : Type 0 where
  debug info warn error : LogLevel

abbrev pub level_code : LogLevel → ℕ
level_code debug = 0
level_code info = 1
level_code warn = 2
level_code error = 3

abbrev pub level_to_string : LogLevel → Bytes
level_to_string debug = codes "DEBUG"
level_to_string info = codes "INFO"
level_to_string warn = codes "WARN"
level_to_string error = codes "ERROR"

-- `sizeof(record.message)`.
abbrev pub message_size : ℕ
message_size = 120

pub record LogRecord : Type 0 where
  pub timestamp : Timestamp
  pub level : LogLevel
  pub message : Bytes

abbrev pub blank_record : LogRecord
blank_record = record { timestamp = 0; level = info; message = replicate message_size 0 }

-- `std::memcpy` of `n` bytes to the start of a buffer.
unfoldable pub copy_bytes : (n : ℕ) → Bytes → (target : Bytes) → Bytes
copy_bytes zero source target = target
copy_bytes (suc n) [] target = target
copy_bytes (suc n) (x ∷ source) [] = []
copy_bytes (suc n) (x ∷ source) (_ ∷ target) = x ∷ copy_bytes n source target

-- The record that `log` fills.
unfoldable pub record_of : Timestamp → LogLevel → Bytes → LogRecord
unfolding copy_bytes
record_of now level message =
    let n = min (length message) (message_size - 1) in
    record {
      timestamp = now;
      level = level;
      message = set (copy_bytes n message (replicate message_size 0)) n 0;
    }

-- A message is read up to its first zero byte.
unfoldable pub text_of : Bytes → Bytes
text_of [] = []
text_of (b ∷ bytes) = if b == 0 then [] else b ∷ text_of bytes

-- `out` is what the stream was given, line by line.
pub record Logger : Type 0 where
  pub queue : SpscRingBuffer LogRecord
  pub out : List Bytes
  pub min_level : LogLevel
  pub dropped : ℕ
  pub pushed_count : ℕ
  pub processed_count : ℕ

abbrev pub filtered : Logger → LogLevel → Bool
filtered l level = ltb (level_code level) (level_code l.min_level)

-- The test of `flush` on its count.
abbrev pub flushed : Logger → (target : ℕ) → Bool
flushed l target = not (ltb l.processed_count target)

module _ (capacity : ℕ) (format : Timestamp → Bytes → Bytes → Bytes) where
  unfoldable pub new_logger : LogLevel → Logger
  new_logger min_level = record {
    queue = new_ring capacity blank_record;
    out = [];
    min_level = min_level;
    dropped = 0;
    pushed_count = 0;
    processed_count = 0;
  }

  unfoldable pub push_record : Logger → LogRecord → Bool × Logger
  push_record l r =
      let (pushed, queue) = try_push capacity blank_record l.queue r in
      (pushed, record l { queue = queue })

  -- The counter, a `uint64_t`, that `log` adds one to.
  abbrev pub count_push : Bool → Logger → Logger
  count_push true l = record l { pushed_count = (l.pushed_count + 1) % 2 ^ 64 }
  count_push false l = record l { dropped = (l.dropped + 1) % 2 ^ 64 }

  -- `now` is the reading of `now_ns()`.
  unfoldable pub log : (now : Timestamp) → Logger → LogLevel → Bytes → Logger
  unfolding push_record record_of
  log now l level message =
      let (pushed, after) = push_record l (record_of now level message) in
      if filtered l level then l else count_push pushed after

  abbrev pub log_debug : Timestamp → Logger → Bytes → Logger
  log_debug now l message = log now l debug message

  abbrev pub log_info : Timestamp → Logger → Bytes → Logger
  log_info now l message = log now l info message

  abbrev pub log_warn : Timestamp → Logger → Bytes → Logger
  log_warn now l message = log now l warn message

  abbrev pub log_error : Timestamp → Logger → Bytes → Logger
  log_error now l message = log now l error message

  abbrev pub line : LogRecord → Bytes
  line r = format r.timestamp (level_to_string r.level) (text_of r.message)

  abbrev pub emit : Logger → LogRecord → Logger
  emit l r = record l { out = l.out ++ line r ∷ [] }

  abbrev pub count_write : Logger → Logger
  count_write l = record l { processed_count = (l.processed_count + 1) % 2 ^ 64 }

  unfoldable pub write_record : Logger → LogRecord → Logger
  write_record l r = count_write (emit l r)

  unfoldable pub pop_record : Logger → Option LogRecord × Logger
  pop_record l =
      let (popped, queue) = try_pop capacity blank_record l.queue in
      (popped, record l { queue = queue })

  -- The last loop of `worker_loop`; the flag tells that it has ended by its own test.
  unfoldable pub drain_stragglers : (rounds : ℕ) → Logger → Logger × Bool
  unfolding pop_record write_record
  drain_stragglers zero l = (l, false)
  drain_stragglers (suc rounds) l =
      let (popped, after) = pop_record l in
      elim popped [ none ↦ (after, true) | some r ↦ drain_stragglers rounds (write_record after r) ]
