-- ===== src/Logger/Written.antt =====
-- What the logger has written, whatever the two threads do.
use mathlib.Core.List.{append-nil, append_assoc}
use lightning_lob.Logger.{
  Logger, LogRecord, LogLevel, drain_stragglers, pop_record, write_record, blank_record, flushed,
  line,
}
use lightning_lob.Logger.Threads.{LogSystem, LogReach, started}
use lightning_lob.Logger.Invariant.{in_flight, uncounted_push, WorkerKnows, Counts, uncounted_write}
use lightning_lob.Logger.Steps.{LogReach-Inv}
use lightning_lob.Logger.Threads.{flushing, exited}
use lightning_lob.Base.{
  [], ◌∷◌, true, false, zero, suc, none, some, refl, arith, ℕ, List, ◌++◌, ◌<◌, Bool, map, ◌≡◌,
  length, ◌≤◌, sym, ◌+◌, ◌∙◌, ap, length-append, length-map, subst, ◌^◌, ◌%◌,
}
use lightning_lob.Names.{Bytes}
use lightning_lob.Types.{Timestamp}
use lightning_lob.Ring.Window.{Holds}
use lightning_lob.Ring.Queue.{try_pop-Holds}
use lightning_lob.Ring.{try_pop}

map_empty :
    (f : LogRecord → Bytes) (out : List Bytes) (xs ys : List LogRecord)
    → out ++ map f xs ≡ map f ys
    → length ys ≤ length out
    → out ≡ map f ys
map_empty f out [] ys e h = sym (append-nil out) ∙ e
map_empty f out (x ∷ xs) ys e h =
    absurd (omega (arith, ap length e, length-append out (map f (x ∷ xs)), length-map ys f))

module _ (capacity : ℕ) (format : Timestamp → Bytes → Bytes → Bytes) where
  -- With a queue of a capacity above zero, however the caller and the worker interleave, the
  -- lines that are written, then the record that the worker holds, then those in the queue are
  -- the records that the queue took, in order, none lost and none twice; the three counters are,
  -- modulo 2^64, the numbers of the records that the queue took, of those that it refused, and
  -- of the lines that are written, less one between the event and its count.
  pub LogReach-lines :
      (min_level : LogLevel) (t : LogSystem)
      → 0 < capacity
      → LogReach capacity format (started capacity format min_level) t
      → (xs : List LogRecord) × Holds capacity blank_record t.logger.queue xs
        × (t.logger.out ++ map (line capacity format) (in_flight t.worker ++ xs)
            ≡ map (line capacity format) t.accepted)
        × Counts t.logger.pushed_count (uncounted_push true t.caller) (length t.accepted)
        × Counts t.logger.dropped (uncounted_push false t.caller) t.refused
        × Counts t.logger.processed_count (uncounted_write t.worker) (length t.logger.out)
  LogReach-lines min_level t h r =
      let (xs, v) = LogReach-Inv capacity format min_level t h r in
      (xs, v.holds, v.fifo, v.pushes, v.drops, v.writes)

  -- The count of the lines that are written, where it cannot have wrapped, bounds them.
  written_count :
      (out accepted target counter uncounted : ℕ)
      → Counts counter uncounted out
      → out ≤ accepted
      → accepted < 2 ^ 64
      → target ≡ accepted % 2 ^ 64
      → target ≤ counter
      → accepted ≤ out
  written_count out accepted target counter uncounted counts fewer few knows done =
      omega (arith, counts, fewer, few, knows, done)

  -- With a queue of a capacity above zero, when the test of a flush lets it end and the queue
  -- took fewer than 2^64 records, each of them is written.
  pub flush-lines :
      (min_level : LogLevel) (t : LogSystem) (destroying : Bool) (target : ℕ)
      → 0 < capacity
      → LogReach capacity format (started capacity format min_level) t
      → t.caller ≡ flushing destroying target
      → length t.accepted < 2 ^ 64
      → flushed t.logger target ≡ true
      → t.logger.out ≡ map (line capacity format) t.accepted
  flush-lines min_level t destroying target h r at few done =
      let (xs, v) = LogReach-Inv capacity format min_level t h r in
      let knows : (target ≡ length t.accepted % 2 ^ 64) × (t.stop ≡ false) =
        rw at at v.caller_knows in
      let f = line capacity format in
      let ys = in_flight t.worker ++ xs in
      let most : length t.logger.out ≤ length t.accepted =
        omega (
          arith,
          ap length v.fifo,
          length-append t.logger.out (map f ys),
          length-map t.accepted f,
        ) in
      map_empty f t.logger.out ys t.accepted v.fifo (
        written_count (length t.logger.out) (length t.accepted) target t.logger.processed_count
          (uncounted_write t.worker) v.writes most few knows.0 (ground (arith, done)))

  -- With a queue of a capacity above zero, when the worker has ended, every record that the
  -- queue took is written.
  pub exit-lines :
      (min_level : LogLevel) (t : LogSystem)
      → 0 < capacity
      → LogReach capacity format (started capacity format min_level) t
      → t.worker ≡ exited
      → t.logger.out ≡ map (line capacity format) t.accepted
  exit-lines min_level t h r at =
      let (xs, v) = LogReach-Inv capacity format min_level t h r in
      let knows : (xs ≡ []) × (t.stop ≡ true) = subst (WorkerKnows t.stop xs) at v.worker_knows in
      let f = line capacity format in
      let fifo : t.logger.out ++ map f xs ≡ map f t.accepted =
        subst (λ w. t.logger.out ++ map f (in_flight w ++ xs) ≡ map f t.accepted) at v.fifo in
      sym (append-nil t.logger.out) ∙ ap (λ ys. t.logger.out ++ map f ys) (sym knows.0) ∙ fifo

  drain_none :
      (rounds : ℕ) (l : Logger)
      → (try_pop capacity blank_record l.queue).0 ≡ none
      → drain_stragglers capacity format (suc rounds) l
        ≡ (record l { queue = (try_pop capacity blank_record l.queue).1 }, true)
  unfolding drain_stragglers pop_record
  drain_none rounds l e = rw (drain_stragglers, e) refl

  drain_some :
      (rounds : ℕ) (l : Logger) (r : LogRecord)
      → (try_pop capacity blank_record l.queue).0 ≡ some r
      → drain_stragglers capacity format (suc rounds) l
        ≡ drain_stragglers capacity format rounds (
            write_record capacity format
              (record l { queue = (try_pop capacity blank_record l.queue).1 })
              r)
  unfolding drain_stragglers pop_record
  drain_some rounds l r e = rw (drain_stragglers, e) refl

  -- On a well-formed queue, a last loop of more rounds than there are records in it writes them
  -- all, in order, adds their number, modulo 2^64, to a counter below 2^64, and ends by its own
  -- test.
  pub drain_stragglers-all :
      (l : Logger) (xs : List LogRecord) (rounds : ℕ)
      → Holds capacity blank_record l.queue xs
      → length xs < rounds
      → l.processed_count < 2 ^ 64
      → (let (after, ended) = drain_stragglers capacity format rounds l in
          (ended ≡ true)
          × (after.out ≡ l.out ++ map (line capacity format) xs)
          × (after.processed_count ≡ (l.processed_count + length xs) % 2 ^ 64)
          × Holds capacity blank_record after.queue [])
  unfolding write_record
  drain_stragglers-all l xs zero holds h fits = absurd (omega arith)
  drain_stragglers-all l [] (suc rounds) holds h fits =
      let (first, rest) = try_pop-Holds capacity blank_record l.queue [] holds in
      rw (drain_none rounds l first) (refl, sym (append-nil l.out), omega arith, rest)
  drain_stragglers-all l (x ∷ xs) (suc rounds) holds h fits =
      let (first, rest) = try_pop-Holds capacity blank_record l.queue (x ∷ xs) holds in
      let queue = (try_pop capacity blank_record l.queue).1 in
      let after = write_record capacity format (record l { queue = queue }) x in
      let (ended, lines, count, empty) =
        drain_stragglers-all after xs rounds rest (omega arith) (omega arith) in
      rw (drain_some rounds l x first) (
        ended,
        lines ∙ append_assoc l.out (line capacity format x ∷ []) (map (line capacity format) xs),
        count ∙ omega arith,
        empty,
      )
