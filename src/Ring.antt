-- ===== src/Ring.antt =====
-- include/lightninglob/lockfree_queue.hpp: the ring buffer of one producer and one consumer. The
-- capacity is a power of two, so `x & kMask` is `x % Capacity`.
pub mod Wrap
pub mod Threads
pub mod Window
pub mod Queue
mod Tests
use lightning_lob.Base.{
  ℕ, ◌+◌, ◌-◌, ◌%◌, Bool, true, false, Option, none, some, List, ◌==◌, if◌then◌else◌, get_or, set,
  replicate, [], ◌∷◌, zero, suc, inl, inr, refl, arith,
}

pub record SpscRingBuffer (T : Type 0) : Type 0 where
  pub write_idx : ℕ
  pub read_idx : ℕ
  pub buffer : List T

-- `blank` is `T{}`.
module _ {T : Type 0} (capacity : ℕ) (blank : T) where
  unfoldable pub new_ring : SpscRingBuffer T
  new_ring = record { write_idx = 0; read_idx = 0; buffer = replicate capacity blank }

  abbrev pub succ_idx : ℕ → ℕ
  succ_idx i = (i + 1) % capacity

  unfoldable pub try_push : SpscRingBuffer T → T → Bool × SpscRingBuffer T
  try_push r item = if succ_idx r.write_idx == r.read_idx then (false, r) else (
    true,
    record r { write_idx = succ_idx r.write_idx; buffer = set r.buffer r.write_idx item },
  )

  unfoldable pub try_pop : SpscRingBuffer T → Option T × SpscRingBuffer T
  try_pop r =
      if r.read_idx == r.write_idx
      then (none, r)
      else (some (get_or r.buffer r.read_idx blank), record r { read_idx = succ_idx r.read_idx })

  abbrev pub is_empty : SpscRingBuffer T → Bool
  is_empty r = r.read_idx == r.write_idx

  -- `w - r` of two `size_t`, masked.
  unfoldable pub size_approx : SpscRingBuffer T → ℕ
  size_approx r = (r.write_idx + capacity - r.read_idx) % capacity

  abbrev pub max_size : ℕ
  max_size = capacity - 1
