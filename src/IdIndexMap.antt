-- ===== src/IdIndexMap.antt =====
-- include/lightninglob/id_index_map.hpp: the open-addressing table from order ids to pool indices.
-- The number of slots is a power of two, so `(i + 1) & mask()` is `(i + 1) % slots_.size()`.
pub mod Cycle
pub mod Table
pub mod Probing
pub mod Insert
pub mod Rehash
pub mod Grow
pub mod Contents
pub mod Move
pub mod Hole
pub mod ShiftBack
pub mod Erase
mod Tests
use lightning_lob.Base.{
  ℕ, zero, suc, ◌+◌, ◌-◌, ◌*◌, ◌/◌, ◌%◌, ◌^◌, Bool, true, false, ◌&&◌, ◌||◌, Option, none, some,
  List, [], ◌∷◌, ltb, leb, ◌==◌, if◌then◌else◌, length, get_or, set, replicate,
}
use lightning_lob.Types.{OrderId, invalid_order_id}

pub record Slot : Type 0 where
  pub key : OrderId
  pub value : ℕ

pub record IdIndexMap : Type 0 where
  pub slots : List Slot
  pub size : ℕ
  pub shift : ℕ

abbrev pub empty_slot : Slot
empty_slot = record { key = invalid_order_id; value = 0 }

abbrev pub min_capacity : ℕ
min_capacity = 16

abbrev pub fibonacci_mul : ℕ
fibonacci_mul = 0x9E37_79B9_7F4A_7C15

-- `std::countr_zero` of a 64-bit word; `bits` is 64 at the call.
unfoldable pub countr_zero : (bits : ℕ) → ℕ → ℕ
countr_zero zero n = 0
countr_zero (suc bits) n =
    let more = suc (countr_zero bits (n / 2)) in if n % 2 == 1 then 0 else more

unfoldable pub slot_at : List Slot → ℕ → Slot
slot_at slots i = get_or slots i empty_slot

-- `key * kFibonacciMul >> shift_`, the product taken modulo 2 ^ 64.
unfoldable pub slot_for : IdIndexMap → OrderId → ℕ
slot_for m key = key * fibonacci_mul % 2 ^ 64 / 2 ^ m.shift

unfoldable pub allocate : ℕ → IdIndexMap
unfolding countr_zero
allocate cap = record {
  slots = replicate cap empty_slot;
  size = 0;
  shift = 64 - countr_zero 64 cap;
}

-- The constructor's loop. `cap` starts at 16 and doubles, so 64 rounds reach any `size_t`.
unfoldable pub capacity_for : (rounds : ℕ) → (cap capacity_hint : ℕ) → ℕ
capacity_for zero cap capacity_hint = cap
capacity_for (suc rounds) cap capacity_hint =
    let more = capacity_for rounds (cap * 2) capacity_hint in
    if ltb cap (capacity_hint * 2) then more else cap

unfoldable pub new : ℕ → IdIndexMap
unfolding capacity_for allocate
new capacity_hint = allocate (capacity_for 64 min_capacity capacity_hint)

-- Where a probe of the slots from `i` stops: at the key, at an empty slot, or never.
pub data Probe : Type 0 where
  hit vacant : ℕ → Probe
  endless : Probe

-- The loop that `insert`, `find` and `erase` share; `rounds` is the number of slots at the call.
unfoldable pub probe : (rounds : ℕ) → List Slot → OrderId → ℕ → Probe
unfolding slot_at
probe zero slots key i = endless
probe (suc rounds) slots key i =
    let more = probe rounds slots key ((i + 1) % length slots) in
    let here = (slot_at slots i).key in
    if here == invalid_order_id then vacant i else if here == key then hit i else more

unfoldable pub locate : IdIndexMap → OrderId → Probe
unfolding probe slot_for
locate m key = probe (length m.slots) m.slots key (slot_for m key)

unfoldable pub find : IdIndexMap → OrderId → Option ℕ
unfolding locate slot_at
find m key = elim (locate m key) [
  | hit i ↦ some (slot_at m.slots i).value
  | vacant _ ↦ none
  | endless ↦ none
]

unfoldable pub contains : IdIndexMap → OrderId → Bool
unfolding find
contains m key = elim (find m key) [ some _ ↦ true | none ↦ false ]

-- `insert` behind its test for growth.
unfoldable pub place : IdIndexMap → OrderId → ℕ → Bool × IdIndexMap
unfolding locate
place m key value = elim (locate m key) [
  | hit _ ↦ (false, m)
  | vacant i ↦ (
    true,
    record m { slots = set m.slots i (record { key = key; value = value }); size = m.size + 1 },
  )
  | endless ↦ (false, m)
]

-- The loop of `grow`. The table that it fills is twice as large as the old one, so that the
-- nested `insert` never grows again.
unfoldable pub rehash : List Slot → IdIndexMap → IdIndexMap
unfolding place
rehash [] m = m
rehash (s ∷ old) m = rehash old (if s.key == invalid_order_id then m else (place m s.key s.value).1)

unfoldable pub grow : IdIndexMap → IdIndexMap
unfolding rehash allocate
grow m = rehash m.slots (allocate (length m.slots * 2))

unfoldable pub insert : IdIndexMap → OrderId → ℕ → Bool × IdIndexMap
unfolding place grow
insert m key value = place (if ltb (length m.slots) ((m.size + 1) * 2) then grow m else m) key value

-- `r` lies strictly within the cyclic interval (i, j].
abbrev pub between : (i r j : ℕ) → Bool
between i r j = if leb i j then ltb i r && leb r j else (ltb i r || leb r j)

-- The `for (;;)` of `erase`: the hole is at `i`, and `j` was looked at last.
unfoldable pub shift_back : (rounds : ℕ) → IdIndexMap → (i j : ℕ) → IdIndexMap
unfolding slot_at slot_for
shift_back zero m i j = m
shift_back (suc rounds) m i j =
    let j = (j + 1) % length m.slots in
    let entry = slot_at m.slots j in
    let skip = between i (slot_for m entry.key) j in
    let moved = record m { slots = set (set m.slots i entry) j empty_slot } in
    let more = shift_back rounds (if skip then m else moved) (if skip then i else j) j in
    if entry.key == invalid_order_id then m else more

unfoldable pub erase : IdIndexMap → OrderId → Bool × IdIndexMap
unfolding locate shift_back
erase m key = elim (locate m key) [
  | hit i ↦ (
    true,
    shift_back (length m.slots) (record m { slots = set m.slots i empty_slot; size = m.size - 1 }) i
        i,
  )
  | vacant _ ↦ (false, m)
  | endless ↦ (false, m)
]

unfoldable pub clear : IdIndexMap → IdIndexMap
clear m = record m { slots = replicate (length m.slots) empty_slot; size = 0 }
