-- ===== src/IdIndexMap/Table.antt =====
-- A well-formed table, and where a probe of it stops.
use native.Mathlib.Nat.{div-lt_iff_lt-mul, two-pow-succ, mul-add, one-le-pow}
use mathlib.Core.Path.{◌≡◌}
use lightning_lob.Types.{OrderId, invalid_order_id}
use lightning_lob.IdIndexMap.{Slot, IdIndexMap, empty_slot, fibonacci_mul}
use lightning_lob.IdIndexMap.Cycle.{dist}
use lightning_lob.Base.{
  [], ◌∷◌, zero, suc, inl, inr, refl, arith, List, ℕ, ◌<◌, get_or, ◌*◌, if◌then◌else◌, ◌≤◌, length,
  ◌^◌, ◌==◌, ◌-◌, ◌+◌, Bool-cases, ◌≢◌, ◌%◌, ap, ◌/◌, ◌∙◌, sym,
}

-- The key of the slot at an index; it is zero where there is no entry.
abbrev pub key_at : List Slot → ℕ → OrderId
key_at slots i = (get_or slots i empty_slot).key

abbrev pub home : (shift : ℕ) → OrderId → ℕ
home shift key = key * fibonacci_mul % 2 ^ 64 / 2 ^ shift

-- The number of entries.
abbrev pub occupied : List Slot → ℕ
occupied [] = 0
occupied (s ∷ slots) = (if s.key == invalid_order_id then 0 else 1) + occupied slots

-- An entry stands behind its home with no empty slot between, and no key stands twice.
pub record Laid (n shift : ℕ) (slots : List Slot) : Type 0 where
  pub reach :
      (p q : ℕ)
      → p < n
      → q < n
      → key_at slots p ≢ 0
      → dist n (home shift (key_at slots p)) q < dist n (home shift (key_at slots p)) p
      → key_at slots q ≢ 0
  pub distinct :
      (p q : ℕ) → p < n → q < n → key_at slots p ≢ 0 → key_at slots p ≡ key_at slots q → p ≡ q

-- The slots are a power of two from 16 on, and the shift leaves that many hash values; the entries
-- are laid as a probe expects and counted; half of the slots are empty at least.
pub record IsTable (m : IdIndexMap) : Type 0 where
  pub bits : ℕ
  pub bits_least : 4 ≤ bits
  pub bits_fit : bits < 64
  pub width : length m.slots ≡ 2 ^ bits
  pub shift_is : m.shift ≡ 64 - bits
  pub laid : Laid (length m.slots) m.shift m.slots
  pub counted : occupied m.slots ≡ m.size
  pub half : m.size * 2 ≤ length m.slots

-- Some slot holds the key with the value.
pub record Has (slots : List Slot) (key value : ℕ) : Type 0 where
  pub index : ℕ
  pub index_in : index < length slots
  pub key_is : key_at slots index ≡ key
  pub value_is : (get_or slots index empty_slot).value ≡ value

pub pow_split : (a b : ℕ) → 2 ^ (a + b) ≡ 2 ^ a * 2 ^ b
pow_split a zero = let next : a + zero ≡ a = omega arith in ap (λ k. 2 ^ k) next ∙ omega arith
pow_split a (suc b) =
    let next : a + suc b ≡ suc (a + b) = omega arith in
    ap (λ k. 2 ^ k) next
    ∙ omega (
      arith,
      two-pow-succ (a + b),
      pow_split a b,
      ap (λ k. 2 ^ a * k) (two-pow-succ b),
      mul-add (2 ^ a) (2 ^ b) (2 ^ b),
    )

-- A hash value is an index of the table.
pub home-lt : (bits shift key : ℕ) → bits < 64 → shift ≡ 64 - bits → home shift key < 2 ^ bits
home-lt bits shift key fits shift_is =
    let together : bits + shift ≡ 64 = omega (arith, shift_is) in
    let whole : 2 ^ bits * 2 ^ shift ≡ 2 ^ 64 =
      sym (pow_split bits shift) ∙ ap (λ k. 2 ^ k) together in
    (div-lt_iff_lt-mul (one-le-pow shift 2 (omega arith))).1 (omega (arith, whole))

pub Has-at :
    (slots : List Slot) (i key : ℕ)
    → i < length slots
    → key_at slots i ≡ key
    → Has slots key (get_or slots i empty_slot).value
Has-at slots i key i_in e = record { index = i; index_in = i_in; key_is = e; value_is = refl }

pub free_slot :
    (slots : List Slot)
    → occupied slots < length slots
    → (i : ℕ) × (i < length slots) × (key_at slots i ≡ 0)
free_slot [] h = absurd (omega arith)
free_slot (s ∷ slots) h = elim (Bool-cases (s.key == 0)) [
  | inl e ↦ (0, omega arith, ground arith)
  | inr e ↦
      let (i, lt, free) = free_slot slots (ground (arith, h)) in (suc i, omega (arith, lt), free)
]
