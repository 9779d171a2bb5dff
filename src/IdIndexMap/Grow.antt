-- ===== src/IdIndexMap/Grow.antt =====
-- IdIndexMap::grow: the entries in a table twice as wide; and insert as a whole.
use native.Mathlib.Nat.{mul-le-mul_left, two-pow-succ, one-le-pow}
use lightning_lob.IdIndexMap.Table.{key_at, occupied, IsTable, Has, pow_split}
use lightning_lob.IdIndexMap.Probing.{find-same}
use lightning_lob.IdIndexMap.{IdIndexMap, countr_zero, allocate, empty_slot, rehash, find, grow}
use lightning_lob.Base.{
  zero, suc, inl, inr, refl, arith, ℕ, ◌≤◌, ◌^◌, ◌≢◌, length, ◌≡◌, ◌<◌, replicate, ◌/◌, Bool-cases,
  length-replicate, sym, ◌+◌, ltb, ◌∙◌, ltb→lt, ◌-◌, ◌*◌, ◌%◌, ap, subst,
}
use lightning_lob.IdIndexMap.Rehash.{Rehashed, rehash-Rehashed}

pub countr_zero-pow : (bits b : ℕ) → b ≤ bits → countr_zero bits (2 ^ b) ≡ b
unfolding countr_zero
countr_zero-pow zero zero h = refl
countr_zero-pow zero (suc b) h = absurd (omega arith)
countr_zero-pow (suc bits) zero h = refl
countr_zero-pow (suc bits) (suc b) h =
    let half : 2 ^ suc b / 2 ≡ 2 ^ b = omega (arith, two-pow-succ b) in
    let even : 2 ^ suc b % 2 ≡ 0 = omega (arith, two-pow-succ b) in
    rw (half, even, countr_zero-pow bits b (omega arith)) refl

-- A power of two below another has the smaller exponent.
pub exponent-lt : (b k : ℕ) → 2 ^ b < 2 ^ k → b < k
exponent-lt b k h = elim (Bool-cases (ltb b k)) [
  | inl e ↦ ltb→lt _ _ e
  | inr e ↦ absurd (
      let whole : k + (b - k) ≡ b = ground (arith, e) in
      let product : 2 ^ k * 2 ^ (b - k) ≡ 2 ^ b =
        sym (pow_split k (b - k)) ∙ ap (λ j. 2 ^ j) whole in
      let larger : 2 ^ k * 1 ≤ 2 ^ k * 2 ^ (b - k) =
        mul-le-mul_left (2 ^ k) (one-le-pow (b - k) 2 (omega arith)) in
      omega (arith, larger, product, h))
]

key_at-replicate : (n i : ℕ) → key_at (replicate n empty_slot) i ≡ 0
key_at-replicate zero i = refl
key_at-replicate (suc n) zero = refl
key_at-replicate (suc n) (suc i) = key_at-replicate n i

occupied-replicate : (n : ℕ) → occupied (replicate n empty_slot) ≡ 0
occupied-replicate zero = refl
occupied-replicate (suc n) = omega (arith, occupied-replicate n)

-- A table without entries.
pub allocate-IsTable : (b : ℕ) → 4 ≤ b → b < 64 → IsTable (allocate (2 ^ b))
unfolding allocate
allocate-IsTable b least fit = record {
  bits = b;
  bits_least = least;
  bits_fit = fit;
  width = length-replicate (2 ^ b) empty_slot;
  shift_is = rw (countr_zero-pow 64 b (omega arith)) refl;
  laid = record {
    reach = λ p q p_in q_in full closer. absurd (full (key_at-replicate (2 ^ b) p));
    distinct = λ p q p_in q_in full e. absurd (full (key_at-replicate (2 ^ b) p));
  };
  counted = occupied-replicate (2 ^ b);
  half = omega arith;
}

pub allocate-empty : (n q v : ℕ) → q ≢ 0 → ¬ Has (allocate n).slots q v
unfolding allocate
allocate-empty n q v nonzero h = nonzero (sym h.key_is ∙ key_at-replicate n h.index)

pub length-allocate : (n : ℕ) → length (allocate n).slots ≡ n
unfolding allocate
length-allocate n = length-replicate n empty_slot

-- The same entries in a table twice as wide.
pub record Grown (m after : IdIndexMap) : Type 0 where
  pub table : IsTable after
  pub twice : length after.slots ≡ length m.slots * 2
  pub same_size : after.size ≡ m.size
  pub same_finds : (q : ℕ) → q ≢ 0 → find after q ≡ find m q

pub grow-Grown : (m : IdIndexMap) → IsTable m → length m.slots * 2 < 2 ^ 64 → Grown m (grow m)
unfolding grow
grow-Grown m t fits =
    let b = suc t.bits in
    let wide : length m.slots * 2 ≡ 2 ^ b = omega (arith, t.width, two-pow-succ t.bits) in
    let start = allocate (length m.slots * 2) in
    let fresh : IsTable start =
      subst (λ n. IsTable (allocate n)) (sym wide)
        (allocate-IsTable b (omega (arith, t.bits_least))
          (exponent-lt b 64 (omega (arith, wide, fits)))) in
    let bare : (q v : ℕ) → q ≢ 0 → ¬ Has start.slots q v = allocate-empty (length m.slots * 2) in
    let r : Rehashed m.slots start (rehash m.slots start) =
      rehash-Rehashed m.slots start fresh (record {
        room = omega (arith, length-allocate (length m.slots * 2), t.counted, t.half);
        apart = t.laid.distinct;
        fresh = λ q v w nonzero h. bare q w nonzero;
      }) in
    record {
      table = r.table;
      twice = r.same_width ∙ length-allocate (length m.slots * 2);
      same_size = omega (arith, r.total, t.counted);
      same_finds = λ q nonzero.
          find-same m (rehash m.slots start) t r.table q nonzero (λ v. r.taken q v nonzero)
            (λ v h. elim (r.back q v nonzero h) [
              | inl there ↦ there
              | inr new_one ↦ absurd (bare q v nonzero new_one)
            ]);
    }
