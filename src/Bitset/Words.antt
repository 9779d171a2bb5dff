-- ===== src/Bitset/Words.antt =====
-- One word of the bitset: its masks, and the position of its lowest and its highest bit.
use lightning_lob.Base.Bits.{bit, agree_at, agree_on, for_all_below}
use lightning_lob.Bitset.{one_bit, all_ones, mask_up, mask_down, countl_zero}
use lightning_lob.IdIndexMap.{countr_zero}
use native.Mathlib.Nat.{div-div-eq-div-mul, pow-suc}
use lightning_lob.Base.{
  true, false, zero, suc, inl, inr, refl, arith, ℕ, ◌<◌, ◌≡◌, ◌==◌, ◌-◌, leb, ◌^◌, not, ◌≢◌,
  Bool-cases, ◌%◌, ◌/◌, ◌∙◌, ◌*◌, subst, sym, ap,
}

pub bit-one_bit : (j k : ℕ) → j < 64 → k < 64 → bit k (one_bit j) ≡ (j == k)
unfolding agree_on for_all_below bit
bit-one_bit = agree_at 64 64 (λ j k. bit k (one_bit j)) (λ j k. j == k) refl

pub bit-hole : (j k : ℕ) → j < 64 → k < 64 → bit k (all_ones - one_bit j) ≡ not (j == k)
unfolding agree_on for_all_below bit
bit-hole = agree_at 64 64 (λ j k. bit k (all_ones - one_bit j)) (λ j k. not (j == k)) refl

pub bit-mask_up : (j k : ℕ) → j < 64 → k < 64 → bit k (mask_up j) ≡ leb j k
unfolding agree_on for_all_below bit
bit-mask_up = agree_at 64 64 (λ j k. bit k (mask_up j)) (λ j k. leb j k) refl

pub bit-mask_down : (j k : ℕ) → j < 64 → k < 64 → bit k (mask_down j) ≡ leb k j
unfolding agree_on for_all_below bit
bit-mask_down = agree_at 64 64 (λ j k. bit k (mask_down j)) (λ j k. leb k j) refl

pub bit-zero : (k : ℕ) → bit k 0 ≡ false
unfolding bit
bit-zero zero = refl
bit-zero (suc k) = bit-zero k

-- The lowest bit of a word that is not zero.
pub record IsLowest (w c : ℕ) : Type 0 where
  pub is_set : bit c w ≡ true
  pub below : (j : ℕ) → j < c → bit j w ≡ false

below_half :
    (w c : ℕ)
    → (w % 2 == 1) ≡ false
    → ((j : ℕ) → j < c → bit j (w / 2) ≡ false)
    → (j : ℕ) → j < suc c
    → bit j w ≡ false
unfolding bit
below_half w c h rest zero lt = h
below_half w c h rest (suc j) lt = rest j (omega arith)

pub countr_zero-IsLowest :
    (bits w : ℕ)
    → w < 2 ^ bits
    → w ≢ 0
    → (countr_zero bits w < bits) × IsLowest w (countr_zero bits w)
unfolding countr_zero bit
countr_zero-IsLowest zero w lt ne = absurd (omega arith)
countr_zero-IsLowest (suc bits) w lt ne = elim (Bool-cases (w % 2 == 1)) [
  | inl h ↦ rw h (omega arith, record { is_set = h; below = λ j lt. absurd (omega arith) })
  | inr h ↦
      let (in_range, low) =
        countr_zero-IsLowest bits (w / 2) (omega (arith, pow-suc 2 bits)) (λ e. ground arith) in
      rw h (
        omega arith,
        record { is_set = low.is_set; below = below_half w (countr_zero bits (w / 2)) h low.below },
      )
]

bit-div : (k w : ℕ) → bit k w ≡ (w / 2 ^ k % 2 == 1)
unfolding bit
bit-div zero w = let e : w / 2 ^ 0 ≡ w = omega arith in rw e refl
bit-div (suc k) w =
    bit-div k (w / 2)
    ∙ (let two : 2 * 2 ^ k ≡ 2 ^ suc k = omega (arith, pow-suc 2 k) in
        ap (λ t. t % 2 == 1) (div-div-eq-div-mul w 2 (2 ^ k) ∙ ap (λ t. w / t) two))

-- The highest of the first `bits` bits of a word.
pub record IsHighest (bits w h : ℕ) : Type 0 where
  pub is_set : bit h w ≡ true
  pub above : (j : ℕ) → h < j → j < bits → bit j w ≡ false

pub countl_zero-IsHighest :
    (bits w j : ℕ)
    → j < bits
    → bit j w ≡ true
    → (countl_zero bits w < bits) × IsHighest bits w (bits - 1 - countl_zero bits w)
unfolding countl_zero
countl_zero-IsHighest zero w j lt e = absurd (omega arith)
countl_zero-IsHighest (suc bits) w j lt e = elim (Bool-cases (w / 2 ^ bits % 2 == 1)) [
  | inl h ↦ rw h (omega arith, top h)
  | inr h ↦
      let off = bit-div bits w ∙ h in
      let ne : j ≢ bits = λ same. ground (arith, e, off) in
      let (in_range, high) = countl_zero-IsHighest bits w j (omega arith) e in
      rw h (omega arith, lower off high)
]
  where
    top : (w / 2 ^ bits % 2 == 1) ≡ true → IsHighest (suc bits) w (suc bits - 1 - 0)
    top h =
        let here : suc bits - 1 - 0 ≡ bits = omega arith in
        rw here (record { is_set = bit-div bits w ∙ h; above = λ k lt lt'. absurd (omega arith) })

    lower :
        bit bits w ≡ false
        → IsHighest bits w (bits - 1 - countl_zero bits w)
        → IsHighest (suc bits) w (suc bits - 1 - suc (countl_zero bits w))
    lower off high =
        let here : suc bits - 1 - suc (countl_zero bits w) ≡ bits - 1 - countl_zero bits w =
          omega arith in
        rw here (record {
          is_set = high.is_set;
          above = λ k lt lt'. elim (Bool-cases (k == bits)) [
            | inl same ↦ let e : k ≡ bits = ground arith in subst (λ t. bit t w ≡ false) (sym e) off
            | inr other ↦ high.above k lt (ground arith)
          ];
        })

-- A word is zero exactly when none of its bits is set.
pub no_bits→zero : (w : ℕ) → w < 2 ^ 64 → ((j : ℕ) → j < 64 → bit j w ≡ false) → w ≡ 0
no_bits→zero w lt none_set = elim (Bool-cases (w == 0)) [
  | inl e ↦ ground arith
  | inr e ↦
      let (in_range, low) = countr_zero-IsLowest 64 w lt (λ z. ground arith) in
      absurd (let off = none_set _ in_range in let on = low.is_set in cc (on, off))
]

pub set_bit→nonzero : (w j : ℕ) → bit j w ≡ true → (w == 0) ≡ false
set_bit→nonzero w j h = elim (Bool-cases (w == 0)) [
  | inl e ↦
      let z : w ≡ 0 = ground arith in
      let off = bit-zero j in absurd (cc (sym h ∙ ap (bit j) z ∙ off))
  | inr e ↦ e
]
