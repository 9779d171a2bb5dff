-- ===== src/Bitset/Search.antt =====
-- The searches for the nearest member.
use lightning_lob.Base.Bits.{bit, bit-bit_and, bit_and-lt}
use lightning_lob.Bitset.{
  Bitset, word_at, scan_up, scan_down, find_next_set, find_prev_set, mask_up, mask_down,
  countl_zero, bit_and,
}
use lightning_lob.Bitset.Words
use lightning_lob.Bitset.Members.{IsBitset, member, word_at-IsWord}
use lightning_lob.Base.{
  true, false, zero, suc, none, some, inl, inr, refl, arith, ℕ, Option, ◌<◌, ◌*◌, Bool, ◌≤◌, ◌+◌,
  ◌≡◌, leb, ◌^◌, ◌/◌, ◌-◌, ◌&&◌, length, ◌%◌, ap, ◌∙◌, Bool-cases, ◌≢◌, ltb, ◌==◌, ltb→lt,
  if◌then◌else◌, leb→le, ◌||◌,
}
use lightning_lob.IdIndexMap.{countr_zero}

-- The smallest member from `from` on, if there is one.
pub data NextSet (s : Bitset) (from : ℕ) : Option ℕ → Type 0 where
  next_at :
      (p : ℕ)
      → from ≤ p
      → p < s.num_bits
      → member s p ≡ true
      → ((q : ℕ) → from ≤ q → q < p → member s q ≡ false)
      → NextSet s from (some p)
  no_next : ((q : ℕ) → from ≤ q → q < s.num_bits → member s q ≡ false) → NextSet s from none

-- The greatest member up to `from`, if there is one.
pub data PrevSet (s : Bitset) (from : ℕ) : Option ℕ → Type 0 where
  prev_at :
      (p : ℕ)
      → p ≤ from
      → member s p ≡ true
      → ((q : ℕ) → p < q → q ≤ from → member s q ≡ false)
      → PrevSet s from (some p)
  no_prev : ((q : ℕ) → q ≤ from → member s q ≡ false) → PrevSet s from none

-- The bits of word `i` are the members of its indices.
member-at : (s : Bitset) (i k : ℕ) → k < 64 → member s (i * 64 + k) ≡ bit k (word_at s i)
unfolding member
member-at s i k lt =
    let word : (i * 64 + k) / 64 ≡ i = omega arith in
    let place : (i * 64 + k) % 64 ≡ k = omega arith in rw (word, place) refl

-- An index of word `i` by its place in the word.
at_place :
    (s : Bitset) (i q : ℕ)
    → i * 64 ≤ q
    → q < i * 64 + 64
    → member s q ≡ bit (q - i * 64) (word_at s i)
at_place s i q le lt =
    let e : q ≡ i * 64 + (q - i * 64) = omega arith in
    ap (member s) e ∙ member-at s i (q - i * 64) (omega arith)

-- A word in hand holds the bits of word `i` that pass the test.
abbrev HoldsBits : Bitset → (i word : ℕ) → (ℕ → Bool) → Type 0
HoldsBits s i word passes =
    (k : ℕ) → k < 64 → bit k word ≡ (bit k (word_at s i) && passes (i * 64 + k))

masked_off : (r a c : Bool) → r ≡ (a && c) → c ≡ true → r ≡ false → a ≡ false
masked_off r a c e pass off = ground arith

masked_on : (r a c : Bool) → r ≡ (a && c) → r ≡ true → (a ≡ true) × (c ≡ true)
masked_on r a c e on = ground arith

clear_behind :
    (s : Bitset) (i word : ℕ) (passes : ℕ → Bool)
    → HoldsBits s i word passes
    → (q : ℕ) → i * 64 ≤ q
    → q < i * 64 + 64
    → passes q ≡ true
    → bit (q - i * 64) word ≡ false
    → member s q ≡ false
clear_behind s i word passes holds q le lt pass off =
    let e : i * 64 + (q - i * 64) ≡ q = omega arith in
    let here =
      holds (q - i * 64) (omega arith) ∙ ap (λ t. bit (q - i * 64) (word_at s i) && passes t) e in
    at_place s i q le lt ∙ masked_off _ _ (passes q) here pass off

-- The words above: an index passes from `from` on.
module _ (s : Bitset) (b : IsBitset s) (from : ℕ) where
  up : ℕ → Bool
  up q = leb from q

  -- Word `i` in hand, with nothing behind it.
  module _ (i word : ℕ) (bound : word < 2 ^ 64) (holds : HoldsBits s i word up)
      (behind : (q : ℕ) → from ≤ q → q < i * 64 → member s q ≡ false) where
    -- A limit below which the word in hand has no bit.
    behind_in_word :
        (c : ℕ)
        → c ≤ 64
        → ((j : ℕ) → j < c → bit j word ≡ false)
        → (q : ℕ) → from ≤ q
        → q < i * 64 + c
        → member s q ≡ false
    unfolding up
    behind_in_word c le none_set q lo hi = elim (Bool-cases (ltb q (i * 64))) [
      | inl e ↦ behind q lo (ltb→lt q (i * 64) e)
      | inr e ↦
          clear_behind s i word up holds q (ground arith) (omega arith) (ground arith)
            (none_set (q - i * 64) (ground arith))
    ]

    found_up :
        word ≢ 0
        → (let pos = i * 64 + countr_zero 64 word in
            NextSet s from (if ltb pos s.num_bits then some pos else none))
    unfolding up
    found_up ne =
        let c = countr_zero 64 word in
        let (in_range, low) = Words.countr_zero-IsLowest 64 word bound ne in
        let (here, passes) = masked_on _ _ (up (i * 64 + c)) (holds c in_range) low.is_set in
        elim (Bool-cases (ltb (i * 64 + c) s.num_bits)) [
          | inl e ↦ rw e (
              next_at (i * 64 + c) (leb→le from (i * 64 + c) passes) (ltb→lt _ _ e)
                (member-at s i c in_range ∙ here) (behind_in_word c (omega arith) low.below))
          | inr e ↦
              rw e
                (no_next (λ q lo hi. behind_in_word c (omega arith) low.below q lo (ground arith)))
        ]

    nothing_up : word ≡ 0 → (q : ℕ) → from ≤ q → q < (i + 1) * 64 → member s q ≡ false
    nothing_up zero_word q lo hi =
        behind_in_word 64 (omega arith) (λ j _. ap (bit j) zero_word ∙ Words.bit-zero j) q lo
          (omega arith)

  scan_up-NextSet :
      (rounds i word : ℕ)
      → word < 2 ^ 64
      → i < length s.words
      → length s.words ≤ i + rounds
      → from < (i + 1) * 64
      → HoldsBits s i word up
      → ((q : ℕ) → from ≤ q → q < i * 64 → member s q ≡ false)
      → NextSet s from (scan_up rounds s i word)
  unfolding scan_up up
  scan_up-NextSet zero i word bound lt le near holds behind = absurd (omega arith)
  scan_up-NextSet (suc rounds) i word bound lt le near holds behind =
      elim (Bool-cases (word == 0)) [
        | inr e ↦ rw e (found_up i word bound holds behind (λ z. ground arith))
        | inl e ↦
            let gone = nothing_up i word bound holds behind (ground arith) in
            rw e (elim (Bool-cases (leb (length s.words) (i + 1))) [
              | inl k ↦ rw k (no_next (λ q lo hi. gone q lo (ground (arith, b.sized))))
              | inr k ↦ rw k (
                  scan_up-NextSet rounds (i + 1) (word_at s (i + 1)) (word_at-IsWord s (i + 1) b)
                    (ground arith) (omega arith) (omega arith)
                    (λ j _.
                      let pass : leb from ((i + 1) * 64 + j) ≡ true = ground arith in
                      rw pass (ground arith))
                    gone)
            ])
      ]

  -- `find_next_set` finds the smallest member from `from` on, if there is one.
  pub find_next_set-NextSet : NextSet s from (find_next_set s from)
  unfolding find_next_set up
  find_next_set-NextSet = elim (Bool-cases (leb s.num_bits from)) [
    | inl e ↦ rw e (no_next (λ q lo hi. absurd (ground arith)))
    | inr e ↦
        let i = from / 64 in
        let word = bit_and (word_at s i) (mask_up (from % 64)) in
        rw e (
          scan_up-NextSet (length s.words) i word
            (bit_and-lt 64 (word_at s i) _ (word_at-IsWord s i b)) (ground (arith, b.sized))
            (omega arith) (omega arith)
            (λ k lt.
              bit-bit_and k (word_at s i) (mask_up (from % 64))
              ∙ ap (λ c. bit k (word_at s i) && c)
                  (Words.bit-mask_up (from % 64) k (omega arith) lt ∙ same_test k lt))
            (λ q lo hi. absurd (omega arith)))
  ]
    where
      same_test : (k : ℕ) → k < 64 → leb (from % 64) k ≡ leb from (from / 64 * 64 + k)
      same_test k lt = ground arith

-- The words below: an index passes up to `from`.
module _ (s : Bitset) (b : IsBitset s) (from : ℕ) where
  down : ℕ → Bool
  down q = leb q from

  module _ (i word : ℕ) (bound : word < 2 ^ 64) (holds : HoldsBits s i word down)
      (behind : (q : ℕ) → (i + 1) * 64 ≤ q → q ≤ from → member s q ≡ false) where
    -- A place from which the word in hand has no bit.
    ahead_in_word :
        (c : ℕ)
        → ((j : ℕ) → c ≤ j → j < 64 → bit j word ≡ false)
        → (q : ℕ) → i * 64 + c ≤ q
        → q ≤ from
        → member s q ≡ false
    unfolding down
    ahead_in_word c none_set q lo hi = elim (Bool-cases (ltb q ((i + 1) * 64))) [
      | inr e ↦ behind q (ground arith) hi
      | inl e ↦
          clear_behind s i word down holds q (omega arith) (ground arith) (ground arith)
            (none_set (q - i * 64) (omega arith) (ground arith))
    ]

    found_down : word ≢ 0 → PrevSet s from (some (i * 64 + (64 - 1 - countl_zero 64 word)))
    unfolding down
    found_down ne =
        let (lowest_in, low) = Words.countr_zero-IsLowest 64 word bound ne in
        let (in_range, high) =
          Words.countl_zero-IsHighest 64 word (countr_zero 64 word) lowest_in low.is_set in
        let h = 64 - 1 - countl_zero 64 word in
        let in_word : h < 64 = omega arith in
        let (here, passes) = masked_on _ _ (down (i * 64 + h)) (holds h in_word) high.is_set in
        prev_at (i * 64 + h) (leb→le (i * 64 + h) from passes) (member-at s i h in_word ∙ here)
          (λ q lo hi.
            ahead_in_word (suc h) (λ j le lt. high.above j (omega arith) lt) q (omega arith) hi)

    nothing_down : word ≡ 0 → (q : ℕ) → i * 64 ≤ q → q ≤ from → member s q ≡ false
    nothing_down zero_word q lo hi =
        ahead_in_word 0 (λ j _ _. ap (bit j) zero_word ∙ Words.bit-zero j) q (omega arith) hi

  scan_down-PrevSet :
      (i word : ℕ)
      → word < 2 ^ 64
      → i * 64 ≤ from
      → HoldsBits s i word down
      → ((q : ℕ) → (i + 1) * 64 ≤ q → q ≤ from → member s q ≡ false)
      → PrevSet s from (scan_down i s word)
  unfolding scan_down down
  scan_down-PrevSet zero word bound near holds behind = elim (Bool-cases (word == 0)) [
    | inr e ↦ rw e (found_down 0 word bound holds behind (λ z. ground arith))
    | inl e ↦
        rw e (
          no_prev
            (λ q hi. nothing_down 0 word bound holds behind (ground arith) q (omega arith) hi))
  ]
  scan_down-PrevSet (suc i) word bound near holds behind = elim (Bool-cases (word == 0)) [
    | inr e ↦ rw e (found_down (suc i) word bound holds behind (λ z. ground arith))
    | inl e ↦
        let gone = nothing_down (suc i) word bound holds behind (ground arith) in
        rw e (
          scan_down-PrevSet i (word_at s i) (word_at-IsWord s i b) (omega arith)
            (λ j lt.
              let pass : leb (i * 64 + j) from ≡ true = ground arith in rw pass (ground arith))
            (λ q lo hi. gone q (omega arith) hi))
  ]

  -- `find_prev_set` from an index in range finds the greatest member up to `from`, if there is one.
  pub find_prev_set-PrevSet : from < s.num_bits → PrevSet s from (find_prev_set s from)
  unfolding find_prev_set down
  find_prev_set-PrevSet lt =
      let i = from / 64 in
      let word = bit_and (word_at s i) (mask_down (from % 64)) in
      let h : ((length s.words == 0) || leb s.num_bits from) ≡ false = ground (arith, b.sized) in
      rw h (
        scan_down-PrevSet i word (bit_and-lt 64 (word_at s i) _ (word_at-IsWord s i b))
          (omega arith)
          (λ k lt'.
            bit-bit_and k (word_at s i) (mask_down (from % 64))
            ∙ ap (λ c. bit k (word_at s i) && c)
                (Words.bit-mask_down (from % 64) k (omega arith) lt' ∙ same_test k lt'))
          (λ q lo hi. absurd (omega arith)))
    where
      same_test : (k : ℕ) → k < 64 → leb k (from % 64) ≡ leb (from / 64 * 64 + k) from
      same_test k lt' = ground arith
