-- ===== src/Bitset.antt =====
-- include/lightninglob/bitset_utils.hpp: a bitset of 64-bit words with searches for the nearest bit
-- that is set. A word is a number below 2 ^ 64, and `~w` is `2 ^ 64 - 1 - w`. An index out of range
-- is excluded by an `assert` in the source; here a write there changes nothing.
pub mod Words
pub mod Members
pub mod Search
mod Tests
use Prim.Native.Nat.{bit_and, bit_or}
use lightning_lob.IdIndexMap.{countr_zero}
use lightning_lob.Base.{
  [], ◌∷◌, true, false, zero, suc, none, some, inl, inr, refl, arith, ℕ, List, ◌^◌, replicate,
  get_or, ◌/◌, Bool, ◌%◌, ◌+◌, if◌then◌else◌, Option, ◌*◌, ◌-◌, set, not, ◌==◌, leb, length, ltb,
  ◌||◌,
}

abbrev pub bits_per_word : ℕ
bits_per_word = 64

abbrev pub all_ones : ℕ
all_ones = 2 ^ 64 - 1

pub record Bitset : Type 0 where
  pub num_bits : ℕ
  pub words : List ℕ

unfoldable pub new_bitset : ℕ → Bitset
new_bitset num_bits = record {
  num_bits = num_bits;
  words = replicate ((num_bits + bits_per_word - 1) / bits_per_word) 0;
}

abbrev pub word_at : Bitset → ℕ → ℕ
word_at s i = get_or s.words i 0

-- `Word{1} << k`
abbrev pub one_bit : ℕ → ℕ
one_bit k = 2 ^ k

unfoldable pub set_bit : Bitset → ℕ → Bitset
set_bit s index =
    let i = index / bits_per_word in
    record s { words = set s.words i (bit_or (word_at s i) (one_bit (index % bits_per_word))) }

unfoldable pub clear_bit : Bitset → ℕ → Bitset
clear_bit s index =
    let i = index / bits_per_word in
    let mask = all_ones - one_bit (index % bits_per_word) in
    record s { words = set s.words i (bit_and (word_at s i) mask) }

unfoldable pub test_bit : Bitset → ℕ → Bool
test_bit s index =
    not (bit_and (word_at s (index / bits_per_word)) (one_bit (index % bits_per_word)) == 0)

-- `std::popcount`
unfoldable pub popcount : (bits : ℕ) → ℕ → ℕ
popcount zero w = 0
popcount (suc bits) w = w % 2 + popcount bits (w / 2)

unfoldable pub count_words : List ℕ → ℕ
count_words [] = 0
count_words (w ∷ ws) = popcount bits_per_word w + count_words ws

unfoldable pub count : Bitset → ℕ
count s = count_words s.words

-- `std::countl_zero` of a word of `bits` bits.
unfoldable pub countl_zero : (bits : ℕ) → ℕ → ℕ
countl_zero zero w = 0
countl_zero (suc bits) w =
    let more = suc (countl_zero bits w) in if w / 2 ^ bits % 2 == 1 then 0 else more

-- The loop of `find_next_set` with the masked word in hand; there are `rounds` words behind it.
unfoldable pub scan_up : (rounds : ℕ) → Bitset → (word_idx word : ℕ) → Option ℕ
scan_up zero s word_idx word = none
scan_up (suc rounds) s word_idx word =
    let pos = word_idx * bits_per_word + countr_zero bits_per_word word in
    let more = scan_up rounds s (word_idx + 1) (word_at s (word_idx + 1)) in
    if not (word == 0)
    then (if ltb pos s.num_bits then some pos else none)
    else if leb (length s.words) (word_idx + 1)
    then none
    else more

-- `~Word{0} << bit_off`
abbrev pub mask_up : ℕ → ℕ
mask_up bit_off = all_ones * 2 ^ bit_off % 2 ^ 64

-- The word index grows to the number of words at most, so so many rounds are enough.
unfoldable pub find_next_set : Bitset → (from : ℕ) → Option ℕ
find_next_set s from =
    if leb s.num_bits from
    then none
    else let word_idx = from / bits_per_word in
      scan_up (length s.words) s word_idx
        (bit_and (word_at s word_idx) (mask_up (from % bits_per_word)))

-- The loop of `find_prev_set`; the word index falls to zero.
unfoldable pub scan_down : (word_idx : ℕ) → Bitset → (word : ℕ) → Option ℕ
scan_down zero s word =
    if not (word == 0)
    then some (0 * bits_per_word + (bits_per_word - 1 - countl_zero bits_per_word word))
    else none
scan_down (suc i) s word =
    let more = scan_down i s (word_at s i) in
    if not (word == 0)
    then some (suc i * bits_per_word + (bits_per_word - 1 - countl_zero bits_per_word word))
    else more

-- The bits up to `bit_off`.
abbrev pub mask_down : ℕ → ℕ
mask_down bit_off = if bit_off == bits_per_word - 1 then all_ones else one_bit (bit_off + 1) - 1

unfoldable pub find_prev_set : Bitset → (from : ℕ) → Option ℕ
find_prev_set s from =
    if (length s.words == 0) || leb s.num_bits from
    then none
    else let word_idx = from / bits_per_word in
      scan_down word_idx s (bit_and (word_at s word_idx) (mask_down (from % bits_per_word)))
