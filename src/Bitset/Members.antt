-- ===== src/Bitset/Members.antt =====
-- The bitset as the set of its members.
use native.Mathlib.Nat.{pow-le-pow_right}
use lightning_lob.Base.Bits.{bit, bit-bit_and, bit-bit_or, bit_and-lt, bit_or-lt}
use lightning_lob.Bitset.{
  Bitset, word_at, set_bit, clear_bit, test_bit, new_bitset, one_bit, all_ones, bit_and, bit_or,
}
use lightning_lob.Bitset.Words.{bit-one_bit, bit-hole, bit-zero, no_bits→zero, set_bit→nonzero}
use lightning_lob.Base.{
  [], ◌∷◌, true, false, zero, suc, inl, inr, refl, arith, ℕ, length, List, ◌<◌, ◌≡◌, Bool, All,
  get_or, ◌^◌, ◌+◌, ◌%◌, set, replicate, length-replicate, ◌/◌, ◌==◌, not, ◌∙◌, ◌||◌, ◌&&◌, ap,
  length-set, Bool-cases, ◌-◌, subst, sym, get_or-set_self, ◌≢◌, get_or-set_ne, ◌≤◌,
}

abbrev pub IsWord : ℕ → Type 0
IsWord w = w < 2 ^ 64

-- There are words for the bits, and they are 64-bit words.
pub record IsBitset (s : Bitset) : Type 0 where
  pub sized : length s.words ≡ (s.num_bits + 63) / 64
  pub bounded : All IsWord s.words

unfoldable pub member : Bitset → ℕ → Bool
member s i = bit (i % 64) (word_at s (i / 64))

IsWord-get_or : (ws : List ℕ) (i : ℕ) → All IsWord ws → IsWord (get_or ws i 0)
IsWord-get_or [] i h = omega arith
IsWord-get_or (w ∷ ws) zero h = h.0
IsWord-get_or (w ∷ ws) (suc i) h = IsWord-get_or ws i h.1

All-set : (ws : List ℕ) (i v : ℕ) → All IsWord ws → IsWord v → All IsWord (set ws i v)
All-set [] i v h k = tt
All-set (w ∷ ws) zero v h k = (k, h.1)
All-set (w ∷ ws) (suc i) v h k = (h.0, All-set ws i v h.1 k)

All-replicate : (n v : ℕ) → IsWord v → All IsWord (replicate n v)
All-replicate zero v h = tt
All-replicate (suc n) v h = (h, All-replicate n v h)

get_or-replicate : (n i v : ℕ) → get_or (replicate n v) i v ≡ v
get_or-replicate zero i v = refl
get_or-replicate (suc n) zero v = refl
get_or-replicate (suc n) (suc i) v = get_or-replicate n i v

pub word_at-IsWord : (s : Bitset) (i : ℕ) → IsBitset s → IsWord (word_at s i)
word_at-IsWord s i b = IsWord-get_or s.words i b.bounded

-- A new bitset has no member.
pub new_bitset-IsBitset :
    (n : ℕ) → IsBitset (new_bitset n) × ((j : ℕ) → member (new_bitset n) j ≡ false)
unfolding new_bitset member
new_bitset-IsBitset n = (
  record { sized = length-replicate _ 0 ∙ omega arith; bounded = All-replicate _ 0 (omega arith) },
  λ j. ap (bit (j % 64)) (get_or-replicate _ (j / 64) 0) ∙ bit-zero (j % 64),
)

-- One bit of a word, read as the source reads it.
read_bit : (w k : ℕ) → IsWord w → k < 64 → not (bit_and w (one_bit k) == 0) ≡ bit k w
read_bit w k h lt = elim (Bool-cases (bit k w)) [
  | inl e ↦
      let here : (k == k) ≡ true = ground arith in
      let on : bit k (bit_and w (one_bit k)) ≡ true =
        bit-bit_and k w (one_bit k) ∙ rw (e, bit-one_bit k k lt lt, here) refl in
      ap not (set_bit→nonzero _ k on) ∙ sym e
  | inr e ↦ ap (λ n. not (n == 0)) (no_bits→zero _ (bit_and-lt 64 w (one_bit k) h) (off e)) ∙ sym e
]
  where
    off : bit k w ≡ false → (j : ℕ) → j < 64 → bit j (bit_and w (one_bit k)) ≡ false
    off e j lt' =
        bit-bit_and j w (one_bit k)
        ∙ ap (λ c. bit j w && c) (bit-one_bit k j lt lt')
        ∙ elim (Bool-cases (k == j)) [
          | inl same ↦
              let at : k ≡ j = ground arith in
              rw same (subst (λ t. (bit t w && true) ≡ false) at (rw e refl))
          | inr other ↦ rw other (ground arith)
        ]

-- `test` reads a member.
pub test_bit-member : (s : Bitset) (i : ℕ) → IsBitset s → test_bit s i ≡ member s i
unfolding test_bit member
test_bit-member s i b =
    read_bit (word_at s (i / 64)) (i % 64) (word_at-IsWord s (i / 64) b) (omega arith)

one_bit-IsWord : (k : ℕ) → k < 64 → IsWord (one_bit k)
one_bit-IsWord k lt =
    let top : 2 ^ k ≤ 2 ^ 63 =
      pow-le-pow_right {n = 2} (omega arith) {i = k} {j = 63} (omega arith) in
    omega arith

or_comm : (a b : Bool) → (a || b) ≡ (b || a)
or_comm a b = ground arith

and_comm : (a b : Bool) → (a && b) ≡ (b && a)
and_comm a b = ground arith

-- Two indices are the same place of the same word, or not the same.
same_bit : (i j : ℕ) → (j / 64 == i / 64) ≡ true → (i % 64 == j % 64) ≡ (i == j)
same_bit i j h = ground arith

other_word : (i j : ℕ) → (j / 64 == i / 64) ≡ false → (i == j) ≡ false
other_word i j h = ground arith

-- A write to the word of an index, which is in range.
module _ (s : Bitset) (i : ℕ) (b : IsBitset s) (lt : i < s.num_bits) where
  word_there : i / 64 < length s.words
  word_there = omega (arith, b.sized)

  wrote : ℕ → Bitset
  wrote v = record s { words = set s.words (i / 64) v }

  wrote-IsBitset : (v : ℕ) → IsWord v → IsBitset (wrote v)
  unfolding wrote
  wrote-IsBitset v h = record {
    sized = length-set s.words (i / 64) v ∙ b.sized;
    bounded = All-set s.words (i / 64) v b.bounded h;
  }

  -- The bits of the word decide about its indices, and the other indices stay.
  member-wrote :
      (v j : ℕ) (f : Bool → Bool → Bool)
      → ((k : ℕ) → k < 64 → bit k v ≡ f (i % 64 == k) (bit k (word_at s (i / 64))))
      → f false (member s j) ≡ member s j
      → member (wrote v) j ≡ f (i == j) (member s j)
  unfolding wrote member
  member-wrote v j f bits keep = elim (Bool-cases (j / 64 == i / 64)) [
    | inl h ↦
        let at : i / 64 ≡ j / 64 = ground arith in
        ap (λ t. bit (j % 64) (get_or (set s.words (i / 64) v) t 0)) (sym at)
        ∙ ap (bit (j % 64)) (get_or-set_self s.words (i / 64) v 0 word_there)
        ∙ bits (j % 64) (omega arith)
        ∙ ap (λ t. f (i % 64 == j % 64) (bit (j % 64) (word_at s t))) at
        ∙ ap (λ c. f c (bit (j % 64) (word_at s (j / 64)))) (same_bit i j h)
    | inr h ↦
        let ne : i / 64 ≢ j / 64 = λ e. ground arith in
        ap (bit (j % 64)) (get_or-set_ne s.words (i / 64) (j / 64) v 0 ne)
        ∙ sym keep
        ∙ ap (λ c. f c (bit (j % 64) (word_at s (j / 64)))) (sym (other_word i j h))
  ]

  -- `set` adds a member.
  pub set_bit-member :
      IsBitset (set_bit s i) × ((j : ℕ) → member (set_bit s i) j ≡ (i == j || member s j))
  unfolding set_bit wrote
  set_bit-member =
      let w = word_at s (i / 64) in
      let k = i % 64 in
      let word = word_at-IsWord s (i / 64) b in
      (
        wrote-IsBitset (bit_or w (one_bit k))
            (bit_or-lt 64 w (one_bit k) word (one_bit-IsWord k (omega arith))),
        λ j.
            member-wrote (bit_or w (one_bit k)) j (λ c m. c || m)
              (λ t lt'.
                bit-bit_or t w (one_bit k)
                ∙ ap (λ c. bit t w || c) (bit-one_bit k t (omega arith) lt')
                ∙ or_comm (bit t w) (k == t))
              refl,
      )

  -- `clear` takes a member away.
  pub clear_bit-member :
      IsBitset (clear_bit s i) × ((j : ℕ) → member (clear_bit s i) j ≡ (not (i == j) && member s j))
  unfolding clear_bit wrote
  clear_bit-member =
      let w = word_at s (i / 64) in
      let k = i % 64 in
      let mask = all_ones - one_bit k in
      (
        wrote-IsBitset (bit_and w mask) (bit_and-lt 64 w mask (word_at-IsWord s (i / 64) b)),
        λ j.
            member-wrote (bit_and w mask) j (λ c m. not c && m)
              (λ t lt'.
                bit-bit_and t w mask
                ∙ ap (λ c. bit t w && c) (bit-hole k t (omega arith) lt')
                ∙ and_comm (bit t w) (not (k == t)))
              refl,
      )
