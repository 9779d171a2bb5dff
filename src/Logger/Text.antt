-- ===== src/Logger/Text.antt =====
-- The message of a record, as `write_record` reads it back.
use Prim.Native.Nat.{min}
use lightning_lob.Logger.{LogLevel, copy_bytes, record_of, text_of, message_size}
use lightning_lob.Base.{
  [], ◌∷◌, zero, suc, inl, inr, refl, arith, ℕ, ◌≤◌, length, take, ◌<◌, ◌≡◌, set, ap, Bool-cases,
  ◌-◌, if◌then◌else◌, leb, replicate, ◌==◌, tests, length-set, ◌∙◌, sym, length-replicate, leb→le,
}
use lightning_lob.Types.{Timestamp}
use lightning_lob.Names.{Bytes}

-- What is copied and ended by a zero byte is read back.
text_of-copy_bytes :
    (n : ℕ) (source target : Bytes)
    → n ≤ length source
    → n < length target
    → text_of (set (copy_bytes n source target) n 0) ≡ text_of (take n source)
unfolding copy_bytes text_of
text_of-copy_bytes zero source [] h k = absurd (omega arith)
text_of-copy_bytes zero source (b ∷ target) h k = refl
text_of-copy_bytes (suc n) [] target h k = absurd (omega arith)
text_of-copy_bytes (suc n) (x ∷ source) [] h k = absurd (omega arith)
text_of-copy_bytes (suc n) (x ∷ source) (b ∷ target) h k =
    ap (λ rest. if x == 0 then [] else x ∷ rest)
      (text_of-copy_bytes n source target (omega arith) (omega arith))

length-copy_bytes :
    (n : ℕ) (source target : Bytes) → length (copy_bytes n source target) ≡ length target
unfolding copy_bytes
length-copy_bytes zero source target = refl
length-copy_bytes (suc n) [] target = refl
length-copy_bytes (suc n) (x ∷ source) [] = refl
length-copy_bytes (suc n) (x ∷ source) (b ∷ target) = ap suc (length-copy_bytes n source target)

take_all : (k : ℕ) (xs : Bytes) → length xs ≤ k → take k xs ≡ xs
take_all zero [] h = refl
take_all zero (x ∷ xs) h = absurd (omega arith)
take_all (suc k) [] h = refl
take_all (suc k) (x ∷ xs) h = ap (λ rest. x ∷ rest) (take_all k xs (omega arith))

take-min : (k : ℕ) (xs : Bytes) → take (min (length xs) k) xs ≡ take k xs
take-min k xs = elim (Bool-cases (leb (length xs) k)) [
  | inl e ↦
      let all : min (length xs) k ≡ length xs = omega (tests, e) in
      ap (λ n. take n xs) all
      ∙ take_all (length xs) xs (omega arith)
      ∙ sym (take_all k xs (leb→le _ _ e))
  | inr e ↦ let some_of : min (length xs) k ≡ k = ground (arith, e) in ap (λ n. take n xs) some_of
]

-- The buffer of a record keeps its size, and the text that is read from it is the message up to its
-- first zero byte, of which the first 119 bytes are kept.
pub record_of-text :
    (now : Timestamp) (level : LogLevel) (message : Bytes)
    → (length (record_of now level message).message ≡ message_size)
      × (text_of (record_of now level message).message ≡ text_of (take (message_size - 1) message))
unfolding record_of
record_of-text now level message =
    let n = min (length message) (message_size - 1) in
    let buffer : Bytes = replicate message_size 0 in
    let wide : length buffer ≡ message_size = length-replicate {A = ℕ} message_size 0 in
    (
      length-set (copy_bytes n message buffer) n 0 ∙ length-copy_bytes n message buffer ∙ wide,
      text_of-copy_bytes n message buffer (omega arith) (omega (arith, wide))
          ∙ ap text_of (take-min (message_size - 1) message),
    )
