-- ===== src/Replay/Decimals.antt =====
-- Numbers as the loader reads them, against numbers as they are written.
use lightning_lob.Replay.{
  is_digit, digits, starts_with_digit, from_chars_unsigned, from_chars_signed, positive_of,
}
use lightning_lob.Replay.Csv.{Lacks}
use lightning_lob.Base.Int.{pos, negsuc, ℤ, int_laws}
use mathlib.Core.Option
use lightning_lob.Base.{
  [], ◌∷◌, true, false, zero, suc, some, inl, inr, refl, arith, ℕ, ◌≡◌, All, if◌then◌else◌, ◌+◌,
  ◌++◌, ◌<◌, ◌==◌, ltb, ◌*◌, Bool-cases, ◌^◌, ◌/◌, ◌-◌, ◌%◌, ◌∙◌, All-append, ap, leb,
}
use lightning_lob.Names.{Bytes}

-- A number in decimal, given more rounds than it is large.
unfoldable pub decimal_from : (rounds : ℕ) → ℕ → Bytes
decimal_from zero n = []
decimal_from (suc rounds) n =
    if ltb n 10 then (48 + n) ∷ [] else decimal_from rounds (n / 10) ++ (48 + n % 10) ∷ []

unfoldable pub decimal : ℕ → Bytes
decimal n = decimal_from (n + 1) n

unfoldable pub signed_decimal : ℤ → Bytes
signed_decimal (pos n) = decimal n
signed_decimal (negsuc n) = 45 ∷ decimal (n + 1)

abbrev IsDigit : ℕ → Type 0
IsDigit c = is_digit c ≡ true

digits-append :
    (xs : Bytes) (v c : ℕ)
    → All IsDigit xs
    → is_digit c ≡ true
    → digits v (xs ++ c ∷ []) ≡ digits v xs * 10 + (c - 48)
digits-append [] v c ok h = rw h refl
digits-append (x ∷ xs) v c ok h = rw (ok.0) (digits-append xs (v * 10 + (x - 48)) c ok.1 h)

pub starts-append :
    (xs ys : Bytes) → starts_with_digit xs ≡ true → starts_with_digit (xs ++ ys) ≡ true
starts-append [] ys h = absurd (cc h)
starts-append (x ∷ xs) ys h = h

abbrev Written : ℕ → Bytes → Type 0
Written n xs = (digits 0 xs ≡ n) × All IsDigit xs × (starts_with_digit xs ≡ true)

decimal_from-Written : (rounds n : ℕ) → n < rounds → Written n (decimal_from rounds n)
unfolding decimal_from
decimal_from-Written zero n h = absurd (omega arith)
decimal_from-Written (suc rounds) n h = elim (Bool-cases (ltb n 10)) [
  | inl e ↦
      let digit : is_digit (48 + n) ≡ true = ground arith in
      rw (e, digit) (omega arith, (refl, tt), refl)
  | inr e ↦
      let digit : is_digit (48 + n % 10) ≡ true = ground arith in
      let (value, all_digits, first) = decimal_from-Written rounds (n / 10) (ground arith) in
      rw e (
        digits-append (decimal_from rounds (n / 10)) 0 (48 + n % 10) all_digits digit
            ∙ rw value (omega arith),
        All-append IsDigit (decimal_from rounds (n / 10)) _ all_digits (digit, tt),
        starts-append (decimal_from rounds (n / 10)) _ first,
      )
]

pub decimal-Written : (n : ℕ) → Written n (decimal n)
unfolding decimal
decimal-Written n = decimal_from-Written (n + 1) n (omega arith)

pub digits-Lacks : (xs : Bytes) → All IsDigit xs → Lacks 44 xs
digits-Lacks [] ok = refl
digits-Lacks (x ∷ xs) ok =
    let other : (x == 44) ≡ false = ground (arith, ok.0) in rw (other, digits-Lacks xs ok.1) refl

pub from_chars_unsigned-decimal :
    (bits n : ℕ) → n < 2 ^ bits → from_chars_unsigned bits (decimal n) ≡ some n
unfolding from_chars_unsigned
from_chars_unsigned-decimal bits n h =
    let (value, all_digits, first) = decimal-Written n in
    let small : ltb n (2 ^ bits) ≡ true = ground arith in rw (first, value, small) refl

-- The number is an `int64_t`.
abbrev pub FitsInt64 : ℤ → Type 0
FitsInt64 (pos n) = n < 2 ^ 63
FitsInt64 (negsuc n) = n < 2 ^ 63

signed-positive : (xs : Bytes) → starts_with_digit xs ≡ true → from_chars_signed xs ≡ positive_of xs
unfolding from_chars_signed
signed-positive [] h = absurd (cc h)
signed-positive (x ∷ xs) h = let other : (x == 45) ≡ false = ground (arith, h) in rw other refl

pub from_chars_signed-signed_decimal :
    (z : ℤ) → FitsInt64 z → from_chars_signed (signed_decimal z) ≡ some z
unfolding from_chars_signed signed_decimal
from_chars_signed-signed_decimal (pos n) h =
    let (value, all_digits, first) = decimal-Written n in
    signed-positive (decimal n) first ∙ ap (Option.map pos) (from_chars_unsigned-decimal 63 n h)
from_chars_signed-signed_decimal (negsuc n) h =
    let (value, all_digits, first) = decimal-Written (n + 1) in
    let small : leb (n + 1) (2 ^ 63) ≡ true = ground arith in
    rw (first, value, small) (ap some (omega int_laws))
