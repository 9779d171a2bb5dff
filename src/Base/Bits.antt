-- ===== src/Base/Bits.antt =====
-- The bits of a number, and what the native bit operations do to each of them.
use Prim.Native.Nat.{min, max, digits, bitwise, bit_and, bit_or, bit_and-bitwise, bit_or-bitwise}
use native.Mathlib.Nat.{pow-suc}
use lightning_lob.Base.{
  true, false, zero, suc, refl, arith, ℕ, Bool, ◌≤◌, ◌≡◌, ◌<◌, ◌%◌, ◌/◌, ◌&&◌, ◌||◌, ◌^◌, ◌==◌, ◌*◌,
  ap, ◌+◌, ◌∙◌, ◌-◌, sym, not,
}

-- Bit `k` of a number.
unfoldable pub bit : ℕ → ℕ → Bool
bit zero n = n % 2 == 1
bit (suc k) n = bit k (n / 2)

-- The native operations run on fuel, which more of does not change.
module _ (z : ℕ → ℕ) (f : ℕ → ℕ → ℕ) where
  one_more : (n a b : ℕ) → a ≤ n → digits z f (suc n) a b ≡ digits z f n a b
  one_more zero zero b h = refl
  one_more zero (suc a) b h = absurd (omega arith)
  one_more (suc n) zero b h = refl
  one_more (suc n) (suc a) b h =
      ap (λ t. t * 2 + f (suc a % 2) (b % 2)) (one_more n (suc a / 2) (b / 2) (omega arith))

  more_fuel : (k n a b : ℕ) → a ≤ n → digits z f (k + n) a b ≡ digits z f n a b
  more_fuel zero n a b h = ap (λ t. digits z f t a b) (omega arith)
  more_fuel (suc k) n a b h =
      let next : suc k + n ≡ suc (k + n) = omega arith in
      ap (λ t. digits z f t a b) next ∙ one_more (k + n) a b (omega arith) ∙ more_fuel k n a b h

  lowest_digit :
      (m n : ℕ)
      → bitwise z f (suc m) n ≡ f (suc m % 2) (n % 2) + 2 * bitwise z f (suc m / 2) (n / 2)
  lowest_digit m n =
      let half = suc m / 2 in
      let spare : m - half + half ≡ m = omega arith in
      ap (λ t. digits z f t half (n / 2) * 2 + f (suc m % 2) (n % 2)) (sym spare)
      ∙ ap (λ t. t * 2 + f (suc m % 2) (n % 2))
          (more_fuel (m - half) half half (n / 2) (omega arith))
      ∙ omega arith

zero-bit_and : (b : ℕ) → bit_and 0 b ≡ 0
zero-bit_and b = bit_and-bitwise 0 b

bit_or_step : (m n : ℕ) → bit_or m n ≡ max (m % 2) (n % 2) + 2 * bit_or (m / 2) (n / 2)
bit_or_step zero n = simp bit_or-bitwise (omega arith)
bit_or_step (suc m) n = simp bit_or-bitwise (lowest_digit (λ d. d) max m n)

bit_and_step : (m n : ℕ) → bit_and m n ≡ min (m % 2) (n % 2) + 2 * bit_and (m / 2) (n / 2)
bit_and_step zero n = simp bit_and-bitwise (omega arith)
bit_and_step (suc m) n = simp bit_and-bitwise (lowest_digit (λ d. 0) min m n)

pub bit-bit_and : (k a b : ℕ) → bit k (bit_and a b) ≡ (bit k a && bit k b)
unfolding bit
bit-bit_and zero a b = let e = bit_and_step a b in ground arith
bit-bit_and (suc k) a b =
    let half : bit_and a b / 2 ≡ bit_and (a / 2) (b / 2) = omega (arith, bit_and_step a b) in
    ap (bit k) half ∙ bit-bit_and k (a / 2) (b / 2)

pub bit-bit_or : (k a b : ℕ) → bit k (bit_or a b) ≡ (bit k a || bit k b)
unfolding bit
bit-bit_or zero a b = let e = bit_or_step a b in ground arith
bit-bit_or (suc k) a b =
    let half : bit_or a b / 2 ≡ bit_or (a / 2) (b / 2) = omega (arith, bit_or_step a b) in
    ap (bit k) half ∙ bit-bit_or k (a / 2) (b / 2)

-- No bit of a word is above its width, and a word without bits is zero.
pub bit_high : (k n : ℕ) → n < 2 ^ k → bit k n ≡ false
unfolding bit
bit_high zero n h = ground arith
bit_high (suc k) n h = bit_high k (n / 2) (omega (arith, pow-suc 2 k))

-- Bit operations on words give words.
pub bit_and-lt : (w a b : ℕ) → a < 2 ^ w → bit_and a b < 2 ^ w
bit_and-lt zero a b h = let e : a ≡ 0 = omega arith in rw e (omega (arith, zero-bit_and b))
bit_and-lt (suc w) a b h = omega (
  arith,
  bit_and_step a b,
  pow-suc 2 w,
  bit_and-lt w (a / 2) (b / 2) (omega (arith, pow-suc 2 w)),
)

pub bit_or-lt : (w a b : ℕ) → a < 2 ^ w → b < 2 ^ w → bit_or a b < 2 ^ w
bit_or-lt zero a b h k =
    let e : a ≡ 0 = omega arith in
    let f : b ≡ 0 = omega arith in rw (e, f) (omega (arith, bit_or_step 0 0))
bit_or-lt (suc w) a b h k = omega (
  arith,
  bit_or_step a b,
  pow-suc 2 w,
  bit_or-lt w (a / 2) (b / 2) (omega (arith, pow-suc 2 w)) (omega (arith, pow-suc 2 w)),
)

-- Over two small ranges, every pair is checked by evaluation.
unfoldable pub for_all_below : ℕ → (ℕ → Bool) → Bool
for_all_below zero p = true
for_all_below (suc n) p = p n && for_all_below n p

for_all_below_at : (n : ℕ) (p : ℕ → Bool) (x : ℕ) → for_all_below n p ≡ true → x < n → p x ≡ true
unfolding for_all_below
for_all_below_at zero p x h lt = absurd (omega arith)
for_all_below_at (suc n) p x h lt = ground (arith, for_all_below_at n p x)

unfoldable pub agree_on : (n m : ℕ) → (f g : ℕ → ℕ → Bool) → Bool
agree_on n m f g =
    for_all_below n (λ x. for_all_below m (λ y. f x y && g x y || not (f x y) && not (g x y)))

pub agree_at :
    (n m : ℕ) (f g : ℕ → ℕ → Bool)
    → agree_on n m f g ≡ true
    → (x y : ℕ) → x < n
    → y < m
    → f x y ≡ g x y
unfolding agree_on
agree_at n m f g h x y lt lt' =
    let row = for_all_below_at n _ x h lt in
    let cell = for_all_below_at m _ y row lt' in same (f x y) (g x y) cell
  where
    same : (a b : Bool) → (a && b || not a && not b) ≡ true → a ≡ b
    same a b h = ground arith
