-- ===== src/Ring/Wrap.antt =====
-- Indices that wrap around a capacity.
use lightning_lob.Base.{
  inl, inr, arith, ℕ, ◌<◌, ◌≤◌, ◌%◌, ◌+◌, ◌≡◌, ◌≢◌, ◌-◌, if◌then◌else◌, ltb, Bool-cases, ltb→lt,
  ◌∙◌,
}

pub mod_below : (x c : ℕ) → x < c → x % c ≡ x
mod_below x c h = grind arith

pub mod_above : (x c : ℕ) → c ≤ x → x < c + c → x % c ≡ x - c
mod_above x c h k = grind arith

-- An index and the number of places to go from it, both below the capacity.
pub mod_place :
    (r n c : ℕ) → r < c → n ≤ c → (r + n) % c ≡ (if ltb (r + n) c then r + n else r + n - c)
mod_place r n c h k = elim (Bool-cases (ltb (r + n) c)) [
  | inl e ↦ rw (e, mod_below (r + n) c (ltb→lt _ _ e))
  | inr e ↦ rw (e, mod_above (r + n) c (ground arith) (omega arith))
]

-- Two different numbers of places lead to different indices.
pub places_apart : (r i j c : ℕ) → r < c → i < j → j < c → (r + i) % c ≢ (r + j) % c
places_apart r i j c h ij jc =
    rw (mod_place r i c h (omega arith), mod_place r j c h (omega arith)) (ground arith)

mod_next :
    (r n c : ℕ)
    → r < c
    → n < c
    → ((r + n) % c + 1) % c ≡ (if ltb ((r + n) % c + 1) c then (r + n) % c + 1 else 0)
mod_next r n c h k = mod_place ((r + n) % c) 1 c (omega arith) (omega arith) ∙ ground arith

-- Only a full turn leads back.
pub next_apart : (r n c : ℕ) → r < c → n + 1 < c → ((r + n) % c + 1) % c ≢ r
next_apart r n c h k =
    ground (arith, mod_next r n c h (omega arith), mod_place r n c h (omega arith))

pub next_full : (r n c : ℕ) → r < c → n + 1 ≡ c → ((r + n) % c + 1) % c ≡ r
next_full r n c h k =
    ground (arith, mod_next r n c h (omega arith), mod_place r n c h (omega arith))

pub step_place : (r n c : ℕ) → r < c → n < c → ((r + n) % c + 1) % c ≡ (r + (n + 1)) % c
step_place r n c h k = ground (
  arith,
  mod_next r n c h k,
  mod_place r n c h (omega arith),
  mod_place r (n + 1) c h (omega arith),
)
