-- ===== src/Ring/Window.antt =====
-- The items that a ring holds: the slots from the read index, in the order of their turn.
use native.Mathlib.Nat.{mod-add-mod, add_assoc, add-zero}
use mathlib.Core.Path.{ap₂}
use lightning_lob.Base.{
  [], ◌∷◌, zero, suc, refl, arith, ℕ, List, get_or, length, ◌<◌, ◌≡◌, ◌%◌, ◌+◌, ◌++◌, ◌≤◌, set,
  get_or-set_ne, ap, ◌∙◌, sym,
}
use lightning_lob.Ring.{SpscRingBuffer}
use lightning_lob.Ring.Wrap.{places_apart}

module _ {T : Type 0} (capacity : ℕ) (blank : T) where
  -- `n` slots from `start` on.
  unfoldable pub window : List T → (n start : ℕ) → List T
  window buffer zero start = []
  window buffer (suc n) start = get_or buffer (start % capacity) blank ∷ window buffer n (start + 1)

  -- The ring holds the items `xs`, oldest first.
  pub record Holds (r : SpscRingBuffer T) (xs : List T) : Type 0 where
    pub slots : length r.buffer ≡ capacity
    pub reads : r.read_idx < capacity
    pub room : length xs < capacity
    pub writes : r.write_idx ≡ (r.read_idx + length xs) % capacity
    pub items : window r.buffer (length xs) r.read_idx ≡ xs

  -- A write outside the window.
  pub window-set :
      (buffer : List T) (r n i m : ℕ) (v : T)
      → r < capacity
      → i + n ≤ m
      → m < capacity
      → window (set buffer ((r + m) % capacity) v) n (r + i) ≡ window buffer n (r + i)
  unfolding window
  window-set buffer r zero i m v h k l = refl
  window-set buffer r (suc n) i m v h k l =
      ap₂ ◌∷◌
        (get_or-set_ne buffer _ _ v blank
          (λ e. places_apart r i m capacity h (omega arith) l (sym e)))
        (rw (add_assoc r i 1) (window-set buffer r n (i + 1) m v h (omega arith) l))

  -- One more slot.
  pub window-snoc :
      (buffer : List T) (n start : ℕ)
      → window buffer (suc n) start
        ≡ window buffer n start ++ get_or buffer ((start + n) % capacity) blank ∷ []
  unfolding window
  window-snoc buffer zero start = rw (add-zero start)
  window-snoc buffer (suc n) start = ap (◌∷◌ (get_or buffer (start % capacity) blank)) (
      window-snoc buffer n (start + 1)
      ∙ ap (λ k. window buffer n (start + 1) ++ get_or buffer (k % capacity) blank ∷ [])
          (omega arith))

  -- A start that wraps.
  pub window-wrap :
      (buffer : List T) (n a b : ℕ)
      → a % capacity ≡ b % capacity
      → window buffer n a ≡ window buffer n b
  unfolding window
  window-wrap buffer zero a b e = refl
  window-wrap buffer (suc n) a b e = ap₂ ◌∷◌ (ap (λ k. get_or buffer k blank) e) (
      window-wrap buffer n (a + 1) (b + 1) (
        sym (mod-add-mod a capacity 1) ∙ ap (λ k. (k + 1) % capacity) e ∙ mod-add-mod b capacity 1))
