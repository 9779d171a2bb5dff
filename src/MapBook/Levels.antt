-- ===== src/MapBook/Levels.antt =====
-- The entries of a map of levels after a write.
use lightning_lob.Types.{buy, sell, Side}
use lightning_lob.MapBook.{
  find_level, set_level, Levels, OrderBookMap, side_levels, set_side_levels,
}
use lightning_lob.Base.{[], ◌∷◌, true, false, some, refl, arith, ◌≡◌, if◌then◌else◌, Bool, sym, ◌∙◌}
use lightning_lob.Types.{Price}
use lightning_lob.Pool.{PriceLevel}
use lightning_lob.Base.Int.{eqb_ℤ}

-- A write through the pointer is read back, and no other entry changes.
pub find_level-set_level :
    (p q : Price) (v l : PriceLevel) (ls : Levels)
    → find_level p ls ≡ some l
    → find_level q (set_level p v ls) ≡ (if eqb_ℤ p q then some v else find_level q ls)
unfolding find_level set_level
find_level-set_level p q v l [] h = absurd (ground arith)
find_level-set_level p q v l ((r, k) ∷ rest) h =
    cases (eqb_ℤ r p) (eqb_ℤ p q) (eqb_ℤ r q) refl refl refl
      (λ e. find_level-set_level p q v l rest (found e h))
  where
    found :
        eqb_ℤ r p ≡ false
        → (if eqb_ℤ r p then some k else find_level p rest) ≡ some l
        → find_level p rest ≡ some l
    found e h = sym (rw e refl) ∙ h

    cases :
        (rp pq rq : Bool)
        → eqb_ℤ r p ≡ rp
        → eqb_ℤ p q ≡ pq
        → eqb_ℤ r q ≡ rq
        → (eqb_ℤ r p ≡ false
            → find_level q (set_level p v rest) ≡ (if eqb_ℤ p q then some v else find_level q rest))
        → find_level q (if rp then (r, v) ∷ rest else (r, k) ∷ set_level p v rest)
          ≡ (if pq then some v else if rq then some k else find_level q rest)
    cases true true true e f g hyp = rw g refl
    cases true false false e f g hyp = rw g refl
    cases false true false e f g hyp = rw g (hyp e ∙ rw f refl)
    cases false false true e f g hyp = rw g refl
    cases false false false e f g hyp = rw g (hyp e ∙ rw f refl)
    cases true true false e f g hyp = absurd (ground arith)
    cases true false true e f g hyp = absurd (ground arith)
    cases false true true e f g hyp = absurd (ground arith)

-- A side of the book after a write to it.
pub side_levels-set_side_levels :
    (side : Side) (ls : Levels) (b : OrderBookMap)
    → side_levels side (set_side_levels side ls b) ≡ ls
side_levels-set_side_levels buy ls b = refl
side_levels-set_side_levels sell ls b = refl

pub pool-set_side_levels :
    (side : Side) (ls : Levels) (b : OrderBookMap) → (set_side_levels side ls b).pool ≡ b.pool
pool-set_side_levels buy ls b = refl
pool-set_side_levels sell ls b = refl
