-- ===== src/MapBook/Ordered.antt =====
-- The levels of one side in the order of their keys, and `try_emplace` on them.
use lightning_lob.Types.{buy, sell, Side, Price}
use lightning_lob.MapBook.{Levels, before, find_level, emplace_level}
use lightning_lob.Base.{
  [], ◌∷◌, true, false, none, some, inl, inr, refl, arith, All, Option, ◌≡◌, Bool-cases,
}
use lightning_lob.Pool.{PriceLevel, new_level}
use lightning_lob.Base.Int.{eqb_ℤ}

-- The prices are in the order of the side, the best first, and none stands twice.
abbrev pub IsOrdered : Side → Levels → Type 0
IsOrdered side [] = Unit
IsOrdered side ((p, l) ∷ rest) = All (λ e. before side p e.0 ≡ true) rest × IsOrdered side rest

-- The level that `try_emplace` gives.
abbrev pub emplaced : Option PriceLevel → Price → PriceLevel
emplaced none p = record new_level { price = p }
emplaced (some l) p = l

before_apart :
    (side : Side) (p q r : Price)
    → before side p q ≡ true
    → before side q r ≡ true
    → eqb_ℤ r p ≡ false
before_apart buy p q r h k = ground arith
before_apart sell p q r h k = ground arith

-- A price before the first is nowhere.
absent_before :
    (side : Side) (p q : Price) (ls : Levels)
    → before side p q ≡ true
    → All (λ e. before side q e.0 ≡ true) ls
    → find_level p ls ≡ none
unfolding find_level
absent_before side p q [] h a = refl
absent_before side p q ((r, l) ∷ rest) h a =
    rw (before_apart side p q r h a.0) (absent_before side p q rest h a.1)

pub find_level-emplace_level :
    (side : Side) (p : Price) (ls : Levels)
    → IsOrdered side ls
    → find_level p (emplace_level side p ls) ≡ some (emplaced (find_level p ls) p)
unfolding find_level emplace_level
find_level-emplace_level side p [] a = let same : eqb_ℤ p p ≡ true = ground arith in rw same refl
find_level-emplace_level side p ((q, l) ∷ rest) a = elim (Bool-cases (eqb_ℤ q p)) [
  | inl e ↦ rw (e, e) refl
  | inr e ↦ elim (Bool-cases (before side p q)) [
    | inl b ↦
        let same : eqb_ℤ p p ≡ true = ground arith in
        rw (e, b, same, absent_before side p q rest b a.0) refl
    | inr b ↦ rw (e, b, e) (find_level-emplace_level side p rest a.1)
  ]
]
