-- ===== src/VectorBook/Positions.antt =====
-- Writes at the position of a price, against the writes of a map of the same levels.
use lightning_lob.Types.{buy, sell, Side, Price}
use lightning_lob.VectorBook.{find_position, level_at, insert_at, erase_at, LevelVector}
use lightning_lob.VectorBook.Agreement.{entries, ahead_not_eq}
use lightning_lob.Base.{
  [], ◌∷◌, true, false, none, some, inl, inr, refl, arith, Option, Bool-cases, ◌≡◌, sym, set, ◌∙◌,
  ap, get_elem?,
}
use lightning_lob.MapBook.{set_level, before, erase_level, find_level, emplace_level}
use lightning_lob.Pool.{PriceLevel, new_level}
use lightning_lob.Base.Int.{eqb_ℤ, eqb_ℤ→eq, eqb_ℤ_refl}

pub neither_after :
    (side : Side) (p q : Price)
    → before side q p ≡ false
    → eqb_ℤ q p ≡ false
    → before side p q ≡ true
neither_after buy p q h e = ground arith
neither_after sell p q h e = ground arith

not_both : (side : Side) (p q : Price) → before side q p ≡ true → before side p q ≡ false
not_both buy p q h = ground arith
not_both sell p q h = ground arith

-- The level at the position of its price, behind those of better prices.
pub data Placed (side : Side) (p : Price) : LevelVector → Option PriceLevel → Type 0 where
  at_end : Placed side p [] none
  here :
      (l : PriceLevel) (rest : LevelVector)
      → before side l.price p ≡ false
      → eqb_ℤ l.price p ≡ true
      → Placed side p (l ∷ rest) (some l)
  missing :
      (l : PriceLevel) (rest : LevelVector)
      → before side l.price p ≡ false
      → eqb_ℤ l.price p ≡ false
      → Placed side p (l ∷ rest) none
  further :
      (l : PriceLevel) (rest : LevelVector) (found : Option PriceLevel)
      → before side l.price p ≡ true
      → Placed side p rest found
      → Placed side p (l ∷ rest) found

pub level_at-Placed :
    (side : Side) (p : Price) (ls : LevelVector) → Placed side p ls (level_at side p ls)
unfolding level_at find_position
level_at-Placed side p [] = at_end
level_at-Placed side p (l ∷ rest) = elim (Bool-cases (before side l.price p)) [
  | inl b ↦ rw b (further l rest _ b (level_at-Placed side p rest))
  | inr b ↦ elim (Bool-cases (eqb_ℤ l.price p)) [
    | inl e ↦ rw (b, e) (here l rest b e)
    | inr e ↦ rw (b, e) (missing l rest b e)
  ]
]

-- The writes.
pub set-entries :
    (side : Side) (p : Price) (ls : LevelVector) (found after : PriceLevel)
    → Placed side p ls (some found)
    → after.price ≡ p
    → entries (set ls (find_position side p ls) after) ≡ set_level p after (entries ls)
unfolding find_position set_level
set-entries side p _ _ after (here l rest b e) at =
    let same : after.price ≡ l.price = at ∙ sym (eqb_ℤ→eq l.price p e) in
    rw (b, e) (ap (λ q. (q, after) ∷ entries rest) same)
set-entries side p _ found after (further l rest _ b deep) at =
    rw (b, ahead_not_eq side l.price p b)
      (ap (λ ls. (l.price, l) ∷ ls) (set-entries side p rest found after deep at))

pub erase-entries :
    (side : Side) (p : Price) (ls : LevelVector) (found : PriceLevel)
    → Placed side p ls (some found)
    → entries (erase_at (find_position side p ls) ls) ≡ erase_level p (entries ls)
unfolding find_position erase_level erase_at
erase-entries side p _ _ (here l rest b e) = rw (b, e) refl
erase-entries side p _ found (further l rest _ b deep) =
    rw (b, ahead_not_eq side l.price p b)
      (ap (λ ls. (l.price, l) ∷ ls) (erase-entries side p rest found deep))

-- The level is read at its position, and a map finds it and keeps it at `try_emplace`.
pub get-Placed :
    (side : Side) (p : Price) (ls : LevelVector) (found : PriceLevel)
    → Placed side p ls (some found)
    → (get_elem? ls (find_position side p ls) ≡ some found)
      × (find_level p (entries ls) ≡ some found)
      × (emplace_level side p (entries ls) ≡ entries ls)
unfolding find_position find_level emplace_level
get-Placed side p _ _ (here l rest b e) = rw (b, e) (refl, refl, refl)
get-Placed side p _ found (further l rest _ b deep) =
    let (got, finds, kept) = get-Placed side p rest found deep in
    rw (b, ahead_not_eq side l.price p b, not_both side p l.price b)
      (got, finds, ap (λ ls. (l.price, l) ∷ ls) kept)

-- A new level where there is none of the price.
pub insert-entries :
    (side : Side) (p : Price) (ls : LevelVector) (after : PriceLevel)
    → Placed side p ls none
    → after.price ≡ p
    → (let i = find_position side p ls in
        let placed = insert_at i (record new_level { price = p }) ls in
        (get_elem? placed i ≡ some (record new_level { price = p }))
        × (find_level p (emplace_level side p (entries ls)) ≡ some (record new_level { price = p }))
        × (entries (set placed i after) ≡ set_level p after (emplace_level side p (entries ls))))
unfolding find_position find_level emplace_level insert_at set_level
insert-entries side p _ after at_end at =
    let same : eqb_ℤ p p ≡ true = eqb_ℤ_refl p in rw same (refl, refl, ap (λ q. (q, after) ∷ []) at)
insert-entries side p _ after (missing l rest b e) at =
    let same : eqb_ℤ p p ≡ true = eqb_ℤ_refl p in
    rw (b, e, neither_after side p l.price b e, same)
      (refl, refl, ap (λ q. (q, after) ∷ entries (l ∷ rest)) at)
insert-entries side p _ after (further l rest _ b deep) at =
    let (got, finds, written) = insert-entries side p rest after deep at in
    let off = ahead_not_eq side l.price p b in
    rw (b, off, not_both side p l.price b, off) (got, finds, ap (λ ls. (l.price, l) ∷ ls) written)

pub price-Placed :
    (side : Side) (p : Price) (ls : LevelVector) (found : PriceLevel)
    → Placed side p ls (some found)
    → found.price ≡ p
price-Placed side p _ _ (here l rest b e) = eqb_ℤ→eq l.price p e
price-Placed side p _ found (further l rest _ b deep) = price-Placed side p rest found deep
