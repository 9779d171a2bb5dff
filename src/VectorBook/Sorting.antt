-- ===== src/VectorBook/Sorting.antt =====
-- Writes to sorted levels of the vector book.
use lightning_lob.Types.{buy, sell, Side, Price}
use lightning_lob.IdIndexMap
use lightning_lob.VectorBook.{
  OrderBookVector, LevelVector, find_position, erase_at, insert_at, set_vector_side, vector_side,
}
use lightning_lob.VectorBook.Agreement.{Sorted}
use lightning_lob.VectorBook.Cancels.{IsSortedBook}
use lightning_lob.VectorBook.Positions.{Placed, at_end, here, missing, further, neither_after}
use lightning_lob.Base.{
  [], ◌∷◌, true, zero, suc, none, some, arith, ℕ, All, ◌≡◌, set, ap, ◌∙◌, sym, subst, All-map,
}
use lightning_lob.Pool.{PriceLevel, OrderPool}
use lightning_lob.MapBook.{before}
use lightning_lob.Base.Int.{eqb_ℤ→eq}

All-set :
    (P : PriceLevel → Type 0) (ls : LevelVector) (i : ℕ) (v : PriceLevel)
    → P v
    → All P ls
    → All P (set ls i v)
All-set P [] i v h a = a
All-set P (l ∷ ls) zero v h a = (h, a.1)
All-set P (l ∷ ls) (suc i) v h a = (a.0, All-set P ls i v h a.1)

All-erase_at :
    (P : PriceLevel → Type 0) (ls : LevelVector) (i : ℕ) → All P ls → All P (erase_at i ls)
unfolding erase_at
All-erase_at P [] i a = a
All-erase_at P (l ∷ ls) zero a = a.1
All-erase_at P (l ∷ ls) (suc i) a = (a.0, All-erase_at P ls i a.1)

All-insert_at :
    (P : PriceLevel → Type 0) (ls : LevelVector) (i : ℕ) (v : PriceLevel)
    → P v
    → All P ls
    → All P (insert_at i v ls)
unfolding insert_at
All-insert_at P ls zero v h a = (h, a)
All-insert_at P [] (suc i) v h a = (h, tt)
All-insert_at P (l ∷ ls) (suc i) v h a = (a.0, All-insert_at P ls i v h a.1)

before_trans_strict :
    (side : Side) (p q r : Price)
    → before side p q ≡ true
    → before side q r ≡ true
    → before side p r ≡ true
before_trans_strict buy p q r h k = ground arith
before_trans_strict sell p q r h k = ground arith

pub set-Sorted :
    (side : Side) (p : Price) (ls : LevelVector) (found after : PriceLevel)
    → Placed side p ls (some found)
    → after.price ≡ p
    → Sorted side ls
    → Sorted side (set ls (find_position side p ls) after)
unfolding find_position
set-Sorted side p _ _ after (here l rest b e) at s =
    let same : l.price ≡ after.price = eqb_ℤ→eq l.price p e ∙ sym at in
    rw b (subst (λ q. All (λ (k : PriceLevel). before side q k.price ≡ true) rest) same s.0, s.1)
set-Sorted side p _ found after (further l rest _ b deep) at s = rw b (
  All-set (λ k. before side l.price k.price ≡ true) rest (find_position side p rest) after
      (ap (before side l.price) at ∙ b) s.0,
  set-Sorted side p rest found after deep at s.1,
)

pub erase_at-Sorted :
    (side : Side) (ls : LevelVector) (i : ℕ) → Sorted side ls → Sorted side (erase_at i ls)
unfolding erase_at
erase_at-Sorted side [] i s = s
erase_at-Sorted side (l ∷ ls) zero s = s.1
erase_at-Sorted side (l ∷ ls) (suc i) s =
    (All-erase_at (λ k. before side l.price k.price ≡ true) ls i s.0, erase_at-Sorted side ls i s.1)

-- A new level at its position, written once more.
pub insert_at-Sorted :
    (side : Side) (p : Price) (ls : LevelVector) (v after : PriceLevel)
    → Placed side p ls none
    → v.price ≡ p
    → after.price ≡ p
    → Sorted side ls
    → (let i = find_position side p ls in Sorted side (set (insert_at i v ls) i after))
unfolding find_position insert_at
insert_at-Sorted side p _ v after at_end e at s = (tt, tt)
insert_at-Sorted side p _ v after (missing l rest b off) e at s =
    let ahead : before side after.price l.price ≡ true =
      ap (λ q. before side q l.price) at ∙ neither_after side p l.price b off in
    rw b (
      (
        ahead,
        All-map (λ k h. before_trans_strict side after.price l.price k.price ahead h) rest s.0,
      ),
      s,
    )
insert_at-Sorted side p _ v after (further l rest _ b deep) e at s =
    let i = find_position side p rest in
    let P = λ (k : PriceLevel). before side l.price k.price ≡ true in
    rw b (
      All-set P (insert_at i v rest) i after (ap (before side l.price) at ∙ b)
          (All-insert_at P rest i v (ap (before side l.price) e ∙ b) s.0),
      insert_at-Sorted side p rest v after deep e at s.1,
    )

-- A side is written with sorted levels.
pub set_vector_side-IsSortedBook :
    (side : Side) (ls : LevelVector) (b : OrderBookVector) (pool : OrderPool)
    (id_index : IdIndexMap.IdIndexMap)
    → IsSortedBook b
    → Sorted side ls
    → IsSortedBook (set_vector_side side ls (record b { pool = pool; id_index = id_index }))
set_vector_side-IsSortedBook side ls b pool id_index sorted s = cases side s
  where
    cases :
        (written : Side)
        → Sorted written ls
        → IsSortedBook (set_vector_side written ls (record b { pool = pool; id_index = id_index }))
    cases buy s = both
      where
        both :
            (k : Side)
            → Sorted k (
                vector_side k
                  (set_vector_side buy ls (record b { pool = pool; id_index = id_index })))
        both buy = s
        both sell = sorted sell
    cases sell s = both
      where
        both :
            (k : Side)
            → Sorted k (
                vector_side k
                  (set_vector_side sell ls (record b { pool = pool; id_index = id_index })))
        both buy = sorted buy
        both sell = s
