-- ===== src/ArrayBook/Rounds.antt =====
-- The rounds of `match_against_book` of the array book.
use lightning_lob.ArrayBook.{
  ArrayMatching, ladder, match_best, array_match_round, array_round_of, array_match_loop,
}
use lightning_lob.Ladder.{Ladder, rung}
use lightning_lob.Drain.{finished}
use lightning_lob.Drain.Trades.{OfRound, round_inv, ends, goes, kills}
use lightning_lob.Order.{opposite, is_limit, price_ok}
use lightning_lob.Base.{
  true, false, none, some, refl, zero, suc, ℕ, ◌≡◌, ◌&&◌, not, Bool, if◌then◌else◌, Option,
}
use lightning_lob.Types.{Timestamp}
use lightning_lob.Base.Int.{ltb_ℤ, pos}

-- A round ends the loop, or drains the best level of the other side, at a price that the taker
-- admits.
pub match_round_cases {ℓ} :
    (P : ArrayMatching → Type ℓ) (clock : ℕ → Timestamp) (m : ArrayMatching)
    → ((idx : ℕ)
        → (ladder (opposite m.taker.side) m.book).best ≡ some idx
        → (is_limit m.taker.type
            && not (
                price_ok m.taker.side m.taker.price
                  (rung (ladder (opposite m.taker.side) m.book) idx).price))
          ≡ false
        → P (match_best clock m idx).0)
    → OfRound P (array_match_round clock m)
unfolding array_match_round
match_round_cases P clock m drained = cases (ltb_ℤ (pos 0) m.taker.remaining_quantity) l.best refl
  where
    l : Ladder
    l = ladder (opposite m.taker.side) m.book

    refused : ℕ → Bool
    refused i = is_limit m.taker.type && not (price_ok m.taker.side m.taker.price (rung l i).price)

    leaves : (r : ArrayMatching × Bool) → P r.0 → OfRound P (array_round_of r)
    leaves (n, true) h = kills h
    leaves (n, false) h = goes h

    admitted :
        (idx : ℕ) (b : Bool)
        → l.best ≡ some idx
        → refused idx ≡ b
        → OfRound P (if b then finished else array_round_of (match_best clock m idx))
    admitted idx true best e = ends
    admitted idx false best e = leaves _ (drained idx best e)

    cases :
        (running : Bool) (best : Option ℕ)
        → l.best ≡ best
        → OfRound P (
            if not running then finished else elim best [
              | none ↦ finished
              | some idx ↦
                  if is_limit m.taker.type
                    && not (price_ok m.taker.side m.taker.price (rung l idx).price)
                  then finished
                  else array_round_of (match_best clock m idx)
            ])
    cases false best same = ends
    cases true none same = ends
    cases true (some idx) same = admitted idx _ same refl

-- What every drained level keeps holds after the loop.
pub match_loop_inv {ℓ} :
    (P : ArrayMatching → Type ℓ) (clock : ℕ → Timestamp)
    → ((m : ArrayMatching) → P m → OfRound P (array_match_round clock m))
    → (rounds : ℕ) (m : ArrayMatching) → P m
    → P (array_match_loop rounds clock m).0
unfolding array_match_loop
match_loop_inv P clock keep zero m h = h
match_loop_inv P clock keep (suc rounds) m h =
    round_inv P (array_match_round clock m) m (λ n. array_match_loop rounds clock n) h (keep m h)
      (match_loop_inv P clock keep rounds)
