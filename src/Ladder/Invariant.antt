-- ===== src/Ladder/Invariant.antt =====
-- A well-formed ladder: its bitset and its best index say which levels hold orders.
use lightning_lob.Types.{buy, sell, Side, Price}
use lightning_lob.Ladder.{Ladder, rung, advance, write_rung, better, improved, occupy}
use lightning_lob.Bitset.{Bitset, clear_bit, set_bit, find_next_set, find_prev_set, test_bit}
use lightning_lob.Bitset.Members.{
  IsBitset, member, clear_bit-member, set_bit-member, test_bit-member,
}
use lightning_lob.Bitset.Search.{
  NextSet, next_at, no_next, PrevSet, prev_at, no_prev, find_next_set-NextSet,
  find_prev_set-PrevSet,
}
use lightning_lob.Base.{
  [], ◌∷◌, true, false, zero, suc, none, some, inl, inr, refl, arith, ℕ, Option, length, ◌≡◌, ◌<◌,
  not, ◌+◌, Bool-cases, ltb, subst, ◌≤◌, ltb→lt, ◌-◌, ◌==◌, if◌then◌else◌, sym, get_or, ◌≢◌,
  length-set, set, ◌∙◌, get_or-set_self, get_or-set_ne, List, ap,
}
use lightning_lob.Pool.{level_empty, PriceLevel, new_level}
use lightning_lob.Base.Int.{◌+ℤ◌, pos}

-- The best member of a side, if there is one.
pub data IsBest (side : Side) (range : ℕ) (bits : Bitset) : Option ℕ → Type 0 where
  no_best : ((j : ℕ) → j < range → member bits j ≡ false) → IsBest side range bits none
  best_at :
      (i : ℕ)
      → i < range
      → member bits i ≡ true
      → ((j : ℕ) → j < range → better side j i ≡ true → member bits j ≡ false)
      → IsBest side range bits (some i)

-- The bits are those of the levels that are not empty, such a level has the price of its index, and
-- the best index is the best of them.
pub record IsLadder (side : Side) (base : Price) (range : ℕ) (l : Ladder) : Type 0 where
  pub sized : length l.levels ≡ range
  pub bits : l.bitmap.num_bits ≡ range
  pub bitset : IsBitset l.bitmap
  pub occupied : (i : ℕ) → i < range → member l.bitmap i ≡ not (level_empty (rung l i))
  pub priced : (i : ℕ) → i < range → member l.bitmap i ≡ true → (rung l i).price ≡ base +ℤ pos i
  pub best_fits : IsBest side range l.bitmap l.best

-- Behind an index, itself free and with nothing better, the search finds the best.
advance-IsBest :
    (side : Side) (range : ℕ) (bits : Bitset) (i : ℕ)
    → IsBitset bits
    → bits.num_bits ≡ range
    → i < range
    → member bits i ≡ false
    → ((j : ℕ) → j < range → better side j i ≡ true → member bits j ≡ false)
    → IsBest side range bits (advance side bits i)
unfolding advance
advance-IsBest sell range bits i b size lt off ahead =
    cases (find_next_set bits (i + 1)) (find_next_set-NextSet bits b (i + 1))
  where
    up_to : (j : ℕ) → j < range → j < i + 1 → member bits j ≡ false
    up_to j in_range le = elim (Bool-cases (ltb j i)) [
      | inl e ↦ ahead j in_range e
      | inr e ↦ let at : i ≡ j = ground arith in subst (λ t. member bits t ≡ false) at off
    ]

    below :
        (p : ℕ)
        → ((q : ℕ) → i + 1 ≤ q → q < p → member bits q ≡ false)
        → (j : ℕ) → j < range
        → j < p
        → member bits j ≡ false
    below p gap j in_range less = elim (Bool-cases (ltb j (i + 1))) [
      | inl e ↦ up_to j in_range (ltb→lt j (i + 1) e)
      | inr e ↦ gap j (ground arith) less
    ]

    cases : (r : Option ℕ) → NextSet bits (i + 1) r → IsBest sell range bits r
    cases _ (next_at p from_le p_in on gap) =
        best_at p (omega arith) on (λ j in_range h. below p gap j in_range (ltb→lt j p h))
    cases _ (no_next gap) =
        no_best (λ j in_range. below range (λ q lo hi. gap q lo (omega arith)) j in_range in_range)
advance-IsBest buy range bits i b size lt off ahead = elim (Bool-cases (i == 0)) [
  | inl e ↦ rw e (no_best (λ j in_range. from_on j in_range (ground arith)))
  | inr e ↦ rw e (
      cases (find_prev_set bits (i - 1)) (ground arith)
        (find_prev_set-PrevSet bits b (i - 1) (omega arith)))
]
  where
    from_on : (j : ℕ) → j < range → i ≤ j → member bits j ≡ false
    from_on j in_range le = elim (Bool-cases (ltb i j)) [
      | inl e ↦ ahead j in_range e
      | inr e ↦ let at : i ≡ j = ground arith in subst (λ t. member bits t ≡ false) at off
    ]

    cases : (r : Option ℕ) → 0 < i → PrevSet bits (i - 1) r → IsBest buy range bits r
    cases _ some_left (prev_at p le on gap) = best_at p (omega arith) on (λ j in_range h.
        elim (Bool-cases (ltb j i)) [
          | inl e ↦ gap j (ltb→lt p j h) (ground arith)
          | inr e ↦ from_on j in_range (ground arith)
        ])
    cases _ some_left (no_prev gap) = no_best (λ j in_range. elim (Bool-cases (ltb j i)) [
      | inl e ↦ gap j (ground arith)
      | inr e ↦ from_on j in_range (ground arith)
    ])

better_ne : (side : Side) (j i : ℕ) → better side j i ≡ true → (i == j) ≡ false
better_ne buy j i h = ground arith
better_ne sell j i h = ground arith

better_trans :
    (side : Side) (j i k : ℕ)
    → better side j i ≡ true
    → better side i k ≡ true
    → better side j k ≡ true
better_trans buy j i k h e = ground arith
better_trans sell j i k h e = ground arith

not_better :
    (side : Side) (i j k : ℕ) → better side i k ≡ false → better side j k ≡ true → (i == j) ≡ false
not_better buy i j k h e = ground arith
not_better sell i j k h e = ground arith

-- The best index after bits change.
pub IsBest-cleared :
    (side : Side) (range : ℕ) (bits : Bitset) (i k : ℕ)
    → IsBitset bits
    → bits.num_bits ≡ range
    → i < range
    → IsBest side range bits (some k)
    → IsBest side range
        (clear_bit bits i)
        (if k == i then advance side (clear_bit bits i) i else some k)
unfolding clear_bit
IsBest-cleared side range bits i k b size lt (best_at _ in_range on ahead) =
    let (kept, members) = clear_bit-member bits i b (omega arith) in
    let gone : member (clear_bit bits i) i ≡ false = ground (arith, members i) in
    let still : (j : ℕ) → member bits j ≡ false → member (clear_bit bits i) j ≡ false =
      λ j off. ground (arith, members j, off) in
    elim (Bool-cases (k == i)) [
      | inl e ↦
          let at : k ≡ i = ground arith in
          rw e (
            advance-IsBest side range (clear_bit bits i) i kept size lt gone
              (λ j j_in h. still j (ahead j j_in (subst (λ t. better side j t ≡ true) (sym at) h))))
      | inr e ↦ rw e (
          best_at k in_range
            (let other : (i == k) ≡ false = ground arith in ground (arith, members k, on))
            (λ j j_in h. still j (ahead j j_in h)))
    ]

IsBest-set :
    (side : Side) (range : ℕ) (bits : Bitset) (i : ℕ) (best : Option ℕ)
    → IsBitset bits
    → bits.num_bits ≡ range
    → i < range
    → IsBest side range bits best
    → IsBest side range (set_bit bits i) (improved side i best)
IsBest-set side range bits i none b size lt (no_best free) =
    let (kept, members) = set_bit-member bits i b (omega arith) in
    best_at i lt (let here : (i == i) ≡ true = ground arith in ground (arith, members i))
      (λ j j_in h. let ne = better_ne side j i h in ground (arith, members j, free j j_in))
IsBest-set side range bits i (some k) b size lt (best_at _ in_range on ahead) =
    let (kept, members) = set_bit-member bits i b (omega arith) in
    elim (Bool-cases (better side i k)) [
      | inl e ↦ rw e (
          best_at i lt (let here : (i == i) ≡ true = ground arith in ground (arith, members i))
            (λ j j_in h.
              let ne = better_ne side j i h in
              let off = ahead j j_in (better_trans side j i k h e) in ground (arith, members j)))
      | inr e ↦ rw e (
          best_at k in_range (ground (arith, members k)) (λ j j_in h.
            let ne : (i == j) ≡ false = not_better side i j k e h in
            let off = ahead j j_in h in ground (arith, members j)))
    ]

set-set : (ls : List PriceLevel) (i : ℕ) (a b : PriceLevel) → set (set ls i a) i b ≡ set ls i b
set-set [] i a b = refl
set-set (l ∷ ls) zero a b = refl
set-set (l ∷ ls) (suc i) a b = ap (◌∷◌ l) (set-set ls i a b)

-- A write of one level, with bits that differ at its index at most.
module _ (side : Side) (base : Price) (range : ℕ) (l : Ladder) (i : ℕ) (level : PriceLevel)
    (fits : IsLadder side base range l) (lt : i < range) where
  in_levels : i < length l.levels
  in_levels = omega (arith, fits.sized)

  -- What holds of the level written, and of the levels that were there, holds of each level.
  every_rung :
      (P : ℕ → PriceLevel → Type 0)
      → P i level
      → ((j : ℕ) → (i == j) ≡ false → P j (rung l j))
      → (j : ℕ) → P j (get_or (set l.levels i level) j new_level)
  every_rung P here others j = elim (Bool-cases (i == j)) [
    | inl e ↦
        let at : i ≡ j = ground arith in
        subst (λ t. P t (get_or (set l.levels i level) t new_level)) at
          (subst (λ r. P i r) (sym (get_or-set_self l.levels i level new_level in_levels)) here)
    | inr e ↦
        let ne : i ≢ j = λ at. ground arith in
        subst (λ r. P j r) (sym (get_or-set_ne l.levels i j level new_level ne)) (others j e)
  ]

  changed-IsLadder :
      (bits : Bitset) (best : Option ℕ)
      → IsBitset bits
      → bits.num_bits ≡ range
      → ((j : ℕ) → (i == j) ≡ false → member bits j ≡ member l.bitmap j)
      → member bits i ≡ not (level_empty level)
      → (member bits i ≡ true → level.price ≡ base +ℤ pos i)
      → IsBest side range bits best
      → IsLadder side base range
          (record { levels = set l.levels i level; bitmap = bits; best = best })
  changed-IsLadder bits best b size same here price best_fits = record {
    sized = length-set l.levels i level ∙ fits.sized;
    bits = size;
    bitset = b;
    occupied =
        every_rung (λ j r. j < range → member bits j ≡ not (level_empty r)) (λ _. here)
          (λ j ne j_in. same j ne ∙ fits.occupied j j_in);
    priced =
        every_rung (λ j r. j < range → member bits j ≡ true → r.price ≡ base +ℤ pos j) (λ _. price)
          (λ j ne j_in on. fits.priced j j_in (sym (same j ne) ∙ on));
    best_fits = best_fits;
  }

  -- A level that holds orders is written with one that does, at the price of its index.
  pub write_rung-IsLadder :
      member l.bitmap i ≡ true
      → level_empty level ≡ false
      → level.price ≡ base +ℤ pos i
      → IsLadder side base range (write_rung l i level)
  write_rung-IsLadder on filled price =
      changed-IsLadder l.bitmap l.best fits.bitset fits.bits (λ j _. refl)
        (on ∙ sym (ap not filled)) (λ _. price) fits.best_fits

  -- An empty level is written, and its bit is cleared.
  pub vacate-IsLadder :
      (best : Option ℕ)
      → level_empty level ≡ true
      → IsBest side range (clear_bit l.bitmap i) best
      → IsLadder side base range
          (record { levels = set l.levels i level; bitmap = clear_bit l.bitmap i; best = best })
  unfolding clear_bit
  vacate-IsLadder best none_left best_fits =
      let (kept, members) = clear_bit-member l.bitmap i fits.bitset (omega (arith, fits.bits)) in
      let here : (i == i) ≡ true = ground arith in
      let off : member (clear_bit l.bitmap i) i ≡ false = ground (arith, members i) in
      changed-IsLadder (clear_bit l.bitmap i) best kept fits.bits (λ j ne. members j ∙ rw ne refl)
        (off ∙ sym (ap not none_left)) (λ on. absurd (cc (on, off))) best_fits

  -- A level is occupied, if it was not, and then written with one that holds orders.
  pub occupy-IsLadder :
      level_empty level ≡ false
      → level.price ≡ base +ℤ pos i
      → (price : Price) → IsLadder side base range (write_rung (occupy side l i price) i level)
  unfolding occupy set_bit
  occupy-IsLadder filled at_price price = elim (Bool-cases (test_bit l.bitmap i)) [
    | inl e ↦
        rw e
          (write_rung-IsLadder (sym (test_bit-member l.bitmap i fits.bitset) ∙ e) filled at_price)
    | inr e ↦
        let (kept, members) = set_bit-member l.bitmap i fits.bitset (omega (arith, fits.bits)) in
        let here : (i == i) ≡ true = ground arith in
        let on : member (set_bit l.bitmap i) i ≡ true = ground (arith, members i) in
        rw e (
          rw (set-set l.levels i (record (rung l i) { price = price }) level) (
            changed-IsLadder (set_bit l.bitmap i) (improved side i l.best) kept fits.bits
              (λ j ne. members j ∙ rw ne refl) (on ∙ sym (ap not filled)) (λ _. at_price)
              (IsBest-set side range l.bitmap i l.best fits.bitset fits.bits lt fits.best_fits)))
  ]
