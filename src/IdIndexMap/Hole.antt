-- ===== src/IdIndexMap/Hole.antt =====
-- The loop of IdIndexMap::erase: the hole that it moves until no entry needs its place.
use native.Mathlib.Nat.{mod-lt}
use lightning_lob.IdIndexMap.Move.{came, moved_full, moved_hole, moved_else, moved_distinct}
use lightning_lob.IdIndexMap.{Slot, between}
use lightning_lob.Base.{
  true, false, inl, inr, arith, ℕ, List, ◌<◌, ◌+◌, ◌≢◌, ◌≡◌, ◌%◌, ◌≤◌, ap, subst, sym, ◌∙◌,
  Bool-cases, leb, leb→le, length,
}
use lightning_lob.IdIndexMap.Table.{home, key_at, Laid}
use lightning_lob.IdIndexMap.Cycle.{
  dist, next_dist, dist-lt, same_or_not, dist_inj, between_path, between_stays, between_moves,
}
use lightning_lob.IdIndexMap.Move.{moved, origin}

-- The slots but for the hole at `i`. The entries behind it as far as `j` do not need its place, and
-- the slot at `e` is empty, further on.
pub record Hole (n shift : ℕ) (slots : List Slot) (i j e : ℕ) : Type 0 where
  pub hole_in : i < n
  pub scan_in : j < n
  pub end_in : e < n
  pub hole_free : key_at slots i ≡ 0
  pub end_free : key_at slots e ≡ 0
  pub before_end : dist n i j < dist n i e
  pub reach_but :
      (p q : ℕ)
      → p < n
      → q < n
      → key_at slots p ≢ 0
      → dist n (home shift (key_at slots p)) q < dist n (home shift (key_at slots p)) p
      → i ≢ q
      → key_at slots q ≢ 0
  pub scanned :
      (p : ℕ)
      → p < n
      → 0 < dist n i p
      → dist n i p ≤ dist n i j
      → ¬ (dist n (home shift (key_at slots p)) i < dist n (home shift (key_at slots p)) p)
  pub distinct :
      (p q : ℕ) → p < n → q < n → key_at slots p ≢ 0 → key_at slots p ≡ key_at slots q → p ≡ q

-- The next slot that the loop looks at.
module _ (n shift : ℕ) (slots : List Slot) (i j e : ℕ) (hole : Hole n shift slots i j e)
    (home_lt : (key : ℕ) → home shift key < n) where
  one_on : dist n i ((j + 1) % n) ≡ dist n i j + 1
  one_on =
      next_dist n i j hole.hole_in hole.scan_in
        (omega (arith, hole.before_end, dist-lt n i e hole.hole_in hole.end_in))

  pub next_in : (j + 1) % n < n
  next_in = mod-lt (j + 1) (omega (arith, hole.hole_in))

  pub next_apart : i ≢ (j + 1) % n
  next_apart same = ground (arith, one_on, same, hole.hole_in)

  no_need :
      key_at slots ((j + 1) % n) ≡ 0
      → (p : ℕ) → p < n
      → key_at slots p ≢ 0
      → ¬ (dist n (home shift (key_at slots p)) i < dist n (home shift (key_at slots p)) p)
  no_need free p p_in full closer =
      let next = (j + 1) % n in
      let r = home shift (key_at slots p) in
      let off_hole : i ≢ p = λ same. full (ap (key_at slots) (sym same) ∙ hole.hole_free) in
      let off_next : next ≢ p = λ same. full (ap (key_at slots) (sym same) ∙ free) in
      let behind : 0 < dist n i p = ground (arith, off_hole, hole.hole_in) in
      elim (Bool-cases (leb (dist n i p) (dist n i j))) [
        | inl e ↦ hole.scanned p p_in behind (leb→le _ _ e) closer
        | inr e ↦
            let other : dist n i next ≢ dist n i p =
              λ same. off_next (dist_inj n i next p hole.hole_in next_in p_in same) in
            let later : dist n i j < dist n i p = ground (arith, e) in
            hole.reach_but p next p_in next_in full
              (between_path n r i next p (home_lt (key_at slots p)) hole.hole_in next_in p_in closer
                (omega (arith, one_on)) (omega (arith, one_on, later, other)))
              next_apart free
      ]

  -- An empty slot ends the search: nothing needs the place of the hole.
  pub closed : key_at slots ((j + 1) % n) ≡ 0 → Laid n shift slots
  closed free = record {
    reach = λ p q p_in q_in full closer. elim (same_or_not i q) [
      | inr apart ↦ hole.reach_but p q p_in q_in full closer apart
      | inl same ↦ absurd (
          no_need free p p_in full (
            subst
              (λ k. dist n (home shift (key_at slots p)) k < dist n (home shift (key_at slots p)) p)
              (sym same) closer))
    ];
    distinct = hole.distinct;
  }

  -- The slot is not the end.
  pub still_before : key_at slots ((j + 1) % n) ≢ 0 → dist n i ((j + 1) % n) < dist n i e
  still_before full =
      let apart : dist n i ((j + 1) % n) ≢ dist n i e = λ same. full (
        ap (key_at slots) (dist_inj n i ((j + 1) % n) e hole.hole_in next_in hole.end_in same)
        ∙ hole.end_free) in
      omega (arith, one_on, apart, hole.before_end)

  -- An entry that does not need the place of the hole stays.
  pub skipped :
      key_at slots ((j + 1) % n) ≢ 0
      → between i (home shift (key_at slots ((j + 1) % n))) ((j + 1) % n) ≡ true
      → Hole n shift slots i ((j + 1) % n) e
  skipped full stays =
      let next = (j + 1) % n in
      let r = home shift (key_at slots next) in
      record {
        hole_in = hole.hole_in;
        scan_in = next_in;
        end_in = hole.end_in;
        hole_free = hole.hole_free;
        end_free = hole.end_free;
        before_end = still_before full;
        reach_but = hole.reach_but;
        scanned = λ p p_in behind within. elim (Bool-cases (leb (dist n i p) (dist n i j))) [
          | inl e ↦ hole.scanned p p_in behind (leb→le _ _ e)
          | inr e ↦
              let here : dist n i next ≡ dist n i p = ground (arith, e, one_on, within) in
              let at : next ≡ p = dist_inj n i next p hole.hole_in next_in p_in here in
              subst
                (λ k. ¬ (
                  dist n (home shift (key_at slots k)) i < dist n (home shift (key_at slots k)) k))
                at (between_stays n i r next hole.hole_in (home_lt _) next_in next_apart stays)
        ];
        distinct = hole.distinct;
      }

-- An entry that needs the place of the hole moves into it, and leaves the next hole.
module _ (n shift : ℕ) (slots : List Slot) (i j e : ℕ) (hole : Hole n shift slots i j e)
    (home_lt : (key : ℕ) → home shift key < n) (wide : length slots ≡ n)
    (full : key_at slots ((j + 1) % n) ≢ 0)
    (goes : between i (home shift (key_at slots ((j + 1) % n))) ((j + 1) % n) ≡ false) where
  abbrev next : ℕ
  next = (j + 1) % n

  abbrev after : List Slot
  after = moved slots i next

  inside : next < n
  inside = next_in n shift slots i j e hole home_lt

  apart : i ≢ next
  apart = next_apart n shift slots i j e hole home_lt

  nearer : dist n (home shift (key_at slots next)) i < dist n (home shift (key_at slots next)) next
  nearer =
      between_moves n i (home shift (key_at slots next)) next hole.hole_in (home_lt _) inside apart
        goes

  moved_reach :
      (p q : ℕ)
      → p < n
      → q < n
      → key_at after p ≢ 0
      → dist n (home shift (key_at after p)) q < dist n (home shift (key_at after p)) p
      → next ≢ q
      → key_at after q ≢ 0
  moved_reach p q p_in q_in p_full closer off_next =
      elim (origin n slots i next wide hole.hole_in inside apart hole.hole_free p p_in p_full) [
        | came o o_in off_hole from_o here ↦
            let k = ap (λ s. s.key) from_o in
            let r = home shift (key_at slots o) in
            let near : dist n r q < dist n r p =
              subst (λ a. dist n (home shift a) q < dist n (home shift a) p) k closer in
            let back : dist n r q < dist n r o = elim here [
              | inl (at_hole, at_next) ↦
                  let first : dist n r q < dist n r i =
                    subst (λ a. dist n r q < dist n r a) at_hole near in
                  let second : dist n r i < dist n r o =
                    subst
                      (λ a.
                        dist n (home shift (key_at slots a)) i
                        < dist n (home shift (key_at slots a)) a)
                      (sym at_next) nearer in
                  omega (arith, first, second)
              | inr (same, _) ↦ subst (λ a. dist n r q < dist n r a) same near
            ] in
            moved_full n slots i next wide hole.hole_in inside apart hole.hole_free q full off_next
              (hole.reach_but o q o_in q_in (λ z. p_full (k ∙ z)) back)
      ]

  pub moved-Hole : Hole n shift after next next e
  moved-Hole =
      let not_end : next ≢ e = λ same. full (ap (key_at slots) same ∙ hole.end_free) in
      let not_hole : i ≢ e = λ same. ground (arith, hole.before_end, same, hole.hole_in) in
      record {
        hole_in = inside;
        scan_in = inside;
        end_in = hole.end_in;
        hole_free =
            ap (λ s. s.key)
              (moved_hole n slots i next wide hole.hole_in inside apart hole.hole_free);
        end_free =
            ap (λ s. s.key)
              (moved_else n slots i next wide hole.hole_in inside apart hole.hole_free e not_hole
                not_end)
            ∙ hole.end_free;
        before_end = ground (arith, not_end, inside, hole.end_in);
        reach_but = moved_reach;
        scanned = λ p p_in behind within. absurd (ground arith);
        distinct =
            moved_distinct n slots i next wide hole.hole_in inside apart hole.hole_free
              hole.distinct;
      }
