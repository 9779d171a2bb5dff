-- ===== src/IdIndexMap/ShiftBack.antt =====
-- The `for (;;)` of IdIndexMap::erase.
use lightning_lob.IdIndexMap.{IdIndexMap, shift_back, slot_at, slot_for, empty_slot, between}
use lightning_lob.Base.{
  zero, suc, inl, inr, refl, arith, length, ◌≡◌, ℕ, ◌≢◌, ◌<◌, ◌≤◌, ◌+◌, ◌%◌, get_or, Bool-cases,
  ◌==◌, sym, ◌∙◌, subst,
}
use lightning_lob.IdIndexMap.Table.{Laid, occupied, home, Has, key_at}
use lightning_lob.IdIndexMap.Hole.{Hole, closed, skipped, next_in, next_apart, moved-Hole}
use lightning_lob.IdIndexMap.Cycle.{dist, next_closer}
use lightning_lob.IdIndexMap.Move.{moved, length-moved, occupied-moved, moved_kept, moved_back}

-- A table without a hole, with the same entries.
pub record Closed (m after : IdIndexMap) : Type 0 where
  pub laid : Laid (length m.slots) m.shift after.slots
  pub same_width : length after.slots ≡ length m.slots
  pub same_shift : after.shift ≡ m.shift
  pub same_size : after.size ≡ m.size
  pub same_count : occupied after.slots ≡ occupied m.slots
  pub kept : (q v : ℕ) → q ≢ 0 → Has m.slots q v → Has after.slots q v
  pub back : (q v : ℕ) → q ≢ 0 → Has after.slots q v → Has m.slots q v

-- A move before the rest of the loop.
move-Closed :
    (m after : IdIndexMap) (i j : ℕ)
    → i < length m.slots
    → j < length m.slots
    → i ≢ j
    → key_at m.slots i ≡ 0
    → Closed (record m { slots = moved m.slots i j }) after
    → Closed m after
move-Closed m after i j i_in j_in apart free c =
    let n = length m.slots in
    let wide : length (moved m.slots i j) ≡ n =
      length-moved n m.slots i j refl i_in j_in apart free in
    record {
      laid = subst (λ k. Laid k m.shift after.slots) wide c.laid;
      same_width = c.same_width ∙ wide;
      same_shift = c.same_shift;
      same_size = c.same_size;
      same_count = c.same_count ∙ occupied-moved n m.slots i j refl i_in j_in apart free;
      kept = λ q v nonzero h.
          c.kept q v nonzero (moved_kept n m.slots i j refl i_in j_in apart free q v nonzero h);
      back = λ q v nonzero h.
          moved_back n m.slots i j refl i_in j_in apart free q v nonzero (c.back q v nonzero h);
    }

-- The rounds suffice: each comes nearer to the empty slot.
pub shift_back-Closed :
    (rounds : ℕ) (m : IdIndexMap) (i j e : ℕ)
    → ((key : ℕ) → home m.shift key < length m.slots)
    → Hole (length m.slots) m.shift m.slots i j e
    → dist (length m.slots) j e ≤ rounds
    → Closed m (shift_back rounds m i j)
unfolding shift_back slot_at slot_for
shift_back-Closed zero m i j e home_lt hole left = absurd (ground (arith, hole.before_end, left))
shift_back-Closed (suc rounds) m i j e home_lt hole left =
    let n = length m.slots in
    let next = (j + 1) % n in
    let entry = get_or m.slots next empty_slot in
    let apart : 0 < dist n j e = ground (arith, hole.before_end, hole.scan_in, hole.end_in) in
    let fewer : dist n next e ≤ rounds =
      omega (arith, next_closer n j e hole.scan_in hole.end_in apart, left) in
    elim (Bool-cases (entry.key == 0)) [
      | inl stop ↦ rw stop (record {
        laid = closed n m.shift m.slots i j e hole home_lt (ground (arith, stop));
        same_width = refl;
        same_shift = refl;
        same_size = refl;
        same_count = refl;
        kept = λ q v nonzero h. h;
        back = λ q v nonzero h. h;
      })
      | inr go ↦
          let full : entry.key ≢ 0 = ground (arith, go) in
          elim (Bool-cases (between i (home m.shift entry.key) next)) [
            | inl stays ↦
                rw (go, stays)
                  (shift_back-Closed rounds m i next e home_lt
                    (skipped n m.shift m.slots i j e hole home_lt full stays) fewer)
            | inr goes ↦
                let inside = next_in n m.shift m.slots i j e hole home_lt in
                let off = next_apart n m.shift m.slots i j e hole home_lt in
                let wide : length (moved m.slots i next) ≡ n =
                  length-moved n m.slots i next refl hole.hole_in inside off hole.hole_free in
                let later : Hole n m.shift (moved m.slots i next) next next e =
                  moved-Hole n m.shift m.slots i j e hole home_lt refl full goes in
                rw (go, goes)
                  (move-Closed m _ i next hole.hole_in inside off hole.hole_free (
                    shift_back-Closed rounds (record m { slots = moved m.slots i next }) next next e
                      (λ k. rw wide (home_lt k))
                      (subst (λ k. Hole k m.shift (moved m.slots i next) next next e) (sym wide)
                        later)
                      (rw wide fewer)))
          ]
    ]
