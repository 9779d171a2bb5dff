-- ===== src/IdIndexMap/Erase.antt =====
-- IdIndexMap::erase: what the table holds afterwards.
use lightning_lob.IdIndexMap.Table.{free_slot}
use lightning_lob.IdIndexMap.Probing.{present, absent}
use lightning_lob.IdIndexMap.Probing.{some_room, home_in, find-no_entry, find-Known, find-same}
use lightning_lob.IdIndexMap.{
  IdIndexMap, shift_back, empty_slot, find, erase, contains, locate, hit, vacant,
}
use lightning_lob.Base.{
  true, false, none, inl, inr, refl, arith, length, ◌≡◌, ℕ, ◌≢◌, ◌<◌, ◌+◌, get_or, Bool-cases, ◌==◌,
  set, ◌-◌, length-set, get_or-set_self, get_or-set_ne, sym, ap, ◌∙◌, subst, subst₂, if◌then◌else◌,
}
use lightning_lob.IdIndexMap.Table.{Laid, occupied, home, Has, key_at, IsTable}
use lightning_lob.IdIndexMap.Hole.{Hole}
use lightning_lob.IdIndexMap.Cycle.{dist, same_or_not}
use lightning_lob.IdIndexMap.Insert.{occupied-set}
use lightning_lob.IdIndexMap.Contents.{contains-some, contains-none}
use lightning_lob.IdIndexMap.ShiftBack.{Closed, shift_back-Closed}

-- The entry of the key is taken out.
abbrev emptied : (m : IdIndexMap) → ℕ → IdIndexMap
emptied m i = record m { slots = set m.slots i empty_slot; size = m.size - 1 }

module _ (m : IdIndexMap) (t : IsTable m) (key i : ℕ) (nonzero : key ≢ 0)
    (i_in : i < length m.slots) (here : key_at m.slots i ≡ key) where
  wide : length (set m.slots i empty_slot) ≡ length m.slots
  wide = length-set m.slots i empty_slot

  taken_out : get_or (set m.slots i empty_slot) i empty_slot ≡ empty_slot
  taken_out = get_or-set_self m.slots i empty_slot empty_slot i_in

  left_in :
      (q : ℕ) → i ≢ q → get_or (set m.slots i empty_slot) q empty_slot ≡ get_or m.slots q empty_slot
  left_in q apart = get_or-set_ne m.slots i q empty_slot empty_slot apart

  -- An entry that is left was at the same place.
  was :
      (p : ℕ)
      → key_at (set m.slots i empty_slot) p ≢ 0
      → (i ≢ p) × (key_at (set m.slots i empty_slot) p ≡ key_at m.slots p)
  was p full = elim (same_or_not i p) [
    | inl at ↦
        absurd (full (ap (key_at (set m.slots i empty_slot)) (sym at) ∙ ap (λ s. s.key) taken_out))
    | inr off ↦ (off, ap (λ s. s.key) (left_in p off))
  ]

  emptied-Hole :
      (e : ℕ)
      → e < length m.slots
      → key_at m.slots e ≡ 0
      → Hole (length m.slots) m.shift (set m.slots i empty_slot) i i e
  emptied-Hole e e_in free =
      let off : i ≢ e = λ same. nonzero (sym here ∙ ap (key_at m.slots) same ∙ free) in
      record {
        hole_in = i_in;
        scan_in = i_in;
        end_in = e_in;
        hole_free = ap (λ s. s.key) taken_out;
        end_free = ap (λ s. s.key) (left_in e off) ∙ free;
        before_end = ground arith;
        reach_but = λ p q p_in q_in full closer apart.
            let (off_p, k) = was p full in
            λ z.
              t.laid.reach p q p_in q_in (λ w. full (k ∙ w))
                (subst
                  (λ a.
                    dist (length m.slots) (home m.shift a) q
                    < dist (length m.slots) (home m.shift a) p)
                  k closer)
                (sym (ap (λ s. s.key) (left_in q apart)) ∙ z);
        scanned = λ p p_in behind within. absurd (ground arith);
        distinct = λ p q p_in q_in full same.
            let (off_p, k) = was p full in
            let (off_q, l) = was q (λ z. full (same ∙ z)) in
            t.laid.distinct p q p_in q_in (λ w. full (k ∙ w)) (sym k ∙ same ∙ l);
      }

  -- The entries that are left are the others.
  emptied_kept : (q v : ℕ) → q ≢ 0 → q ≢ key → Has m.slots q v → Has (set m.slots i empty_slot) q v
  emptied_kept q v q_nonzero other h =
      let off : i ≢ h.index =
        λ same. other (sym h.key_is ∙ ap (key_at m.slots) (sym same) ∙ here) in
      record {
        index = h.index;
        index_in = rw wide h.index_in;
        key_is = ap (λ s. s.key) (left_in h.index off) ∙ h.key_is;
        value_is = ap (λ s. s.value) (left_in h.index off) ∙ h.value_is;
      }

  emptied_back :
      (q v : ℕ) → q ≢ 0 → Has (set m.slots i empty_slot) q v → (q ≢ key) × Has m.slots q v
  emptied_back q v q_nonzero h =
      let p = h.index in
      let p_in : p < length m.slots = subst (λ n. p < n) wide h.index_in in
      let full : key_at (set m.slots i empty_slot) p ≢ 0 = λ z. q_nonzero (sym h.key_is ∙ z) in
      let (off, k) = was p full in
      let key_is : key_at m.slots p ≡ q = sym k ∙ h.key_is in
      (
        λ same. off (
            t.laid.distinct i p i_in p_in (λ z. nonzero (sym here ∙ z))
              (here ∙ sym same ∙ sym key_is)),
        record {
          index = p;
          index_in = p_in;
          key_is = key_is;
          value_is = sym (ap (λ s. s.value) (left_in p off)) ∙ h.value_is;
        },
      )

  -- The table after the loop.
  abbrev after_erase : IdIndexMap
  after_erase = shift_back (length m.slots) (emptied m i) i i

  erased-Closed : Closed (emptied m i) after_erase
  erased-Closed =
      let (e, e_in, free) = free_slot m.slots (some_room m t) in
      shift_back-Closed (length m.slots) (emptied m i) i i e (λ k. rw wide (home_in m t k))
        (subst (λ n. Hole n m.shift (set m.slots i empty_slot) i i e) (sym wide)
          (emptied-Hole e e_in free))
        (rw wide (ground arith))

  erased-IsTable : IsTable after_erase × (after_erase.size ≡ m.size - 1)
  erased-IsTable =
      let c = erased-Closed in
      let same_width : length after_erase.slots ≡ length m.slots = c.same_width ∙ wide in
      let count : occupied (set m.slots i empty_slot) + 1 ≡ occupied m.slots =
        ground (arith, occupied-set m.slots i empty_slot i_in, here, nonzero) in
      (
        record {
          bits = t.bits;
          bits_least = t.bits_least;
          bits_fit = t.bits_fit;
          width = same_width ∙ t.width;
          shift_is = c.same_shift ∙ t.shift_is;
          laid =
              subst₂ (λ n s. Laid n s after_erase.slots) (sym c.same_width) (sym c.same_shift)
                c.laid;
          counted = omega (arith, c.same_count, c.same_size, count, t.counted);
          half = omega (arith, same_width, c.same_size, t.half);
        },
        c.same_size,
      )

  erased-find : (q : ℕ) → q ≢ 0 → find after_erase q ≡ (if q == key then none else find m q)
  erased-find q q_nonzero =
      let c = erased-Closed in
      let u = erased-IsTable.0 in
      elim (Bool-cases (q == key)) [
        | inl e ↦ rw e (
            find-no_entry after_erase u q q_nonzero
              (λ v h. (emptied_back q v q_nonzero (c.back q v q_nonzero h)).0 (ground (arith, e))))
        | inr e ↦ rw e (
            find-same m after_erase t u q q_nonzero
              (λ v h. c.kept q v q_nonzero (emptied_kept q v q_nonzero (ground (arith, e)) h))
              (λ v h. (emptied_back q v q_nonzero (c.back q v q_nonzero h)).1))
      ]

erase-hit :
    (m : IdIndexMap) (key i : ℕ)
    → locate m key ≡ hit i
    → erase m key ≡ (true, shift_back (length m.slots) (emptied m i) i i)
unfolding erase
erase-hit m key i e = rw (erase, e) refl

erase-vacant : (m : IdIndexMap) (key i : ℕ) → locate m key ≡ vacant i → erase m key ≡ (false, m)
unfolding erase
erase-vacant m key i e = rw (erase, e) refl

-- An erase on a well-formed table, of a key that is not zero, leaves a well-formed table; it
-- succeeds exactly when the key was there, and then counts one entry less; the key is not found
-- afterwards, and every other key that is not zero is found as before.
pub erase-find :
    (m : IdIndexMap) (key q : ℕ)
    → IsTable m
    → key ≢ 0
    → q ≢ 0
    → IsTable (erase m key).1
      × ((erase m key).0 ≡ contains m key)
      × ((erase m key).1.size ≡ (if contains m key then m.size - 1 else m.size))
      × (find (erase m key).1 q ≡ (if q == key then none else find m q))
erase-find m key q t nonzero q_nonzero = elim (find-Known m t key nonzero) [
  | present i i_in here at f ↦
      let (u, size_is) = erased-IsTable m t key i nonzero i_in here in
      rw (contains-some m key _ f, erase-hit m key i at)
        (u, refl, size_is, erased-find m t key i nonzero i_in here q q_nonzero)
  | absent i _ _ _ _ at f ↦
      let same : find m q ≡ (if q == key then none else find m q) = elim (Bool-cases (q == key)) [
        | inl e ↦ rw e (ap (find m) (ground (arith, e)) ∙ f)
        | inr e ↦ rw e refl
      ] in
      rw (contains-none m key f, erase-vacant m key i at) (t, refl, refl, same)
]
