-- ===== src/IdIndexMap/Insert.antt =====
-- IdIndexMap::insert: the slot it fills.
use lightning_lob.IdIndexMap.Probing.{present, absent}
use lightning_lob.IdIndexMap.{IdIndexMap, Slot, locate, vacant, place, find, empty_slot}
use lightning_lob.Base.{
  [], ◌∷◌, true, false, zero, suc, none, some, inl, inr, refl, arith, List, ℕ, ◌<◌, ◌≡◌, length,
  ◌≢◌, ◌+◌, set, ◌*◌, if◌then◌else◌, ◌≤◌, ◌==◌, ap, get_or-set_self, get_or-set_ne, subst, sym, ◌∙◌,
  get_or, length-set,
}
use lightning_lob.IdIndexMap.Table.{IsTable, Laid, occupied, Has, home, key_at}
use lightning_lob.IdIndexMap.Probing.{find-Known}
use lightning_lob.IdIndexMap.Cycle.{dist, same_or_not}
use lightning_lob.Types.{invalid_order_id}

pub occupied-set :
    (slots : List Slot) (i : ℕ) (s : Slot)
    → i < length slots
    → occupied (set slots i s) + (if key_at slots i == invalid_order_id then 0 else 1)
      ≡ occupied slots + (if s.key == invalid_order_id then 0 else 1)
occupied-set [] i s h = absurd (omega arith)
occupied-set (x ∷ slots) zero s h = omega arith
occupied-set (x ∷ slots) (suc i) s h = omega (arith, occupied-set slots i s (omega arith))

-- A new entry in an empty slot at the end of its probe.
module _ (n shift : ℕ) (slots : List Slot) (laid : Laid n shift slots) (entry : Slot) (i : ℕ)
    (nonzero : entry.key ≢ 0) (wide : n ≡ length slots) (i_in : i < n)
    (passed : (q : ℕ)
      → q < n
      → dist n (home shift entry.key) q < dist n (home shift entry.key) i
      → key_at slots q ≢ 0)
    (fresh : (p : ℕ) → p < n → key_at slots p ≢ entry.key) where
  abbrev pub filled : List Slot
  filled = set slots i entry

  key_here : key_at filled i ≡ entry.key
  key_here = ap (λ s. s.key) (get_or-set_self slots i entry empty_slot (omega (arith, wide)))

  key_there : (j : ℕ) → i ≢ j → key_at filled j ≡ key_at slots j
  key_there j apart = ap (λ s. s.key) (get_or-set_ne slots i j entry empty_slot apart)

  stays_full : (q : ℕ) → key_at slots q ≢ 0 → key_at filled q ≢ 0
  stays_full q full = elim (same_or_not i q) [
    | inl same ↦ subst (λ j. key_at filled j ≢ 0) same (λ z. nonzero (sym key_here ∙ z))
    | inr apart ↦ λ z. full (sym (key_there q apart) ∙ z)
  ]

  filled_reach :
      (p q : ℕ)
      → p < n
      → q < n
      → key_at filled p ≢ 0
      → dist n (home shift (key_at filled p)) q < dist n (home shift (key_at filled p)) p
      → key_at filled q ≢ 0
  filled_reach p q p_in q_in full closer = elim (same_or_not i p) [
    | inl same ↦
        let key_is : key_at filled p ≡ entry.key = ap (key_at filled) (sym same) ∙ key_here in
        let nearer : dist n (home shift entry.key) q < dist n (home shift entry.key) p =
          subst (λ k. dist n (home shift k) q < dist n (home shift k) p) key_is closer in
        stays_full q (
          passed q q_in (
            subst (λ j. dist n (home shift entry.key) q < dist n (home shift entry.key) j)
              (sym same) nearer))
    | inr apart ↦ stays_full q (
        laid.reach p q p_in q_in (λ z. full (key_there p apart ∙ z))
          (subst (λ k. dist n (home shift k) q < dist n (home shift k) p) (key_there p apart)
            closer))
  ]

  filled_distinct :
      (p q : ℕ) → p < n → q < n → key_at filled p ≢ 0 → key_at filled p ≡ key_at filled q → p ≡ q
  filled_distinct p q p_in q_in full e = elim (same_or_not i p) [
    | inl at_p ↦ elim (same_or_not i q) [
      | inl at_q ↦ sym at_p ∙ at_q
      | inr off_q ↦ absurd (
          fresh q q_in (sym (key_there q off_q) ∙ sym e ∙ ap (key_at filled) (sym at_p) ∙ key_here))
    ]
    | inr off_p ↦ elim (same_or_not i q) [
      | inl at_q ↦
          absurd
            (fresh p p_in (sym (key_there p off_p) ∙ e ∙ ap (key_at filled) (sym at_q) ∙ key_here))
      | inr off_q ↦
          laid.distinct p q p_in q_in (λ z. full (key_there p off_p ∙ z))
            (sym (key_there p off_p) ∙ e ∙ key_there q off_q)
    ]
  ]

  pub filled-Laid : Laid n shift filled
  filled-Laid = record { reach = filled_reach; distinct = filled_distinct }

-- The entries of a table after a write in an empty slot.
pub data Entry (slots : List Slot) (key value q v : ℕ) : Type 0 where
  added : q ≡ key → v ≡ value → Entry slots key value q v
  old : Has slots q v → Entry slots key value q v

-- A table with one entry more.
pub record Placed (m after : IdIndexMap) (key value : ℕ) : Type 0 where
  pub table : IsTable after
  pub same_width : length after.slots ≡ length m.slots
  pub one_more : after.size ≡ m.size + 1
  pub added_is : Has after.slots key value
  pub kept : (q v : ℕ) → q ≢ 0 → Has m.slots q v → Has after.slots q v
  pub back : (q v : ℕ) → Has after.slots q v → Entry m.slots key value q v

-- What a write in an empty slot does to the entries.
module _ (slots : List Slot) (i key value : ℕ) (i_in : i < length slots)
    (free : key_at slots i ≡ 0) where
  abbrev pub entry : Slot
  entry = record { key = key; value = value }

  pub set-added : Has (set slots i entry) key value
  set-added =
      let here : get_or (set slots i entry) i empty_slot ≡ entry =
        get_or-set_self slots i entry empty_slot i_in in
      record {
        index = i;
        index_in = rw (length-set slots i entry) i_in;
        key_is = ap (λ s. s.key) here;
        value_is = ap (λ s. s.value) here;
      }

  pub set-kept : (q v : ℕ) → q ≢ 0 → Has slots q v → Has (set slots i entry) q v
  set-kept q v nonzero h =
      let apart : i ≢ h.index = λ e. nonzero (sym h.key_is ∙ ap (key_at slots) (sym e) ∙ free) in
      let there : get_or (set slots i entry) h.index empty_slot ≡ get_or slots h.index empty_slot =
        get_or-set_ne slots i h.index entry empty_slot apart in
      record {
        index = h.index;
        index_in = rw (length-set slots i entry) h.index_in;
        key_is = ap (λ s. s.key) there ∙ h.key_is;
        value_is = ap (λ s. s.value) there ∙ h.value_is;
      }

  pub set-back : (q v : ℕ) → Has (set slots i entry) q v → Entry slots key value q v
  set-back q v h = elim (same_or_not i h.index) [
    | inl same ↦
        let here : get_or (set slots i entry) h.index empty_slot ≡ entry =
          subst (λ j. get_or (set slots i entry) j empty_slot ≡ entry) same
            (get_or-set_self slots i entry empty_slot i_in) in
        added (sym h.key_is ∙ ap (λ s. s.key) here) (sym h.value_is ∙ ap (λ s. s.value) here)
    | inr apart ↦
        let there : get_or (set slots i entry) h.index empty_slot
            ≡ get_or slots h.index empty_slot =
          get_or-set_ne slots i h.index entry empty_slot apart in
        old (record {
          index = h.index;
          index_in = subst (λ n. h.index < n) (length-set slots i entry) h.index_in;
          key_is = sym (ap (λ s. s.key) there) ∙ h.key_is;
          value_is = sym (ap (λ s. s.value) there) ∙ h.value_is;
        })
  ]

place-absent :
    (m : IdIndexMap) (key value i : ℕ)
    → locate m key ≡ vacant i
    → place m key value ≡ (
      true,
      record m { slots = set m.slots i (record { key = key; value = value }); size = m.size + 1 },
    )
unfolding place
place-absent m key value i e = rw (place, e) refl

pub place-Placed :
    (m : IdIndexMap)
    → IsTable m
    → (key value : ℕ) → key ≢ 0
    → (m.size + 1) * 2 ≤ length m.slots
    → find m key ≡ none
    → ((place m key value).0 ≡ true) × Placed m (place m key value).1 key value
place-Placed m t key value nonzero room missing = elim (find-Known m t key nonzero) [
  | present i i_in same _ f ↦ absurd (cc (f, missing))
  | absent i i_in free passed fresh at _ ↦
      let here : Slot = record { key = key; value = value } in
      let wide : length (set m.slots i here) ≡ length m.slots = length-set m.slots i here in
      subst (λ r. (r.0 ≡ true) × Placed m r.1 key value) (sym (place-absent m key value i at))
        (
          refl,
          record {
            table = record {
              bits = t.bits;
              bits_least = t.bits_least;
              bits_fit = t.bits_fit;
              width = wide ∙ t.width;
              shift_is = t.shift_is;
              laid =
                  subst (λ n. Laid n m.shift (set m.slots i here)) (sym wide)
                    (filled-Laid (length m.slots) m.shift m.slots t.laid here i nonzero refl i_in
                      passed fresh);
              counted = ground (arith, occupied-set m.slots i here i_in, free, nonzero, t.counted);
              half = omega (arith, wide, room);
            };
            same_width = wide;
            one_more = refl;
            added_is = set-added m.slots i key value i_in free;
            kept = set-kept m.slots i key value i_in free;
            back = set-back m.slots i key value i_in free;
          },
        )
]

-- A key that is there already is refused.
pub place-present :
    (m : IdIndexMap)
    → IsTable m
    → (key value v : ℕ) → key ≢ 0
    → find m key ≡ some v
    → place m key value ≡ (false, m)
unfolding place
place-present m t key value v nonzero there = elim (find-Known m t key nonzero) [
  | present _ _ _ e _ ↦ rw (place, e) refl
  | absent _ _ _ _ _ _ f ↦ absurd (cc (f, there))
]
