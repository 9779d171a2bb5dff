-- ===== src/IdIndexMap/Move.antt =====
-- The step of IdIndexMap::erase that fills the hole with a later entry.
use lightning_lob.IdIndexMap.{Slot, empty_slot}
use lightning_lob.Base.{
  inl, inr, refl, arith, List, ℕ, set, ◌<◌, length, get_or, ◌≢◌, ◌≡◌, ◌⊎◌, get_or-set_self,
  get_or-set_ne, length-set, sym, ◌∙◌, ap, subst,
}
use lightning_lob.IdIndexMap.Table.{key_at, occupied, Has}
use lightning_lob.IdIndexMap.Cycle.{same_or_not}
use lightning_lob.IdIndexMap.Insert.{occupied-set}

abbrev pub moved : (slots : List Slot) (i j : ℕ) → List Slot
moved slots i j = set (set slots i (get_or slots j empty_slot)) j empty_slot

-- Where the entry of a slot was before.
pub data Origin (n : ℕ) (slots : List Slot) (i j p : ℕ) : Type 0 where
  came :
      (o : ℕ)
      → o < n
      → i ≢ o
      → get_or (moved slots i j) p empty_slot ≡ get_or slots o empty_slot
      → ((p ≡ i) × (o ≡ j)) ⊎ ((p ≡ o) × (j ≢ o))
      → Origin n slots i j p

module _ (n : ℕ) (slots : List Slot) (i j : ℕ) (wide : length slots ≡ n) (i_in : i < n)
    (j_in : j < n) (apart : i ≢ j) (free : key_at slots i ≡ 0) where
  pub moved_hole : get_or (moved slots i j) j empty_slot ≡ empty_slot
  moved_hole =
      get_or-set_self (set slots i (get_or slots j empty_slot)) j empty_slot empty_slot
        (rw (length-set slots i (get_or slots j empty_slot)) (omega (arith, wide)))

  pub moved_here : get_or (moved slots i j) i empty_slot ≡ get_or slots j empty_slot
  moved_here =
      get_or-set_ne (set slots i (get_or slots j empty_slot)) j i empty_slot empty_slot
        (λ e. apart (sym e))
      ∙ get_or-set_self slots i (get_or slots j empty_slot) empty_slot (omega (arith, wide))

  pub moved_else :
      (q : ℕ) → i ≢ q → j ≢ q → get_or (moved slots i j) q empty_slot ≡ get_or slots q empty_slot
  moved_else q off_i off_j =
      get_or-set_ne (set slots i (get_or slots j empty_slot)) j q empty_slot empty_slot off_j
      ∙ get_or-set_ne slots i q (get_or slots j empty_slot) empty_slot off_i

  pub origin : (p : ℕ) → p < n → key_at (moved slots i j) p ≢ 0 → Origin n slots i j p
  origin p p_in full = elim (same_or_not i p) [
    | inl at_hole ↦
        came j j_in apart
          (ap (λ k. get_or (moved slots i j) k empty_slot) (sym at_hole) ∙ moved_here)
          (inl (sym at_hole, refl))
    | inr off_hole ↦ elim (same_or_not j p) [
      | inl at_scan ↦
          absurd (full (ap (key_at (moved slots i j)) (sym at_scan) ∙ ap (λ s. s.key) moved_hole))
      | inr off_scan ↦ came p p_in off_hole (moved_else p off_hole off_scan) (inr (refl, off_scan))
    ]
  ]

  pub moved_full :
      (q : ℕ)
      → key_at slots j ≢ 0
      → j ≢ q
      → (i ≢ q → key_at slots q ≢ 0)
      → key_at (moved slots i j) q ≢ 0
  moved_full q full off_j old_full = elim (same_or_not i q) [
    | inl at_hole ↦
        subst (λ k. key_at (moved slots i j) k ≢ 0) at_hole
          (λ z. full (sym (ap (λ s. s.key) moved_here) ∙ z))
    | inr off_hole ↦
        λ z. old_full off_hole (sym (ap (λ s. s.key) (moved_else q off_hole off_j)) ∙ z)
  ]

  pub length-moved : length (moved slots i j) ≡ length slots
  length-moved =
      length-set (set slots i (get_or slots j empty_slot)) j empty_slot
      ∙ length-set slots i (get_or slots j empty_slot)

  pub occupied-moved : occupied (moved slots i j) ≡ occupied slots
  occupied-moved =
      let entry = get_or slots j empty_slot in
      let first = occupied-set slots i entry (omega (arith, wide)) in
      let second =
        occupied-set (set slots i entry) j empty_slot
          (rw (length-set slots i entry) (omega (arith, wide))) in
      let same : key_at (set slots i entry) j ≡ key_at slots j =
        ap (λ s. s.key) (get_or-set_ne slots i j entry empty_slot apart) in
      ground (arith, first, second, same, free)

  pub moved_distinct :
      ((p q : ℕ) → p < n → q < n → key_at slots p ≢ 0 → key_at slots p ≡ key_at slots q → p ≡ q)
      → (p q : ℕ) → p < n
      → q < n
      → key_at (moved slots i j) p ≢ 0
      → key_at (moved slots i j) p ≡ key_at (moved slots i j) q
      → p ≡ q
  moved_distinct distinct p q p_in q_in full e = elim (origin p p_in full) [
    | came o o_in _ from_o here ↦ elim (origin q q_in (λ z. full (e ∙ z))) [
      | came w w_in _ from_w there ↦
          let k = ap (λ s. s.key) from_o in
          let l = ap (λ s. s.key) from_w in
          let same : o ≡ w = distinct o w o_in w_in (λ z. full (k ∙ z)) (sym k ∙ e ∙ l) in
          grind (arith, same, here, there)
    ]
  ]

  -- The entries are the same.
  pub moved_kept : (q v : ℕ) → q ≢ 0 → Has slots q v → Has (moved slots i j) q v
  moved_kept q v nonzero h = elim (same_or_not j h.index) [
    | inl at_j ↦ record {
      index = i;
      index_in = omega (arith, length-moved, wide, i_in);
      key_is = ap (λ s. s.key) moved_here ∙ ap (key_at slots) at_j ∙ h.key_is;
      value_is =
          ap (λ s. s.value) moved_here
          ∙ ap (λ k. (get_or slots k empty_slot).value) at_j
          ∙ h.value_is;
    }
    | inr off_j ↦
        let off_i : i ≢ h.index = λ e. nonzero (sym h.key_is ∙ ap (key_at slots) (sym e) ∙ free) in
        let there = moved_else h.index off_i off_j in
        record {
          index = h.index;
          index_in = omega (arith, length-moved, h.index_in);
          key_is = ap (λ s. s.key) there ∙ h.key_is;
          value_is = ap (λ s. s.value) there ∙ h.value_is;
        }
  ]

  pub moved_back : (q v : ℕ) → q ≢ 0 → Has (moved slots i j) q v → Has slots q v
  moved_back q v nonzero h =
      elim (origin h.index (omega (arith, h.index_in, length-moved, wide))
        (λ z. nonzero (sym h.key_is ∙ z))) [
          | came o o_in _ from_o _ ↦ record {
            index = o;
            index_in = omega (arith, o_in, wide);
            key_is = sym (ap (λ s. s.key) from_o) ∙ h.key_is;
            value_is = sym (ap (λ s. s.value) from_o) ∙ h.value_is;
          }
        ]
