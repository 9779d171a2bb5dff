-- ===== src/IdIndexMap/Rehash.antt =====
-- The loop of IdIndexMap::grow.
use lightning_lob.IdIndexMap.Insert.{Placed, added, old, place-Placed}
use lightning_lob.IdIndexMap.Table.{key_at, occupied, IsTable, Has, Has-at}
use lightning_lob.IdIndexMap.Probing.{find-no_entry}
use lightning_lob.IdIndexMap.{IdIndexMap, Slot, empty_slot, rehash, find, place}
use lightning_lob.Base.{
  [], ◌∷◌, zero, suc, none, inl, inr, refl, arith, ℕ, List, ◌≤◌, ◌≢◌, length, ◌≡◌, ◌<◌, Bool-cases,
  sym, ◌+◌, ◌∙◌, ◌⊎◌, ◌*◌, get_or, ◌==◌, subst₂,
}
use lightning_lob.Types.{invalid_order_id}

-- A table that holds the entries of a list besides its own.
pub record Rehashed (old_slots : List Slot) (m after : IdIndexMap) : Type 0 where
  pub table : IsTable after
  pub same_width : length after.slots ≡ length m.slots
  pub total : after.size ≡ m.size + occupied old_slots
  pub taken : (q v : ℕ) → q ≢ 0 → Has old_slots q v → Has after.slots q v
  pub kept : (q v : ℕ) → q ≢ 0 → Has m.slots q v → Has after.slots q v
  pub back : (q v : ℕ) → q ≢ 0 → Has after.slots q v → Has old_slots q v ⊎ Has m.slots q v

Has-cons :
    (s : Slot) (xs : List Slot) (q v : ℕ)
    → Has (s ∷ xs) q v
    → ((s.key ≡ q) × (s.value ≡ v)) ⊎ Has xs q v
Has-cons s xs q v h = cases h.index h.index_in h.key_is h.value_is
  where
    cases :
        (i : ℕ)
        → i < length (s ∷ xs)
        → key_at (s ∷ xs) i ≡ q
        → (get_or (s ∷ xs) i empty_slot).value ≡ v
        → ((s.key ≡ q) × (s.value ≡ v)) ⊎ Has xs q v
    cases zero i_in key_is value_is = inl (key_is, value_is)
    cases (suc i) i_in key_is value_is =
        inr (record {
          index = i;
          index_in = omega (arith, i_in);
          key_is = key_is;
          value_is = value_is;
        })

Has-tail : (s : Slot) (xs : List Slot) (q v : ℕ) → Has xs q v → Has (s ∷ xs) q v
Has-tail s xs q v h = record {
  index = suc h.index;
  index_in = omega (arith, h.index_in);
  key_is = h.key_is;
  value_is = h.value_is;
}

-- What the next rounds need of the entries that are left.
pub record Left (xs : List Slot) (m : IdIndexMap) : Type 0 where
  pub room : (m.size + occupied xs) * 2 ≤ length m.slots
  pub apart :
      (p q : ℕ)
      → p < length xs
      → q < length xs
      → key_at xs p ≢ 0
      → key_at xs p ≡ key_at xs q
      → p ≡ q
  pub fresh : (q v w : ℕ) → q ≢ 0 → Has xs q v → ¬ Has m.slots q w

Left-skip : (s : Slot) (xs : List Slot) (m : IdIndexMap) → Left (s ∷ xs) m → s.key ≡ 0 → Left xs m
Left-skip s xs m left e = record {
  room = ground (arith, left.room, e);
  apart = λ p q p_in q_in full same.
      omega
        (arith, left.apart (suc p) (suc q) (omega (arith, p_in)) (omega (arith, q_in)) full same);
  fresh = λ q v w nonzero h. left.fresh q v w nonzero (Has-tail s xs q v h);
}

Left-take :
    (s : Slot) (xs : List Slot) (m after : IdIndexMap)
    → Left (s ∷ xs) m
    → s.key ≢ 0
    → Placed m after s.key s.value
    → Left xs after
Left-take s xs m after left nonzero placed = record {
  room = ground (arith, left.room, nonzero, placed.one_more, placed.same_width);
  apart = λ p q p_in q_in full same.
      omega
        (arith, left.apart (suc p) (suc q) (omega (arith, p_in)) (omega (arith, q_in)) full same);
  fresh = λ q v w q_nonzero h there. elim (placed.back q w there) [
    | added e _ ↦ absurd (
        let first : zero ≡ suc h.index =
          left.apart zero (suc h.index) (omega arith) (omega (arith, h.index_in)) nonzero
            (sym e ∙ sym h.key_is) in
        omega (arith, first))
    | old before ↦ left.fresh q v w q_nonzero (Has-tail s xs q v h) before
  ];
}

pub rehash-Rehashed :
    (xs : List Slot) (m : IdIndexMap) → IsTable m → Left xs m → Rehashed xs m (rehash xs m)
unfolding rehash
rehash-Rehashed [] m t left = record {
  table = t;
  same_width = refl;
  total = omega arith;
  taken = λ q v nonzero h. absurd (omega (arith, h.index_in));
  kept = λ q v nonzero h. h;
  back = λ q v nonzero h. inr h;
}
rehash-Rehashed (s ∷ xs) m t left = elim (Bool-cases (s.key == invalid_order_id)) [
  | inl e ↦
      let empty : s.key ≡ 0 = ground (arith, e) in
      let r = rehash-Rehashed xs m t (Left-skip s xs m left empty) in
      rw e (record {
        table = r.table;
        same_width = r.same_width;
        total = ground (arith, r.total, e);
        taken = λ q v nonzero h. elim (Has-cons s xs q v h) [
          | inl (k, _) ↦ absurd (nonzero (sym k ∙ empty))
          | inr behind ↦ r.taken q v nonzero behind
        ];
        kept = r.kept;
        back = λ q v nonzero h. elim (r.back q v nonzero h) [
          | inl behind ↦ inl (Has-tail s xs q v behind)
          | inr before ↦ inr before
        ];
      })
  | inr e ↦
      let full : s.key ≢ 0 = ground (arith, e) in
      let missing : find m s.key ≡ none =
        find-no_entry m t s.key full
          (λ v. left.fresh s.key s.value v full (Has-at (s ∷ xs) zero s.key (omega arith) refl)) in
      let room : (m.size + 1) * 2 ≤ length m.slots = ground (arith, left.room, e) in
      let placed = (place-Placed m t s.key s.value full room missing).1 in
      let next = (place m s.key s.value).1 in
      let r = rehash-Rehashed xs next placed.table (Left-take s xs m next left full placed) in
      rw e (record {
        table = r.table;
        same_width = r.same_width ∙ placed.same_width;
        total = ground (arith, r.total, e, placed.one_more);
        taken = λ q v nonzero h. elim (Has-cons s xs q v h) [
          | inl (k, w) ↦ r.kept q v nonzero (subst₂ (λ a b. Has next.slots a b) k w placed.added_is)
          | inr behind ↦ r.taken q v nonzero behind
        ];
        kept = λ q v nonzero h. r.kept q v nonzero (placed.kept q v nonzero h);
        back = λ q v nonzero h. elim (r.back q v nonzero h) [
          | inl behind ↦ inl (Has-tail s xs q v behind)
          | inr before ↦ elim (placed.back q v before) [
            | added k w ↦ inl (
                subst₂ (λ a b. Has (s ∷ xs) a b) (sym k) (sym w)
                  (Has-at (s ∷ xs) zero s.key (omega arith) refl))
            | old there ↦ inr there
          ]
        ];
      })
]
