-- ===== src/IdIndexMap/Probing.antt =====
-- Where a probe of a well-formed table stops, and what `find` gives.
use mathlib.Core.Path.{◌≡◌}
use lightning_lob.IdIndexMap.{
  Slot, IdIndexMap, empty_slot, slot_at, slot_for, probe, locate, find, hit, vacant, endless, Probe,
}
use lightning_lob.IdIndexMap.Cycle.{
  dist, step_to, next_step, dist-lt, dist_inj, dist_suc, dist-step_to,
}
use lightning_lob.Base.{
  zero, suc, none, some, inl, inr, refl, arith, List, ℕ, ◌<◌, get_or, length, ◌==◌, ◌+◌, Bool-cases,
  ◌≢◌, subst, ap, ◌∙◌, sym, ltb, ltb→lt,
}
use lightning_lob.IdIndexMap.Table.{
  key_at, IsTable, home, occupied, Has, home-lt, free_slot, Has-at,
}

-- Where a probe stops, and what it has passed.
pub data Stops (slots : List Slot) (key r : ℕ) : Probe → Type 0 where
  hits : (i : ℕ) → i < length slots → key_at slots i ≡ key → Stops slots key r (hit i)
  finds_room :
      (i : ℕ)
      → i < length slots
      → key_at slots i ≡ 0
      → ((q : ℕ)
          → q < length slots
          → dist (length slots) r q < dist (length slots) r i
          → (key_at slots q ≢ 0) × (key_at slots q ≢ key))
      → Stops slots key r (vacant i)
  turns :
      ((q : ℕ) → q < length slots → (key_at slots q ≢ 0) × (key_at slots q ≢ key))
      → Stops slots key r endless

probe-Stops :
    (rounds : ℕ) (slots : List Slot) (key r d : ℕ)
    → r < length slots
    → d + rounds ≡ length slots
    → ((q : ℕ)
        → q < length slots
        → dist (length slots) r q < d
        → (key_at slots q ≢ 0) × (key_at slots q ≢ key))
    → Stops slots key r (probe rounds slots key (step_to (length slots) r d))
unfolding probe slot_at
probe-Stops zero slots key r d r_in e passed =
    turns (λ q q_in. passed q q_in (omega (arith, dist-lt (length slots) r q r_in q_in)))
probe-Stops (suc rounds) slots key r d r_in e passed =
    let n = length slots in
    let i = step_to n r d in
    let i_in : i < n = ground arith in
    elim (Bool-cases (key_at slots i == 0)) [
      | inl free ↦ rw free (
          finds_room i i_in (ground arith)
            (λ q q_in h. passed q q_in (omega (arith, dist-step_to n r d r_in (omega arith)))))
      | inr full ↦ elim (Bool-cases (key_at slots i == key)) [
        | inl same ↦ rw (full, same) (hits i i_in (ground arith))
        | inr other ↦
            rw (full, other, next_step n r d r_in (omega arith))
              (probe-Stops rounds slots key r (d + 1) r_in (omega arith) (λ q q_in h.
                elim (dist_suc n r d q r_in q_in (omega arith) h) [
                  | inl before ↦ passed q q_in before
                  | inr here ↦ rw here (ground arith)
                ]))
      ]
    ]

module _ (m : IdIndexMap) (t : IsTable m) where
  pub home_in : (key : ℕ) → home m.shift key < length m.slots
  home_in key = rw t.width (home-lt t.bits m.shift key t.bits_fit t.shift_is)

  -- The table is not full.
  pub some_room : occupied m.slots < length m.slots
  some_room = omega (arith, t.counted, t.half, home_in 0)

  -- What `locate` finds.
  pub locate-Stops : (key : ℕ) → Stops m.slots key (home m.shift key) (locate m key)
  unfolding locate slot_for
  locate-Stops key =
      let n = length m.slots in
      let r = home m.shift key in
      let start : step_to n r 0 ≡ r = ground (arith, home_in key) in
      subst (λ i. Stops m.slots key r (probe n m.slots key i)) start
        (probe-Stops n m.slots key r 0 (home_in key) (omega arith)
          (λ q q_in h. absurd (omega arith)))

  -- A key that the probe did not meet before an empty slot is nowhere.
  not_behind :
      (key i p : ℕ)
      → key ≢ 0
      → i < length m.slots
      → p < length m.slots
      → key_at m.slots i ≡ 0
      → ((q : ℕ)
          → q < length m.slots
          → dist (length m.slots) (home m.shift key) q < dist (length m.slots) (home m.shift key) i
          → (key_at m.slots q ≢ 0) × (key_at m.slots q ≢ key))
      → key_at m.slots p ≢ key
  not_behind key i p nonzero i_in p_in free passed same =
      let n = length m.slots in
      let r = home m.shift key in
      elim (Bool-cases (ltb (dist n r i) (dist n r p))) [
        | inl before ↦
            t.laid.reach p i p_in i_in (λ z. nonzero (sym same ∙ z)) (rw same (ltb→lt _ _ before))
              free
        | inr behind ↦ elim (Bool-cases (ltb (dist n r p) (dist n r i))) [
          | inl passes ↦ (passed p p_in (ltb→lt _ _ passes)).1 same
          | inr neither ↦
              let at : i ≡ p =
                dist_inj n r i p (home_in key) i_in p_in (ground (arith, behind, neither)) in
              nonzero (sym same ∙ ap (key_at m.slots) (sym at) ∙ free)
        ]
      ]

  -- The key of an entry is found where the entry is, and its value is given.
  hit-value :
      (key value : ℕ) (r : Probe)
      → Stops m.slots key (home m.shift key) r
      → key ≢ 0
      → Has m.slots key value
      → (elim r [
        | hit i ↦ some (get_or m.slots i empty_slot).value
        | vacant _ ↦ none
        | endless ↦ none
      ])
        ≡ some value
  hit-value key value _ (hits i i_in e) nonzero h =
      let same : i ≡ h.index =
        t.laid.distinct i h.index i_in h.index_in (λ z. nonzero (sym e ∙ z)) (e ∙ sym h.key_is) in
      ap some (ap (λ j. (get_or m.slots j empty_slot).value) same ∙ h.value_is)
  hit-value key value _ (finds_room i i_in free passed) nonzero h =
      absurd (not_behind key i h.index nonzero i_in h.index_in free passed h.key_is)
  hit-value key value _ (turns passed) nonzero h = absurd ((passed h.index h.index_in).1 h.key_is)

  pub find-Has : (key value : ℕ) → key ≢ 0 → Has m.slots key value → find m key ≡ some value
  unfolding find slot_at
  find-Has key value nonzero h = hit-value key value (locate m key) (locate-Stops key) nonzero h

  -- A key is in the table or not, and `find` tells which.
  pub data Known (key : ℕ) : Type 0 where
    present :
        (i : ℕ)
        → i < length m.slots
        → key_at m.slots i ≡ key
        → locate m key ≡ hit i
        → find m key ≡ some (get_or m.slots i empty_slot).value
        → Known key
    absent :
        (i : ℕ)
        → i < length m.slots
        → key_at m.slots i ≡ 0
        → ((q : ℕ)
            → q < length m.slots
            → dist (length m.slots) (home m.shift key) q
              < dist (length m.slots) (home m.shift key) i
            → key_at m.slots q ≢ 0)
        → ((p : ℕ) → p < length m.slots → key_at m.slots p ≢ key)
        → locate m key ≡ vacant i
        → find m key ≡ none
        → Known key

  pub find-Known : (key : ℕ) → key ≢ 0 → Known key
  unfolding find slot_at
  find-Known key nonzero = cases (locate m key) refl (locate-Stops key)
    where
      cases : (r : Probe) → locate m key ≡ r → Stops m.slots key (home m.shift key) r → Known key
      cases _ e (hits i i_in same) = present i i_in same e (rw (find, e) refl)
      cases _ e (finds_room i i_in free passed) =
          absent i i_in free (λ q q_in h. (passed q q_in h).0)
            (λ p p_in. not_behind key i p nonzero i_in p_in free passed) e (rw (find, e) refl)
      cases _ e (turns passed) =
          let (q, q_in, free) = free_slot m.slots some_room in absurd ((passed q q_in).0 free)

  -- A key that no slot holds is not found.
  pub find-none :
      (key : ℕ)
      → key ≢ 0
      → ((p : ℕ) → p < length m.slots → key_at m.slots p ≢ key)
      → find m key ≡ none
  find-none key nonzero nowhere = elim (find-Known key nonzero) [
    | present i i_in same _ _ ↦ absurd (nowhere i i_in same)
    | absent _ _ _ _ _ _ e ↦ e
  ]

  pub find-no_entry : (key : ℕ) → key ≢ 0 → ((v : ℕ) → ¬ Has m.slots key v) → find m key ≡ none
  find-no_entry key nonzero nowhere =
      find-none key nonzero (λ p p_in e. nowhere _ (Has-at m.slots p key p_in e))

-- Two tables that hold the same entries find the same.
pub find-same :
    (m after : IdIndexMap)
    → IsTable m
    → IsTable after
    → (key : ℕ) → key ≢ 0
    → ((v : ℕ) → Has m.slots key v → Has after.slots key v)
    → ((v : ℕ) → Has after.slots key v → Has m.slots key v)
    → find after key ≡ find m key
find-same m after t u key nonzero there back = elim (find-Known m t key nonzero) [
  | present i i_in e _ f ↦
      find-Has after u key _ nonzero (there _ (Has-at m.slots i key i_in e)) ∙ sym f
  | absent _ _ _ _ nowhere _ f ↦
      find-no_entry after u key nonzero (λ v h. nowhere _ (back v h).index_in (back v h).key_is)
      ∙ sym f
]
