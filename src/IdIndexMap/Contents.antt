-- ===== src/IdIndexMap/Contents.antt =====
-- IdIndexMap::insert and the constructor: what the table holds afterwards.
use native.Mathlib.Nat.{two-pow-succ}
use lightning_lob.IdIndexMap.Insert.{Placed, added, old, place-Placed, place-present}
use lightning_lob.IdIndexMap.Table.{IsTable, Has}
use lightning_lob.IdIndexMap.Probing.{find-Has, home_in, find-same, find-no_entry}
use lightning_lob.IdIndexMap.{
  IdIndexMap, contains, insert, find, grow, place, capacity_for, new, min_capacity, allocate,
}
use lightning_lob.Base.{
  true, false, zero, suc, none, some, inl, inr, refl, arith, ◌+◌, length, ℕ, ◌*◌, ◌≢◌, ◌≤◌, ◌<◌,
  ◌≡◌, ◌^◌, if◌then◌else◌, ltb, ◌==◌, not, Bool-cases, ◌&&◌, Option-cases, subst, ◌∙◌, sym, ap,
}
use lightning_lob.IdIndexMap.Grow.{
  grow-Grown, exponent-lt, allocate-IsTable, length-allocate, allocate-empty,
}

-- The table that `insert` looks for a slot in.
record Roomy (m ready : IdIndexMap) : Type 0 where
  table : IsTable ready
  room : (ready.size + 1) * 2 ≤ length ready.slots
  same_size : ready.size ≡ m.size
  same_finds : (q : ℕ) → q ≢ 0 → find ready q ≡ find m q

ready-Roomy :
    (m : IdIndexMap)
    → IsTable m
    → length m.slots * 2 < 2 ^ 64
    → Roomy m (if ltb (length m.slots) ((m.size + 1) * 2) then grow m else m)
ready-Roomy m t fits = elim (Bool-cases (ltb (length m.slots) ((m.size + 1) * 2))) [
  | inl e ↦
      let g = grow-Grown m t fits in
      rw e (record {
        table = g.table;
        room = omega (arith, g.same_size, g.twice, t.half, home_in m t 0);
        same_size = g.same_size;
        same_finds = g.same_finds;
      })
  | inr e ↦ rw e (record {
    table = t;
    room = ground (arith, e);
    same_size = refl;
    same_finds = λ q nonzero. refl;
  })
]

Placed-find :
    (m after : IdIndexMap)
    → IsTable m
    → (key value q : ℕ) → q ≢ 0
    → Placed m after key value
    → find after q ≡ (if q == key then some value else find m q)
Placed-find m after t key value q nonzero placed = elim (Bool-cases (q == key)) [
  | inl e ↦
      let same : q ≡ key = ground (arith, e) in
      rw (
        e,
        find-Has after placed.table q value nonzero
            (subst (λ k. Has after.slots k value) (sym same) placed.added_is),
      )
  | inr e ↦ rw e (
      find-same m after t placed.table q nonzero (λ v. placed.kept q v nonzero)
        (λ v h. elim (placed.back q v h) [
          | added k _ ↦ absurd (ground (arith, e, k))
          | old there ↦ there
        ]))
]

pub contains-some : (m : IdIndexMap) (key v : ℕ) → find m key ≡ some v → contains m key ≡ true
unfolding contains
contains-some m key v e = rw (contains, e) refl

pub contains-none : (m : IdIndexMap) (key : ℕ) → find m key ≡ none → contains m key ≡ false
unfolding contains
contains-none m key e = rw (contains, e) refl

-- An insert on a well-formed table of which the double has fewer than 2 ^ 64 slots, of a key
-- that is not zero, leaves a well-formed table; it succeeds exactly when the key was not there,
-- and then counts one entry more, and the key is found with the value; any other key that is not
-- zero, and any such key where the insert is refused, is found as before, whether the table grew
-- or not.
pub insert-find :
    (m : IdIndexMap) (key value q : ℕ)
    → IsTable m
    → key ≢ 0
    → q ≢ 0
    → length m.slots * 2 < 2 ^ 64
    → IsTable (insert m key value).1
      × ((insert m key value).0 ≡ not (contains m key))
      × ((insert m key value).1.size ≡ (if contains m key then m.size else m.size + 1))
      × (find (insert m key value).1 q
          ≡ (if not (contains m key) && (q == key) then some value else find m q))
unfolding insert
insert-find m key value q t nonzero q_nonzero fits =
    let ready = if ltb (length m.slots) ((m.size + 1) * 2) then grow m else m in
    let r : Roomy m ready = ready-Roomy m t fits in
    elim (Option-cases (find m key)) [
      | inl missing ↦
          let (ok, placed) =
            place-Placed ready r.table key value nonzero r.room
              (r.same_finds key nonzero ∙ missing) in
          rw (contains-none m key missing) (
            placed.table,
            ok,
            placed.one_more ∙ ap (λ n. n + 1) r.same_size,
            Placed-find ready (place ready key value).1 r.table key value q q_nonzero placed
                ∙ ap (λ o. if q == key then some value else o) (r.same_finds q q_nonzero),
          )
      | inr (v, there) ↦
          rw
            (
              contains-some m key v there,
              place-present ready r.table key value v nonzero (r.same_finds key nonzero ∙ there),
            )
            (r.table, refl, r.same_size, r.same_finds q q_nonzero)
    ]

-- The constructor's loop stops at a power of two that is wide enough.
record Sized (cap hint : ℕ) : Type 0 where
  bits : ℕ
  least : 4 ≤ bits
  fit : bits < 64
  power : cap ≡ 2 ^ bits
  enough : hint * 2 ≤ cap

capacity_for-Sized :
    (rounds b hint : ℕ)
    → 4 ≤ b
    → b < 64
    → 64 ≤ b + rounds
    → hint * 2 ≤ 2 ^ 63
    → Sized (capacity_for rounds (2 ^ b) hint) hint
unfolding capacity_for
capacity_for-Sized zero b hint least fit rounds_left small = absurd (omega arith)
capacity_for-Sized (suc rounds) b hint least fit rounds_left small =
    elim (Bool-cases (ltb (2 ^ b) (hint * 2))) [
      | inl e ↦
          let lower : b < 63 = exponent-lt b 63 (ground (arith, e)) in
          let next : 2 ^ b * 2 ≡ 2 ^ suc b = omega (arith, two-pow-succ b) in
          rw (e, next)
            (capacity_for-Sized rounds (suc b) hint (omega arith) (omega arith) (omega arith) small)
      | inr e ↦
          rw e (record {
            bits = b;
            least = least;
            fit = fit;
            power = refl;
            enough = ground (arith, e);
          })
    ]

-- A new table for a hint of at most 2 ^ 62 is well formed, has twice as many slots as the hint at
-- least, and holds nothing.
pub new-empty :
    (hint q : ℕ)
    → hint ≤ 2 ^ 62
    → q ≢ 0
    → IsTable (new hint) × (hint * 2 ≤ length (new hint).slots) × (find (new hint) q ≡ none)
unfolding new
new-empty hint q small nonzero =
    let s : Sized (capacity_for 64 min_capacity hint) hint =
      capacity_for-Sized 64 4 hint (omega arith) (omega arith) (omega arith) (omega arith) in
    let cap = capacity_for 64 min_capacity hint in
    let t : IsTable (allocate cap) =
      subst (λ n. IsTable (allocate n)) (sym s.power) (allocate-IsTable s.bits s.least s.fit) in
    (
      t,
      rw (length-allocate cap) s.enough,
      find-no_entry (allocate cap) t q nonzero (λ v. allocate-empty cap q v nonzero),
    )
