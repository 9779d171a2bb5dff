-- ===== src/IdIndexMap/Tests.antt =====
-- The id index on small inputs.
use lightning_lob.Base.{
  none, some, refl, arith, ◌*◌, ◌≤◌, ◌≡◌, length, not, if◌then◌else◌, ◌+◌, ◌-◌, ◌&&◌, ◌==◌,
}
use lightning_lob.IdIndexMap.{
  IdIndexMap, new, insert, allocate, erase, capacity_for, countr_zero, contains, place, find,
  locate, probe, slot_at, slot_for, hit, shift_back,
}
use lightning_lob.IdIndexMap.Table.{IsTable}
use lightning_lob.IdIndexMap.Contents.{insert-find, new-empty}
use lightning_lob.IdIndexMap.Erase.{erase-find}

-- Three keys of which the first two belong in the last slot and the third in the first.
abbrev empty : IdIndexMap
empty = new 8

abbrev one : IdIndexMap
one = (insert empty 21 7).1

abbrev two : IdIndexMap
two = (insert one 42 8).1

abbrev three : IdIndexMap
three = (insert two 13 9).1

empty_width : length empty.slots ≡ 16
unfolding new allocate capacity_for countr_zero
empty_width = refl

one_width : length one.slots ≡ 16
unfolding new allocate capacity_for countr_zero insert place locate probe slot_at slot_for
one_width = refl

two_width : length two.slots ≡ 16
unfolding new allocate capacity_for countr_zero insert place locate probe slot_at slot_for
two_width = refl

wrapped : locate three 13 ≡ hit 1
unfolding new allocate capacity_for countr_zero insert place locate probe slot_at slot_for
wrapped = refl

shifted : locate (erase three 21).1 13 ≡ hit 0
unfolding new allocate capacity_for countr_zero insert place locate probe slot_at slot_for erase
    shift_back
shifted = refl

empty_start : IsTable (new 8) × (8 * 2 ≤ length (new 8).slots) × (find (new 8) 21 ≡ none)
empty_start = new-empty 8 21 (omega arith) (omega arith)

one-IsTable : IsTable one
one-IsTable =
    (insert-find empty 21 7 1 empty_start.0 (omega arith) (omega arith)
      (omega (arith, empty_width))).0

two-IsTable : IsTable two
two-IsTable =
    (insert-find one 42 8 1 one-IsTable (omega arith) (omega arith) (omega (arith, one_width))).0

insert-find_example :
    IsTable (insert two 13 9).1
    × ((insert two 13 9).0 ≡ not (contains two 13))
    × ((insert two 13 9).1.size ≡ (if contains two 13 then two.size else two.size + 1))
    × (find (insert two 13 9).1 42
        ≡ (if not (contains two 13) && (42 == 13) then some 9 else find two 42))
insert-find_example =
    insert-find two 13 9 42 two-IsTable (omega arith) (omega arith) (omega (arith, two_width))

erase-find_example :
    IsTable (erase three 21).1
    × ((erase three 21).0 ≡ contains three 21)
    × ((erase three 21).1.size ≡ (if contains three 21 then three.size - 1 else three.size))
    × (find (erase three 21).1 13 ≡ (if 13 == 21 then none else find three 13))
erase-find_example = erase-find three 21 13 insert-find_example.0 (omega arith) (omega arith)
