-- ===== src/Bitset/Tests.antt =====
-- The bitset on small inputs.
use lightning_lob.IdIndexMap.{countr_zero}
use lightning_lob.Bitset.{
  scan_up, Bitset, new_bitset, set_bit, find_next_set, find_prev_set, find_next_set,
}
use lightning_lob.Bitset.Members.{IsBitset}
use lightning_lob.Bitset.Search.{NextSet, PrevSet, find_next_set-NextSet, find_prev_set-PrevSet}
use lightning_lob.Base.{[], ◌∷◌, some, refl, arith, ◌≡◌}

-- The bits 3 and 70 of 100.
abbrev two_bits : Bitset
two_bits = record { num_bits = 100; words = 8 ∷ 64 ∷ [] }

two_bits-IsBitset : IsBitset two_bits
two_bits-IsBitset = record { sized = refl; bounded = (omega arith, (omega arith, tt)) }

set_two : set_bit (set_bit (new_bitset 100) 3) 70 ≡ two_bits
unfolding set_bit new_bitset
set_two = refl

next_is_70 : find_next_set two_bits 4 ≡ some 70
unfolding find_next_set scan_up countr_zero
next_is_70 = refl

find_next_set-NextSet_example : NextSet two_bits 4 (find_next_set two_bits 4)
find_next_set-NextSet_example = find_next_set-NextSet two_bits two_bits-IsBitset 4

find_prev_set-PrevSet_example : PrevSet two_bits 69 (find_prev_set two_bits 69)
find_prev_set-PrevSet_example = find_prev_set-PrevSet two_bits two_bits-IsBitset 69 (omega arith)
