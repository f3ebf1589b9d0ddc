-- ===== src/Bitmask/Examples.antt =====
-- Masks of twenty rows, and the mask operations on them.
use blazerules.Prelude.{◌≡◌, refl, [], ◌∷◌, not, ◌&&◌, ◌||◌, ◌==◌, ltb, length, rows, arith}
use blazerules.Bitmask.{
  Mask, IsBytes, bitmask_bytes, count_set_bits, find_set_bits, collect_set_bits, or_into,
  bit_is_set, set_bit, bitwise_not,
}
use blazerules.Bitmask.Find.{find_set_bits-rows, collect_set_bits-find_set_bits}
use blazerules.Bitmask.Count.{count_set_bits-rows}
use blazerules.Bitmask.Rowwise.{bit_is_set-or_into, bit_is_set-bitwise_not, bit_is_set-set_bit}

abbrev some_rows : Mask
some_rows = 129 ∷ 6 ∷ 8 ∷ []

abbrev other_rows : Mask
other_rows = 3 ∷ 0 ∷ 9 ∷ []

some_rows-IsBytes : IsBytes some_rows
some_rows-IsBytes = (omega arith, (omega arith, (omega arith, tt)))

other_rows-IsBytes : IsBytes other_rows
other_rows-IsBytes = (omega arith, (omega arith, (omega arith, tt)))

some_rows_size : length some_rows ≡ bitmask_bytes 20
unfolding bitmask_bytes
some_rows_size = refl

find_set_bits-rows_example : find_set_bits some_rows 20 ≡ rows 0 20 (bit_is_set some_rows)
find_set_bits-rows_example = find_set_bits-rows some_rows 20 some_rows-IsBytes some_rows_size

collect_set_bits-find_set_bits_example : collect_set_bits some_rows 20 ≡ find_set_bits some_rows 20
collect_set_bits-find_set_bits_example =
    collect_set_bits-find_set_bits some_rows 20 some_rows-IsBytes

count_set_bits-rows_example : count_set_bits some_rows ≡ length (rows 0 24 (bit_is_set some_rows))
count_set_bits-rows_example = count_set_bits-rows some_rows some_rows-IsBytes

bit_is_set-or_into_example :
    bit_is_set (or_into some_rows other_rows) 1
    ≡ (bit_is_set some_rows 1 || bit_is_set other_rows 1)
bit_is_set-or_into_example =
    bit_is_set-or_into some_rows other_rows 1 some_rows-IsBytes other_rows-IsBytes refl

bit_is_set-bitwise_not_example :
    bit_is_set (bitwise_not some_rows 20) 4 ≡ (not (bit_is_set some_rows 4) && ltb 4 20)
bit_is_set-bitwise_not_example =
    bit_is_set-bitwise_not some_rows 20 4 some_rows-IsBytes some_rows_size

bit_is_set-set_bit_example :
    bit_is_set (set_bit some_rows 12) 12 ≡ (12 == 12 || bit_is_set some_rows 12)
bit_is_set-set_bit_example = bit_is_set-set_bit some_rows 12 12 (omega arith)
