-- ===== src/PetAllocator/Search.antt =====
-- `find_free_block` and `find_longest_free_block` of src/allocator_pet.c: the search for free units in
-- the bitmap of a page. Both stop after at most `units_per_page` rounds, and run with more fuel. `unsigned` does
-- not wrap in a sum of offsets, since a run ends in the bitmap at the latest; the subtractions are written out.
pub mod Gap
pub mod FirstFit
pub mod Longest
use libpussy.Base.{
  ℕ, zero, suc, ◌+◌, ◌-◌, ◌^◌, List, ltb, leb, ◌==◌, if◌then◌else◌, sub32, Run, ok, ◌>>=◌,
}
use libpussy.PetAllocator.Bitmap.{count_zero_bits, count_nonzero_bits}

abbrev pub uint_max : ℕ
uint_max = 2 ^ 32 - 1

-- The sizes that `_init` computes: `units_per_page` and `bm_page_header_size_in_units`.
module _ (units_per_page header_units : ℕ) (bm : List ℕ) where
  unfoldable pub find_free_from : ℕ → ℕ → ℕ → Run ℕ
  find_free_from block_size zero offset = ok 0
  find_free_from block_size (suc fuel) offset =
      if ltb offset units_per_page
      then (do
        length ← count_zero_bits units_per_page bm offset block_size
        if leb block_size length then ok offset else (do
          used ← count_nonzero_bits units_per_page bm (offset + length) uint_max
          find_free_from block_size fuel (offset + length + used)))
      else ok 0

  unfoldable pub find_free_block : ℕ → Run ℕ
  unfolding find_free_from
  find_free_block block_size = find_free_from block_size (units_per_page + 1) header_units

  -- `n` is the number of units left.
  unfoldable pub find_longest_from : ℕ → ℕ → ℕ → ℕ → Run ℕ
  find_longest_from zero offset n lfb = ok lfb
  find_longest_from (suc fuel) offset n lfb = if n == 0 then ok lfb else (do
    length ← count_zero_bits units_per_page bm offset n
    let lfb' = if ltb lfb length then length else lfb
    let n' = sub32 n length
    used ← count_nonzero_bits units_per_page bm (offset + length) n'
    find_longest_from fuel (offset + length + used) (sub32 n' used) lfb')

  unfoldable pub find_longest_free_block : Run ℕ
  unfolding find_longest_from
  find_longest_free_block =
      find_longest_from (units_per_page + 1) header_units (units_per_page - header_units) 0
