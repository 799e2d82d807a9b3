-- ===== src/PetAllocator/Sizes/Laws.antt =====
-- The sizes of src/allocator_pet.c fit together, for page sizes that are multiples of 1024.
use libpussy.Base.{ℕ, ◌+◌, ◌*◌, ◌/◌, ◌%◌, ◌^◌, ◌≤◌, ◌<◌, ◌≡◌, arith}
use libpussy.Align.Laws.{align_unsigned_least, align_unsigned_bounds}
use libpussy.PetAllocator.Sizes.{units_per_page, header_units, max_data_units, bytes_to_units}

-- A whole number of words for the bitmap.
pub record IsPageSize (page : ℕ) : Type 0 where
  pub multiple : page % 1024 ≡ 0
  pub some_bytes : 0 < page
  pub small : page < 2 ^ 32

-- For a page size that is a multiple of 1024 below 2^32, the bitmap has whole words, the units of the header
-- hold the header with its bitmap and no spare unit, at least half of the page is left for blocks, and the
-- subtraction of `max_data_units` does not wrap.
pub init_sizes :
    (page : ℕ)
    → IsPageSize page
    → (units_per_page page % 64 ≡ 0)
      × (24 + units_per_page page / 8 ≤ header_units page * 16)
      × (header_units page * 16 < 24 + units_per_page page / 8 + 16)
      × (2 * header_units page ≤ units_per_page page)
      × (max_data_units page + header_units page ≡ units_per_page page)
init_sizes page v = omega (arith, v.multiple, v.some_bytes, v.small)

-- For a size that `unsigned` can round up, `bytes_to_units` is the least number of units that hold it.
pub bytes_to_units_lem :
    (n : ℕ) → n + 15 < 2 ^ 32 → (n ≤ bytes_to_units n * 16) × (bytes_to_units n * 16 < n + 16)
unfolding bytes_to_units
bytes_to_units_lem n fits = omega (
  arith,
  align_unsigned_least 4 (omega arith) n fits,
  align_unsigned_bounds n 16 (omega arith) fits,
)
