-- ===== src/PetAllocator/Sizes.antt =====
-- The sizes that `_init` of src/allocator_pet.c computes, as functions of `sys_page_size`, and the address
-- arithmetic of blocks.
pub mod Laws
use libpussy.Base.{ℕ, ◌+◌, ◌-◌, ◌*◌, ◌/◌, ◌%◌, ◌^◌, bit_and, u32, sub32}
use libpussy.Base.Bits.{complement}
use libpussy.Align.{align_unsigned}

abbrev pub unit_size : ℕ
unit_size = 16

-- `offsetof(BmPageHeader, bitmap)`: three pointers.
abbrev pub bitmap_offset : ℕ
bitmap_offset = 24

abbrev pub units_per_page : ℕ → ℕ
units_per_page page = page / unit_size

abbrev pub header_units : ℕ → ℕ
header_units page = (bitmap_offset + units_per_page page / 8 + unit_size - 1) / unit_size

abbrev pub max_data_units : ℕ → ℕ
max_data_units page = sub32 (units_per_page page) (header_units page)

unfoldable pub bytes_to_units : ℕ → ℕ
bytes_to_units nbytes = align_unsigned nbytes unit_size / unit_size

-- The page that an address is in.
unfoldable pub bm_page_by_addr : ℕ → ℕ → ℕ
bm_page_by_addr page addr = bit_and addr (complement 64 (page - 1))

unfoldable pub ptrdiff_to_units : ℕ → ℕ → ℕ
ptrdiff_to_units addr bm_page = u32 ((addr - bm_page) / unit_size)
