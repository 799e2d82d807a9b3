-- ===== src/Align.antt =====
-- The alignment helpers of include/allocator.h, on the 32-bit `unsigned` and on 64-bit addresses.
-- `sys_page_size` comes from `sysconf`, so it is an argument, `page`.
pub mod Laws
mod Tests
use libpussy.Base.{ℕ, ◌+◌, ◌-◌, ◌%◌, ◌^◌, bit_and, ltb, if◌then◌else◌, u32}
use libpussy.Base.Bits.{complement}

unfoldable pub align_unsigned : ℕ → ℕ → ℕ
align_unsigned n alignment =
    if ltb 1 alignment
    then (let mask = alignment - 1 in bit_and (u32 (n + mask)) (complement 32 mask))
    else n

-- An address is its bit pattern, below 2 ^ 64; `ptrdiff_t` arithmetic wraps at that width.
unfoldable pub align_pointer : ℕ → ℕ → ℕ
align_pointer ptr alignment =
    if ltb 1 alignment
    then (let mask = alignment - 1 in bit_and ((ptr + mask) % 2 ^ 64) (complement 64 mask))
    else ptr

module _ (page : ℕ) where
  unfoldable pub align_unsigned_to_page : ℕ → ℕ
  align_unsigned_to_page n = align_unsigned n page

  unfoldable pub align_pointer_to_page : ℕ → ℕ
  align_pointer_to_page ptr = align_pointer ptr page
