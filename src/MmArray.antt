-- ===== src/MmArray.antt =====
-- src/mmarray.c. The header at the start of the mapping is the fields of a record; `bytes` are those of
-- the whole mapping, of which the first 16 stand for the header. The pointer that the functions take and
-- return is 16 bytes behind the start of the mapping, and `get_array_header` leads back to it, since a
-- mapping begins at a page and a page is larger than the header.
pub mod Size
pub mod Inv
pub mod Grow
pub mod Append
mod Tests
use libpussy.Base.{
  ℕ, ◌+◌, ◌-◌, ◌*◌, ◌/◌, ◌%◌, ◌^◌, bit_and, none, some, List, length, ltb, ◌==◌, if◌then◌else◌, u32,
  Run, ok, aborted, undefined, ◌>>=◌,
}
use libpussy.Base.Bits.{complement}
use libpussy.Base.Memory.{load, store}
use libpussy.MemoryMap.{MemoryMap}

pub record MmArray : Type 0 where
  pub capacity : ℕ
  pub length : ℕ
  pub item_size : ℕ
  pub bytes : List ℕ

abbrev pub header_size : ℕ
header_size = 16

-- `size_t` is 64 bits wide.
abbrev pub size_t : ℕ → ℕ
size_t n = n % 2 ^ 64

module _ (page : ℕ) where
  unfoldable pub calc_memsize : ℕ → ℕ → ℕ
  calc_memsize capacity item_size =
      bit_and (size_t (header_size + capacity * item_size + (page - 1))) (complement 64 (page - 1))

-- The capacity of a mapping of `memsize` bytes; a division by zero is undefined.
unfoldable pub capacity_of : ℕ → ℕ → Run ℕ
capacity_of memsize item_size =
    if item_size == 0 then undefined else ok (u32 ((memsize - header_size) / item_size))

unfoldable pub mmarray_length : MmArray → ℕ
mmarray_length a = a.length

unfoldable pub mmarray_capacity : MmArray → ℕ
mmarray_capacity a = a.capacity

module _ (m : MemoryMap) (page : ℕ) where
  unfoldable pub mmarray_allocate : ℕ → ℕ → Run MmArray
  unfolding calc_memsize capacity_of
  mmarray_allocate length item_size =
      let memsize = calc_memsize page length item_size in
      elim (m.mmap memsize) [
        | none ↦ aborted
        | some b ↦ do
          c ← capacity_of memsize item_size
          ok (record { capacity = c; length = length; item_size = item_size; bytes = b })
      ]

  -- `mremap`, told the old size; a wrong one is not what the call is for.
  unfoldable pub remap : List ℕ → ℕ → ℕ → Run (List ℕ)
  remap b old_memsize new_memsize =
      if old_memsize == length b
      then elim (m.mremap b new_memsize) [ none ↦ aborted | some b' ↦ ok b' ]
      else undefined

  unfoldable pub mmarray_grow : MmArray → ℕ → Run MmArray
  unfolding remap
  mmarray_grow a increment =
      if ltb a.capacity (u32 (a.length + increment))
      then (do
        let new_memsize = calc_memsize page (u32 (a.length + increment)) a.item_size
        b ← remap a.bytes (calc_memsize page a.capacity a.item_size) new_memsize
        c ← capacity_of new_memsize a.item_size
        ok (record {
          capacity = c;
          length = u32 (a.length + increment);
          item_size = a.item_size;
          bytes = b;
        }))
      else ok (record a { length = u32 (a.length + increment) })

  unfoldable pub mmarray_append_item : MmArray → List ℕ → Run MmArray
  unfolding mmarray_grow mmarray_length
  mmarray_append_item a item = do
    let index = mmarray_length a
    a' ← mmarray_grow a 1
    x ← load item 0 a'.item_size
    b ← store a'.bytes (header_size + u32 (index * a'.item_size)) x
    ok (record a' { bytes = b })
