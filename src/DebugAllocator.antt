-- ===== src/DebugAllocator.antt =====
-- src/allocator_debug.c: an allocator that puts 32 bytes of 0xFF on either side of each block, behind a header,
-- and looks at them when the block is released. `exit(1)` ends the program.
pub mod Check
pub mod RoundTrip
pub mod Reallocate
pub mod Shrink
mod Tests
mod MoveTests
use libpussy.Base.{
  ℕ, zero, suc, ◌+◌, ◌-◌, ◌*◌, ◌/◌, ◌%◌, ◌^◌, Bool, true, false, not, ◌&&◌, ◌||◌, Option, none,
  some, leb, ltb, ◌==◌, if◌then◌else◌, u32, sub32, inc64, dec64, Run, ok, aborted, ◌>>=◌,
}
use libpussy.Allocator.{Allocator, Reallocated, same_addr, changed_addr, error, allocated}
use libpussy.Heap.{Heap, Malloc, memset, memcpy, free_region, malloc_or_calloc}

abbrev pub bubblewrap : ℕ
bubblewrap = 32

-- `sizeof(MemBlockInfo)`: a pointer, and a union as long as one.
abbrev pub info_size : ℕ
info_size = 16

unfoldable pub calc_memsize : ℕ → ℕ
calc_memsize nbytes = u32 (info_size + nbytes + bubblewrap * 2)

abbrev pub region_from_block : ℕ → ℕ
region_from_block block = block - info_size - bubblewrap

abbrev pub block_from_region : ℕ → ℕ
block_from_region region_start = region_start + info_size + bubblewrap

-- The bytes of the `n` from `start` on that are not 0xFF, counted from the top down.
unfoldable pub damaged_lower : (ℕ → ℕ) → ℕ → ℕ → ℕ
damaged_lower bytes start zero = 0
damaged_lower bytes start (suc n) =
    (if bytes (start + n) == 255 then 0 else 1) + damaged_lower bytes start n

-- The same from `p` up.
unfoldable pub damaged_upper : (ℕ → ℕ) → ℕ → ℕ → ℕ
damaged_upper bytes p zero = 0
damaged_upper bytes p (suc n) = (if bytes p == 255 then 0 else 1) + damaged_upper bytes (p + 1) n

unfoldable pub check_region : Heap → ℕ → ℕ → Run Heap
check_region s block nbytes =
    let region_start = region_from_block block in
    let block_end = block_from_region region_start + nbytes in
    let num_damaged_lower = damaged_lower s.bytes (region_start + info_size) bubblewrap in
    let num_damaged_upper =
      damaged_upper s.bytes block_end (region_start + calc_memsize nbytes - block_end) in
    if not (num_damaged_upper == 0) || not (num_damaged_lower == 0) then aborted else ok s

-- The bytes of a number of `width` bytes, the lowest first.
abbrev pub put_number : ℕ → ℕ → ℕ → (ℕ → ℕ) → ℕ → ℕ
put_number addr width value bytes a =
    if leb addr a && ltb a (addr + width) then value / 256 ^ (a - addr) % 256 else bytes a

-- The bubble wrap, and the header on top of it.
unfoldable pub wrap_block : ℕ → ℕ → ℕ → (ℕ → ℕ) → ℕ → ℕ
wrap_block region_start nbytes region_end bytes =
    let block_start = block_from_region region_start in
    let block_end = block_start + nbytes in
    let wrapped =
      memset block_end 255 (region_end - block_end)
        (memset region_start 255 (block_start - region_start) bytes) in
    put_number (region_start + 8) 4 nbytes (put_number region_start 8 block_start wrapped)

-- The pointer is null afterwards.
unfoldable pub release : Heap → Option ℕ → ℕ → Run (Option ℕ × Heap)
release s none nbytes = ok (none, s)
release s (some addr) nbytes = do
  s' ← check_region s addr nbytes
  ok (
    none,
    record s' {
      regions = free_region (region_from_block addr) s'.regions;
      blocks_allocated = dec64 s'.blocks_allocated;
    },
  )

module _ (malloc : Malloc) where
  unfoldable pub allocate : Heap → ℕ → Bool → Run (Option ℕ × Heap)
  allocate s nbytes clean =
      let memsize = calc_memsize nbytes in
      elim (malloc_or_calloc malloc s memsize clean) [
        | none ↦ ok (none, s)
        | some (region_start, s') ↦
            let region_end = region_start + memsize in
            let block_start = block_from_region region_start in
            if leb region_end (block_start + nbytes)
            then aborted
            else ok (
              some block_start,
              record s' {
                bytes = wrap_block region_start nbytes region_end s'.bytes;
                blocks_allocated = inc64 s'.blocks_allocated;
              },
            )
      ]

  unfoldable pub reallocate : Heap → Option ℕ → ℕ → ℕ → Bool → Run (Reallocated Heap)
  reallocate s ptr old_nbytes new_nbytes clean =
      if old_nbytes == new_nbytes then ok (same_addr ptr s) else elim ptr [
        | none ↦
            if not (old_nbytes == 0)
            then ok (error none s)
            else allocate s new_nbytes clean >>= allocated
        | some addr ↦ do
          (block, s') ← allocate s new_nbytes false
          elim block [
            | none ↦ ok (error (some addr) s')
            | some b ↦ do
              (p, s'') ←
                  release (record s' { bytes = memcpy b addr old_nbytes s'.bytes }) (some addr)
                    old_nbytes
              let cleaned = memset (b + old_nbytes) 0 (sub32 new_nbytes old_nbytes) s''.bytes
              ok (changed_addr b (record s'' { bytes = if clean then cleaned else s''.bytes }))
          ]
      ]

  abbrev pub debug_allocator : Allocator Heap
  debug_allocator = record {
    init = none;
    allocate = allocate;
    reallocate = reallocate;
    release = release;
  }
