-- ===== src/DebugAllocator/Tests.antt =====
-- Runs of src/allocator_debug.c on a heap whose first region starts at 1000.
use libpussy.Base.{◌-◌, ◌^◌, ◌≡◌, refl, arith, true, false, some, [], aborted, ◌>>=◌}
use libpussy.Heap.{Heap, Malloc, memset, malloc_or_calloc}
use libpussy.DebugAllocator.{
  calc_memsize, damaged_lower, damaged_upper, wrap_block, check_region, allocate, release,
}
use libpussy.DebugAllocator.Check.{Checked, check_region-Checked}
use libpussy.DebugAllocator.RoundTrip.{RoundTrip, release-allocate}

abbrev at_1000 : Malloc
at_1000 regions n = some 1000

abbrev empty : Heap
empty = record { bytes = λ a. 0; regions = []; blocks_allocated = 0 }

check_region-Checked_example : Checked empty 1048 5 (check_region empty 1048 5)
check_region-Checked_example = check_region-Checked empty 1048 5 (omega arith) (omega arith)

release-allocate_example : RoundTrip at_1000 empty 5 true 1048
release-allocate_example =
    release-allocate at_1000 empty 5 (omega arith) true 1000 refl (omega arith)

-- A size that wraps is caught.
allocate_wraps_test : allocate at_1000 empty (2 ^ 32 - 60) false ≡ aborted
unfolding allocate malloc_or_calloc calc_memsize
allocate_wraps_test = refl

-- One byte past the end of a block of five.
overrun_test :
    (do
      (block, s) ← allocate at_1000 empty 5 false
      release (record s { bytes = memset 1053 7 1 s.bytes }) block 5)
    ≡ aborted
unfolding allocate release check_region malloc_or_calloc calc_memsize damaged_lower damaged_upper
    wrap_block
overrun_test = refl
