-- ===== src/DebugAllocator/MoveTests.antt =====
-- Runs of `_reallocate` of src/allocator_debug.c on a heap with one block of five bytes at 64.
use libpussy.Base.{◌≢◌, refl, arith, true, false, some, [], ◌∷◌}
use Prim.{tt}
use libpussy.Base.Returns.{Returns}
use libpussy.AddressSpace.{extent}
use libpussy.PageList.Ring.{Distinct, NotIn}
use libpussy.Heap.{Heap}
use libpussy.Allocator.Ownership.{Block}
use libpussy.Allocator.Ownership.Bump.{bump_malloc, bump_malloc-IsMalloc}
use libpussy.Allocator.Ownership.Debug.{AllWrapped, Holds}
use libpussy.DebugAllocator.{wrap_block, reallocate}
use libpussy.DebugAllocator.RoundTrip.{wrap_block-IsIntact}
use libpussy.DebugAllocator.Reallocate.{Grown, reallocate-Grown}
use libpussy.DebugAllocator.Shrink.{Spilled, reallocate-Spilled}

abbrev five : Block
five = record { address = 64; size = 5 }

abbrev with_five : Heap
with_five = record {
  bytes = wrap_block 16 5 101 (λ a. 7);
  regions = extent 16 85 ∷ [];
  blocks_allocated = 1;
}

with_five-Holds : Holds with_five (five ∷ [])
unfolding Distinct NotIn AllWrapped
with_five-Holds = record {
  regions = refl;
  distinct = (tt, tt);
  wrapped = (
    record { high = omega arith; small = omega arith; intact = wrap_block-IsIntact 16 5 (λ a. 7) },
    tt,
  );
  counter = omega arith;
}

reallocate-Grown_example :
    Returns
      (Grown with_five [] [] five 9 true)
      (reallocate bump_malloc with_five (some 64) 5 9 true)
reallocate-Grown_example =
    reallocate-Grown bump_malloc bump_malloc-IsMalloc with_five [] [] five with_five-Holds 9
      (omega arith) (omega arith) true

seven : with_five.bytes 68 ≢ 255
unfolding wrap_block
seven e = omega (arith, e)

reallocate-Spilled_example :
    Returns (Spilled with_five five 3) (reallocate bump_malloc with_five (some 64) 5 3 false)
reallocate-Spilled_example =
    reallocate-Spilled bump_malloc bump_malloc-IsMalloc with_five [] [] five with_five-Holds 3
      (omega arith) (omega arith) 4 (omega arith) (omega arith) seven
