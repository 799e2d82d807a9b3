-- ===== src/MmArray/Tests.antt =====
-- The arrays of src/mmarray.c on pages of 32 bytes, of which the header takes a half.
use libpussy.Base.{ℕ, ◌^◌, ◌≡◌, ◌⊎◌, refl, arith, none, ok, aborted, undefined, replicate, ◌++◌}
use libpussy.Base.Memory.{load, store}
use libpussy.MemoryMap.Zeroed.{zeroed, zeroed-IsMemoryMap}
use libpussy.MmArray.{MmArray, calc_memsize, capacity_of, mmarray_allocate, mmarray_append_item}
use libpussy.MmArray.Inv.{IsArray}
use libpussy.MmArray.Append.{Appended, mmarray_append_item_lem}

-- Two items of 8 bytes fill the mapping.
abbrev full : MmArray
full = record { capacity = 2; length = 2; item_size = 8; bytes = replicate 16 0 ++ replicate 16 7 }

full-IsArray : IsArray (2 ^ 5) full
full-IsArray = record {
  some_bytes = omega arith;
  filled = omega arith;
  memsize = record { room = omega arith; tight = omega arith; multiple = refl };
  small = omega arith;
}

size_test : calc_memsize (2 ^ 5) 3 8 ≡ 64
unfolding calc_memsize
size_test = refl

allocate_test :
    mmarray_allocate zeroed (2 ^ 5) 1 8
    ≡ ok (record { capacity = 2; length = 1; item_size = 8; bytes = replicate 32 0 })
unfolding mmarray_allocate calc_memsize
allocate_test = refl

no_items_test : mmarray_allocate zeroed (2 ^ 5) 1 0 ≡ undefined
unfolding mmarray_allocate calc_memsize
no_items_test = refl

append_test :
    mmarray_append_item zeroed (2 ^ 5) full (replicate 8 9)
    ≡ ok (record {
      capacity = 6;
      length = 3;
      item_size = 8;
      bytes = replicate 16 0 ++ (replicate 16 7 ++ (replicate 8 9 ++ replicate 24 0));
    })
unfolding mmarray_append_item calc_memsize capacity_of load store
append_test = refl

mmarray_append_item_lem_example :
    Appended (2 ^ 5) full (replicate 8 9) (mmarray_append_item zeroed (2 ^ 5) full (replicate 8 9))
    ⊎ ((n : ℕ) × (zeroed.mremap full.bytes n ≡ none)
        × (mmarray_append_item zeroed (2 ^ 5) full (replicate 8 9) ≡ aborted))
mmarray_append_item_lem_example =
    mmarray_append_item_lem zeroed zeroed-IsMemoryMap 5 (omega arith) full (replicate 8 9)
      full-IsArray refl (omega arith)
