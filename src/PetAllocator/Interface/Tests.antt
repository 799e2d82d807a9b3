-- ===== src/PetAllocator/Interface/Tests.antt =====
-- A block of two pages of 4096 bytes of src/allocator_pet.c.
use libpussy.Base.{refl, sym, arith, true, none, some, [], ◌∷◌, if◌then◌else◌}
use mathlib.Core.Option.{some-injective}
use libpussy.AddressSpace.{Mmap, extent}
use libpussy.PetAllocator.Sizes.Laws.{bytes_to_units_lem}
use libpussy.PetAllocator.State.{Pet}
use libpussy.PetAllocator.Interface.{Mremap, reallocate}
use libpussy.PetAllocator.Interface.Remap.Calls.{IsMremap}
use libpussy.PetAllocator.Interface.Remap.{Remapped, reallocate-Remapped}

abbrev two_pages : Pet
two_pages = record {
  lru_page = none;
  superblock = λ i. none;
  list = λ p. none;
  next = λ p. p;
  prev = λ p. p;
  bitmap = λ p. [];
  bytes = λ a. 7;
  maps = extent 8192 8192 ∷ [];
  num_bm_pages = 0;
  blocks_allocated = 1;
}

abbrev full : Mmap
full maps n = none

-- What may move goes to 65536.
abbrev moving : Mremap
moving maps addr old new moves = some (if moves then 65536 else addr)

moving-IsMremap : IsMremap moving
moving-IsMremap = record { stays = λ maps addr old new a e. sym (some-injective addr a e) }

reallocate-Remapped_example :
    Remapped 4096 8192 8000 12000 true moving two_pages
      (reallocate 4096 full moving two_pages (some 8192) 8000 12000 true)
reallocate-Remapped_example =
    reallocate-Remapped 12 (omega arith)
      (record { multiple = refl; some_bytes = omega arith; small = omega arith }) full moving
      moving-IsMremap two_pages 8192 (record { aligned = refl; inside = omega arith }) 8000 12000
      true (omega arith) (omega arith) (omega arith)
      (omega (arith, bytes_to_units_lem 8000 (omega arith)))
      (omega (arith, bytes_to_units_lem 12000 (omega arith)))
