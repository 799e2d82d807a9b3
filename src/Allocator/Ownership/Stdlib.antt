-- ===== src/Allocator/Ownership/Stdlib.antt =====
-- The allocator of src/allocator_stdlib.c keeps account of the blocks of its client.
use libpussy.Base.{ℕ, ◌≡◌, ap, inl, inr, Bool, some, List, ◌∷◌, ◌++◌, map, Option-cases}
use libpussy.Base.Returns.{Returns}
use libpussy.AddressSpace.{Extent, extent}
use libpussy.PageList.Ring.{Distinct}
use libpussy.Heap.{Heap, Malloc, malloc_or_calloc}
use libpussy.Allocator.Ownership.{Block, Granted, TakenBack, Owns}
use libpussy.Allocator.Ownership.Regions.{starts, IsMalloc, free_region-map}
use libpussy.StdlibAllocator.{stdlib_allocator}
use libpussy.StdlibAllocator

abbrev pub region_of : Block → Extent
region_of b = extent b.address b.size

-- The regions are those of the blocks.
pub record Holds (s : Heap) (blocks : List Block) : Type 0 where
  pub regions : s.regions ≡ map region_of blocks
  pub distinct : Distinct (starts s.regions)

module _ (malloc : Malloc) (promised : IsMalloc malloc) where
  grants :
      (s : Heap) (blocks : List Block) (n : ℕ) (clean : Bool)
      → Holds s blocks
      → Returns (Granted Holds n blocks) (StdlibAllocator.allocate malloc s n clean)
  unfolding StdlibAllocator.allocate malloc_or_calloc Granted Returns Distinct
  grants s blocks n clean h = elim (Option-cases (malloc s.regions n)) [
    | inl e ↦ rw (StdlibAllocator.allocate, malloc_or_calloc, e) h
    | inr (a, e) ↦
        rw (StdlibAllocator.allocate, malloc_or_calloc, e)
          (record {
            regions = ap (λ t. extent a n ∷ t) h.regions;
            distinct = (promised.fresh s.regions n a e, h.distinct);
          })
  ]

  takes_back :
      (s : Heap) (before after : List Block) (block : Block)
      → Holds s (before ++ (block ∷ after))
      → Returns
          (TakenBack Holds (before ++ after))
          (StdlibAllocator.release s (some block.address) block.size)
  unfolding StdlibAllocator.release TakenBack Returns
  takes_back s before after block h =
      let (e, d) = free_region-map region_of s.regions before after block h.regions h.distinct in
      record { regions = e; distinct = d }

  -- Over a malloc whose regions lie apart and start at places of their own, the allocator over malloc keeps
  -- account of its blocks, for sizes of up to 64 KiB: its regions are exactly the blocks, allocate returns
  -- null or one block more, and release takes back any of them, in any order, and leaves the others.
  pub stdlib_allocator-Owns : Owns Holds (stdlib_allocator malloc)
  stdlib_allocator-Owns = record {
    grants = λ s blocks n clean small. grants s blocks n clean;
    takes_back = takes_back;
  }
