-- ===== src/Allocator/Ownership/Debug.antt =====
-- The allocator of src/allocator_debug.c keeps account of the blocks of its client, which leaves the bytes on
-- either side of each block alone.
use mathlib.Core.Path.{subst}
use libpussy.Base.{
  ℕ, ◌+◌, ◌-◌, ◌≤◌, ◌<◌, ◌^◌, ◌≡◌, refl, sym, ◌∙◌, ap₂, arith, dec64, ◌⊎◌, inl, inr, Bool, none,
  some, ok, List, [], ◌∷◌, ◌++◌, map, Option-cases, if◌then◌else◌,
}
use libpussy.Base.Returns.{Returns}
use libpussy.AddressSpace.{Extent, extent}
use libpussy.PageList.Ring.{Distinct}
use libpussy.Heap.{free_region, Heap, Malloc, memset}
use libpussy.Allocator.Ownership.{Block, Granted, TakenBack, Owns}
use libpussy.Allocator.Ownership.Regions.{starts, Apart, IsMalloc, free_region-map}
use libpussy.DebugAllocator.{
  debug_allocator, region_from_block, block_from_region, wrap_block, check_region, calc_memsize,
}
use libpussy.DebugAllocator
use libpussy.DebugAllocator.Check.{IsIntact, passes, exits, check_region-Checked}
use libpussy.DebugAllocator.RoundTrip.{
  wrap_block-IsIntact, filled, allocate-returns, allocate-refused, region_back,
}

-- The header, the bytes of 0xFF, and the block.
abbrev pub region_of : Block → Extent
region_of b = extent (region_from_block b.address) (b.size + 80)

-- A block that `_release` takes.
pub record IsWrapped (bytes : ℕ → ℕ) (b : Block) : Type 0 where
  pub high : 48 ≤ b.address
  pub small : b.size ≤ 2 ^ 16
  pub intact : IsIntact bytes b.address b.size

unfoldable pub AllWrapped : (ℕ → ℕ) → List Block → Type 0
AllWrapped bytes [] = Unit
AllWrapped bytes (b ∷ blocks) = IsWrapped bytes b × AllWrapped bytes blocks

pub record Holds (s : Heap) (blocks : List Block) : Type 0 where
  pub regions : s.regions ≡ map region_of blocks
  pub distinct : Distinct (starts s.regions)
  pub wrapped : AllWrapped s.bytes blocks
  pub counter : s.blocks_allocated < 2 ^ 64

-- What is written in a new region leaves the blocks alone.
pub wrapped_elsewhere :
    (bytes bytes' : ℕ → ℕ) (a n : ℕ) (blocks : List Block)
    → ((p : ℕ) → (p < a) ⊎ (a + n ≤ p) → bytes' p ≡ bytes p)
    → Apart a n (map region_of blocks)
    → AllWrapped bytes blocks
    → AllWrapped bytes' blocks
unfolding Apart AllWrapped
wrapped_elsewhere bytes bytes' a n [] outside apart w = w
wrapped_elsewhere bytes bytes' a n (b ∷ blocks) outside apart w = (
  record {
    high = w.0.high;
    small = w.0.small;
    intact = record {
      below = λ p lo hi.
          outside p (side p (omega (arith, w.0.high)) (omega (arith, w.0.high)))
          ∙ w.0.intact.below p lo hi;
      above = λ p lo hi.
          outside p (side p (omega (arith, w.0.high)) (omega (arith, w.0.high)))
          ∙ w.0.intact.above p lo hi;
    };
  },
  wrapped_elsewhere bytes bytes' a n blocks outside apart.1 w.1,
)
  where
    side : (p : ℕ) → b.address - 48 ≤ p → p < b.address - 48 + (b.size + 80) → (p < a) ⊎ (a + n ≤ p)
    side p lo hi = elim apart.0 [ inl before ↦ inr (omega arith) | inr behind ↦ inl (omega arith) ]

pub AllWrapped-remove :
    (bytes : ℕ → ℕ) (before rest : List Block) (b : Block)
    → AllWrapped bytes (before ++ (b ∷ rest))
    → IsWrapped bytes b × AllWrapped bytes (before ++ rest)
unfolding AllWrapped
AllWrapped-remove bytes [] rest b w = w
AllWrapped-remove bytes (x ∷ before) rest b w =
    let (here, others) = AllWrapped-remove bytes before rest b w.1 in (here, (w.0, others))

pub wrap_block-outside :
    (a n : ℕ) (bytes : ℕ → ℕ) (p : ℕ)
    → (p < a) ⊎ (a + (n + 80) ≤ p)
    → wrap_block a n (a + (n + 80)) bytes p ≡ bytes p
unfolding wrap_block
wrap_block-outside a n bytes p h = ground arith

filled-outside :
    (s : Heap) (n a : ℕ) (clean : Bool) (p : ℕ)
    → (p < a) ⊎ (a + (n + 80) ≤ p)
    → (if clean then memset a 0 (n + 80) s.bytes else s.bytes) p ≡ s.bytes p
filled-outside s n a clean p h = ground arith

-- The heap without the region of a block.
abbrev pub freed : Heap → Block → Heap
freed s block = record s {
  regions = free_region (region_from_block block.address) s.regions;
  blocks_allocated = dec64 s.blocks_allocated;
}

-- A block with its guards intact is given back.
pub release-IsWrapped :
    (s : Heap) (block : Block)
    → IsWrapped s.bytes block
    → DebugAllocator.release s (some block.address) block.size ≡ ok (none, freed s block)
unfolding DebugAllocator.release
release-IsWrapped s block w =
    elim (check_region-Checked s block.address block.size w.high (omega (arith, w.small))) [
      | passes intact ok_now ↦ rw ok_now refl
      | exits damaged gone ↦ absurd (damaged w.intact)
    ]

pub release_freed :
    (s : Heap) (before rest : List Block) (block : Block)
    → Holds s (before ++ (block ∷ rest))
    → (DebugAllocator.release s (some block.address) block.size ≡ ok (none, freed s block))
      × Holds (freed s block) (before ++ rest)
release_freed s before rest block h =
    let (here, others) = AllWrapped-remove s.bytes before rest block h.wrapped in
    let (e, d) = free_region-map region_of s.regions before rest block h.regions h.distinct in
    (
      release-IsWrapped s block here,
      record { regions = e; distinct = d; wrapped = others; counter = omega arith },
    )

module _ (malloc : Malloc) (promised : IsMalloc malloc) where
  grants :
      (s : Heap) (blocks : List Block) (n : ℕ) (clean : Bool)
      → n ≤ 2 ^ 16
      → Holds s blocks
      → Returns (Granted Holds n blocks) (DebugAllocator.allocate malloc s n clean)
  unfolding Granted Returns Distinct AllWrapped
  grants s blocks n clean small h = elim (Option-cases (malloc s.regions (n + 80))) [
    | inl e ↦ rw (allocate-refused malloc s n clean (omega arith) e) h
    | inr (a, e) ↦ rw (allocate-returns malloc s n (omega arith) clean a e h.counter) (record {
      regions = ap₂ (λ p t. extent p (n + 80) ∷ t) (sym (region_back a)) h.regions;
      distinct = (promised.fresh s.regions (n + 80) a e, h.distinct);
      wrapped = (
        record {
          high = omega arith;
          small = small;
          intact = wrap_block-IsIntact a n (filled malloc s n (omega arith) clean a e h.counter);
        },
        wrapped_elsewhere s.bytes _ a (n + 80) blocks
            (λ p out. wrap_block-outside a n _ p out ∙ filled-outside s n a clean p out)
            (subst (Apart a (n + 80)) h.regions (promised.apart s.regions (n + 80) a e)) h.wrapped,
      );
      counter = omega arith;
    })
  ]

  takes_back :
      (s : Heap) (before rest : List Block) (block : Block)
      → Holds s (before ++ (block ∷ rest))
      → Returns
          (TakenBack Holds (before ++ rest))
          (DebugAllocator.release s (some block.address) block.size)
  unfolding TakenBack Returns
  takes_back s before rest block h = let (e, h') = release_freed s before rest block h in rw e h'

  -- Over a malloc whose regions lie apart, the debug allocator keeps account of its blocks of up to 64 KiB,
  -- as long as nobody writes outside of them: allocate returns null or one block more, and release takes
  -- back any of them, in any order, and leaves the others.
  pub debug_allocator-Owns : Owns Holds (debug_allocator malloc)
  debug_allocator-Owns = record { grants = grants; takes_back = takes_back }
