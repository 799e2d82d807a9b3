-- ===== src/DebugAllocator/RoundTrip.antt =====
-- A block of src/allocator_debug.c from `_allocate` to `_release`.
use libpussy.Base.{
  ℕ, ◌+◌, ◌^◌, ◌≤◌, ◌<◌, ◌≡◌, ◌⊎◌, inl, inr, refl, ◌∙◌, arith, Bool, false, none, some, List, ◌∷◌,
  leb, if◌then◌else◌, inc64, dec64, ok, aborted,
}
use libpussy.AddressSpace.{Extent, extent}
use libpussy.Heap.{Heap, Malloc, memset, free_region, malloc_or_calloc}
use libpussy.DebugAllocator.{
  calc_memsize, check_region, region_from_block, block_from_region, wrap_block, allocate, release,
}
use libpussy.DebugAllocator.Check.{IsIntact, Checked, passes, exits, check_region-Checked}

-- What the client may do to the bytes between the two calls: anything, in the block.
abbrev pub OnlyBlock : ℕ → ℕ → (ℕ → ℕ) → (ℕ → ℕ) → Type 0
OnlyBlock block n bytes bytes' = (p : ℕ) → (p < block) ⊎ (block + n ≤ p) → bytes' p ≡ bytes p

pub record RoundTrip (malloc : Malloc) (s : Heap) (n : ℕ) (clean : Bool) (block : ℕ) : Type 0 where
  pub after : Heap
  pub returns : allocate malloc s n clean ≡ ok (some block, after)
  pub released :
      (bytes : ℕ → ℕ)
      → OnlyBlock block n after.bytes bytes
      → release (record after { bytes = bytes }) (some block) n
        ≡ ok (none, record s { bytes = bytes })
  pub caught :
      (bytes : ℕ → ℕ)
      → ¬ IsIntact bytes block n
      → release (record after { bytes = bytes }) (some block) n ≡ aborted

pub memsize : (n : ℕ) → n + 80 < 2 ^ 32 → calc_memsize n ≡ n + 80
unfolding calc_memsize
memsize n h = omega arith

pub region_back : (a : ℕ) → region_from_block (block_from_region a) ≡ a
region_back a = omega arith

counted_back : (n : ℕ) → n < 2 ^ 64 → dec64 (inc64 n) ≡ n
counted_back n h = omega arith

room : (a n : ℕ) → leb (a + (n + 80)) (block_from_region a + n) ≡ false
room a n = ground arith

freed : (a m : ℕ) (regions : List Extent) → free_region a (extent a m ∷ regions) ≡ regions
unfolding free_region
freed a m regions = ground arith

pub wrap_block-IsIntact :
    (a n : ℕ) (bytes : ℕ → ℕ)
    → IsIntact (wrap_block a n (a + (n + 80)) bytes) (block_from_region a) n
unfolding wrap_block
wrap_block-IsIntact a n bytes = record {
  below = λ p lo hi. ground arith;
  above = λ p lo hi. ground arith;
}

pub allocate-refused :
    (malloc : Malloc) (s : Heap) (n : ℕ) (clean : Bool)
    → n + 80 < 2 ^ 32
    → malloc s.regions (n + 80) ≡ none
    → allocate malloc s n clean ≡ ok (none, s)
unfolding allocate malloc_or_calloc
allocate-refused malloc s n clean fits e = rw (memsize n fits, allocate, e, malloc_or_calloc) refl

module _ (malloc : Malloc) (s : Heap) (n : ℕ) (fits : n + 80 < 2 ^ 32) (clean : Bool) (a : ℕ)
    (got : malloc s.regions (n + 80) ≡ some a) (counter : s.blocks_allocated < 2 ^ 64) where
  abbrev pub filled : ℕ → ℕ
  filled = if clean then memset a 0 (n + 80) s.bytes else s.bytes

  abbrev pub after : Heap
  after = record {
    bytes = wrap_block a n (a + (n + 80)) filled;
    regions = extent a (n + 80) ∷ s.regions;
    blocks_allocated = inc64 s.blocks_allocated;
  }

  pub allocate-returns : allocate malloc s n clean ≡ ok (some (block_from_region a), after)
  unfolding allocate malloc_or_calloc
  allocate-returns =
      rw (memsize n fits, allocate, got, malloc_or_calloc, memsize n fits, room a n) refl

  -- What the client does in the block leaves the wrap.
  kept_wrap :
      (bytes : ℕ → ℕ)
      → OnlyBlock (block_from_region a) n after.bytes bytes
      → IsIntact bytes (block_from_region a) n
  kept_wrap bytes only = record {
    below = λ p lo hi. only p (inl (omega arith)) ∙ (wrap_block-IsIntact a n filled).below p lo hi;
    above = λ p lo hi. only p (inr lo) ∙ (wrap_block-IsIntact a n filled).above p lo hi;
  }

  released-ok :
      (bytes : ℕ → ℕ)
      → check_region (record after { bytes = bytes }) (block_from_region a) n
        ≡ ok (record after { bytes = bytes })
      → release (record after { bytes = bytes }) (some (block_from_region a)) n
        ≡ ok (none, record s { bytes = bytes })
  unfolding release
  released-ok bytes e =
      rw (e, region_back a, freed a (n + 80) s.regions, counted_back s.blocks_allocated counter)
        refl

  released-aborted :
      (bytes : ℕ → ℕ)
      → check_region (record after { bytes = bytes }) (block_from_region a) n ≡ aborted
      → release (record after { bytes = bytes }) (some (block_from_region a)) n ≡ aborted
  unfolding release
  released-aborted bytes e = rw e refl

  -- If malloc gives a region, for a size that the header and the wrap can be added to, `_allocate` returns a
  -- block in it. Whatever is then written in the block and nowhere else, `_release` returns, and the regions and
  -- the count are the old ones; if a byte of the wrap was changed, `_release` ends the program.
  pub release-allocate : RoundTrip malloc s n clean (block_from_region a)
  release-allocate = record {
    after = after;
    returns = allocate-returns;
    released = λ bytes only. elim (checked bytes) [
      | passes intact e ↦ released-ok bytes e
      | exits damaged e ↦ absurd (damaged (kept_wrap bytes only))
    ];
    caught = λ bytes damaged. elim (checked bytes) [
      | passes intact e ↦ absurd (damaged intact)
      | exits damaged e ↦ released-aborted bytes e
    ];
  }
    where
      checked :
          (bytes : ℕ → ℕ)
          → Checked
              (record after { bytes = bytes })
              (block_from_region a)
              n
              (check_region (record after { bytes = bytes }) (block_from_region a) n)
      checked bytes =
          check_region-Checked (record after { bytes = bytes }) (block_from_region a) n
            (omega arith) fits
