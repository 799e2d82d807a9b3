-- ===== src/DebugAllocator/Shrink.antt =====
-- `_reallocate` of src/allocator_debug.c on a block that gets smaller.
use mathlib.Core.Path.{subst}
use libpussy.Base.{
  ℕ, ◌+◌, ◌≤◌, ◌<◌, ◌^◌, ◌≡◌, ◌≢◌, refl, sym, ◌∙◌, arith, ◌⊎◌, inl, inr, false, some, List, ◌∷◌,
  ◌++◌, map, Option-cases, ne→==, aborted,
}
use libpussy.Base.Returns.{Returns}
use libpussy.Allocator.{Reallocated, changed_addr, error}
use libpussy.Allocator.Ownership.{Block}
use libpussy.Allocator.Ownership.Regions.{Apart, IsMalloc}
use libpussy.Allocator.Ownership.Debug.{
  region_of, IsWrapped, Holds, wrapped_elsewhere, AllWrapped-remove, wrap_block-outside, freed,
  release-IsWrapped,
}
use libpussy.Heap.{Heap, Malloc, memcpy}
use libpussy.DebugAllocator.{block_from_region, release, reallocate}
use libpussy.DebugAllocator.Check.{IsIntact, passes, exits, check_region-Checked}
use libpussy.DebugAllocator.RoundTrip.{after, allocate-returns, allocate-refused}
use libpussy.DebugAllocator.Reallocate.Copy.{memcpy-outside, copied-same}

-- The block is where it was, or at a new place where the client cannot give it back.
pub data Spilled (s : Heap) (block : Block) (new : ℕ) (r : Reallocated Heap) : Type 0 where
  refused : r ≡ error (some block.address) s → Spilled s block new r
  moved :
      (p : ℕ) (s' : Heap)
      → r ≡ changed_addr p s'
      → release s' (some p) new ≡ aborted
      → Spilled s block new r

-- A block whose guards are damaged ends the program.
release-aborted :
    (s : Heap) (p n : ℕ)
    → 48 ≤ p
    → n ≤ 2 ^ 16
    → ¬ IsIntact s.bytes p n
    → release s (some p) n ≡ aborted
unfolding release
release-aborted s p n high small broken = elim (check_region-Checked s p n high (omega arith)) [
  | passes intact ok_now ↦ absurd (broken intact)
  | exits damaged gone ↦ rw gone refl
]

module _ (malloc : Malloc) (promised : IsMalloc malloc) (s : Heap) (before rest : List Block)
    (block : Block) (h : Holds s (before ++ (block ∷ rest))) (new : ℕ) (shrinks : new < block.size)
    (near : block.size ≤ new + 32) where
  here : IsWrapped s.bytes block
  here = (AllWrapped-remove s.bytes before rest block h.wrapped).0

  module _ (a : ℕ) (got : malloc s.regions (new + 80) ≡ some a) where
    abbrev made : Heap
    made = after malloc s new (omega (arith, here.small)) false a got h.counter

    -- The old bytes are copied.
    abbrev copied : Heap
    copied = record made {
      bytes = memcpy (block_from_region a) block.address block.size made.bytes;
    }

    apart : Apart a (new + 80) (map region_of (before ++ (block ∷ rest)))
    apart = subst (Apart a (new + 80)) h.regions (promised.apart s.regions (new + 80) a got)

    -- The copy stays in the region of the new block, so it leaves the old one alone.
    old-IsWrapped : IsWrapped copied.bytes block
    old-IsWrapped =
        (AllWrapped-remove copied.bytes before rest block (
          wrapped_elsewhere s.bytes copied.bytes a (new + 80) (before ++ (block ∷ rest)) only apart
            h.wrapped)).0
      where
        only : (p : ℕ) → (p < a) ⊎ (a + (new + 80) ≤ p) → copied.bytes p ≡ s.bytes p
        only p out =
            memcpy-outside (block_from_region a) block.address block.size made.bytes p
              (outside p out)
            ∙ wrap_block-outside a new s.bytes p out
          where
            outside :
                (p : ℕ)
                → (p < a) ⊎ (a + (new + 80) ≤ p)
                → (p < block_from_region a) ⊎ (block_from_region a + block.size ≤ p)
            outside p (inl lo) = inl (omega arith)
            outside p (inr hi) = inr (omega arith)

    guard_damaged :
        (i : ℕ)
        → new ≤ i
        → i < block.size
        → s.bytes (block.address + i) ≢ 255
        → ¬ IsIntact copied.bytes (block_from_region a) new
    guard_damaged i lo hi differs intact = differs (
        sym (copied-same a new s.bytes before rest block i apart here hi)
        ∙ intact.above (block_from_region a + i) (omega arith) (omega arith))

  -- Over a malloc whose regions lie apart, and with all blocks of the debug allocator intact, reallocating
  -- one of them, not clean, to a size that is smaller by up to 32 bytes, of which not all are 0xFF, fails
  -- and leaves everything as it was, or moves the block to a place from where its release ends the program.
  pub reallocate-Spilled :
      (i : ℕ)
      → new ≤ i
      → i < block.size
      → s.bytes (block.address + i) ≢ 255
      → Returns
          (Spilled s block new)
          (reallocate malloc s (some block.address) block.size new false)
  unfolding reallocate Returns
  reallocate-Spilled i lo hi differs = elim (Option-cases (malloc s.regions (new + 80))) [
    | inl e ↦
        rw
          (
            ne→== block.size new (λ e'. omega (arith, e')),
            allocate-refused malloc s new false (omega (arith, here.small)) e,
          )
          (refused refl)
    | inr (a, e) ↦
        rw
          (
            ne→== block.size new (λ e'. omega (arith, e')),
            allocate-returns malloc s new (omega (arith, here.small)) false a e h.counter,
            release-IsWrapped (copied a e) block (old-IsWrapped a e),
          )
          (moved (block_from_region a) (freed (copied a e) block) refl (
            release-aborted (freed (copied a e) block) (block_from_region a) new (omega arith)
              (omega (arith, here.small)) (guard_damaged a e i lo hi differs)))
  ]
