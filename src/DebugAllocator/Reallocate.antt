-- ===== src/DebugAllocator/Reallocate.antt =====
-- `_reallocate` of src/allocator_debug.c on a block that moves.
pub mod Copy
use mathlib.Core.Path.{subst}
use libpussy.Base.{
  ℕ, ◌+◌, ◌-◌, ◌≤◌, ◌<◌, ◌^◌, ◌≡◌, refl, sym, ap, ap₂, ◌∙◌, arith, ◌⊎◌, inl, inr, Bool, true, false,
  none, some, List, [], ◌∷◌, ◌++◌, map, Option-cases, ne→==, sub32, ok, if◌then◌else◌,
}
use libpussy.Base.Returns.{Returns}
use libpussy.AddressSpace.{extent}
use libpussy.PageList.Ring.{Distinct}
use libpussy.Allocator.{Reallocated, changed_addr, error}
use libpussy.Allocator.Ownership.{Block}
use libpussy.Allocator.Ownership.Regions.{Apart, IsMalloc}
use libpussy.Allocator.Ownership.Debug.{
  region_of, IsWrapped, AllWrapped, Holds, wrapped_elsewhere, AllWrapped-remove, wrap_block-outside,
  freed, release_freed,
}
use libpussy.Heap.{Heap, Malloc, memset, memcpy}
use libpussy.DebugAllocator.{block_from_region, region_from_block, release, reallocate, wrap_block}
use libpussy.DebugAllocator.RoundTrip.{
  wrap_block-IsIntact, after, allocate-returns, allocate-refused, region_back,
}
use libpussy.DebugAllocator.Reallocate.Copy.{
  memcpy-outside, memset-outside, memset-inside, copied-same,
}

-- A block that was put at `p` holds what was in `block`, with zeros behind if it is to be clean.
pub record Moved (s : Heap) (block : Block) (new : ℕ) (clean : Bool) (p : ℕ) (s' : Heap)
    : Type 0 where
  pub same : (i : ℕ) → i < block.size → s'.bytes (p + i) ≡ s.bytes (block.address + i)
  pub zeroed : clean ≡ true → (i : ℕ) → block.size ≤ i → i < new → s'.bytes (p + i) ≡ 0

-- The block is where it was, or at a new place with its bytes.
pub data Grown (s : Heap) (before rest : List Block) (block : Block) (new : ℕ) (clean : Bool)
    (r : Reallocated Heap) : Type 0 where
  refused : r ≡ error (some block.address) s → Grown s before rest block new clean r
  moved :
      (p : ℕ) (s' : Heap)
      → r ≡ changed_addr p s'
      → Holds s' (record { address = p; size = new } ∷ (before ++ rest))
      → Moved s block new clean p s'
      → Grown s before rest block new clean r

module _ (malloc : Malloc) (promised : IsMalloc malloc) (s : Heap) (before rest : List Block)
    (block : Block) (h : Holds s (before ++ (block ∷ rest))) (new : ℕ) (grows : block.size < new)
    (small : new ≤ 2 ^ 16) where
  module _ (a : ℕ) (got : malloc s.regions (new + 80) ≡ some a) where
    abbrev made : Heap
    made = after malloc s new (omega arith) false a got h.counter

    -- The old bytes are copied.
    abbrev copied : Heap
    copied = record made {
      bytes = memcpy (block_from_region a) block.address block.size made.bytes;
    }

    apart : Apart a (new + 80) (map region_of (before ++ (block ∷ rest)))
    apart = subst (Apart a (new + 80)) h.regions (promised.apart s.regions (new + 80) a got)

    -- Bytes that differ from those of `made` in the new block only.
    in_block-Holds :
        (bytes : ℕ → ℕ)
        → ((p : ℕ)
            → (p < block_from_region a) ⊎ (block_from_region a + new ≤ p)
            → bytes p ≡ made.bytes p)
        → Holds
            (record made { bytes = bytes })
            (record { address = block_from_region a; size = new } ∷ (before ++ (block ∷ rest)))
    unfolding Distinct AllWrapped
    in_block-Holds bytes only = record {
      regions = ap₂ (λ p t. extent p (new + 80) ∷ t) (sym (region_back a)) h.regions;
      distinct = (promised.fresh s.regions (new + 80) a got, h.distinct);
      wrapped = (
        record {
          high = omega arith;
          small = small;
          intact = record {
            below = λ p lo hi.
                only p (inl (omega arith)) ∙ (wrap_block-IsIntact a new s.bytes).below p lo hi;
            above = λ p lo hi. only p (inr lo) ∙ (wrap_block-IsIntact a new s.bytes).above p lo hi;
          };
        },
        wrapped_elsewhere s.bytes bytes a (new + 80) (before ++ (block ∷ rest))
            (λ p out. only p (outside p out) ∙ wrap_block-outside a new s.bytes p out) apart
            h.wrapped,
      );
      counter = omega arith;
    }
      where
        outside :
            (p : ℕ)
            → (p < a) ⊎ (a + (new + 80) ≤ p)
            → (p < block_from_region a) ⊎ (block_from_region a + new ≤ p)
        outside p (inl lo) = inl (omega arith)
        outside p (inr hi) = inr (omega arith)

    -- The bytes behind the old ones, which are cleaned.
    abbrev final_bytes : Bool → ℕ → ℕ
    final_bytes clean =
        if clean
        then memset (block_from_region a + block.size) 0 (sub32 new block.size) copied.bytes
        else copied.bytes

    abbrev final : Bool → Heap
    final clean = record (freed copied block) { bytes = final_bytes clean }

    final_bytes-only :
        (clean : Bool) (p : ℕ)
        → (p < block_from_region a) ⊎ (block_from_region a + new ≤ p)
        → final_bytes clean p ≡ made.bytes p
    final_bytes-only false p out =
        memcpy-outside (block_from_region a) block.address block.size made.bytes p (omega arith)
    final_bytes-only true p out =
        memset-outside (block_from_region a + block.size) 0 (sub32 new block.size) copied.bytes p
          (omega arith)
        ∙ memcpy-outside (block_from_region a) block.address block.size made.bytes p (omega arith)

    copied-freed :
        (release copied (some block.address) block.size ≡ ok (none, freed copied block))
        × Holds
            (freed copied block)
            (record { address = block_from_region a; size = new } ∷ (before ++ rest))
    copied-freed =
        release_freed copied (record { address = block_from_region a; size = new } ∷ before) rest
          block (in_block-Holds copied.bytes (final_bytes-only false))

    final-Holds :
        (clean : Bool)
        → Holds
            (final clean)
            (record { address = block_from_region a; size = new } ∷ (before ++ rest))
    final-Holds clean = record {
      regions = copied-freed.1.regions;
      distinct = copied-freed.1.distinct;
      wrapped =
          (AllWrapped-remove (final_bytes clean)
            (record { address = block_from_region a; size = new } ∷ before) rest block
            (in_block-Holds (final_bytes clean) (final_bytes-only clean)).wrapped).1;
      counter = copied-freed.1.counter;
    }

    same :
        (i : ℕ)
        → i < block.size
        → copied.bytes (block_from_region a + i) ≡ s.bytes (block.address + i)
    same i inside =
        copied-same a new s.bytes before rest block i apart
          (AllWrapped-remove s.bytes before rest block h.wrapped).0 inside

    final-Moved : (clean : Bool) → Moved s block new clean (block_from_region a) (final clean)
    final-Moved false = record { same = same; zeroed = λ e. cc }
    final-Moved true = record {
      same = λ i inside.
          memset-outside (block_from_region a + block.size) 0 (sub32 new block.size) copied.bytes
            (block_from_region a + i) (inl (omega arith))
          ∙ same i inside;
      zeroed = λ e i lo hi.
          memset-inside (block_from_region a + block.size) 0 (sub32 new block.size) copied.bytes
            (block_from_region a + i) (omega arith) (omega arith);
    }

  -- Over a malloc whose regions lie apart, and with all blocks of the debug allocator intact, reallocating
  -- one of them to a larger size of up to 64 KiB fails and leaves everything as it was, or moves the block:
  -- its bytes are the old ones, what is behind them is zero if it is to be clean, the old block is given
  -- back, and all blocks are intact.
  pub reallocate-Grown :
      (clean : Bool)
      → Returns
          (Grown s before rest block new clean)
          (reallocate malloc s (some block.address) block.size new clean)
  unfolding reallocate Returns
  reallocate-Grown clean = elim (Option-cases (malloc s.regions (new + 80))) [
    | inl e ↦
        rw
          (
            ne→== block.size new (λ e'. omega (arith, e')),
            allocate-refused malloc s new false (omega arith) e,
          )
          (refused refl)
    | inr (a, e) ↦
        rw
          (
            ne→== block.size new (λ e'. omega (arith, e')),
            allocate-returns malloc s new (omega arith) false a e h.counter,
            (copied-freed a e).0,
          )
          (moved (block_from_region a) (final a e clean) refl (final-Holds a e clean)
            (final-Moved a e clean))
  ]
