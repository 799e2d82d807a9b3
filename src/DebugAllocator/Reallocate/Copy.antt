-- ===== src/DebugAllocator/Reallocate/Copy.antt =====
-- The bytes that `_reallocate` of src/allocator_debug.c copies and clears.
use libpussy.Base.{
  ℕ, ◌+◌, ◌-◌, ◌≤◌, ◌<◌, ◌≡◌, ap, ◌∙◌, arith, ◌⊎◌, inl, inr, List, [], ◌∷◌, ◌++◌, map,
}
use libpussy.Allocator.Ownership.{Block}
use libpussy.Allocator.Ownership.Regions.{Apart}
use libpussy.Allocator.Ownership.Debug.{region_of, IsWrapped, wrap_block-outside}
use libpussy.Heap.{memset, memcpy}
use libpussy.DebugAllocator.{block_from_region, region_from_block, wrap_block}

-- Where a region lies of those that are apart from the `n` bytes from `a` on.
Apart-at :
    (a n : ℕ) (before rest : List Block) (block : Block)
    → Apart a n (map region_of (before ++ (block ∷ rest)))
    → (a + n ≤ (region_of block).start) ⊎ ((region_of block).start + (block.size + 80) ≤ a)
unfolding Apart
Apart-at a n [] rest block apart = apart.0
Apart-at a n (x ∷ before) rest block apart = Apart-at a n before rest block apart.1

pub memcpy-outside :
    (dst src n : ℕ) (bytes : ℕ → ℕ) (p : ℕ)
    → (p < dst) ⊎ (dst + n ≤ p)
    → memcpy dst src n bytes p ≡ bytes p
memcpy-outside dst src n bytes p out = ground arith

pub memset-outside :
    (dst v n : ℕ) (bytes : ℕ → ℕ) (p : ℕ)
    → (p < dst) ⊎ (dst + n ≤ p)
    → memset dst v n bytes p ≡ bytes p
memset-outside dst v n bytes p out = ground arith

memcpy-inside :
    (dst src n i : ℕ) (bytes : ℕ → ℕ)
    → i < n
    → memcpy dst src n bytes (dst + i) ≡ bytes (src + (dst + i - dst))
memcpy-inside dst src n i bytes h = ground arith

pub memset-inside :
    (dst v n : ℕ) (bytes : ℕ → ℕ) (p : ℕ) → dst ≤ p → p < dst + n → memset dst v n bytes p ≡ v
memset-inside dst v n bytes p lo hi = ground arith

apart_inside :
    (a m n at i : ℕ)
    → i < n
    → 48 ≤ at
    → (a + m ≤ region_from_block at) ⊎ (region_from_block at + (n + 80) ≤ a)
    → (at + i < a) ⊎ (a + m ≤ at + i)
apart_inside a m n at i inside high (inl before) = inr (omega arith)
apart_inside a m n at i inside high (inr behind) = inl (omega arith)

same_place : (dst src i : ℕ) → src + (dst + i - dst) ≡ src + i
same_place dst src i = omega arith

-- What is copied from a block into one that was just made is what the block held.
pub copied-same :
    (a new : ℕ) (bytes : ℕ → ℕ) (before rest : List Block) (block : Block) (i : ℕ)
    → Apart a (new + 80) (map region_of (before ++ (block ∷ rest)))
    → IsWrapped bytes block
    → i < block.size
    → memcpy
        (block_from_region a)
        block.address
        block.size
        (wrap_block a new (a + (new + 80)) bytes)
        (block_from_region a + i)
      ≡ bytes (block.address + i)
copied-same a new bytes before rest block i apart w inside =
    memcpy-inside (block_from_region a) block.address block.size i
      (wrap_block a new (a + (new + 80)) bytes) inside
    ∙ ap (wrap_block a new (a + (new + 80)) bytes)
        (same_place (block_from_region a) block.address i)
    ∙ wrap_block-outside a new bytes (block.address + i) (
        apart_inside a (new + 80) block.size block.address i inside w.high
          (Apart-at a (new + 80) before rest block apart))
