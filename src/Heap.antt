-- ===== src/Heap.antt =====
-- `malloc`, `calloc` and `free`, and `memset` and `memcpy` on the bytes of the address space, as
-- src/allocator_debug.c and src/allocator_stdlib.c use them. Where `malloc` puts a region is a parameter.
-- An access is to the bytes at its addresses, whether a region is there or not: which bytes change is what the
-- theorems are about.
use libpussy.Base.{
  ℕ, ◌+◌, ◌-◌, Bool, List, [], ◌∷◌, Option, none, some, ltb, leb, ◌==◌, ◌&&◌, if◌then◌else◌,
}
use libpussy.AddressSpace.{Extent, extent}

-- The bytes, the regions in use, and `stats.blocks_allocated`.
pub record Heap : Type 0 where
  pub bytes : ℕ → ℕ
  pub regions : List Extent
  pub blocks_allocated : ℕ

-- Given the regions in use and a size.
abbrev pub Malloc : Type 0
Malloc = List Extent → ℕ → Option ℕ

abbrev pub memset : ℕ → ℕ → ℕ → (ℕ → ℕ) → ℕ → ℕ
memset addr value n bytes a = if leb addr a && ltb a (addr + n) then value else bytes a

abbrev pub memcpy : ℕ → ℕ → ℕ → (ℕ → ℕ) → ℕ → ℕ
memcpy dst src n bytes a = if leb dst a && ltb a (dst + n) then bytes (src + (a - dst)) else bytes a

unfoldable pub free_region : ℕ → List Extent → List Extent
free_region addr [] = []
free_region addr (e ∷ regions) =
    let rest = free_region addr regions in if e.start == addr then regions else e ∷ rest

-- `calloc(1, n)` if the block is to be clean, else `malloc(n)`.
unfoldable pub malloc_or_calloc : Malloc → Heap → ℕ → Bool → Option (ℕ × Heap)
malloc_or_calloc malloc s n clean = elim (malloc s.regions n) [
  | none ↦ none
  | some a ↦ some (
    a,
    record s {
      regions = extent a n ∷ s.regions;
      bytes = if clean then memset a 0 n s.bytes else s.bytes;
    },
  )
]
