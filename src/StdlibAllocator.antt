-- ===== src/StdlibAllocator.antt =====
-- src/allocator_stdlib.c: the allocator over `malloc`, `calloc`, `realloc` and `free`.
use libpussy.Base.{
  true, undefined, ℕ, ◌+◌, ◌-◌, Bool, not, ◌&&◌, Option, none, some, ltb, ◌==◌, ◌∷◌, if◌then◌else◌,
  inc64, dec64, Run, ok, ◌>>=◌,
}
use libpussy.AddressSpace.{extent}
use libpussy.Allocator.{Allocator, Reallocated, same_addr, error, allocated}
use libpussy.Heap.{Heap, Malloc, memset, memcpy, free_region, malloc_or_calloc}

unfoldable pub release : Heap → Option ℕ → ℕ → Run (Option ℕ × Heap)
unfolding free_region
release s none nbytes = ok (none, s)
release s (some addr) nbytes = ok (
  none,
  record s { regions = free_region addr s.regions; blocks_allocated = dec64 s.blocks_allocated },
)

module _ (malloc : Malloc) where
  unfoldable pub allocate : Heap → ℕ → Bool → Run (Option ℕ × Heap)
  unfolding malloc_or_calloc
  allocate s nbytes clean = elim (malloc_or_calloc malloc s nbytes clean) [
    | none ↦ ok (none, s)
    | some (addr, s') ↦ ok (some addr, record s' { blocks_allocated = inc64 s'.blocks_allocated })
  ]

  -- `realloc` gives a region of the new size, to which it moves the bytes that there is room for. A size of
  -- zero is undefined in the language standard of 2023.
  unfoldable pub realloc : Heap → ℕ → ℕ → ℕ → Run (Option (ℕ × Heap))
  unfolding free_region
  realloc s addr old_nbytes new_nbytes =
      let copied = if ltb old_nbytes new_nbytes then old_nbytes else new_nbytes in
      if new_nbytes == 0 then undefined else elim (malloc (free_region addr s.regions) new_nbytes) [
        | none ↦ ok none
        | some b ↦ ok (
            some (
              b,
              record s {
                regions = extent b new_nbytes ∷ free_region addr s.regions;
                bytes = memcpy b addr copied s.bytes;
              },
            ))
      ]

  unfoldable pub reallocate : Heap → Option ℕ → ℕ → ℕ → Bool → Run (Reallocated Heap)
  unfolding allocate realloc
  reallocate s ptr old_nbytes new_nbytes clean =
      if old_nbytes == new_nbytes then ok (same_addr ptr s) else elim ptr [
        | none ↦
            if not (old_nbytes == 0)
            then ok (error none s)
            else allocate s new_nbytes clean >>= allocated
        | some addr ↦ realloc s addr old_nbytes new_nbytes >>= λ block. elim block [
          | none ↦ ok (error (some addr) s)
          | some (b, s') ↦
              let cleaned = memset (b + old_nbytes) 0 (new_nbytes - old_nbytes) s'.bytes in
              ok (record {
                done = true;
                pointer = some b;
                changed = not (b == addr);
                state = record s' {
                  bytes = if clean && ltb old_nbytes new_nbytes then cleaned else s'.bytes;
                };
              })
        ]
      ]

  abbrev pub stdlib_allocator : Allocator Heap
  stdlib_allocator = record {
    init = none;
    allocate = allocate;
    reallocate = reallocate;
    release = release;
  }
