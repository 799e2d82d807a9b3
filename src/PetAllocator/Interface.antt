-- ===== src/PetAllocator/Interface.antt =====
-- The allocator interface of src/allocator_pet.c: `_allocate`, `_release` and `_reallocate`, on blocks in
-- pages with a bitmap and on blocks of whole pages, and the wrappers of the system calls.
pub mod Address
pub mod RoundTrip
pub mod Branches
pub mod Resize
pub mod Remap
mod Tests
use libpussy.Base.{
  ℕ, zero, suc, ◌+◌, ◌-◌, ◌*◌, ◌/◌, ◌%◌, ◌^◌, bit_or, Bool, true, false, not, ◌&&◌, Option, none,
  some, List, ◌∷◌, leb, ltb, ◌==◌, if◌then◌else◌, inc64, dec64, Run, ok, aborted, ◌>>=◌,
}
use libpussy.Align.{align_unsigned_to_page}
use libpussy.Allocator.{Allocator, Reallocated, same_addr, changed_addr, error, allocated}
use libpussy.AddressSpace.{Extent, extent, Mmap, munmap}
use libpussy.PetAllocator.Sizes.{max_data_units, bytes_to_units, bm_page_by_addr, ptrdiff_to_units}
use libpussy.PetAllocator.State.{Pet}
use libpussy.PetAllocator.Blocks.{cleansed, bm_allocate, bm_shrink, bm_grow, bm_release}

-- `memcpy`, also what `mremap` does to the bytes of a mapping that it moves.
unfoldable pub copied : ℕ → ℕ → ℕ → (ℕ → ℕ) → ℕ → ℕ
copied dst src n bytes a = if leb dst a && ltb a (dst + n) then bytes (src + (a - dst)) else bytes a

unfoldable pub cleansed_if : Bool → Pet → ℕ → ℕ → ℕ → Pet
unfolding cleansed
cleansed_if clean s addr start end =
    if clean then record s { bytes = cleansed addr start end s.bytes } else s

-- `mremap(addr, old_size, new_size, flags)`; the flag says whether the mapping may move.
abbrev pub Mremap : Type 0
Mremap = List Extent → ℕ → ℕ → ℕ → Bool → Option ℕ

module _ (page_size : ℕ) (mmap : Mmap) (mremap : Mremap) where
  unfoldable pub call_mmap : Pet → ℕ → Bool → Option ℕ × Pet
  unfolding cleansed_if
  call_mmap s size clean = elim (mmap s.maps size) [
    | none ↦ (none, s)
    | some a ↦ (some a, cleansed_if clean (record s { maps = extent a size ∷ s.maps }) a 0 size)
  ]

  unfoldable pub call_munmap : Pet → ℕ → ℕ → Pet
  call_munmap s addr size = record s { maps = munmap s.maps addr size }

  unfoldable pub call_mremap : Pet → ℕ → ℕ → ℕ → Bool → Option ℕ × Pet
  unfolding cleansed_if copied
  call_mremap s addr old_nbytes new_nbytes clean =
      let old_size = align_unsigned_to_page page_size old_nbytes in
      let new_size = align_unsigned_to_page page_size new_nbytes in
      let grows = ltb old_size new_size in
      if new_size == old_size
      then (
        some addr,
        cleansed_if (clean && ltb old_nbytes new_nbytes) s addr old_nbytes new_nbytes,
      )
      else elim (mremap s.maps addr old_size new_size grows) [
        | none ↦ (if grows then none else some addr, s)
        | some a ↦ (
          some a,
          cleansed_if (clean && grows)
              (record s {
                maps = extent a new_size ∷ munmap s.maps addr old_size;
                bytes = copied a addr (if grows then old_size else new_size) s.bytes;
              })
              a old_nbytes new_nbytes,
        )
      ]

  unfoldable pub allocate : Pet → ℕ → Bool → Run (Option ℕ × Pet)
  unfolding call_mmap
  allocate s nbytes clean =
      let num_units = bytes_to_units nbytes in
      if nbytes == 0
      then ok (none, s)
      else if ltb num_units (max_data_units page_size)
      then bm_allocate page_size mmap s num_units clean
      else (let got = call_mmap s (align_unsigned_to_page page_size nbytes) clean in
          elim got.0 [
            | none ↦ ok (none, got.1)
            | some a ↦ ok (some a, record got.1 { blocks_allocated = inc64 got.1.blocks_allocated })
          ])

  -- The pointer is null afterwards.
  unfoldable pub release : Pet → Option ℕ → ℕ → Run (Option ℕ × Pet)
  unfolding call_munmap
  release s none nbytes = ok (none, s)
  release s (some addr) nbytes =
      let bm_page = bm_page_by_addr page_size addr in
      if nbytes == 0
      then aborted
      else if addr == bm_page
      then (let s' = call_munmap s addr (align_unsigned_to_page page_size nbytes) in
          ok (none, record s' { blocks_allocated = dec64 s'.blocks_allocated }))
      else (do
        s' ← bm_release page_size s bm_page (ptrdiff_to_units addr bm_page) (bytes_to_units nbytes)
        ok (none, s'))

  -- The label `remap`; the result of `mremap` is not looked at.
  unfoldable pub remap_block : Pet → ℕ → ℕ → ℕ → Run (Reallocated Pet)
  unfolding call_mremap
  remap_block s addr old_nbytes new_nbytes =
      ok (same_addr (some addr) (call_mremap s addr old_nbytes new_nbytes false).1)

  unfoldable pub shrink_block : Pet → ℕ → ℕ → ℕ → Run (Reallocated Pet)
  unfolding remap_block copied
  shrink_block s addr old_nbytes new_nbytes =
      let new_num_units = bytes_to_units new_nbytes in
      let old_num_units = bytes_to_units old_nbytes in
      let bm_page = bm_page_by_addr page_size addr in
      if ltb new_num_units (max_data_units page_size)
      then (if ltb old_num_units (max_data_units page_size)
          then (if addr == bm_page then aborted else (do
            s' ←
                bm_shrink page_size s bm_page (ptrdiff_to_units addr bm_page) old_num_units
                  new_num_units
            ok (same_addr (some addr) s')))
          else if not (addr == bm_page)
          then aborted
          else (do
            (block, s') ← bm_allocate page_size mmap s new_num_units false
            elim block [
              | none ↦ remap_block s' addr old_nbytes new_nbytes
              | some b ↦ do
                s'' ←
                    bm_release page_size (record s' { bytes = copied b addr new_nbytes s'.bytes })
                      bm_page (ptrdiff_to_units addr bm_page) new_num_units
                ok (changed_addr b s'')
            ]))
      else if not (addr == bm_page)
      then aborted
      else remap_block s addr old_nbytes new_nbytes

  -- A new block, to which the bytes are copied.
  unfoldable pub move_block : Pet → ℕ → ℕ → ℕ → Bool → Run (Reallocated Pet)
  unfolding allocate release copied cleansed_if
  move_block s addr old_nbytes new_nbytes clean = do
    (block, s') ← allocate s new_nbytes false
    elim block [
      | none ↦ ok (error (some addr) s')
      | some b ↦ do
        (p, s'') ←
            release (record s' { bytes = copied b addr old_nbytes s'.bytes }) (some addr) old_nbytes
        ok (changed_addr b (cleansed_if clean s'' b old_nbytes new_nbytes))
    ]

  unfoldable pub grow_block : Pet → ℕ → ℕ → ℕ → Bool → Run (Reallocated Pet)
  unfolding move_block call_mremap cleansed_if
  grow_block s addr old_nbytes new_nbytes clean =
      let new_num_units = bytes_to_units new_nbytes in
      let old_num_units = bytes_to_units old_nbytes in
      let bm_page = bm_page_by_addr page_size addr in
      if ltb old_num_units (max_data_units page_size)
      then (if ltb new_num_units (max_data_units page_size)
          then (if addr == bm_page then aborted else (do
            (grown, s') ←
                bm_grow page_size s bm_page (ptrdiff_to_units addr bm_page) old_num_units
                  new_num_units
            if grown
                then ok (same_addr (some addr) (cleansed_if clean s' addr old_nbytes new_nbytes))
                else move_block s' addr old_nbytes new_nbytes clean))
          else move_block s addr old_nbytes new_nbytes clean)
      else if not (addr == bm_page)
      then aborted
      else (let got = call_mremap s addr old_nbytes new_nbytes clean in
          elim got.0 [
            | none ↦ ok (error (some addr) got.1)
            | some a ↦
                ok (record {
                  done = true;
                  pointer = some a;
                  changed = not (a == addr);
                  state = got.1;
                })
          ])

  unfoldable pub reallocate : Pet → Option ℕ → ℕ → ℕ → Bool → Run (Reallocated Pet)
  unfolding shrink_block grow_block allocate
  reallocate s ptr old_nbytes new_nbytes clean =
      if old_nbytes == new_nbytes then ok (same_addr ptr s) else elim ptr [
        | none ↦
            if not (old_nbytes == 0)
            then ok (error none s)
            else allocate s new_nbytes clean >>= allocated
        | some addr ↦
            let new_num_units = bytes_to_units new_nbytes in
            let old_num_units = bytes_to_units old_nbytes in
            if bit_or old_nbytes new_nbytes == 0
            then ok (error (some addr) s)
            else if new_num_units == old_num_units
            then ok (
                same_addr (some addr)
                  (cleansed_if (clean && ltb old_nbytes new_nbytes) s addr old_nbytes new_nbytes))
            else if ltb new_num_units old_num_units
            then shrink_block s addr old_nbytes new_nbytes
            else grow_block s addr old_nbytes new_nbytes clean
      ]

  -- The superblock is a clean page, so its entries are null; the sizes are those of Sizes.
  unfoldable pub init : Pet → Run Pet
  unfolding call_mmap
  init s =
      let got = call_mmap s page_size true in
      elim got.0 [ none ↦ aborted | some a ↦ ok (record got.1 { superblock = λ i. none }) ]

  -- The operations as src/allocator_pet.c exports them.
  abbrev pub pet_allocator : Allocator Pet
  pet_allocator = record {
    init = some init;
    allocate = allocate;
    reallocate = reallocate;
    release = release;
  }
