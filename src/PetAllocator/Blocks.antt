-- ===== src/PetAllocator/Blocks.antt =====
-- The bitmap sub-allocator of src/allocator_pet.c: blocks of units in a page with a bitmap.
pub mod Marked
pub mod Change
pub mod Find
pub mod Allocate
mod Tests
use libpussy.Base.{
  ℕ, zero, suc, ◌+◌, ◌-◌, ◌*◌, ◌/◌, ◌%◌, ◌^◌, Bool, true, false, ◌&&◌, Option, none, some, List,
  ◌∷◌, leb, ltb, ◌==◌, if◌then◌else◌, update, inc64, dec64, u32, sub32, replicate, Run, ok, aborted,
  ◌>>=◌,
}
use libpussy.AddressSpace.{Extent, extent, Mmap}
use libpussy.PetAllocator.Sizes.{unit_size, units_per_page, header_units, max_data_units}
use libpussy.PetAllocator.Bitmap.{set_bits, clear_bits, count_zero_bits}
use libpussy.PetAllocator.Search.{find_free_block}
use libpussy.PetAllocator.State.{Pet, Slot, entry, take_page, grab_page, to_superblock, unhand_page}

-- `cleanse(addr, start, end)` on the bytes of all blocks.
unfoldable pub cleansed : ℕ → ℕ → ℕ → (ℕ → ℕ) → ℕ → ℕ
cleansed addr start end bytes a = if leb (addr + start) a && ltb a (addr + end) then 0 else bytes a

-- A block to return: the counter, and the bytes if they are to be clean.
unfoldable pub hand_out : Pet → ℕ → ℕ → Bool → Pet
unfolding cleansed
hand_out s result num_units clean = record s {
  blocks_allocated = inc64 s.blocks_allocated;
  bytes = if clean then cleansed result 0 (u32 (num_units * unit_size)) s.bytes else s.bytes;
}

module _ (page_size : ℕ) where
  abbrev pub free_block : Pet → ℕ → ℕ → Run ℕ
  free_block s page num_units =
      find_free_block (units_per_page page_size) (header_units page_size) (s.bitmap page) num_units

  -- The loop over the superblock; `rounds` are those left from entry `lfb` on.
  unfoldable pub first_entry : Pet → ℕ → ℕ → Option ℕ
  first_entry s zero lfb = none
  first_entry s (suc rounds) lfb = elim (s.superblock lfb) [
    | some page ↦ some page
    | none ↦ first_entry s rounds (lfb + 1)
  ]

  unfoldable pub search_superblock : Pet → ℕ → Run (Option (ℕ × ℕ) × Pet)
  unfolding first_entry
  search_superblock s num_units =
      elim (first_entry s (max_data_units page_size + 1 - num_units) num_units) [
        | none ↦ ok (none, s)
        | some page ↦ do
          s' ← take_page s page
          offset ← free_block s' page num_units
          if offset == 0 then aborted else ok (some (page, offset), s')
      ]

  -- The page in `lru_page` is looked at first.
  unfoldable pub find_from : Pet → Option ℕ → ℕ → Run (Option (ℕ × ℕ) × Pet)
  unfolding search_superblock
  find_from s none num_units = search_superblock s num_units
  find_from s (some page) num_units = do
    s' ← take_page s page
    offset ← free_block s' page num_units
    if offset == 0
        then (do s'' ← to_superblock page_size s' page; search_superblock s'' num_units)
        else ok (some (page, offset), s')

  unfoldable pub find_available_page : Pet → ℕ → Run (Option (ℕ × ℕ) × Pet)
  unfolding find_from
  find_available_page s num_units = find_from s s.lru_page num_units

  -- A fresh page, with the units of the header and of the block in use.
  unfoldable pub fresh_page : Mmap → Pet → ℕ → Bool → Run (Option ℕ × Pet)
  unfolding hand_out
  fresh_page mmap s num_units clean = elim (mmap s.maps page_size) [
    | none ↦ ok (none, s)
    | some page ↦ do
      bm ←
          set_bits (replicate (units_per_page page_size / 64) 0) 0
            (header_units page_size + num_units)
      s' ←
          unhand_page page_size
            (record s { maps = extent page page_size ∷ s.maps; bitmap = update s.bitmap page bm })
            page
      let result = page + header_units page_size * unit_size
      ok (
        some result,
        hand_out (record s' { num_bm_pages = inc64 s'.num_bm_pages }) result num_units clean,
      )
  ]

  unfoldable pub bm_allocate : Mmap → Pet → ℕ → Bool → Run (Option ℕ × Pet)
  unfolding find_available_page fresh_page hand_out
  bm_allocate mmap s num_units clean = do
    (found, s') ← find_available_page s num_units
    elim found [
      | none ↦ fresh_page mmap s' num_units clean
      | some place ↦ do
        let page = place.0
        bm ← set_bits (s'.bitmap page) place.1 num_units
        s'' ← unhand_page page_size (record s' { bitmap = update s'.bitmap page bm }) page
        let result = page + place.1 * unit_size
        ok (some result, hand_out s'' result num_units clean)
    ]

  unfoldable pub bm_shrink : Pet → ℕ → ℕ → ℕ → ℕ → Run Pet
  bm_shrink s page offset old_num_units new_num_units = do
    s' ← grab_page s page
    bm ← clear_bits (s'.bitmap page) (offset + new_num_units) (sub32 old_num_units new_num_units)
    unhand_page page_size (record s' { bitmap = update s'.bitmap page bm }) page

  unfoldable pub bm_grow : Pet → ℕ → ℕ → ℕ → ℕ → Run (Bool × Pet)
  bm_grow s page offset old_num_units new_num_units = do
    s' ← grab_page s page
    let increment = sub32 new_num_units old_num_units
    length ←
        count_zero_bits (units_per_page page_size) (s'.bitmap page) (offset + old_num_units)
          increment
    if ltb length increment then (do s'' ← unhand_page page_size s' page; ok (false, s'')) else (do
      bm ← set_bits (s'.bitmap page) (offset + old_num_units) increment
      s'' ← unhand_page page_size (record s' { bitmap = update s'.bitmap page bm }) page
      ok (true, s''))

  unfoldable pub bm_release : Pet → ℕ → ℕ → ℕ → Run Pet
  bm_release s page offset num_units = do
    s' ← grab_page s page
    bm ← clear_bits (s'.bitmap page) offset num_units
    s'' ← unhand_page page_size (record s' { bitmap = update s'.bitmap page bm }) page
    ok (record s'' { blocks_allocated = dec64 s''.blocks_allocated })
