-- ===== src/PetAllocator/State.antt =====
-- The state of src/allocator_pet.c, and how pages move between its lists. A page is its address. The lists
-- are `lru_page` and the entries of `superblock`; the fields of a page header are functions of the page. The
-- bytes of blocks are one function of addresses. `lock` is held for each access to the lists.
pub mod Frame
pub mod Unhand
use libpussy.Base.{
  ℕ, ◌+◌, ◌-◌, Option, none, some, List, ltb, if◌then◌else◌, update, dec64, Run, ok, undefined,
  blocked, ◌>>=◌,
}
use libpussy.AddressSpace.{Extent, munmap}
use libpussy.PageList.{Links, add_to_list, delete_from_list}
use libpussy.PetAllocator.Sizes.{units_per_page, header_units, max_data_units}
use libpussy.PetAllocator.Search.{find_longest_free_block}

-- `&lru_page`, or `&superblock[i]`
pub data Slot : Type 0 where
  lru : Slot
  entry : ℕ → Slot

pub record Pet : Type 0 where
  pub lru_page : Option ℕ
  pub superblock : ℕ → Option ℕ
  pub list : ℕ → Option Slot
  pub next : ℕ → ℕ
  pub prev : ℕ → ℕ
  pub bitmap : ℕ → List ℕ
  pub bytes : ℕ → ℕ
  pub maps : List Extent
  pub num_bm_pages : ℕ
  pub blocks_allocated : ℕ

unfoldable pub head : Pet → Slot → Option ℕ
head s lru = s.lru_page
head s (entry i) = s.superblock i

unfoldable pub links : Pet → Slot → Links
unfolding head
links s slot = record { head = head s slot; next = s.next; prev = s.prev }

unfoldable pub put_links : Pet → Slot → Links → Pet
put_links s lru l = record s { lru_page = l.head; next = l.next; prev = l.prev }
put_links s (entry i) l = record s {
  superblock = update s.superblock i l.head;
  next = l.next;
  prev = l.prev;
}

-- `add_to_list`, with the field `list`.
unfoldable pub add_page : Pet → Slot → ℕ → Pet
unfolding links put_links
add_page s slot page = record (put_links s slot (add_to_list (links s slot) page)) {
  list = update s.list page (some slot);
}

-- `delete_from_list`, with the field `list`.
unfoldable pub take_page : Pet → ℕ → Run Pet
unfolding links put_links
take_page s page = elim (s.list page) [
  | none ↦ undefined
  | some slot ↦ ok (record (put_links s slot (delete_from_list (links s slot) page)) {
    list = update s.list page none;
  })
]

-- `grab_page` waits while the page is in no list, as it is in use by another thread.
unfoldable pub grab_page : Pet → ℕ → Run Pet
unfolding take_page
grab_page s page = elim (s.list page) [ none ↦ blocked | some slot ↦ take_page s page ]

module _ (page_size : ℕ) where
  abbrev pub longest : Pet → ℕ → Run ℕ
  longest s page =
      find_longest_free_block (units_per_page page_size) (header_units page_size) (s.bitmap page)

  -- `add_to_superblock_entry` with the longest gap, as both callers of it do.
  unfoldable pub to_superblock : Pet → ℕ → Run Pet
  unfolding add_page
  to_superblock s page = do lfb ← longest s page; ok (add_page s (entry lfb) page)

  -- The page that `unhand_page` finds in `lru_page` goes to the superblock, or is returned to be reclaimed.
  unfoldable pub clear_lru : Pet → Option ℕ → Run (Pet × Option ℕ)
  unfolding add_page
  clear_lru s none = ok (s, none)
  clear_lru s (some page) = do
    lfb ← longest s page
    if ltb lfb (max_data_units page_size)
        then ok (add_page s (entry lfb) page, none)
        else ok (s, some page)

  unfoldable pub set_lru : Pet → ℕ → Pet
  set_lru s page = record s {
    lru_page = some page;
    list = update s.list page (some lru);
    next = update s.next page page;
    prev = update s.prev page page;
  }

  unfoldable pub reclaim_page : Pet → Option ℕ → Pet
  reclaim_page s none = s
  reclaim_page s (some page) = record s {
    maps = munmap s.maps page page_size;
    num_bm_pages = dec64 s.num_bm_pages;
  }

  unfoldable pub unhand_page : Pet → ℕ → Run Pet
  unfolding clear_lru set_lru reclaim_page
  unhand_page s page = do
    (s', dead) ← clear_lru s s.lru_page
    ok (reclaim_page (set_lru s' page) dead)
