-- ===== src/PetAllocator/State/Frame.antt =====
-- The list operations of src/allocator_pet.c touch the lists only, and put a page where they should.
use libpussy.Base.{ℕ, ◌≡◌, refl, ◌∙◌, none, some, update, Run, ok}
use libpussy.PageList.{Links, add_to_list, delete_from_list}
use libpussy.PetAllocator.State.{
  Pet, Slot, lru, entry, put_links, links, add_page, take_page, grab_page,
}

-- `s'` has the blocks of `s`: the same bitmaps, bytes and counters.
pub record SameBlocks (s s' : Pet) : Type 0 where
  pub bitmap : s'.bitmap ≡ s.bitmap
  pub bytes : s'.bytes ≡ s.bytes
  pub maps : s'.maps ≡ s.maps
  pub num_bm_pages : s'.num_bm_pages ≡ s.num_bm_pages
  pub blocks_allocated : s'.blocks_allocated ≡ s.blocks_allocated

pub SameBlocks-refl : (s : Pet) → SameBlocks s s
SameBlocks-refl s = record {
  bitmap = refl;
  bytes = refl;
  maps = refl;
  num_bm_pages = refl;
  blocks_allocated = refl;
}

pub SameBlocks-trans : {s s' s'' : Pet} → SameBlocks s s' → SameBlocks s' s'' → SameBlocks s s''
SameBlocks-trans first second = record {
  bitmap = second.bitmap ∙ first.bitmap;
  bytes = second.bytes ∙ first.bytes;
  maps = second.maps ∙ first.maps;
  num_bm_pages = second.num_bm_pages ∙ first.num_bm_pages;
  blocks_allocated = second.blocks_allocated ∙ first.blocks_allocated;
}

pub put_links-SameBlocks : (s : Pet) (slot : Slot) (l : Links) → SameBlocks s (put_links s slot l)
unfolding put_links
put_links-SameBlocks s lru l = record {
  bitmap = refl;
  bytes = refl;
  maps = refl;
  num_bm_pages = refl;
  blocks_allocated = refl;
}
put_links-SameBlocks s (entry i) l = record {
  bitmap = refl;
  bytes = refl;
  maps = refl;
  num_bm_pages = refl;
  blocks_allocated = refl;
}

pub add_page-SameBlocks : (s : Pet) (slot : Slot) (page : ℕ) → SameBlocks s (add_page s slot page)
unfolding add_page
add_page-SameBlocks s slot page =
    let same = put_links-SameBlocks s slot (add_to_list (links s slot) page) in
    record {
      bitmap = same.bitmap;
      bytes = same.bytes;
      maps = same.maps;
      num_bm_pages = same.num_bm_pages;
      blocks_allocated = same.blocks_allocated;
    }

-- A page is taken out of its list.
pub record Taken (s : Pet) (slot : Slot) (page : ℕ) (result : Run Pet) : Type 0 where
  pub after : Pet
  pub returns : result ≡ ok after
  pub same : SameBlocks s after
  pub entries :
      after.superblock ≡ (put_links s slot (delete_from_list (links s slot) page)).superblock
  pub unlisted : after.list ≡ update s.list page none

pub take_page-Taken :
    (s : Pet) (page : ℕ) (slot : Slot)
    → s.list page ≡ some slot
    → Taken s slot page (take_page s page)
unfolding take_page
take_page-Taken s page slot listed =
    rw (listed, take_page)
      record {
        after = record (put_links s slot (delete_from_list (links s slot) page)) {
          list = update s.list page none;
        };
        returns = refl;
        same =
            (let same = put_links-SameBlocks s slot (delete_from_list (links s slot) page) in
              record {
                bitmap = same.bitmap;
                bytes = same.bytes;
                maps = same.maps;
                num_bm_pages = same.num_bm_pages;
                blocks_allocated = same.blocks_allocated;
              });
        entries = refl;
        unlisted = refl;
      }

-- Taking the page out of `lru_page` leaves the superblock.
pub lru-entries :
    {s : Pet} {page : ℕ} {result : Run Pet} (taken : Taken s lru page result)
    → taken.after.superblock ≡ s.superblock
unfolding put_links
lru-entries taken = taken.entries

pub grab_page-Taken :
    (s : Pet) (page : ℕ) (slot : Slot)
    → s.list page ≡ some slot
    → Taken s slot page (grab_page s page)
unfolding grab_page
grab_page-Taken s page slot listed = rw (listed, grab_page) (take_page-Taken s page slot listed)
