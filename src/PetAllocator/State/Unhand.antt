-- ===== src/PetAllocator/State/Unhand.antt =====
-- `unhand_page` of src/allocator_pet.c, and the invariant of the state.
use libpussy.Base.{
  ℕ, ◌*◌, ◌≤◌, ◌≡◌, inl, inr, refl, arith, List, length, Option, none, some, Bool-cases, ltb,
  ltb→le, update-same, dec64, Run, ok, ◌>>=◌,
}
use libpussy.AddressSpace.{munmap}
use libpussy.PetAllocator.Bitmap.Range.{IsWords}
use libpussy.PetAllocator.Sizes.{units_per_page, header_units, max_data_units}
use libpussy.PetAllocator.Sizes.Laws.{IsPageSize, init_sizes}
use libpussy.PetAllocator.Search.Gap.{IsGap}
use libpussy.PetAllocator.Search.Longest.{Longest, find_longest_free_block-Longest}
use libpussy.PetAllocator.State.{
  Pet, lru, entry, add_page, clear_lru, set_lru, reclaim_page, unhand_page, longest,
}
use libpussy.PetAllocator.State.Frame.{SameBlocks, SameBlocks-refl, add_page-SameBlocks}

-- Every bitmap is words, one bit for each unit of a page.
pub record IsPet (page_size : ℕ) (bitmap : ℕ → List ℕ) : Type 0 where
  pub words : (p : ℕ) → IsWords (bitmap p)
  pub whole : (p : ℕ) → units_per_page page_size ≡ length (bitmap p) * 64

-- Of the mappings, at most one page went, of which no unit was in use.
pub data IsTrimmed (page_size : ℕ) (s s' : Pet) : Type 0 where
  kept : s'.maps ≡ s.maps → s'.num_bm_pages ≡ s.num_bm_pages → IsTrimmed page_size s s'
  trimmed :
      (q : ℕ)
      → s.lru_page ≡ some q
      → IsGap (s.bitmap q) (header_units page_size) (max_data_units page_size)
      → s'.maps ≡ munmap s.maps q page_size
      → s'.num_bm_pages ≡ dec64 s.num_bm_pages
      → IsTrimmed page_size s s'

pub record Unhanded (page_size : ℕ) (s : Pet) (page : ℕ) (result : Run Pet) : Type 0 where
  pub after : Pet
  pub returns : result ≡ ok after
  pub recent : after.lru_page ≡ some page
  pub listed : after.list page ≡ some lru
  pub bitmap : after.bitmap ≡ s.bitmap
  pub bytes : after.bytes ≡ s.bytes
  pub blocks_allocated : after.blocks_allocated ≡ s.blocks_allocated
  pub pages : IsTrimmed page_size s after

module _ (page_size : ℕ) (size : IsPageSize page_size) (s : Pet)
    (pet : IsPet page_size s.bitmap) where
  pub longest-Longest :
      (p : ℕ) → Longest (s.bitmap p) (header_units page_size) (longest page_size s p)
  longest-Longest p =
      find_longest_free_block-Longest (units_per_page page_size) (header_units page_size)
        (s.bitmap p) (pet.words p) (pet.whole p) (omega (arith, size.small))
        (omega (arith, init_sizes page_size size))

  -- A gap as long as all the data units.
  whole_gap :
      (q : ℕ) (found : Longest (s.bitmap q) (header_units page_size) (longest page_size s q))
      → max_data_units page_size ≤ found.size
      → IsGap (s.bitmap q) (header_units page_size) (max_data_units page_size)
  whole_gap q found full = record {
    inside = omega (arith, pet.whole q, init_sizes page_size size);
    free = λ p lo hi.
        found.longest.gap.free p
          (omega (
            arith,
            found.longest.gap.inside,
            found.longest.behind,
            pet.whole q,
            init_sizes page_size size,
          ))
          (omega (arith, found.longest.behind));
  }

  -- What `unhand_page` leaves, if `s'` is the state without the old `lru_page`.
  unhand :
      (page : ℕ) (s' : Pet) (dead : Option ℕ)
      → SameBlocks s s'
      → IsTrimmed page_size s (reclaim_page page_size (set_lru page_size s' page) dead)
      → Unhanded page_size s page (ok (reclaim_page page_size (set_lru page_size s' page) dead))
  unfolding reclaim_page set_lru
  unhand page s' none same pages = record {
    after = set_lru page_size s' page;
    returns = refl;
    recent = refl;
    listed = update-same s'.list page (some lru);
    bitmap = same.bitmap;
    bytes = same.bytes;
    blocks_allocated = same.blocks_allocated;
    pages = pages;
  }
  unhand page s' (some q) same pages = record {
    after = reclaim_page page_size (set_lru page_size s' page) (some q);
    returns = refl;
    recent = refl;
    listed = update-same s'.list page (some lru);
    bitmap = same.bitmap;
    bytes = same.bytes;
    blocks_allocated = same.blocks_allocated;
    pages = pages;
  }

  -- By what is in `lru_page`.
  unhand_old :
      (page : ℕ) (old : Option ℕ)
      → s.lru_page ≡ old
      → Unhanded page_size s page (do
        (s', dead) ← clear_lru page_size s old
        ok (reclaim_page page_size (set_lru page_size s' page) dead))
  unfolding clear_lru reclaim_page set_lru
  unhand_old page none e = unhand page s none (SameBlocks-refl s) (kept refl refl)
  unhand_old page (some q) e =
      let found = longest-Longest q in
      elim (Bool-cases (ltb found.size (max_data_units page_size))) [
        | inl used ↦
            let same = add_page-SameBlocks s (entry found.size) q in
            rw (found.returns, used)
              (unhand page (add_page s (entry found.size) q) none same
                (kept same.maps same.num_bm_pages))
        | inr full ↦
            rw (found.returns, full)
              (unhand page s (some q) (SameBlocks-refl s)
                (trimmed q e (whole_gap q found (ltb→le _ _ full)) refl refl))
      ]

  -- `unhand_page` returns, with the page in `lru_page` and no block touched. It unmaps no page but the one
  -- that was in `lru_page`, and that only if none of its data units is in use.
  pub unhand_page-Unhanded : (page : ℕ) → Unhanded page_size s page (unhand_page page_size s page)
  unfolding unhand_page
  unhand_page-Unhanded page = unhand_old page s.lru_page refl
