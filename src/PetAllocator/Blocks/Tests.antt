-- ===== src/PetAllocator/Blocks/Tests.antt =====
-- The blocks of src/allocator_pet.c on pages of 4096 bytes: 256 units, of which 4 for the header.
use mathlib.Core.Option.{some-injective, none-ne-some}
use mathlib.Core.Path.{subst}
use libpussy.Base.{
  ℕ, zero, suc, ◌+◌, ◌*◌, ◌<◌, ◌≡◌, refl, arith, List, [], ◌∷◌, true, none, some, inl, inr, ok,
  ◌>>=◌,
}
use libpussy.Align.{align_unsigned}
use libpussy.PageList.{delete_from_list}
use libpussy.PetAllocator.Search.{find_free_block}
use libpussy.PetAllocator.Bitmap.{count_zero_bits, count_nonzero_bits, load_word, set_bits}
use libpussy.Word.{count_trailing_zeros}
use libpussy.AddressSpace.{Mmap, extent}
use libpussy.PetAllocator.Bitmap.Range.{IsWords}
use libpussy.PetAllocator.Sizes.{bytes_to_units}
use libpussy.PetAllocator.Sizes.Laws.{IsPageSize, bytes_to_units_lem}
use libpussy.PetAllocator.State.{Pet, lru, take_page, unhand_page}
use libpussy.PetAllocator.State.Unhand.{IsPet}
use libpussy.PetAllocator.Blocks.{bm_allocate}
use libpussy.PetAllocator.Blocks.Find.{IsReady, IsFirst}
use libpussy.PetAllocator.Blocks.Allocate.{Allocated, bm_allocate-Allocated}
use libpussy.PetAllocator.Interface.{Mremap, allocate, reallocate}
use libpussy.PetAllocator.Interface.Resize.{Resized, reallocate-Resized}
use libpussy.PetAllocator.Interface.Address.{IsPlaced}
use libpussy.PetAllocator.Interface.RoundTrip.{IsLaidOut, RoundTrip, allocate-release}

page_4096-IsPageSize : IsPageSize 4096
page_4096-IsPageSize = record { multiple = refl; some_bytes = omega arith; small = omega arith }

-- Units 4 and 5 are a block.
abbrev used : List ℕ
used = 63 ∷ 0 ∷ 0 ∷ 0 ∷ []

used-IsWords : IsWords used
used-IsWords zero = omega arith
used-IsWords (suc zero) = omega arith
used-IsWords (suc (suc zero)) = omega arith
used-IsWords (suc (suc (suc zero))) = omega arith
used-IsWords (suc (suc (suc (suc i)))) = omega arith

-- One page, in `lru_page`.
abbrev one_page : Pet
one_page = record {
  lru_page = some 8192;
  superblock = λ i. none;
  list = λ p. some lru;
  next = λ p. p;
  prev = λ p. p;
  bitmap = λ p. used;
  bytes = λ a. 7;
  maps = extent 8192 4096 ∷ [];
  num_bm_pages = 1;
  blocks_allocated = 1;
}

one_page-IsPet : IsPet 4096 one_page.bitmap
one_page-IsPet = record { words = λ p. used-IsWords; whole = λ p. refl }

one_page-IsReady : IsReady 4096 one_page
one_page-IsReady = record {
  recent = λ p e. refl;
  listed = λ i p e. absurd (none-ne-some p e);
  gaps = λ i p e. absurd (none-ne-some p e);
}

-- No more memory.
abbrev full : Mmap
full maps n = none

abbrev fixed : Mremap
fixed maps addr old new moves = none

one_page-IsPlaced : IsPlaced 12 8192
one_page-IsPlaced = record { aligned = refl; inside = omega arith }

one_page-IsLaidOut : IsLaidOut 12 full one_page
one_page-IsLaidOut = record { new = λ a e. absurd (none-ne-some a e); first = first }
  where
    first : (p : ℕ) → IsFirst one_page p → IsPlaced 12 p
    first p (inl e) = subst (IsPlaced 12) (some-injective 8192 p e) one_page-IsPlaced
    first p (inr (i, e)) = absurd (none-ne-some p e)

bm_allocate-Allocated_example :
    Allocated 4096 3 true full one_page (bm_allocate 4096 full one_page 3 true)
bm_allocate-Allocated_example =
    bm_allocate-Allocated 4096 page_4096-IsPageSize 3 (omega arith) (omega arith) true full one_page
      one_page-IsPet one_page-IsReady

allocate-release_example : RoundTrip 12 33 true full fixed one_page
allocate-release_example =
    allocate-release 12 (omega arith) page_4096-IsPageSize full fixed 33 (omega arith) (omega arith)
      few one_page true one_page-IsPet one_page-IsReady one_page-IsLaidOut (omega arith)
  where
    few : bytes_to_units 33 < 252
    few = omega (arith, bytes_to_units_lem 33 (omega arith))

allocate_test :
    (do (block, s) ← allocate 4096 full fixed one_page 33 true; ok block)
    ≡ ok (some (8192 + 6 * 16))
unfolding allocate bytes_to_units align_unsigned bm_allocate take_page find_free_block
    count_zero_bits load_word count_trailing_zeros count_nonzero_bits set_bits unhand_page
    delete_from_list
allocate_test = refl

-- From two units to three.
reallocate-Resized_example :
    Resized 4096 8192 4 20 40 true full fixed one_page
      (reallocate 4096 full fixed one_page (some 8256) 20 40 true)
reallocate-Resized_example =
    reallocate-Resized 12 (omega arith) page_4096-IsPageSize full fixed one_page one_page-IsPet 8192
      lru refl one_page-IsPlaced 4 20 40 (omega arith) (omega arith) (omega arith) (omega arith)
      (omega (arith, bytes_to_units_lem 20 (omega arith)))
      (omega (arith, bytes_to_units_lem 20 (omega arith)))
      (omega (arith, bytes_to_units_lem 40 (omega arith))) true
