-- ===== src/FsbArena/BlockTests.antt =====
-- Blocks of 64 bytes on pages of 4096, as src/fsb_arena.c hands them out: a header of 64 bytes and 63 blocks.
use libpussy.Base.{ℕ, zero, suc, ◌+◌, ◌*◌, ◌≡◌, refl, arith, none, some, [], ◌∷◌, ok, ◌>>=◌}
use libpussy.Base.Bits.{bit}
use libpussy.Align.{align_unsigned}
use libpussy.AddressSpace.{Mmap, extent}
use libpussy.Word.{count_trailing_zeros}
use libpussy.PetAllocator.Bitmap.{load_word, put_mask}
use libpussy.PetAllocator.Bitmap.Range.{IsWords, bit_at}
use libpussy.PetAllocator.Interface.Address.{IsPlaced}
use libpussy.FsbArena.{FsbArena, header_size}
use libpussy.FsbArena.Blocks.{
  Fsba, find_free, take_bit, allocate_in, page_to_use, fsb_arena_allocate, fsb_arena_release,
}
use libpussy.FsbArena.Count.{zeros_below, IsCounted, IsArena}
use libpussy.FsbArena.Serve.{Allocated, fsb_arena_allocate-Allocated}
use libpussy.FsbArena.Release.{TakesBack, fsb_arena_release-TakesBack}

abbrev arena64 : FsbArena
arena64 = record {
  block_size = 64;
  bitmap_size = 1;
  blocks_per_page = 63;
  avail_pages = some 8192;
  full_pages = none;
}

-- Blocks 0 and 1 are in use.
abbrev two_used : Fsba
two_used = record {
  arena = arena64;
  next = λ p. p;
  prev = λ p. p;
  num_free = λ p. 61;
  bitmap = λ p. 3 ∷ [];
  maps = extent 8192 4096 ∷ [];
}

arena64-IsArena : IsArena 4096 arena64
unfolding header_size align_unsigned
arena64-IsArena = record {
  layout = record {
    header = omega arith;
    inside = omega arith;
    some_block = omega arith;
    enough_bits = omega arith;
  };
  small = omega arith;
  few = omega arith;
}

three-IsWords : IsWords (3 ∷ [])
three-IsWords zero = omega arith
three-IsWords (suc i) = omega arith

two_used-IsCounted : (p : ℕ) → IsCounted two_used p
unfolding zeros_below bit_at bit
two_used-IsCounted p = record { words = three-IsWords; whole = refl; counted = refl }

abbrev full : Mmap
full maps n = none

fsb_arena_allocate-Allocated_example :
    Allocated 4096 full two_used (fsb_arena_allocate 4096 full two_used)
fsb_arena_allocate-Allocated_example =
    fsb_arena_allocate-Allocated 4096 full two_used arena64-IsArena
      (λ p e. (two_used-IsCounted p, omega arith))

page-IsPlaced : IsPlaced 12 8192
page-IsPlaced = record { aligned = refl; inside = omega arith }

second_used : bit_at (3 ∷ []) 1 ≡ 1
unfolding bit_at bit
second_used = refl

fsb_arena_release-TakesBack_example :
    TakesBack two_used 8192 1
      (fsb_arena_release 4096 two_used (some (8192 + header_size 1 64 + 1 * 64)))
fsb_arena_release-TakesBack_example =
    fsb_arena_release-TakesBack 12 (omega arith) two_used arena64-IsArena 8192 page-IsPlaced
      (two_used-IsCounted 8192) 1 (omega arith) (omega arith) second_used (λ e. (8192, refl))

allocate_test :
    (do (block, s) ← fsb_arena_allocate 4096 full two_used; ok block)
    ≡ ok (some (8192 + 64 + 2 * 64))
unfolding fsb_arena_allocate page_to_use allocate_in find_free load_word take_bit put_mask
    count_trailing_zeros header_size align_unsigned
allocate_test = refl
