-- ===== src/FsbArena/WalkTests.antt =====
-- Walks through pages of 4096 bytes with blocks of 64, as `fsb_arena_walk` of src/fsb_arena.c makes them.
use Prim.{tt}
use libpussy.Base.{
  ℕ, ◌+◌, ◌≡◌, ◌==◌, if◌then◌else◌, refl, arith, none, some, List, [], ◌∷◌, Run, ok, blocked, ◌>>=◌,
}
use libpussy.Base.Returns.{Returns}
use libpussy.Align.{align_unsigned}
use libpussy.AddressSpace.{extent}
use libpussy.PetAllocator.Bitmap.{load_word, put_mask}
use libpussy.PageList.{delete_from_list}
use libpussy.PageList.Ring.{Chain, Distinct, IsRing, NotIn}
use libpussy.FsbArena.{header_size}
use libpussy.FsbArena.Blocks.{Fsba, avail_list, return_page, give_bit, fsb_arena_release}
use libpussy.FsbArena.Walk.{
  walk_block, walk_bits, walk_words, walk_pages, walk_from, fsb_arena_walk,
}
use libpussy.FsbArena.Walk.Ends.{KeepsPages, Kept, fsb_arena_walk-ends}

-- Three pages in a ring, each with one block in use.
abbrev three_pages : Fsba
three_pages = record {
  arena = record {
    block_size = 64;
    bitmap_size = 1;
    blocks_per_page = 63;
    avail_pages = some 4096;
    full_pages = none;
  };
  next = λ p. if p == 4096 then 8192 else if p == 8192 then 12288 else 4096;
  prev = λ p. if p == 4096 then 12288 else if p == 8192 then 4096 else 8192;
  num_free = λ p. 62;
  bitmap = λ p. 1 ∷ [];
  maps = extent 4096 4096 ∷ (extent 8192 4096 ∷ (extent 12288 4096 ∷ []));
}

abbrev collect : List ℕ → Fsba → ℕ → Run (List ℕ × Fsba)
collect seen s block = ok (block ∷ seen, s)

abbrev release_all : ℕ → Fsba → ℕ → Run (ℕ × Fsba)
release_all x s block = fsb_arena_release 4096 s (some block) >>= (λ r. ok (x, r.1))

three_pages-IsRing : IsRing (avail_list three_pages) (4096 ∷ (8192 ∷ (12288 ∷ [])))
unfolding IsRing Chain Distinct NotIn
three_pages-IsRing = (
  refl,
  (refl, refl, (refl, refl, (refl, refl))),
  (((λ e. omega arith), ((λ e. omega arith), tt)), (((λ e. omega arith), tt), (tt, tt))),
)

collect_keeps :
    (seen : List ℕ) (s : Fsba) (block : ℕ)
    → KeepsPages three_pages s
    → Returns (Kept three_pages) (collect seen s block)
unfolding Returns
collect_keeps seen s block k = k

fsb_arena_walk-ends_example : Returns (Kept three_pages) (fsb_arena_walk collect 3 [] three_pages)
fsb_arena_walk-ends_example =
    fsb_arena_walk-ends collect three_pages collect_keeps (4096 ∷ (8192 ∷ (12288 ∷ []))) []
      three_pages-IsRing (λ p. refl)

walk_test :
    fsb_arena_walk collect 3 [] three_pages
    ≡ ok ((12288 + 64) ∷ ((8192 + 64) ∷ ((4096 + 64) ∷ [])), three_pages)
unfolding fsb_arena_walk walk_from walk_pages walk_words walk_bits walk_block load_word header_size
    align_unsigned
walk_test = refl

-- The callback releases the last block of the first page, which is unmapped, and the walk misses its end.
release_test : fsb_arena_walk release_all 6 0 three_pages ≡ blocked
unfolding fsb_arena_walk walk_from walk_pages walk_words walk_bits walk_block load_word header_size
    align_unsigned fsb_arena_release give_bit return_page delete_from_list put_mask
release_test = refl
