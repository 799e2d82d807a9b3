-- ===== src/FsbArena/Walk.antt =====
-- `fsb_arena_walk` of src/fsb_arena.c. The callback is a parameter, with its data and the arena as its state.
pub mod Ends
use libpussy.Base.{
  ℕ, zero, suc, ◌+◌, ◌*◌, ◌^◌, bit_and, Bool, true, false, Option, none, some, leb, ◌==◌,
  if◌then◌else◌, sub32, Run, ok, blocked, ◌>>=◌,
}
use libpussy.Word.{word_width}
use libpussy.PetAllocator.Bitmap.{load_word}
use libpussy.FsbArena.{FsbArena, header_size}
use libpussy.FsbArena.Blocks.{Fsba}

module _ {A : Type 0} (callback : A → Fsba → ℕ → Run (A × Fsba)) where
  -- The body of the inner loop. The flag says that this was the last block on the page.
  unfoldable pub walk_block : ℕ → ℕ → ℕ → ℕ → A → Fsba → Run (Bool × (A × Fsba))
  walk_block page w j block x s = if bit_and w (2 ^ j) == 0 then ok (false, (x, s)) else (do
    visited ← callback x s block
    ok (leb (sub32 s.arena.blocks_per_page 1) (s.num_free page), visited))

  -- The bits of a word from `j` on, of which `n` are left.
  unfoldable pub walk_bits : ℕ → ℕ → ℕ → ℕ → ℕ → ℕ → A → Fsba → Run (Bool × (A × Fsba))
  unfolding walk_block
  walk_bits page size w zero j block x s = ok (false, (x, s))
  walk_bits page size w (suc n) j block x s = do
    (done, (x', s')) ← walk_block page w j block x s
    elim done [
      | true ↦ ok (true, (x', s'))
      | false ↦ walk_bits page size w n (j + 1) (block + size) x' s'
    ]

  -- The words of a page from `i` on, of which `n` are left.
  unfoldable pub walk_words : ℕ → ℕ → ℕ → ℕ → ℕ → A → Fsba → Run (A × Fsba)
  unfolding walk_bits
  walk_words page size zero i block x s = ok (x, s)
  walk_words page size (suc n) i block x s = do
    w ← load_word (s.bitmap page) i
    (done, (x', s')) ← walk_bits page size w word_width 0 block x s
    elim done [
      | true ↦ ok (x', s')
      | false ↦ walk_words page size n (i + 1) (block + word_width * size) x' s'
    ]

  -- The pages up to the first one. The next page is read before the callback can release the block.
  unfoldable pub walk_pages : FsbArena → ℕ → ℕ → ℕ → A → Fsba → Run (A × Fsba)
  unfolding walk_words
  walk_pages arena zero first page x s = blocked
  walk_pages arena (suc fuel) first page x s =
      let next_page = s.next page in
      let block = page + header_size arena.bitmap_size arena.block_size in
      do
        (x', s') ← walk_words page arena.block_size arena.bitmap_size 0 block x s
        elim (next_page == first) [
          | true ↦ ok (x', s')
          | false ↦ walk_pages arena fuel first next_page x' s'
        ]

  -- The walk from the head of the list. The fuel bounds the pages; a walk that never ends is blocked.
  unfoldable pub walk_from : FsbArena → ℕ → Option ℕ → A → Fsba → Run (A × Fsba)
  unfolding walk_pages
  walk_from arena fuel none x s = ok (x, s)
  walk_from arena fuel (some first) x s = walk_pages arena fuel first first x s

  unfoldable pub fsb_arena_walk : ℕ → A → Fsba → Run (A × Fsba)
  unfolding walk_from
  fsb_arena_walk fuel x s = walk_from s.arena fuel s.arena.avail_pages x s
