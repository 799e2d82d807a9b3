-- ===== src/FsbArena.antt =====
-- `_init_fsb_arena` of src/fsb_arena.c: how a page is divided into a header with a bitmap, and blocks.
pub mod Fits
pub mod Blocks
pub mod Bits
pub mod Count
pub mod Serve
pub mod Release
pub mod Walk
mod Tests
mod BlockTests
mod WalkTests
use libpussy.Base.{
  ℕ, zero, suc, ◌+◌, ◌-◌, ◌*◌, ◌/◌, Bool, true, false, Option, none, ltb, ◌==◌, if◌then◌else◌, u32,
  sub32, Run, ok, undefined, ◌>>=◌,
}
use libpussy.Align.{align_unsigned}
use libpussy.Word.{word_width}

pub record FsbArena : Type 0 where
  pub block_size : ℕ
  pub bitmap_size : ℕ
  pub blocks_per_page : ℕ
  pub avail_pages : Option ℕ
  pub full_pages : Option ℕ

-- `sizeof(FsbaPageHeader)` and `sizeof(Word)`
abbrev pub page_header_size : ℕ
page_header_size = 32

abbrev pub word_size : ℕ
word_size = 8

unfoldable pub header_size : ℕ → ℕ → ℕ
header_size bitmap_size block_size =
    align_unsigned (u32 (page_header_size + word_size * bitmap_size)) block_size

module _ (page : ℕ) where
  -- The loop: the bitmap grows until it has a bit for each block. The fuel is more than the page has bytes.
  unfoldable pub size_bitmap : ℕ → ℕ → ℕ → Run (ℕ × ℕ)
  unfolding header_size
  size_bitmap block_size zero bitmap_size = undefined
  size_bitmap block_size (suc fuel) bitmap_size =
      let bitmap_size' = bitmap_size + 1 in
      let blocks_per_page = sub32 page (header_size bitmap_size' block_size) / block_size in
      let rest = size_bitmap block_size fuel bitmap_size' in
      if ltb (u32 (bitmap_size' * word_width)) blocks_per_page
      then rest
      else ok (bitmap_size', blocks_per_page)

  unfoldable pub init_fsb_arena : FsbArena → ℕ → ℕ → Run (Bool × FsbArena)
  unfolding size_bitmap
  init_fsb_arena arena block_size block_alignment =
      let size = if ltb block_size block_alignment then block_alignment else block_size in
      let max_block_size = sub32 page (header_size 1 size) in
      if ltb max_block_size size
      then ok (false, record arena { block_size = size })
      else if size == 0
      then undefined
      else (do
        sizes ← size_bitmap size (page + 1) 0
        ok (
          true,
          record {
            block_size = size;
            bitmap_size = sizes.0;
            blocks_per_page = sizes.1;
            avail_pages = none;
            full_pages = none;
          },
        ))
