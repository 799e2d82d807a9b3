-- ===== src/FsbArena/Tests.antt =====
-- Layouts of pages of 4096 bytes.
use libpussy.Base.{◌≡◌, refl, arith, true, false, none, ok}
use libpussy.Align.{align_unsigned}
use libpussy.FsbArena.{FsbArena, init_fsb_arena}
use libpussy.FsbArena.Fits.{IsLayout, init_fsb_arena-IsLayout}

abbrev fresh : FsbArena
fresh = record {
  block_size = 0;
  bitmap_size = 0;
  blocks_per_page = 0;
  avail_pages = none;
  full_pages = none;
}

one_word_test :
    init_fsb_arena 4096 fresh 64 8
    ≡ ok (
      true,
      record {
        block_size = 64;
        bitmap_size = 1;
        blocks_per_page = 63;
        avail_pages = none;
        full_pages = none;
      },
    )
unfolding init_fsb_arena align_unsigned
one_word_test = refl

four_words_test :
    init_fsb_arena 4096 fresh 16 8
    ≡ ok (
      true,
      record {
        block_size = 16;
        bitmap_size = 4;
        blocks_per_page = 252;
        avail_pages = none;
        full_pages = none;
      },
    )
unfolding init_fsb_arena align_unsigned
four_words_test = refl

-- The header takes the whole page.
rejected_test : init_fsb_arena 4096 fresh 4096 8 ≡ ok (false, record fresh { block_size = 4096 })
unfolding init_fsb_arena align_unsigned
rejected_test = refl

init_fsb_arena-IsLayout_example :
    (after : FsbArena) × (init_fsb_arena 4096 fresh 16 8 ≡ ok (true, after))
    × (after.block_size ≡ 16)
    × IsLayout 4096 16 after.bitmap_size after.blocks_per_page
    × (after.avail_pages ≡ none)
    × (after.full_pages ≡ none)
init_fsb_arena-IsLayout_example =
    init_fsb_arena-IsLayout 4096 fresh 16 8 16 (omega arith) (omega arith) (omega arith)
      (omega arith)
