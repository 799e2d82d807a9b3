-- ===== src/FsbArena/Fits.antt =====
-- What `_init_fsb_arena` of src/fsb_arena.c computes fits a page.
use native.Mathlib.Nat.{mul-le-mul_right, div-mul-le_self, le-div_iff_mul-le}
use libpussy.Base.{
  max, ℕ, zero, suc, ◌+◌, ◌-◌, ◌*◌, ◌/◌, ◌^◌, ◌≤◌, ◌<◌, ◌≡◌, refl, arith, true, false, none, ltb,
  ◌==◌, if◌then◌else◌, u32, sub32, Run, ok, Bool-cases, inl, inr, ltb→lt, ltb→le,
}
use libpussy.Align.Laws.{align_unsigned_bounds}
use libpussy.FsbArena.{FsbArena, header_size, size_bitmap, init_fsb_arena}

-- The header holds the bitmap, the blocks lie behind it in the page, there is at least one, and each has a bit.
pub record IsLayout (page block_size bitmap_size blocks_per_page : ℕ) : Type 0 where
  pub header : 32 + 8 * bitmap_size ≤ header_size bitmap_size block_size
  pub inside : header_size bitmap_size block_size + blocks_per_page * block_size ≤ page
  pub some_block : 0 < blocks_per_page
  pub enough_bits : blocks_per_page ≤ bitmap_size * 64

pub record Layout (page block_size : ℕ) (result : Run (ℕ × ℕ)) : Type 0 where
  pub bitmap_size : ℕ
  pub blocks : ℕ
  pub returns : result ≡ ok (bitmap_size, blocks)
  pub fits : IsLayout page block_size bitmap_size blocks

module _ (page size : ℕ) (some_bytes : 0 < size) (small : page ≤ 2 ^ 25) where
  header_bounds :
      (b : ℕ)
      → 32 + 8 * b + 2 * size ≤ page
      → (32 + 8 * b ≤ header_size b size) × (header_size b size < 32 + 8 * b + size)
  unfolding header_size
  header_bounds b room =
      let e : u32 (32 + 8 * b) ≡ 32 + 8 * b = omega arith in
      rw e (align_unsigned_bounds (32 + 8 * b) size some_bytes (omega arith))

  size_bitmap-Layout :
      (fuel b : ℕ)
      → 32 + 8 * (b + 1) + 2 * size ≤ page
      → page < b + fuel
      → Layout page size (size_bitmap page size fuel b)
  unfolding size_bitmap
  size_bitmap-Layout zero b room enough = absurd (omega arith)
  size_bitmap-Layout (suc fuel) b room enough =
      rw (no_wrap, bits)
        (elim (Bool-cases (ltb ((b + 1) * 64) blocks)) [
          | inl more ↦ rw more (size_bitmap-Layout fuel (b + 1) (next more) (omega arith))
          | inr done ↦ rw done (record {
            bitmap_size = b + 1;
            blocks = blocks;
            returns = refl;
            fits = record {
              header = bounds.0;
              inside =
                  omega (arith, bounds, div-mul-le_self (page - header_size (b + 1) size) size);
              some_block = (le-div_iff_mul-le some_bytes).1 (omega (arith, bounds));
              enough_bits = ltb→le _ _ done;
            };
          })
        ])
    where
      bounds :
          (32 + 8 * (b + 1) ≤ header_size (b + 1) size)
          × (header_size (b + 1) size < 32 + 8 * (b + 1) + size)
      bounds = header_bounds (b + 1) room

      blocks : ℕ
      blocks = (page - header_size (b + 1) size) / size

      no_wrap : sub32 page (header_size (b + 1) size) ≡ page - header_size (b + 1) size
      no_wrap = omega (arith, bounds)

      bits : u32 ((b + 1) * 64) ≡ (b + 1) * 64
      bits = omega arith

      next : ltb ((b + 1) * 64) blocks ≡ true → 32 + 8 * (b + 1 + 1) + 2 * size ≤ page
      next more = omega (
        arith,
        bounds,
        div-mul-le_self (page - header_size (b + 1) size) size,
        mul-le-mul_right {m = 65} {n = blocks} size (omega (arith, ltb→lt _ _ more)),
      )

-- If the header with one word and two blocks of `size` bytes fit a page of at most 2^25 bytes, where `size`
-- is the larger of the block size and the alignment, and not 0, `_init_fsb_arena` ends and returns true: the
-- bitmap has a bit for each block, there is at least one, the header with the bitmap and all blocks lie in
-- the page, and both lists are empty.
pub init_fsb_arena-IsLayout :
    (page : ℕ) (arena : FsbArena) (block_size block_alignment size : ℕ)
    → page ≤ 2 ^ 25
    → 0 < size
    → max block_size block_alignment ≡ size
    → 40 + 2 * size ≤ page
    → (after : FsbArena) × (init_fsb_arena page arena block_size block_alignment ≡ ok (true, after))
      × (after.block_size ≡ size)
      × IsLayout page size after.bitmap_size after.blocks_per_page
      × (after.avail_pages ≡ none)
      × (after.full_pages ≡ none)
unfolding init_fsb_arena
init_fsb_arena-IsLayout page arena block_size block_alignment size small some_bytes larger room =
    let l =
      size_bitmap-Layout page size some_bytes small (page + 1) 0 (omega arith) (omega arith) in
    (
      record {
        block_size = size;
        bitmap_size = l.bitmap_size;
        blocks_per_page = l.blocks;
        avail_pages = none;
        full_pages = none;
      },
      rw (own_size, accepted, nonzero, l.returns) refl,
      refl,
      l.fits,
      refl,
      refl,
    )
  where
    own_size : (if ltb block_size block_alignment then block_alignment else block_size) ≡ size
    own_size = ground arith

    nonzero : (size == 0) ≡ false
    nonzero = ground arith

    accepted : ltb (sub32 page (header_size 1 size)) size ≡ false
    accepted = ground (arith, header_bounds page size some_bytes small 1 (omega arith))
