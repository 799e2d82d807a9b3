-- ===== src/FsbArena/Release.antt =====
-- `fsb_arena_release` of src/fsb_arena.c takes a block back, and counts it.
use native.Mathlib.Nat.{mul-le-mul_right, add-mul, mul-div_cancel}
use mathlib.Core.Path.{subst}
use libpussy.Base.{
  ℕ, ◌+◌, ◌-◌, ◌*◌, ◌/◌, ◌%◌, ◌^◌, ◌≤◌, ◌<◌, ◌≡◌, ◌≢◌, refl, sym, ap, ap₂, ◌∙◌, arith, bit_and,
  true, false, List, length, Option, none, some, Bool-cases, inl, inr, ◌==◌, update, update-same,
  update-other, u32, sub32, Run, ok,
}
use libpussy.Base.Bits.{complement}
use libpussy.Word.{word_width}
use libpussy.PetAllocator.Bitmap.{put_mask}
use libpussy.PetAllocator.Bitmap.Range.{IsWords, bit_at, Puts}
use libpussy.PetAllocator.Bitmap.Put.{Done}
use libpussy.PetAllocator.Interface.Address.{IsPlaced, page_of}
use libpussy.FsbArena.{header_size}
use libpussy.FsbArena.Blocks.{
  Fsba, put_full, put_avail, to_avail, return_page, give_bit, fsb_arena_release,
}
use libpussy.FsbArena.Count.{zeros_below, zeros_below-Puts, zeros_below-le, IsCounted, IsArena}
use libpussy.FsbArena.Bits.{clear_bit-Done}

-- What `give_bit` leaves, wherever it puts the page.
record Gave (s : Fsba) (page : ℕ) (bm : List ℕ) (result : Run Fsba) : Type 0 where
  after : Fsba
  returns : result ≡ ok after
  bitmap : after.bitmap ≡ update s.bitmap page bm
  num_free : after.num_free ≡ update s.num_free page (u32 (s.num_free page + 1))
  blocks : after.arena.blocks_per_page ≡ s.arena.blocks_per_page
  words : after.arena.bitmap_size ≡ s.arena.bitmap_size

module _ (page_size : ℕ) (s : Fsba) (page : ℕ) (bm : List ℕ) where
  abbrev marked : Fsba
  marked = record s {
    bitmap = update s.bitmap page bm;
    num_free = update s.num_free page (u32 (s.num_free page + 1));
  }

  marked-Gave : Gave s page bm (ok marked)
  marked-Gave = record {
    after = marked;
    returns = refl;
    bitmap = refl;
    num_free = refl;
    blocks = refl;
    words = refl;
  }

  to_avail-Gave : Gave s page bm (ok (to_avail marked page))
  unfolding to_avail put_avail put_full
  to_avail-Gave = record {
    after = to_avail marked page;
    returns = refl;
    bitmap = refl;
    num_free = refl;
    blocks = refl;
    words = refl;
  }

  return_page-Gave : (first : ℕ) → Gave s page bm (return_page page_size marked page (some first))
  unfolding return_page put_avail
  return_page-Gave first = elim (Bool-cases (s.next first == s.prev first)) [
    | inl short ↦ rw short marked-Gave
    | inr long ↦ rw long (record {
      after = _;
      returns = refl;
      bitmap = refl;
      num_free = refl;
      blocks = refl;
      words = refl;
    })
  ]

  -- If the page has no block any more, some page is available.
  give_bit-Gave :
      (index : ℕ)
      → put_mask
          (λ word mask. bit_and word (complement word_width mask))
          0
          (s.bitmap page)
          (index / word_width)
          (2 ^ (index % word_width))
        ≡ ok bm
      → (u32 (s.num_free page + 1) ≡ s.arena.blocks_per_page
          → (first : ℕ) × (s.arena.avail_pages ≡ some first))
      → Gave s page bm (give_bit page_size s page index)
  unfolding give_bit
  give_bit-Gave index e last =
      elim (Bool-cases (u32 (s.num_free page + 1) == s.arena.blocks_per_page)) [
        | inl empty ↦
            let some_page = last (equal_numbers _ _ empty) in
            rw (e, empty)
              (subst (λ o. Gave s page bm (return_page page_size marked page o)) (sym some_page.1)
                (return_page-Gave some_page.0))
        | inr used ↦ elim (Bool-cases (u32 (s.num_free page + 1) == 1)) [
          | inl was_full ↦ rw (e, used, was_full) to_avail-Gave
          | inr was_not ↦ rw (e, used, was_not) marked-Gave
        ]
      ]
    where
      equal_numbers : (m n : ℕ) → (m == n) ≡ true → m ≡ n
      equal_numbers m n h = ground arith

nonzero : (n : ℕ) → 0 < n → (n == 0) ≡ false
nonzero n h = ground arith

-- Block `index` of the page is free again.
pub record TakesBack (s : Fsba) (page index : ℕ) (result : Run (Option ℕ × Fsba)) : Type 0 where
  pub after : Fsba
  pub returns : result ≡ ok (none, after)
  pub puts : Puts 0 index (index + 1) (s.bitmap page) (after.bitmap page)
  pub others :
      (q : ℕ) → q ≢ page → (after.bitmap q ≡ s.bitmap q) × (after.num_free q ≡ s.num_free q)
  pub one_more : after.num_free page ≡ s.num_free page + 1
  pub counted : IsCounted after page

module _ (k : ℕ) (small : k < 32) (s : Fsba) (arena : IsArena (2 ^ k) s.arena) (page : ℕ)
    (placed : IsPlaced k page) (v : IsCounted s page) (index : ℕ)
    (some_size : 0 < s.arena.block_size) where
  abbrev block : ℕ
  block = page + header_size s.arena.bitmap_size s.arena.block_size + index * s.arena.block_size

  abbrev header : ℕ
  header = header_size s.arena.bitmap_size s.arena.block_size

  module _ (below : index < s.arena.blocks_per_page) (used : bit_at (s.bitmap page) index ≡ 1) where
    in_page : header + index * s.arena.block_size + s.arena.block_size ≤ 2 ^ k
    in_page = omega (
      arith,
      arena.layout.inside,
      add-mul index 1 s.arena.block_size,
      mul-le-mul_right {m = index + 1} {n = s.arena.blocks_per_page} s.arena.block_size
          (omega arith),
    )

    page_back : bit_and block (complement 64 (2 ^ k - 1)) ≡ page
    page_back =
        ap (λ b. bit_and b (complement 64 (2 ^ k - 1))) {x = block}
          {y = page + (header + index * s.arena.block_size)} (omega arith)
        ∙ page_of k page (header + index * s.arena.block_size) small placed (omega (arith, in_page))

    index_back : sub32 (u32 (block - page)) header / s.arena.block_size ≡ index
    index_back =
        ap (λ x. x / s.arena.block_size) {x = sub32 (u32 (block - page)) header}
          {y = index * s.arena.block_size} (omega (arith, in_page, arena.small))
        ∙ mul-div_cancel index some_size

    more_zeros :
        (bm : List ℕ)
        → Puts 0 index (index + 1) (s.bitmap page) bm
        → zeros_below bm s.arena.blocks_per_page ≡ s.num_free page + 1
    more_zeros bm puts = omega (
      arith,
      used,
      v.counted,
      zeros_below-Puts 0 index (s.bitmap page) bm s.arena.blocks_per_page puts below,
    )

    cleared : Done 0 index (index + 1) (s.bitmap page) (
        put_mask
          (λ word mask. bit_and word (complement word_width mask))
          0
          (s.bitmap page)
          (index / word_width)
          (2 ^ (index % word_width)))
    cleared =
        clear_bit-Done (s.bitmap page) index v.words
          (omega (arith, v.whole, arena.layout.enough_bits))

    count_fits : u32 (s.num_free page + 1) ≡ s.num_free page + 1
    count_fits = omega (
      arith,
      arena.few,
      more_zeros cleared.after cleared.puts,
      zeros_below-le cleared.after s.arena.blocks_per_page,
    )

    -- For an arena laid out by `_init_fsb_arena` on pages of 2^k bytes, and a block in use of a page that counts
    -- its free blocks, if some page is available in case that this one has no other block, `fsb_arena_release`
    -- returns. It clears the bit of the block and no other, the page still counts its free blocks, one more, and
    -- the pointer is null.
    pub fsb_arena_release-TakesBack :
        (s.num_free page + 1 ≡ s.arena.blocks_per_page
          → (first : ℕ) × (s.arena.avail_pages ≡ some first))
        → TakesBack s page index (fsb_arena_release (2 ^ k) s (some block))
    unfolding fsb_arena_release
    fsb_arena_release-TakesBack last =
        let gave =
          give_bit-Gave (2 ^ k) s page cleared.after index cleared.returns
            (λ e. last (sym count_fits ∙ e)) in
        let bm : gave.after.bitmap page ≡ cleared.after =
          ap (λ f. f page) gave.bitmap ∙ update-same s.bitmap page cleared.after in
        let count : gave.after.num_free page ≡ s.num_free page + 1 =
          ap (λ f. f page) gave.num_free
          ∙ update-same s.num_free page (u32 (s.num_free page + 1))
          ∙ count_fits in
        record {
          after = gave.after;
          returns =
              rw (nonzero s.arena.block_size some_size, page_back, index_back, gave.returns) refl;
          puts = subst (Puts 0 index (index + 1) (s.bitmap page)) (sym bm) cleared.puts;
          others = λ q ne. (
            ap (λ f. f q) gave.bitmap ∙ update-other s.bitmap page cleared.after q ne,
            ap (λ f. f q) gave.num_free
                ∙ update-other s.num_free page (u32 (s.num_free page + 1)) q ne,
          );
          one_more = count;
          counted = record {
            words = subst IsWords (sym bm) (cleared.puts.words v.words);
            whole = ap length bm ∙ cleared.puts.same_length ∙ v.whole ∙ sym gave.words;
            counted =
                count
                ∙ sym (ap₂ zeros_below bm gave.blocks ∙ more_zeros cleared.after cleared.puts);
          };
        }
