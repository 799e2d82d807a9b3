-- ===== src/FsbArena/Serve.antt =====
-- `fsb_arena_allocate` of src/fsb_arena.c gives the first free block of a page, and counts it.
use native.Mathlib.Decide.{dec_lt}
use native.Mathlib.Nat.{mul-le-mul_right, add-mul}
use mathlib.Core.Path.{subst}
use libpussy.Base.{
  ℕ, ◌+◌, ◌*◌, ◌^◌, ◌≤◌, ◌<◌, ◌≡◌, ◌≢◌, refl, sym, ap, ap₂, ◌∙◌, arith, bit_or, List, length,
  length-replicate, replicate, Option, none, some, Option-cases, Bool-cases, inl, inr, ◌==◌, update,
  update-same, update-other, u32, sub32, Run, ok, ◌>>=◌,
}
use libpussy.AddressSpace.{Mmap}
use libpussy.PetAllocator.Bitmap.{put_mask}
use libpussy.Word.{word_max}
use libpussy.PetAllocator.Bitmap.Range.{IsWords, bit_at, Puts}
use libpussy.FsbArena.{header_size}
use libpussy.FsbArena.Blocks.{
  Fsba, put_full, put_avail, new_page, page_to_use, allocate_in, find_free, take_bit, to_full,
  fsb_arena_allocate,
}
use libpussy.FsbArena.Count.{
  zeros_below, no_zeros, all_zeros, zeros_below-Puts, zeros_below-le, zero_bitmap, zero-IsWords,
  IsCounted, IsArena,
}
use libpussy.FsbArena.Bits.{found, crowded, find_free-Found, set_bit-Done}

-- Block `index` of the page, the first that was free, is in use.
pub record Gives (page_size : ℕ) (s : Fsba) (page : ℕ) (result : Run (Option ℕ × Fsba))
    : Type 0 where
  pub index : ℕ
  pub after : Fsba
  pub returns :
      result
      ≡ ok (
        some (
            page + header_size s.arena.bitmap_size s.arena.block_size + index * s.arena.block_size),
        after,
      )
  pub in_page :
      header_size s.arena.bitmap_size s.arena.block_size + (index + 1) * s.arena.block_size
      ≤ page_size
  pub was_free : bit_at (s.bitmap page) index ≡ 0
  pub first : (p : ℕ) → p < index → bit_at (s.bitmap page) p ≡ 1
  pub puts : Puts 1 index (index + 1) (s.bitmap page) (after.bitmap page)
  pub others :
      (q : ℕ) → q ≢ page → (after.bitmap q ≡ s.bitmap q) × (after.num_free q ≡ s.num_free q)
  pub one_less : after.num_free page + 1 ≡ s.num_free page
  pub counted : IsCounted after page

-- What `take_bit` leaves, wherever it puts the page.
record Took (s : Fsba) (page : ℕ) (bm : List ℕ) (result : Run Fsba) : Type 0 where
  after : Fsba
  returns : result ≡ ok after
  bitmap : after.bitmap ≡ update s.bitmap page bm
  num_free : after.num_free ≡ update s.num_free page (sub32 (s.num_free page) 1)
  blocks : after.arena.blocks_per_page ≡ s.arena.blocks_per_page
  words : after.arena.bitmap_size ≡ s.arena.bitmap_size

take_bit-Took :
    (page_size : ℕ) (s : Fsba) (page i b : ℕ) (bm : List ℕ)
    → put_mask bit_or word_max (s.bitmap page) i (2 ^ b) ≡ ok bm
    → Took s page bm (take_bit page_size s page i b)
unfolding take_bit to_full put_full put_avail
take_bit-Took page_size s page i b bm e =
    let n = sub32 (s.num_free page) 1 in
    let marked = record s {
      bitmap = update s.bitmap page bm;
      num_free = update s.num_free page n;
    } in
    elim (Bool-cases (n == 0)) [
      | inl last ↦ record {
        after = to_full marked page;
        returns = rw (e, last) refl;
        bitmap = refl;
        num_free = refl;
        blocks = refl;
        words = refl;
      }
      | inr more ↦ record {
        after = marked;
        returns = rw (e, more) refl;
        bitmap = refl;
        num_free = refl;
        blocks = refl;
        words = refl;
      }
    ]

-- Allocation from a page with a free block.
module _ (page_size : ℕ) (s : Fsba) (arena : IsArena page_size s.arena) (page : ℕ)
    (v : IsCounted s page) (some_free : 0 < s.num_free page) where
  blocks_fit :
      (index : ℕ)
      → index < s.arena.blocks_per_page
      → header_size s.arena.bitmap_size s.arena.block_size + (index + 1) * s.arena.block_size
        ≤ page_size
  blocks_fit index h = omega (
    arith,
    arena.layout.inside,
    mul-le-mul_right {m = index + 1} {n = s.arena.blocks_per_page} s.arena.block_size (omega arith),
  )

  not_full : ¬ ((p : ℕ) → p < s.arena.blocks_per_page → bit_at (s.bitmap page) p ≡ 1)
  not_full ones = omega (arith, v.counted, no_zeros (s.bitmap page) s.arena.blocks_per_page ones)

  first_below :
      (index : ℕ)
      → ((p : ℕ) → p < index → bit_at (s.bitmap page) p ≡ 1)
      → index < s.arena.blocks_per_page
  first_below index before = elim (dec_lt index s.arena.blocks_per_page) [
    | yes h ↦ h
    | no h ↦ absurd (not_full (λ p below. before p (omega arith)))
  ]

  no_wrap :
      (index : ℕ)
      → index < s.arena.blocks_per_page
      → u32 (index * s.arena.block_size) ≡ index * s.arena.block_size
  no_wrap index h = omega (
    arith,
    arena.layout.inside,
    arena.small,
    blocks_fit index h,
    add-mul index 1 s.arena.block_size,
  )

  gives :
      (j b : ℕ)
      → b < 64
      → j < s.arena.bitmap_size
      → bit_at (s.bitmap page) (j * 64 + b) ≡ 0
      → ((p : ℕ) → p < j * 64 + b → bit_at (s.bitmap page) p ≡ 1)
      → Gives page_size s page (do
        s' ← take_bit page_size s page j b
        ok (
          some (
              page
              + header_size s.arena.bitmap_size s.arena.block_size
              + u32 ((j * 64 + b) * s.arena.block_size)),
          s',
        ))
  gives j b small low free before =
      let index = j * 64 + b in
      let below = first_below index before in
      let room = blocks_fit index below in
      let done = set_bit-Done (s.bitmap page) j b v.words (omega (arith, v.whole)) small in
      let took = take_bit-Took page_size s page j b done.after done.returns in
      let bm : took.after.bitmap page ≡ done.after =
        ap (λ f. f page) took.bitmap ∙ update-same s.bitmap page done.after in
      let count : took.after.num_free page ≡ sub32 (s.num_free page) 1 =
        ap (λ f. f page) took.num_free ∙ update-same s.num_free page (sub32 (s.num_free page) 1) in
      let bound : s.num_free page < 2 ^ 32 =
        omega
          (arith, v.counted, zeros_below-le (s.bitmap page) s.arena.blocks_per_page, arena.few) in
      record {
        index = index;
        after = took.after;
        returns = rw (took.returns, no_wrap index below) refl;
        in_page = blocks_fit index below;
        was_free = free;
        first = before;
        puts = subst (Puts 1 index (index + 1) (s.bitmap page)) (sym bm) done.puts;
        others = λ q ne. (
          ap (λ f. f q) took.bitmap ∙ update-other s.bitmap page done.after q ne,
          ap (λ f. f q) took.num_free ∙ update-other s.num_free page _ q ne,
        );
        one_less = omega (arith, count, bound);
        counted = record {
          words = subst IsWords (sym bm) (done.puts.words v.words);
          whole = ap length bm ∙ done.puts.same_length ∙ v.whole ∙ sym took.words;
          counted =
              count
              ∙ omega (
                arith,
                free,
                bound,
                some_free,
                v.counted,
                zeros_below-Puts 1 index (s.bitmap page) done.after s.arena.blocks_per_page
                    done.puts below,
              )
              ∙ sym (ap₂ zeros_below bm took.blocks);
        };
      }

  -- The search and the rest.
  searched : Gives page_size s page (do
    (i, b) ← find_free (s.bitmap page) s.arena.bitmap_size 0
    s' ← take_bit page_size s page i b
    ok (
      some (
          page
          + header_size s.arena.bitmap_size s.arena.block_size
          + u32 ((i * 64 + b) * s.arena.block_size)),
      s',
    ))
  searched =
      elim (find_free-Found (s.bitmap page) s.arena.bitmap_size 0 v.words
        (omega (arith, v.whole))) [
          | found j b e small inside free before ↦
              rw e (gives j b small (omega arith) free (λ p h. before p (omega arith) h))
          | crowded e all ↦
              absurd
                (not_full (λ p h. all p (omega arith) (omega (arith, arena.layout.enough_bits))))
        ]

-- A block of the first page with a free one, of a new page if there is none, or none if there is no memory.
pub data Allocated (page_size : ℕ) (mmap : Mmap) (s : Fsba) (result : Run (Option ℕ × Fsba))
    : Type 0 where
  reused :
      (page : ℕ)
      → s.arena.avail_pages ≡ some page
      → Gives page_size s page result
      → Allocated page_size mmap s result
  fresh :
      (page : ℕ)
      → s.arena.avail_pages ≡ none
      → mmap s.maps page_size ≡ some page
      → Gives page_size (new_page page_size s page) page result
      → Allocated page_size mmap s result
  refused :
      s.arena.avail_pages ≡ none
      → mmap s.maps page_size ≡ none
      → result ≡ ok (none, s)
      → Allocated page_size mmap s result

module _ (page_size : ℕ) (mmap : Mmap) (s : Fsba) (arena : IsArena page_size s.arena) where
  new_page-IsCounted : (page : ℕ) → IsCounted (new_page page_size s page) page
  unfolding new_page put_avail
  new_page-IsCounted page =
      let bm = update-same s.bitmap page (replicate s.arena.bitmap_size 0) in
      record {
        words = subst IsWords (sym bm) (zero-IsWords s.arena.bitmap_size);
        whole = ap length bm ∙ length-replicate s.arena.bitmap_size 0;
        counted =
            update-same s.num_free page s.arena.blocks_per_page
            ∙ sym (
                ap (λ b. zeros_below b s.arena.blocks_per_page) bm
                ∙ all_zeros (replicate s.arena.bitmap_size 0) s.arena.blocks_per_page
                    (zero_bitmap s.arena.bitmap_size));
      }

  new_page-IsArena : (page : ℕ) → IsArena page_size (new_page page_size s page).arena
  unfolding new_page put_avail
  new_page-IsArena page = record { layout = arena.layout; small = arena.small; few = arena.few }

  new_page-free : (page : ℕ) → 0 < (new_page page_size s page).num_free page
  unfolding new_page put_avail
  new_page-free page =
      omega (arith, update-same s.num_free page s.arena.blocks_per_page, arena.layout.some_block)

  allocate_from :
      (old : Option ℕ)
      → s.arena.avail_pages ≡ old
      → ((p : ℕ) → s.arena.avail_pages ≡ some p → IsCounted s p × (0 < s.num_free p))
      → Allocated page_size mmap s (allocate_in page_size (page_to_use page_size mmap s old) s)
  unfolding page_to_use allocate_in
  allocate_from (some page) e ready =
      reused page e (searched page_size s arena page (ready page e).0 (ready page e).1)
  allocate_from none e ready = elim (Option-cases (mmap s.maps page_size)) [
    | inl no_memory ↦ refused e no_memory (rw (page_to_use, no_memory, allocate_in) refl)
    | inr (page, got) ↦ fresh page e got (
        rw (page_to_use, got, allocate_in)
          (searched page_size (new_page page_size s page) (new_page-IsArena page) page
            (new_page-IsCounted page) (new_page-free page)))
  ]

  -- In an arena laid out by `_init_fsb_arena`, whose first page with a free block counts its free blocks,
  -- `fsb_arena_allocate` returns. It gives the first block that was free on that page, or on a new page if there
  -- is none; the block lies in the page behind the header, its bit and no other is set, and the page still
  -- counts its free blocks. If mmap fails, it returns null and changes nothing.
  pub fsb_arena_allocate-Allocated :
      ((p : ℕ) → s.arena.avail_pages ≡ some p → IsCounted s p × (0 < s.num_free p))
      → Allocated page_size mmap s (fsb_arena_allocate page_size mmap s)
  unfolding fsb_arena_allocate
  fsb_arena_allocate-Allocated ready = allocate_from s.arena.avail_pages refl ready
