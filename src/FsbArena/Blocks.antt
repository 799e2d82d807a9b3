-- ===== src/FsbArena/Blocks.antt =====
-- `fsb_arena_allocate` and `fsb_arena_release` of src/fsb_arena.c, on one arena. A page is its address; the
-- fields of a page header are functions of the page, and its `arena` is the one arena there is.
use libpussy.Base.{
  ℕ, zero, suc, ◌+◌, ◌-◌, ◌*◌, ◌/◌, ◌%◌, ◌^◌, bit_and, bit_or, Option, none, some, List, ◌∷◌, ◌==◌,
  if◌then◌else◌, update, u32, sub32, replicate, Run, ok, aborted, undefined, ◌>>=◌,
}
use libpussy.Base.Bits.{complement}
use libpussy.AddressSpace.{Extent, extent, Mmap, munmap}
use libpussy.PageList.{Links, add_to_front, delete_from_list}
use libpussy.Word.{word_width, word_max, count_trailing_zeros}
use libpussy.PetAllocator.Bitmap.{load_word, put_mask}
use libpussy.FsbArena.{FsbArena, header_size}

pub record Fsba : Type 0 where
  pub arena : FsbArena
  pub next : ℕ → ℕ
  pub prev : ℕ → ℕ
  pub num_free : ℕ → ℕ
  pub bitmap : ℕ → List ℕ
  pub maps : List Extent

-- `&arena->avail_pages` and `&arena->full_pages`
unfoldable pub put_avail : Fsba → Links → Fsba
put_avail s l = record s {
  arena = record s.arena { avail_pages = l.head };
  next = l.next;
  prev = l.prev;
}

unfoldable pub put_full : Fsba → Links → Fsba
put_full s l = record s {
  arena = record s.arena { full_pages = l.head };
  next = l.next;
  prev = l.prev;
}

abbrev pub avail_list : Fsba → Links
avail_list s = record { head = s.arena.avail_pages; next = s.next; prev = s.prev }

abbrev pub full_list : Fsba → Links
full_list s = record { head = s.arena.full_pages; next = s.next; prev = s.prev }

unfoldable pub to_full : Fsba → ℕ → Fsba
unfolding put_avail put_full
to_full s page =
    let s' = put_avail s (delete_from_list (avail_list s) page) in
    put_full s' (add_to_front (full_list s') page)

unfoldable pub to_avail : Fsba → ℕ → Fsba
unfolding put_avail put_full
to_avail s page =
    let s' = put_full s (delete_from_list (full_list s) page) in
    put_avail s' (add_to_front (avail_list s') page)

-- The first place that is free, from word `i` on, of which `n` are left.
unfoldable pub find_free : List ℕ → ℕ → ℕ → Run (ℕ × ℕ)
find_free bm zero i = aborted
find_free bm (suc n) i =
    let rest = find_free bm n (i + 1) in
    do
      word ← load_word bm i
      let w = complement 64 word
      if w == 0 then rest else ok (i, count_trailing_zeros w)

module _ (page_size : ℕ) where
  -- A page just mapped, with no block in use.
  unfoldable pub new_page : Fsba → ℕ → Fsba
  unfolding put_avail
  new_page s page =
      let s' = record s {
        maps = extent page page_size ∷ s.maps;
        num_free = update s.num_free page s.arena.blocks_per_page;
        bitmap = update s.bitmap page (replicate s.arena.bitmap_size 0);
      } in
      put_avail s' (add_to_front (avail_list s') page)

  -- The page to allocate from, a new one if there is none.
  unfoldable pub page_to_use : Mmap → Fsba → Option ℕ → Option (ℕ × Fsba)
  page_to_use mmap s (some page) = some (page, s)
  page_to_use mmap s none = elim (mmap s.maps page_size) [
    | none ↦ none
    | some page ↦ some (page, new_page s page)
  ]

  -- The bit is set, and the page moved if it is full now.
  unfoldable pub take_bit : Fsba → ℕ → ℕ → ℕ → Run Fsba
  unfolding to_full
  take_bit s page i bit_index = do
    bm ← put_mask bit_or word_max (s.bitmap page) i (2 ^ bit_index)
    let n = sub32 (s.num_free page) 1
    let s' = record s { bitmap = update s.bitmap page bm; num_free = update s.num_free page n }
    ok (if n == 0 then to_full s' page else s')

  -- The search in the page, if there is one, and the address of the block.
  unfoldable pub allocate_in : Option (ℕ × Fsba) → Fsba → Run (Option ℕ × Fsba)
  allocate_in none s = ok (none, s)
  allocate_in (some (page, s')) s = do
    (i, bit_index) ← find_free (s'.bitmap page) s'.arena.bitmap_size 0
    s'' ← take_bit s' page i bit_index
    let size = s'.arena.block_size
    let block = u32 ((i * word_width + bit_index) * size)
    ok (some (page + header_size s'.arena.bitmap_size size + block), s'')

  unfoldable pub fsb_arena_allocate : Mmap → Fsba → Run (Option ℕ × Fsba)
  fsb_arena_allocate mmap s = allocate_in (page_to_use mmap s s.arena.avail_pages) s

  -- A page with no block any more goes back to the system, unless the list, with this first page, is short.
  unfoldable pub return_page : Fsba → ℕ → Option ℕ → Run Fsba
  unfolding put_avail
  return_page s page none = undefined
  return_page s page (some first) =
      if s.next first == s.prev first
      then ok s
      else (let s' = put_avail s (delete_from_list (avail_list s) page) in
          ok (record s' { maps = munmap s'.maps page page_size }))

  -- The bit is cleared, and the page moved if it was full.
  unfoldable pub give_bit : Fsba → ℕ → ℕ → Run Fsba
  unfolding return_page to_avail
  give_bit s page index = do
    bm ←
        put_mask (λ word mask. bit_and word (complement word_width mask)) 0 (s.bitmap page)
          (index / word_width) (2 ^ (index % word_width))
    let n = u32 (s.num_free page + 1)
    let s' = record s { bitmap = update s.bitmap page bm; num_free = update s.num_free page n }
    if n == s.arena.blocks_per_page
        then return_page s' page s.arena.avail_pages
        else if n == 1
        then ok (to_avail s' page)
        else ok s'

  -- The pointer is null afterwards.
  unfoldable pub fsb_arena_release : Fsba → Option ℕ → Run (Option ℕ × Fsba)
  fsb_arena_release s none = ok (none, s)
  fsb_arena_release s (some block) =
      let page = bit_and block (complement 64 (page_size - 1)) in
      let offset = u32 (block - page) in
      let index =
        sub32 offset (header_size s.arena.bitmap_size s.arena.block_size) / s.arena.block_size in
      if s.arena.block_size == 0 then undefined else (do s' ← give_bit s page index; ok (none, s'))

  -- `free_page`
  unfoldable pub free_page : Fsba → ℕ → Fsba
  free_page s page = record s { maps = munmap s.maps page page_size }

  -- One of the loops of `destroy_fsb_arena`. The page is not moved on, so its second round reads an unmapped page.
  unfoldable pub destroy_list : Fsba → Option ℕ → Run Fsba
  unfolding free_page
  destroy_list s none = ok s
  destroy_list s (some page) = if page == s.next page then ok (free_page s page) else undefined

  unfoldable pub destroy_fsb_arena : Fsba → Run Fsba
  unfolding destroy_list
  destroy_fsb_arena s = do
    s' ← destroy_list s s.arena.avail_pages
    s'' ← destroy_list s' s'.arena.full_pages
    ok (record s'' { arena = record s''.arena { avail_pages = none; full_pages = none } })
