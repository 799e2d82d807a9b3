-- ===== src/PetAllocator/Blocks/Allocate.antt =====
-- `bm_allocate` of src/allocator_pet.c gives a block of free units, on a page there is or on a new one.
use mathlib.Core.Path.{subst}
use libpussy.Base.{
  ℕ, zero, suc, ◌+◌, ◌*◌, ◌/◌, ◌≤◌, ◌<◌, ◌≡◌, ◌≢◌, refl, sym, ap, ◌∙◌, arith, List, ◌∷◌, length,
  Bool, Option, none, some, Option-cases, inl, inr, if◌then◌else◌, update, update-same,
  update-other, inc64, u32, replicate, length-replicate, Run, ok,
}
use libpussy.AddressSpace.{extent, Mmap}
use libpussy.PetAllocator.Bitmap.{set_bits}
use libpussy.PetAllocator.Bitmap.Range.{IsWords, Puts}
use libpussy.PetAllocator.Bitmap.Put.{Done, Done-at, set_bits-Done}
use libpussy.PetAllocator.Search.Gap.{IsGap}
use libpussy.PetAllocator.Sizes.{units_per_page, header_units, max_data_units}
use libpussy.PetAllocator.Sizes.Laws.{IsPageSize, init_sizes}
use libpussy.PetAllocator.State.{Pet, lru}
use libpussy.PetAllocator.State.Frame.{SameBlocks}
use libpussy.PetAllocator.State.Unhand.{IsPet, unhand_page-Unhanded}
use libpussy.PetAllocator.Blocks.{cleansed, hand_out, fresh_page, bm_allocate}
use libpussy.PetAllocator.Blocks.Marked.{Marks-before, unhand_page-Marks, update-IsPet}
use libpussy.PetAllocator.Blocks.Find.{
  HasGap, IsFirst, IsReady, available, exhausted, find_available_page-Available,
}

-- The units from `lo` to the end of the block are marked in the bitmap that the page had `before`, and the
-- rest of the blocks is as it was, but for the bytes of the block if they are to be clean.
pub record Served (page_size lo offset n : ℕ) (clean : Bool) (s : Pet) (page : ℕ) (before : List ℕ)
    (s' : Pet) : Type 0 where
  pub puts : Puts 1 lo (offset + n) before (s'.bitmap page)
  pub others : (q : ℕ) → q ≢ page → s'.bitmap q ≡ s.bitmap q
  pub bytes :
      s'.bytes ≡ (if clean then cleansed (page + offset * 16) 0 (n * 16) s.bytes else s.bytes)
  pub counted : s'.blocks_allocated ≡ inc64 s.blocks_allocated
  pub recent : s'.lru_page ≡ some page
  pub listed : s'.list page ≡ some lru
  pub pet : IsPet page_size s'.bitmap

abbrev pub clear_bitmap : ℕ → List ℕ
clear_bitmap page_size = replicate (units_per_page page_size / 64) 0

-- No page that `find_available_page` looks at can serve `n` units.
pub record Exhausted (page_size n : ℕ) (s : Pet) : Type 0 where
  pub recent : (p : ℕ) → s.lru_page ≡ some p → ¬ HasGap (s.bitmap p) (header_units page_size) n
  pub entries : (i : ℕ) → n ≤ i → i ≤ max_data_units page_size → s.superblock i ≡ none

pub data Allocated (page_size n : ℕ) (clean : Bool) (mmap : Mmap) (s : Pet)
    (result : Run (Option ℕ × Pet)) : Type 0 where
  reused :
      (page offset : ℕ) (after : Pet)
      → result ≡ ok (some (page + offset * 16), after)
      → header_units page_size ≤ offset
      → IsGap (s.bitmap page) offset n
      → Served page_size offset offset n clean s page (s.bitmap page) after
      → IsFirst s page
      → Allocated page_size n clean mmap s result
  fresh :
      (page : ℕ) (after : Pet)
      → result ≡ ok (some (page + header_units page_size * 16), after)
      → mmap s.maps page_size ≡ some page
      → Exhausted page_size n s
      → Served page_size 0 (header_units page_size) n clean s page (clear_bitmap page_size) after
      → Allocated page_size n clean mmap s result
  failed :
      (after : Pet)
      → result ≡ ok (none, after)
      → mmap s.maps page_size ≡ none
      → Exhausted page_size n s
      → SameBlocks s after
      → Allocated page_size n clean mmap s result

replicate-IsWords : (k : ℕ) → IsWords (replicate k 0)
replicate-IsWords zero i = omega arith
replicate-IsWords (suc k) zero = omega arith
replicate-IsWords (suc k) (suc i) = replicate-IsWords k i

module _ (page_size : ℕ) (size : IsPageSize page_size) (n : ℕ) (some_units : 0 < n)
    (few_units : n ≤ max_data_units page_size) (clean : Bool) (mmap : Mmap) where
  no_wrap : u32 (n * 16) ≡ n * 16
  no_wrap = omega (arith, size.small, init_sizes page_size size)

  whole_bitmap : units_per_page page_size ≡ length (clear_bitmap page_size) * 64
  whole_bitmap =
      omega (
        arith,
        length-replicate {A = ℕ} (units_per_page page_size / 64) 0,
        init_sizes page_size size,
      )

  hand_out-bytes :
      (s s' : Pet) (result : ℕ)
      → s'.bytes ≡ s.bytes
      → (hand_out s' result n clean).bytes
        ≡ (if clean then cleansed result 0 (n * 16) s.bytes else s.bytes)
  unfolding hand_out
  hand_out-bytes s s' result e =
      rw no_wrap (ap (λ b. if clean then cleansed result 0 (n * 16) b else b) e)

  -- The new page, with its bitmap `bm`.
  module _ (s s' : Pet) (pet : IsPet page_size s'.bitmap) (same : SameBlocks s s')
      (no_room : Exhausted page_size n s) (page : ℕ) (got : mmap s'.maps page_size ≡ some page)
      (bm : List ℕ)
      (marked : set_bits (clear_bitmap page_size) 0 (header_units page_size + n) ≡ ok bm)
      (puts : Puts 1 0 (header_units page_size + n) (clear_bitmap page_size) bm) where
    fresh_page-fresh : Allocated page_size n clean mmap s (fresh_page page_size mmap s' n clean)
    unfolding fresh_page hand_out
    fresh_page-fresh =
        let pet' =
          update-IsPet page_size size s' pet page bm
            (puts.words (replicate-IsWords (units_per_page page_size / 64)))
            (whole_bitmap ∙ ap (λ k. k * 64) (sym puts.same_length)) in
        let mapped = record s' {
          maps = extent page page_size ∷ s'.maps;
          bitmap = update s'.bitmap page bm;
        } in
        let back = unhand_page-Unhanded page_size size mapped pet' page in
        let result = page + header_units page_size * 16 in
        fresh page
          (hand_out (record back.after { num_bm_pages = inc64 back.after.num_bm_pages }) result n
            clean)
          (rw (got, fresh_page, marked, back.returns) refl)
          (ap (λ m. mmap m page_size) (sym same.maps) ∙ got) no_room
          (record {
            puts =
                subst (Puts 1 0 (header_units page_size + n) (clear_bitmap page_size))
                  (sym (ap (λ f. f page) back.bitmap ∙ update-same s'.bitmap page bm)) puts;
            others = λ q ne.
                ap (λ f. f q) back.bitmap
                ∙ update-other s'.bitmap page bm q ne
                ∙ ap (λ f. f q) same.bitmap;
            bytes = hand_out-bytes s back.after result (back.bytes ∙ same.bytes);
            counted = ap inc64 (back.blocks_allocated ∙ same.blocks_allocated);
            recent = back.recent;
            listed = back.listed;
            pet = subst (IsPet page_size) (sym back.bitmap) pet';
          })

  header_marked :
      Done 1 0
        (header_units page_size + n)
        (clear_bitmap page_size)
        (set_bits (clear_bitmap page_size) 0 (header_units page_size + n))
  header_marked = Done-at 0 (header_units page_size + n) refl (omega arith) (
      set_bits-Done (clear_bitmap page_size) 0 (header_units page_size + n)
        (replicate-IsWords (units_per_page page_size / 64))
        (omega (arith, whole_bitmap, init_sizes page_size size)))

  fresh_page-Allocated :
      (s s' : Pet)
      → IsPet page_size s'.bitmap
      → SameBlocks s s'
      → Exhausted page_size n s
      → Allocated page_size n clean mmap s (fresh_page page_size mmap s' n clean)
  unfolding fresh_page
  fresh_page-Allocated s s' pet same no_room = elim (Option-cases (mmap s'.maps page_size)) [
    | inl e ↦
        failed s' (rw (e, fresh_page) refl) (ap (λ m. mmap m page_size) (sym same.maps) ∙ e) no_room
          same
    | inr (page, e) ↦
        fresh_page-fresh s s' pet same no_room page e header_marked.after header_marked.returns
          header_marked.puts
  ]

  -- On a state that is ready, and for at least one and at most the data units of a page, `bm_allocate`
  -- returns. It gives units behind the header that were free, on a page there is or, if none will do, on a new
  -- one, marks exactly these (and the header of a new page), cleans exactly their bytes if asked to, counts the
  -- block, and changes nothing else of the blocks; or mmap fails, and it returns null and changes no block.
  pub bm_allocate-Allocated :
      (s : Pet)
      → IsPet page_size s.bitmap
      → IsReady page_size s
      → Allocated page_size n clean mmap s (bm_allocate page_size mmap s n clean)
  unfolding bm_allocate hand_out
  bm_allocate-Allocated s pet ready =
      elim (find_available_page-Available page_size size s pet n some_units ready) [
        | exhausted s' e recent entries same ↦
            rw (e, bm_allocate)
              (fresh_page-Allocated s s' (subst (IsPet page_size) (sym same.bitmap) pet) same
                (record { recent = recent; entries = entries }))
        | available page offset s' e behind gap first same place ↦
            let pet' = subst (IsPet page_size) (sym same.bitmap) pet in
            let inside =
              subst (λ f. offset + n ≤ length (f page) * 64) (sym same.bitmap) gap.inside in
            let done = set_bits-Done (s'.bitmap page) offset n (pet'.words page) inside in
            let m =
              Marks-before same
                (unhand_page-Marks page_size size s' pet' page done.after done.puts) in
            let result = page + offset * 16 in
            reused page offset (hand_out m.after result n clean)
              (rw (e, bm_allocate, done.returns, m.returns) refl) behind gap
              (record {
                puts = m.marked.puts;
                others = m.marked.others;
                bytes = hand_out-bytes s m.after result m.marked.bytes;
                counted = ap inc64 m.marked.blocks_allocated;
                recent = m.marked.recent;
                listed = m.marked.listed;
                pet = m.marked.pet;
              })
              place
      ]
