-- ===== src/PetAllocator/Interface/RoundTrip.antt =====
-- `_release` of src/allocator_pet.c undoes `_allocate`, for blocks in pages with a bitmap.
use native.Mathlib.Decide.{ℕ_discrete}
use mathlib.Core.Path.{subst}
use libpussy.Base.{
  ℕ, zero, suc, ◌+◌, ◌*◌, ◌/◌, ◌%◌, ◌^◌, ◌≤◌, ◌<◌, ◌≡◌, ◌≢◌, refl, sym, ap, ◌∙◌, arith, List, Bool,
  false, Option, none, some, if◌then◌else◌, ltb, ◌==◌, replicate, inc64, dec64, Run, ok, lt→ltb,
}
use libpussy.Base.Bits.{bit, bit_zero}
use libpussy.AddressSpace.{Mmap}
use libpussy.PetAllocator.Bitmap.Range.{bit_at, word_at, in_range}
use libpussy.PetAllocator.Search.Gap.{IsGap}
use libpussy.PetAllocator.Sizes.{units_per_page, header_units, max_data_units, bytes_to_units}
use libpussy.PetAllocator.Sizes.Laws.{IsPageSize, init_sizes, bytes_to_units_lem}
use libpussy.PetAllocator.State.{Pet, lru}
use libpussy.PetAllocator.Blocks.{bm_allocate, bm_release}
use libpussy.PetAllocator.State.Unhand.{IsPet}
use libpussy.PetAllocator.Blocks.Find.{IsReady, IsFirst}
use libpussy.PetAllocator.Blocks.Change.{Released, bm_release-Released}
use libpussy.PetAllocator.Blocks.Allocate.{
  Served, reused, fresh, failed, clear_bitmap, bm_allocate-Allocated,
}
use libpussy.PetAllocator.Interface.{Mremap, allocate, release}
use libpussy.PetAllocator.Interface.Address.{IsPlaced, address-page}

-- The pages are where the allocator can have them.
pub record IsLaidOut (k : ℕ) (mmap : Mmap) (s : Pet) : Type 0 where
  pub new : (a : ℕ) → mmap s.maps (2 ^ k) ≡ some a → IsPlaced k a
  pub first : (p : ℕ) → IsFirst s p → IsPlaced k p

pub data RoundTrip (k nbytes : ℕ) (clean : Bool) (mmap : Mmap) (mremap : Mremap) (s : Pet)
    : Type 0 where
  -- On a page that was there all bits are as before.
  restored :
      (addr : ℕ) (s' s'' : Pet)
      → allocate (2 ^ k) mmap mremap s nbytes clean ≡ ok (some addr, s')
      → release (2 ^ k) mmap mremap s' (some addr) nbytes ≡ ok (none, s'')
      → s''.blocks_allocated ≡ s.blocks_allocated
      → ((q p : ℕ) → bit_at (s''.bitmap q) p ≡ bit_at (s.bitmap q) p)
      → RoundTrip k nbytes clean mmap mremap s
  -- A new page is left with the units of its header in use.
  emptied :
      (addr page : ℕ) (s' s'' : Pet)
      → mmap s.maps (2 ^ k) ≡ some page
      → allocate (2 ^ k) mmap mremap s nbytes clean ≡ ok (some addr, s')
      → release (2 ^ k) mmap mremap s' (some addr) nbytes ≡ ok (none, s'')
      → s''.blocks_allocated ≡ s.blocks_allocated
      → ((q : ℕ) → q ≢ page → s''.bitmap q ≡ s.bitmap q)
      → ((p : ℕ) → bit_at (s''.bitmap page) p ≡ (if ltb p (header_units (2 ^ k)) then 1 else 0))
      → RoundTrip k nbytes clean mmap mremap s
  refused :
      (s' : Pet)
      → mmap s.maps (2 ^ k) ≡ none
      → allocate (2 ^ k) mmap mremap s nbytes clean ≡ ok (none, s')
      → RoundTrip k nbytes clean mmap mremap s

zero_bit : (n p : ℕ) → bit_at (replicate n 0) p ≡ 0
unfolding bit_at
zero_bit n p = ap (λ w. bit w (p % 64)) (zero_word n (p / 64)) ∙ bit_zero (p % 64)
  where
    zero_word : (n i : ℕ) → word_at (replicate n 0) i ≡ 0
    zero_word zero i = refl
    zero_word (suc n) zero = refl
    zero_word (suc n) (suc i) = zero_word n i

nonzero : (n : ℕ) → 0 < n → (n == 0) ≡ false
nonzero n h = ground arith

behind_start : (page offset : ℕ) → 0 < offset → ((page + offset * 16) == page) ≡ false
behind_start page offset h = ground arith

-- Setting a range of zeros and clearing it again.
undo :
    (p lo n bit bit' bit'' : ℕ)
    → bit'' ≡ (if in_range lo (lo + n) p then 0 else bit')
    → bit' ≡ (if in_range lo (lo + n) p then 1 else bit)
    → (lo ≤ p → p < lo + n → bit ≡ 0)
    → bit'' ≡ bit
undo p lo n bit bit' bit'' clear set zeros = ground (arith, clear, set, zeros)

-- Setting all up to the end of the range.
keep :
    (p lo n bit bit' bit'' : ℕ)
    → bit'' ≡ (if in_range lo (lo + n) p then 0 else bit')
    → bit' ≡ (if in_range 0 (lo + n) p then 1 else bit)
    → bit ≡ 0
    → bit'' ≡ (if ltb p lo then 1 else 0)
keep p lo n bit bit' bit'' clear set none_set = ground (arith, clear, set, none_set)

counted_back : (n : ℕ) → n < 2 ^ 64 → dec64 (inc64 n) ≡ n
counted_back n h = omega arith

module _ (k : ℕ) (small : k < 32) (size : IsPageSize (2 ^ k)) (mmap : Mmap) (mremap : Mremap)
    (nbytes : ℕ) (some_bytes : 0 < nbytes) (fits : nbytes + 15 < 2 ^ 32)
    (few : bytes_to_units nbytes < max_data_units (2 ^ k)) where
  some_units : 0 < bytes_to_units nbytes
  some_units = omega (arith, bytes_to_units_lem nbytes fits)

  allocate-small :
      (s : Pet) (clean : Bool) (r : Run (Option ℕ × Pet))
      → bm_allocate (2 ^ k) mmap s (bytes_to_units nbytes) clean ≡ r
      → allocate (2 ^ k) mmap mremap s nbytes clean ≡ r
  unfolding allocate
  allocate-small s clean r e = rw (lt→ltb _ _ few, nonzero nbytes some_bytes) e

  release-small :
      (s s' : Pet) (page offset : ℕ)
      → IsPlaced k page
      → header_units (2 ^ k) ≤ offset
      → offset < units_per_page (2 ^ k)
      → bm_release (2 ^ k) s page offset (bytes_to_units nbytes) ≡ ok s'
      → release (2 ^ k) mmap mremap s (some (page + offset * 16)) nbytes ≡ ok (none, s')
  unfolding release
  release-small s s' page offset placed behind inside e =
      let place = address-page k page offset small placed (omega arith) in
      rw
        (
          place.0,
          place.1,
          nonzero nbytes some_bytes,
          behind_start page offset (omega (arith, init_sizes (2 ^ k) size)),
          e,
        )
        refl

  module _ (s : Pet) (pet : IsPet (2 ^ k) s.bitmap) (page offset : ℕ) (clean : Bool) (after : Pet)
      (placed : IsPlaced k page) (behind : header_units (2 ^ k) ≤ offset)
      (inside : offset + bytes_to_units nbytes ≤ units_per_page (2 ^ k)) where
    -- The release of the block that was given.
    released :
        {lo : ℕ} {before : List ℕ}
        → Served (2 ^ k) lo offset (bytes_to_units nbytes) clean s page before after
        → Released
            (2 ^ k)
            offset
            (offset + bytes_to_units nbytes)
            after
            page
            (bm_release (2 ^ k) after page offset (bytes_to_units nbytes))
    released served =
        bm_release-Released (2 ^ k) size after served.pet page lru served.listed offset
          (bytes_to_units nbytes) inside

    after_release :
        {lo : ℕ} {before : List ℕ}
        (served : Served (2 ^ k) lo offset (bytes_to_units nbytes) clean s page before after)
        → release (2 ^ k) mmap mremap after (some (page + offset * 16)) nbytes
          ≡ ok (none, (released served).after)
    after_release served =
        release-small after (released served).after page offset placed behind
          (omega (arith, some_units)) (released served).returns

    count_after :
        {lo : ℕ} {before : List ℕ}
        (served : Served (2 ^ k) lo offset (bytes_to_units nbytes) clean s page before after)
        → s.blocks_allocated < 2 ^ 64
        → (released served).after.blocks_allocated ≡ s.blocks_allocated
    count_after served h =
        (released served).counted ∙ ap dec64 served.counted ∙ counted_back s.blocks_allocated h

    restored_bits :
        (served : Served
          (2 ^ k)
          offset
          offset
          (bytes_to_units nbytes)
          clean
          s
          page
          (s.bitmap page)
          after)
        → IsGap (s.bitmap page) offset (bytes_to_units nbytes)
        → (q p : ℕ) → bit_at ((released served).after.bitmap q) p ≡ bit_at (s.bitmap q) p
    restored_bits served gap q p = elim (ℕ_discrete q page) [
      | no ne ↦ ap (λ b. bit_at b p) ((released served).others q ne ∙ served.others q ne)
      | yes e ↦
          subst (λ x. bit_at ((released served).after.bitmap x) p ≡ bit_at (s.bitmap x) p) (sym e)
            (undo p offset (bytes_to_units nbytes) _ _ _ ((released served).puts.bits p)
              (served.puts.bits p) (gap.free p))
    ]

    emptied_bits :
        (served : Served
          (2 ^ k)
          0
          offset
          (bytes_to_units nbytes)
          clean
          s
          page
          (clear_bitmap (2 ^ k))
          after)
        → (p : ℕ) → bit_at ((released served).after.bitmap page) p ≡ (if ltb p offset then 1 else 0)
    emptied_bits served p =
        keep p offset (bytes_to_units nbytes) _ _ _ ((released served).puts.bits p)
          (served.puts.bits p) (zero_bit (units_per_page (2 ^ k) / 64) p)

  -- On a state that is ready, whose pages lie in the address space, `_release` undoes `_allocate`, for a block
  -- of some bytes, of fewer units than a page has for data, on a page of 2^k bytes: both return, the pointer is
  -- null again, the number of blocks is the old one, and so are all bits of all bitmaps, but that a new page has
  -- the units of its header in use. If mmap gives no new page when one is needed, there is no block.
  pub allocate-release :
      (s : Pet) (clean : Bool)
      → IsPet (2 ^ k) s.bitmap
      → IsReady (2 ^ k) s
      → IsLaidOut k mmap s
      → s.blocks_allocated < 2 ^ 64
      → RoundTrip k nbytes clean mmap mremap s
  allocate-release s clean pet ready laid counter =
      elim (bm_allocate-Allocated (2 ^ k) size (bytes_to_units nbytes) some_units (omega arith)
        clean mmap s pet ready) [
          | reused page offset after e behind gap served place ↦
              let placed = laid.first page place in
              let inside : offset + bytes_to_units nbytes ≤ units_per_page (2 ^ k) =
                omega (arith, gap.inside, pet.whole page) in
              restored (page + offset * 16) after
                (released s pet page offset clean after placed behind inside served).after
                (allocate-small s clean _ e)
                (after_release s pet page offset clean after placed behind inside served)
                (count_after s pet page offset clean after placed behind inside served counter)
                (restored_bits s pet page offset clean after placed behind inside served gap)
          | fresh page after e mapped no_room served ↦
              let placed = laid.new page mapped in
              let offset = header_units (2 ^ k) in
              let inside : offset + bytes_to_units nbytes ≤ units_per_page (2 ^ k) =
                omega (arith, init_sizes (2 ^ k) size) in
              emptied (page + offset * 16) page after
                (released s pet page offset clean after placed (omega arith) inside served).after
                mapped (allocate-small s clean _ e)
                (after_release s pet page offset clean after placed (omega arith) inside served)
                (count_after s pet page offset clean after placed (omega arith) inside served
                  counter)
                (λ q ne.
                  (released s pet page offset clean after placed (omega arith) inside served).others
                    q ne
                  ∙ served.others q ne)
                (emptied_bits s pet page offset clean after placed (omega arith) inside served)
          | failed after e full no_room same ↦ refused after full (allocate-small s clean _ e)
        ]
