-- ===== src/PetAllocator/Interface/Remap.antt =====
-- `_reallocate` of src/allocator_pet.c on a block of whole pages, by `mremap`.
pub mod Contents
pub mod Calls
use native.Mathlib.Decide.{ℕ_discrete}
use mathlib.Core.Bool.{false≢true}
use mathlib.Core.Path.{subst}
use libpussy.Base.{
  ℕ, ◌+◌, ◌-◌, ◌*◌, ◌^◌, ◌≤◌, ◌<◌, ◌≡◌, ◌≢◌, ◌⊎◌, refl, sym, ap, ◌∙◌, arith, inl, inr, List, ◌∷◌,
  Bool, true, false, not, ◌&&◌, bit_and, none, some, if◌then◌else◌, ltb, leb, ◌==◌, ne→==, ==_iff,
  lt→ltb, le→ltb, Bool-cases, Option-cases, ltb→lt, ltb→le, Run, ok,
}
use libpussy.Base.Bits.{complement, pow2_pos}
use libpussy.Align.{align_unsigned, align_unsigned_to_page}
use libpussy.Align.Laws.{align_unsigned_least, align_unsigned_bounds}
use libpussy.AddressSpace.{Extent, extent, Mmap, munmap}
use libpussy.Allocator.{Reallocated, same_addr, error}
use libpussy.PetAllocator.Sizes.{max_data_units, bytes_to_units, bm_page_by_addr}
use libpussy.PetAllocator.Sizes.Laws.{IsPageSize, bytes_to_units_lem}
use libpussy.PetAllocator.State.{Pet}
use libpussy.PetAllocator.Blocks.{cleansed}
use libpussy.PetAllocator.Interface.{
  Mremap, copied, cleansed_if, call_mremap, remap_block, shrink_block, grow_block, reallocate,
}
use libpussy.PetAllocator.Interface.Address.{IsPlaced, page_of}
use libpussy.PetAllocator.Interface.Branches.{
  reallocate-unchanged, reallocate-same, reallocate-less, reallocate-more,
}
use libpussy.PetAllocator.Interface.Remap.Calls.{
  IsMremap, page_room, call_mremap-shrinks, call_mremap-grows,
}
use libpussy.PetAllocator.Interface.Remap.Contents.{
  Holds, cleaned, fewer, here, there, remapped, tested, tested',
}

pub data Remapped (page_size addr old new : ℕ) (clean : Bool) (mremap : Mremap) (s : Pet)
    (result : Run (Reallocated Pet)) : Type 0 where
  holds :
      (place : ℕ) (after : Pet)
      → result
        ≡ ok (record {
          done = true;
          pointer = some place;
          changed = not (place == addr);
          state = after;
        })
      → Holds page_size addr old new clean s place after
      → Remapped page_size addr old new clean mremap s result
  refused :
      old < new
      → mremap s.maps addr
          (align_unsigned_to_page page_size old)
          (align_unsigned_to_page page_size new)
          true
        ≡ none
      → result ≡ ok (error (some addr) s)
      → Remapped page_size addr old new clean mremap s result

same_place : (addr : ℕ) → not (addr == addr) ≡ false
same_place addr = ground arith

page_itself : (k page : ℕ) → k < 32 → IsPlaced k page → bm_page_by_addr (2 ^ k) page ≡ page
unfolding bm_page_by_addr
page_itself k page small placed =
    ap (λ a. bit_and a (complement 64 (2 ^ k - 1))) {y = page + 0} (omega arith)
    ∙ page_of k page 0 small placed (pow2_pos k)

module _ (k : ℕ) (small : k < 32) (size : IsPageSize (2 ^ k)) (mmap : Mmap) (mremap : Mremap)
    (law : IsMremap mremap) (s : Pet) (addr : ℕ) (placed : IsPlaced k addr) (old new : ℕ)
    (clean : Bool) (old_fits : old + (2 ^ k - 1) < 2 ^ 32)
    (new_fits : new + (2 ^ k - 1) < 2 ^ 32) where
  room : new ≤ align_unsigned_to_page (2 ^ k) new
  room = page_room k new small new_fits

  -- Fewer units are fewer bytes.
  less_units :
      (a b : ℕ)
      → a + (2 ^ k - 1) < 2 ^ 32
      → b + (2 ^ k - 1) < 2 ^ 32
      → bytes_to_units a < bytes_to_units b
      → a < b
  less_units a b a_fits b_fits less =
      let whole : 1024 ≤ 2 ^ k = omega (arith, size.multiple, size.some_bytes) in
      omega (arith, bytes_to_units_lem a (omega arith), bytes_to_units_lem b (omega arith))

  abbrev IsRemapped : Run (Reallocated Pet) → Type 0
  IsRemapped = Remapped (2 ^ k) addr old new clean mremap s

  page_here : bm_page_by_addr (2 ^ k) addr ≡ addr
  page_here = page_itself k addr small placed

  stays_at :
      (after : Pet)
      → ok (same_addr (some addr) after)
        ≡ ok (record {
          done = true;
          pointer = some addr;
          changed = not (addr == addr);
          state = after;
        })
  stays_at after = rw (same_place addr) refl

  fewer_units :
      new < old
      → max_data_units (2 ^ k) ≤ bytes_to_units new
      → IsRemapped (shrink_block (2 ^ k) mmap mremap s addr old new)
  unfolding shrink_block remap_block
  fewer_units less new_many =
      holds addr (call_mremap (2 ^ k) mmap mremap s addr old new false).1
        (rw (le→ltb _ _ new_many, page_here, same_place addr) refl)
        (call_mremap-shrinks k small mmap mremap law s addr old new clean old_fits new_fits less)

  more_units :
      old < new
      → max_data_units (2 ^ k) ≤ bytes_to_units old
      → IsRemapped (grow_block (2 ^ k) mmap mremap s addr old new clean)
  unfolding grow_block
  more_units more old_many =
      elim (call_mremap-grows k small mmap mremap law s addr old new clean old_fits new_fits more) [
        | inl (place, after, e, h) ↦
            holds place after
              (rw (le→ltb _ _ old_many, page_here, same_place addr, e)
                (ap
                  (λ t. ok (record {
                    done = true;
                    pointer = some place;
                    changed = not (place == addr);
                    state = t;
                  }))
                  (ap (λ got. got.1) e)))
              h
        | inr (full, e) ↦ refused more full (
            rw (le→ltb _ _ old_many, page_here, same_place addr, e)
              (ap (λ t. ok (error (some addr) t)) (ap (λ got. got.1) e)))
      ]

  -- For a block of whole pages of some bytes, on a page of 2^k bytes, that stays one, with sizes that can
  -- be rounded up to pages, _reallocate returns true with the block at its place or where mremap put it: it
  -- holds its old bytes as far as they fit the new size, zeros behind them if it is to be clean, nothing
  -- outside of its new pages is changed, and its mapping is the old one or takes the place of the old one;
  -- or it returns false with the old pointer and nothing changed, if the block grows and mremap fails.
  pub reallocate-Remapped :
      0 < old
      → max_data_units (2 ^ k) ≤ bytes_to_units old
      → max_data_units (2 ^ k) ≤ bytes_to_units new
      → IsRemapped (reallocate (2 ^ k) mmap mremap s (some addr) old new clean)
  reallocate-Remapped some_bytes old_many new_many = elim (ℕ_discrete old new) [
    | yes e ↦
        holds addr s (reallocate-unchanged (2 ^ k) mmap mremap s addr old new clean e ∙ stays_at s)
          (fewer (2 ^ k) addr old new clean s room s addr (omega arith)
            (here (2 ^ k) addr old new clean s room))
    | no ne ↦ elim (ℕ_discrete (bytes_to_units old) (bytes_to_units new)) [
      | yes same ↦
          holds addr (cleansed_if (clean && ltb old new) s addr old new)
            (reallocate-same (2 ^ k) mmap mremap s addr old new clean some_bytes ne same
              ∙ stays_at _)
            (cleaned (2 ^ k) addr old new clean s room (clean && ltb old new) s addr
              (tested clean old new) (here (2 ^ k) addr old new clean s room))
      | no differs ↦ elim (Bool-cases (ltb (bytes_to_units new) (bytes_to_units old))) [
        | inl less ↦
            let less' = ltb→lt _ _ less in
            subst IsRemapped
              (sym (reallocate-less (2 ^ k) mmap mremap s addr old new clean some_bytes less'))
              (fewer_units (less_units new old new_fits old_fits less') new_many)
        | inr more ↦
            let more' : bytes_to_units old < bytes_to_units new =
              omega (arith, ltb→le _ _ more, differs) in
            subst IsRemapped
              (sym (reallocate-more (2 ^ k) mmap mremap s addr old new clean some_bytes more'))
              (more_units (less_units old new old_fits new_fits more') old_many)
      ]
    ]
  ]
