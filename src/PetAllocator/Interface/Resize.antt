-- ===== src/PetAllocator/Interface/Resize.antt =====
-- `_reallocate` of src/allocator_pet.c on a block in a page with a bitmap, to another such size.
pub mod Pointwise
use native.Mathlib.Decide.{ℕ_discrete}
use mathlib.Core.Path.{subst}
use libpussy.Base.{
  ℕ, ◌+◌, ◌-◌, ◌*◌, ◌^◌, ◌≤◌, ◌<◌, ◌≡◌, ◌≢◌, refl, sym, ap, ◌∙◌, arith, inl, inr, List, Bool, true,
  false, not, ◌&&◌, bit_or, Option, none, some, if◌then◌else◌, ltb, leb, ◌==◌, ne→==, ==_iff,
  lt→ltb, le→ltb, Bool-cases, ltb→lt, ltb→le, Run, ok, aborted, ◌>>=◌,
}
use libpussy.Base.Bits.{bit, bit_ext, bit_zero, bit-bit_or}
use libpussy.AddressSpace.{Mmap}
use libpussy.Allocator.{Reallocated, same_addr}
use libpussy.PetAllocator.Bitmap.Range.{bit_at, in_range}
use libpussy.PetAllocator.Search.Gap.{IsGap}
use libpussy.PetAllocator.Sizes.{
  units_per_page, header_units, max_data_units, bytes_to_units, bm_page_by_addr, ptrdiff_to_units,
}
use libpussy.PetAllocator.Sizes.Laws.{IsPageSize, init_sizes, bytes_to_units_lem}
use libpussy.PetAllocator.State.{Pet, Slot}
use libpussy.PetAllocator.State.Unhand.{IsPet}
use libpussy.PetAllocator.Blocks.{cleansed, bm_grow, bm_shrink}
use libpussy.PetAllocator.Blocks.Marked.{Marked, Marks}
use libpussy.PetAllocator.Blocks.Change.{Grown, grown, refused, bm_grow-Grown, bm_shrink-Marks}
use libpussy.PetAllocator.Interface.{
  Mremap, cleansed_if, shrink_block, grow_block, move_block, reallocate,
}
use libpussy.PetAllocator.Interface.Address.{IsPlaced, address-page}
use libpussy.PetAllocator.Interface.Branches.{
  reallocate-unchanged, reallocate-same, reallocate-less, reallocate-more,
}
use libpussy.PetAllocator.Interface.Resize.Pointwise.{
  resized_bit, cleansed_if-bytes, SameButBytes, cleansed_if-same, if_grows, not_grown, same_bit,
  less_bit, more_bit, at_unit,
}

-- The block stays at its place and has the new size.
pub record InPlace (page_size page offset old_nbytes new_nbytes : ℕ) (clean : Bool) (s : Pet)
    (result : Run (Reallocated Pet)) : Type 0 where
  pub after : Pet
  pub returns : result ≡ ok (same_addr (some (page + offset * 16)) after)
  pub bits :
      (p : ℕ)
      → bit_at (after.bitmap page) p
        ≡ resized_bit offset
            (bytes_to_units old_nbytes)
            (bytes_to_units new_nbytes)
            p
            (bit_at (s.bitmap page) p)
  pub others : (q : ℕ) → q ≢ page → after.bitmap q ≡ s.bitmap q
  pub bytes :
      (a : ℕ)
      → after.bytes a ≡ (
          if clean && in_range (page + offset * 16 + old_nbytes) (page + offset * 16 + new_nbytes) a
          then 0
          else s.bytes a)
  pub counted : after.blocks_allocated ≡ s.blocks_allocated
  pub pet : IsPet page_size after.bitmap

pub data Resized (page_size page offset old_nbytes new_nbytes : ℕ) (clean : Bool) (mmap : Mmap)
    (mremap : Mremap) (s : Pet) (result : Run (Reallocated Pet)) : Type 0 where
  in_place :
      InPlace page_size page offset old_nbytes new_nbytes clean s result
      → Resized page_size page offset old_nbytes new_nbytes clean mmap mremap s result
  -- The units behind the block are not free: it is moved, from a state with the same bits.
  moves :
      (after : Pet)
      → bytes_to_units old_nbytes < bytes_to_units new_nbytes
      → ¬ IsGap
          (s.bitmap page)
          (offset + bytes_to_units old_nbytes)
          (bytes_to_units new_nbytes - bytes_to_units old_nbytes)
      → Marked page_size 1
          (offset + bytes_to_units old_nbytes)
          (offset + bytes_to_units old_nbytes)
          s
          page
          after
      → result
        ≡ move_block page_size mmap mremap after (page + offset * 16) old_nbytes new_nbytes clean
      → Resized page_size page offset old_nbytes new_nbytes clean mmap mremap s result

module _ (k : ℕ) (small : k < 32) (size : IsPageSize (2 ^ k)) (mmap : Mmap) (mremap : Mremap)
    (s : Pet) (pet : IsPet (2 ^ k) s.bitmap) (page : ℕ) (slot : Slot)
    (listed : s.list page ≡ some slot) (placed : IsPlaced k page) (offset old_nbytes new_nbytes : ℕ)
    (behind : header_units (2 ^ k) ≤ offset) (some_bytes : 0 < old_nbytes)
    (old_fits : old_nbytes + 15 < 2 ^ 32) (new_fits : new_nbytes + 15 < 2 ^ 32)
    (inside : offset + bytes_to_units old_nbytes ≤ units_per_page (2 ^ k))
    (old_few : bytes_to_units old_nbytes < max_data_units (2 ^ k))
    (new_few : bytes_to_units new_nbytes < max_data_units (2 ^ k)) where
  abbrev addr : ℕ
  addr = page + offset * 16

  abbrev u : ℕ
  u = bytes_to_units old_nbytes

  abbrev v : ℕ
  v = bytes_to_units new_nbytes

  abbrev IsResized : Bool → Run (Reallocated Pet) → Type 0
  IsResized clean = Resized (2 ^ k) page offset old_nbytes new_nbytes clean mmap mremap s

  some_units : 0 < u
  some_units = omega (arith, bytes_to_units_lem old_nbytes old_fits)

  place : (bm_page_by_addr (2 ^ k) addr ≡ page) × (ptrdiff_to_units addr page ≡ offset)
  place = address-page k page offset small placed (omega (arith, some_units))

  away : (addr == page) ≡ false
  away = at_unit page offset (omega (arith, init_sizes (2 ^ k) size))

  -- The number of units stays the same.
  kept :
      (clean : Bool) (result : Run (Reallocated Pet))
      → u ≡ v
      → result
        ≡ ok (
            same_addr
              (some addr)
              (cleansed_if (clean && ltb old_nbytes new_nbytes) s addr old_nbytes new_nbytes))
      → InPlace (2 ^ k) page offset old_nbytes new_nbytes clean s result
  kept clean result same e =
      let test = clean && ltb old_nbytes new_nbytes in
      let others = cleansed_if-same test s addr old_nbytes new_nbytes in
      record {
        after = cleansed_if test s addr old_nbytes new_nbytes;
        returns = e;
        bits = λ p. ap (λ f. bit_at (f page) p) others.bitmap ∙ same_bit offset u v p _ same;
        others = λ q ne. ap (λ f. f q) others.bitmap;
        bytes = λ a.
            cleansed_if-bytes test s addr old_nbytes new_nbytes a
            ∙ if_grows clean addr old_nbytes new_nbytes a (s.bytes a);
        counted = others.blocks_allocated;
        pet = subst (IsPet (2 ^ k)) (sym others.bitmap) pet;
      }

  shrunk :
      (clean : Bool)
      → v < u
      → InPlace
          (2 ^ k)
          page
          offset
          old_nbytes
          new_nbytes
          clean
          s
          (shrink_block (2 ^ k) mmap mremap s addr old_nbytes new_nbytes)
  unfolding shrink_block
  shrunk clean less =
      let m =
        bm_shrink-Marks (2 ^ k) size s pet page slot listed offset u v (omega arith)
          (omega (arith, size.small)) inside in
      record {
        after = m.after;
        returns =
            rw (place.0, place.1, lt→ltb _ _ new_few, lt→ltb _ _ old_few, away, m.returns) refl;
        bits = λ p. m.marked.puts.bits p ∙ less_bit offset u v p _ (omega arith);
        others = m.marked.others;
        bytes = λ a.
            ap (λ f. f a) m.marked.bytes
            ∙ not_grown clean addr old_nbytes new_nbytes a (s.bytes a) (
                omega (
                  arith,
                  bytes_to_units_lem old_nbytes old_fits,
                  bytes_to_units_lem new_nbytes new_fits,
                ));
        counted = m.marked.blocks_allocated;
        pet = m.marked.pet;
      }

  grow_block-moves :
      (clean : Bool) (after : Pet)
      → bm_grow (2 ^ k) s page offset u v ≡ ok (false, after)
      → grow_block (2 ^ k) mmap mremap s addr old_nbytes new_nbytes clean
        ≡ move_block (2 ^ k) mmap mremap after addr old_nbytes new_nbytes clean
  unfolding grow_block move_block
  grow_block-moves clean after e =
      rw (place.0, place.1, lt→ltb _ _ new_few, lt→ltb _ _ old_few, away, e) refl

  grow_block-stays :
      (clean : Bool) (after : Pet)
      → bm_grow (2 ^ k) s page offset u v ≡ ok (true, after)
      → grow_block (2 ^ k) mmap mremap s addr old_nbytes new_nbytes clean
        ≡ ok (same_addr (some addr) (cleansed_if clean after addr old_nbytes new_nbytes))
  unfolding grow_block
  grow_block-stays clean after e =
      rw (place.0, place.1, lt→ltb _ _ new_few, lt→ltb _ _ old_few, away, e) refl

  extended :
      (clean : Bool)
      → u < v
      → IsResized clean (grow_block (2 ^ k) mmap mremap s addr old_nbytes new_nbytes clean)
  extended clean more =
      elim (bm_grow-Grown (2 ^ k) size s pet page slot listed offset u v (omega arith)
        (omega (arith, size.small)) inside) [
          | grown after e gap m ↦
              let others = cleansed_if-same clean after addr old_nbytes new_nbytes in
              in_place (record {
                after = cleansed_if clean after addr old_nbytes new_nbytes;
                returns = grow_block-stays clean after e;
                bits = λ p.
                    ap (λ f. bit_at (f page) p) others.bitmap
                    ∙ m.puts.bits p
                    ∙ more_bit offset u v p _ (omega arith);
                others = λ q ne. ap (λ f. f q) others.bitmap ∙ m.others q ne;
                bytes = λ a.
                    cleansed_if-bytes clean after addr old_nbytes new_nbytes a
                    ∙ ap
                        (λ f.
                          if clean && in_range (addr + old_nbytes) (addr + new_nbytes) a
                          then 0
                          else f a)
                        m.bytes;
                counted = others.blocks_allocated ∙ m.blocks_allocated;
                pet = subst (IsPet (2 ^ k)) (sym others.bitmap) m.pet;
              })
          | refused after e no_gap m ↦ moves after more no_gap m (grow_block-moves clean after e)
        ]

  module _ (clean : Bool) where
    unchanged :
        (result : Run (Reallocated Pet))
        → old_nbytes ≡ new_nbytes
        → result ≡ ok (same_addr (some addr) s)
        → IsResized clean result
    unchanged result e same = in_place (record {
      after = s;
      returns = same;
      bits = λ p. same_bit offset u v p _ (ap bytes_to_units e);
      others = λ q ne. refl;
      bytes = λ a. not_grown clean addr old_nbytes new_nbytes a (s.bytes a) (omega arith);
      counted = refl;
      pet = pet;
    })

    -- For a block of some bytes in a listed page, well formed and in the address space, and sizes of fewer
    -- units than a page has for data, _reallocate leaves the block where it is, with the units of the new
    -- size in use and no other bit or page changed, zeros in the new bytes if it is to be clean and no other
    -- byte changed; or, if the units behind a block that grows are not free, it goes on to move the block
    -- with all bits as they were.
    pub reallocate-Resized :
        IsResized clean (reallocate (2 ^ k) mmap mremap s (some addr) old_nbytes new_nbytes clean)
    reallocate-Resized = elim (ℕ_discrete old_nbytes new_nbytes) [
      | yes e ↦
          unchanged _ e
            (reallocate-unchanged (2 ^ k) mmap mremap s addr old_nbytes new_nbytes clean e)
      | no ne ↦ elim (ℕ_discrete u v) [
        | yes same ↦ in_place (
            kept clean _ same (
              reallocate-same (2 ^ k) mmap mremap s addr old_nbytes new_nbytes clean some_bytes ne
                same))
        | no differs ↦ elim (Bool-cases (ltb v u)) [
          | inl less ↦
              let less' = ltb→lt v u less in
              subst (IsResized clean)
                (sym (
                  reallocate-less (2 ^ k) mmap mremap s addr old_nbytes new_nbytes clean some_bytes
                    less'))
                (in_place (shrunk clean less'))
          | inr more ↦
              let more' : u < v = omega (arith, ltb→le v u more, differs) in
              subst (IsResized clean)
                (sym (
                  reallocate-more (2 ^ k) mmap mremap s addr old_nbytes new_nbytes clean some_bytes
                    more'))
                (extended clean more')
        ]
      ]
    ]
