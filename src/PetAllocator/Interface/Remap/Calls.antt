-- ===== src/PetAllocator/Interface/Remap/Calls.antt =====
-- `call_mremap` of src/allocator_pet.c, which makes a mapping smaller or larger.
use native.Mathlib.Decide.{ℕ_discrete}
use mathlib.Core.Path.{subst}
use libpussy.Base.{
  ℕ, ◌+◌, ◌-◌, ◌^◌, ◌≤◌, ◌<◌, ◌≡◌, ◌⊎◌, refl, arith, inl, inr, List, Bool, true, false, ◌&&◌, none,
  some, ltb, ne→==, ==_iff, lt→ltb, le→ltb, Option-cases,
}
use libpussy.Align.{align_unsigned, align_unsigned_to_page}
use libpussy.Align.Laws.{align_unsigned_least}
use libpussy.AddressSpace.{Extent, Mmap}
use libpussy.PetAllocator.State.{Pet}
use libpussy.PetAllocator.Interface.{Mremap, call_mremap}
use libpussy.PetAllocator.Interface.Remap.Contents.{
  Holds, cleaned, fewer, here, there, remapped, tested, tested',
}

-- Without MREMAP_MAYMOVE a mapping stays where it is.
pub record IsMremap (mremap : Mremap) : Type 0 where
  pub stays :
      (maps : List Extent) (addr old new a : ℕ) → mremap maps addr old new false ≡ some a → a ≡ addr

-- Rounding up keeps the order.
page_le :
    (k a b : ℕ)
    → k < 32
    → a ≤ b
    → b + (2 ^ k - 1) < 2 ^ 32
    → align_unsigned_to_page (2 ^ k) a ≤ align_unsigned_to_page (2 ^ k) b
unfolding align_unsigned_to_page
page_le k a b small less fits =
    let least_b = align_unsigned_least k small b fits in
    (align_unsigned_least k small a (omega arith)).2 (align_unsigned b (2 ^ k)) least_b.1
      (omega (arith, least_b.0))

pub page_room : (k a : ℕ) → k < 32 → a + (2 ^ k - 1) < 2 ^ 32 → a ≤ align_unsigned_to_page (2 ^ k) a
unfolding align_unsigned_to_page
page_room k a small fits = (align_unsigned_least k small a fits).0

module _ (k : ℕ) (small : k < 32) (mmap : Mmap) (mremap : Mremap) (law : IsMremap mremap) (s : Pet)
    (addr : ℕ) (old new : ℕ) (clean : Bool) (old_fits : old + (2 ^ k - 1) < 2 ^ 32)
    (new_fits : new + (2 ^ k - 1) < 2 ^ 32) where
  room : new ≤ align_unsigned_to_page (2 ^ k) new
  room = page_room k new small new_fits

  -- The page is given back in part, or nothing changes.
  pub call_mremap-shrinks :
      new < old
      → Holds
          (2 ^ k)
          addr
          old
          new
          clean
          s
          addr
          (call_mremap (2 ^ k) mmap mremap s addr old new false).1
  unfolding call_mremap
  call_mremap-shrinks less =
      let n = align_unsigned_to_page (2 ^ k) new in
      let o = align_unsigned_to_page (2 ^ k) old in
      let sizes = page_le k new old small (omega arith) old_fits in
      elim (ℕ_discrete n o) [
        | yes same ↦ rw ((==_iff n o).1 same) (
            fewer (2 ^ k) addr old new clean s room s addr (omega arith)
              (here (2 ^ k) addr old new clean s room))
        | no differs ↦
            rw (ne→== n o differs, le→ltb o n sizes)
              (elim (Option-cases (mremap s.maps addr o n false)) [
                | inl e ↦ rw e (
                    fewer (2 ^ k) addr old new clean s room s addr (omega arith)
                      (here (2 ^ k) addr old new clean s room))
                | inr (a, e) ↦
                    rw (e, le→ltb o n sizes)
                      (subst
                        (λ b.
                          Holds (2 ^ k) addr old new clean s b
                            (remapped (2 ^ k) addr old new clean s room a n))
                        (law.stays s.maps addr o n a e)
                        (fewer (2 ^ k) addr old new clean s room
                          (remapped (2 ^ k) addr old new clean s room a n) a (omega arith)
                          (there (2 ^ k) addr old new clean s room a n (omega arith)
                            (λ i lo hi. omega (arith, room)))))
              ])
      ]

  pub call_mremap-grows :
      old < new
      → ((place : ℕ) × (after : Pet) × (call_mremap (2 ^ k) mmap mremap s addr old new clean
            ≡ (some place, after))
          × Holds (2 ^ k) addr old new clean s place after)
        ⊎ ((mremap s.maps addr
                (align_unsigned_to_page (2 ^ k) old)
                (align_unsigned_to_page (2 ^ k) new)
                true
              ≡ none)
            × (call_mremap (2 ^ k) mmap mremap s addr old new clean ≡ (none, s)))
  unfolding call_mremap
  call_mremap-grows more =
      let n = align_unsigned_to_page (2 ^ k) new in
      let o = align_unsigned_to_page (2 ^ k) old in
      let sizes = page_le k old new small (omega arith) new_fits in
      elim (ℕ_discrete n o) [
        | yes same ↦ rw ((==_iff n o).1 same) (
            inl (
              addr,
              _,
              refl,
              cleaned (2 ^ k) addr old new clean s room (clean && ltb old new) s addr
                  (tested clean old new) (here (2 ^ k) addr old new clean s room),
            ))
        | no differs ↦
            rw (ne→== n o differs, lt→ltb o n (omega arith))
              (elim (Option-cases (mremap s.maps addr o n true)) [
                | inl e ↦ rw (e, lt→ltb o n (omega arith)) (inr (refl, refl))
                | inr (a, e) ↦
                    rw (e, lt→ltb o n (omega arith))
                      (inl (
                        a,
                        _,
                        refl,
                        cleaned (2 ^ k) addr old new clean s room (clean && true)
                            (remapped (2 ^ k) addr old new clean s room a o) a
                            (tested' clean old new)
                            (there (2 ^ k) addr old new clean s room a o sizes
                              (λ i lo hi. omega (arith, page_room k old small old_fits))),
                      ))
              ])
      ]
