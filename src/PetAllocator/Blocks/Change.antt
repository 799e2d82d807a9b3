-- ===== src/PetAllocator/Blocks/Change.antt =====
-- `bm_release`, `bm_shrink` and `bm_grow` of src/allocator_pet.c change the bits of a block exactly.
use mathlib.Core.Path.{subst}
use libpussy.Base.{
  ℕ, ◌+◌, ◌-◌, ◌*◌, ◌^◌, ◌≤◌, ◌<◌, ◌≡◌, ◌≢◌, refl, sym, ap, arith, List, length, Bool, true, false,
  some, inl, inr, Bool-cases, ltb, update, ltb→lt, ltb→le, sub32, dec64, Run, ok,
}
use libpussy.PetAllocator.Bitmap.Range.{Puts}
use libpussy.PetAllocator.Bitmap.Put.{Done-at, set_bits-Done, clear_bits-Done}
use libpussy.PetAllocator.Bitmap.Count.{IsRun, count_zero_bits-Counted}
use libpussy.PetAllocator.Search.Gap.{IsGap, gap_of_run}
use libpussy.PetAllocator.Sizes.{units_per_page}
use libpussy.PetAllocator.Sizes.Laws.{IsPageSize}
use libpussy.PetAllocator.State.{Pet, Slot, lru, grab_page, unhand_page}
use libpussy.PetAllocator.State.Frame.{Taken, grab_page-Taken}
use libpussy.PetAllocator.State.Unhand.{IsPet}
use libpussy.PetAllocator.Blocks.{bm_release, bm_shrink, bm_grow}
use libpussy.PetAllocator.Blocks.Marked.{
  Marked, Marks, Marks-before, unhand_page-Marks, unhand_page-unmarked,
}

pub record Released (page_size lo hi : ℕ) (s : Pet) (page : ℕ) (result : Run Pet) : Type 0 where
  pub after : Pet
  pub returns : result ≡ ok after
  pub puts : Puts 0 lo hi (s.bitmap page) (after.bitmap page)
  pub others : (q : ℕ) → q ≢ page → after.bitmap q ≡ s.bitmap q
  pub bytes : after.bytes ≡ s.bytes
  pub counted : after.blocks_allocated ≡ dec64 s.blocks_allocated
  pub recent : after.lru_page ≡ some page
  pub listed : after.list page ≡ some lru
  pub pet : IsPet page_size after.bitmap

-- A block that ends at `end` gets `n` units more, if the units behind it are free, and only then.
pub data Grown (page_size end n : ℕ) (s : Pet) (page : ℕ) (result : Run (Bool × Pet)) : Type 0 where
  grown :
      (after : Pet)
      → result ≡ ok (true, after)
      → IsGap (s.bitmap page) end n
      → Marked page_size 1 end (end + n) s page after
      → Grown page_size end n s page result
  refused :
      (after : Pet)
      → result ≡ ok (false, after)
      → ¬ IsGap (s.bitmap page) end n
      → Marked page_size 1 end end s page after
      → Grown page_size end n s page result

short_run :
    (bm : List ℕ) (start limit c : ℕ)
    → IsRun 0 bm start limit c
    → c < limit
    → ¬ IsGap bm start limit
short_run bm start limit c run h gap = elim run.ends [
  | inl end ↦ omega (arith, gap.inside)
  | inr (inl one) ↦ one (gap.free (start + c) (omega arith) (omega arith))
  | inr (inr full) ↦ omega arith
]

sub32_lem : (a b : ℕ) → b ≤ a → a < 2 ^ 32 → sub32 a b ≡ a - b
sub32_lem a b h k = omega arith

module _ (page_size : ℕ) (size : IsPageSize page_size) (s : Pet) (pet : IsPet page_size s.bitmap)
    (page : ℕ) (slot : Slot) (listed : s.list page ≡ some slot) where
  abbrev taken : Taken s slot page (grab_page s page)
  taken = grab_page-Taken s page slot listed

  taken-IsPet : IsPet page_size taken.after.bitmap
  taken-IsPet = subst (IsPet page_size) (sym taken.same.bitmap) pet

  fits_bits : (n : ℕ) → n ≤ units_per_page page_size → n ≤ length (taken.after.bitmap page) * 64
  fits_bits n h = omega (arith, taken-IsPet.whole page)

  back :
      {value lo hi : ℕ} (bm : List ℕ)
      → Puts value lo hi (taken.after.bitmap page) bm
      → Marks page_size value lo hi s page (
          unhand_page page_size
            (record taken.after { bitmap = update taken.after.bitmap page bm })
            page)
  back bm puts =
      Marks-before taken.same
        (unhand_page-Marks page_size size taken.after taken-IsPet page bm puts)

  -- `bm_release` of a block of a listed page returns, clears exactly the bits of the block and counts it out.
  pub bm_release-Released :
      (offset n : ℕ)
      → offset + n ≤ units_per_page page_size
      → Released page_size offset (offset + n) s page (bm_release page_size s page offset n)
  unfolding bm_release
  bm_release-Released offset n fits =
      let done =
        clear_bits-Done (taken.after.bitmap page) offset n (taken-IsPet.words page)
          (fits_bits (offset + n) fits) in
      let m = back done.after done.puts in
      record {
        after = record m.after { blocks_allocated = dec64 m.after.blocks_allocated };
        returns = rw (taken.returns, done.returns, m.returns) refl;
        puts = m.marked.puts;
        others = m.marked.others;
        bytes = m.marked.bytes;
        counted = ap dec64 m.marked.blocks_allocated;
        recent = m.marked.recent;
        listed = m.marked.listed;
        pet = m.marked.pet;
      }

  -- `bm_shrink` of a block of a listed page returns, and clears exactly the bits that the block gives up.
  pub bm_shrink-Marks :
      (offset old new : ℕ)
      → new ≤ old
      → old < 2 ^ 32
      → offset + old ≤ units_per_page page_size
      → Marks page_size 0
          (offset + new)
          (offset + old)
          s
          page
          (bm_shrink page_size s page offset old new)
  unfolding bm_shrink
  bm_shrink-Marks offset old new less small fits =
      let done = Done-at (offset + new) (offset + old) refl (omega arith) (
        clear_bits-Done (taken.after.bitmap page) (offset + new) (old - new)
          (taken-IsPet.words page) (fits_bits (offset + new + (old - new)) (omega arith))) in
      rw (taken.returns, sub32_lem old new less small, done.returns) (back done.after done.puts)

  -- `bm_grow` of a block of a listed page returns. If the units behind the block are free it marks exactly
  -- these, else it returns false and changes no bit.
  pub bm_grow-Grown :
      (offset old new : ℕ)
      → old ≤ new
      → new < 2 ^ 32
      → offset + old ≤ units_per_page page_size
      → Grown page_size (offset + old) (new - old) s page (bm_grow page_size s page offset old new)
  unfolding bm_grow
  bm_grow-Grown offset old new more small fits =
      let bm = taken.after.bitmap page in
      let same = ap (λ f. f page) taken.same.bitmap in
      let counted =
        count_zero_bits-Counted (units_per_page page_size) bm (taken-IsPet.words page)
          (taken-IsPet.whole page) (offset + old) (new - old) fits in
      elim (Bool-cases (ltb counted.count (new - old))) [
        | inl short ↦
            let m =
              Marks-before taken.same (
                unhand_page-unmarked page_size size taken.after taken-IsPet 1 (offset + old)
                  page) in
            refused m.after
              (rw (taken.returns, sub32_lem new old more small, counted.returns, short, m.returns)
                refl)
              (subst (λ b. ¬ IsGap b (offset + old) (new - old)) same
                (short_run bm (offset + old) (new - old) counted.count counted.run
                  (ltb→lt _ _ short)))
              m.marked
        | inr long ↦
            let gap =
              gap_of_run bm (offset + old) (new - old) counted.count counted.run (new - old)
                (ltb→le _ _ long) in
            let done =
              set_bits-Done bm (offset + old) (new - old) (taken-IsPet.words page) gap.inside in
            let m = back done.after done.puts in
            grown m.after
              (rw
                (
                  taken.returns,
                  sub32_lem new old more small,
                  counted.returns,
                  long,
                  done.returns,
                  m.returns,
                )
                refl)
              (subst (λ b. IsGap b (offset + old) (new - old)) same gap) m.marked
      ]
