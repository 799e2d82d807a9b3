-- ===== src/PetAllocator/Interface/Branches.antt =====
-- Which part of `_reallocate` of src/allocator_pet.c changes a block, by its size in units before and after.
use libpussy.Base.{
  ℕ, ◌<◌, ◌≡◌, ◌≢◌, refl, sym, ap, ◌∙◌, arith, Bool, false, ◌&&◌, bit_or, some, ltb, ◌==◌, ne→==,
  ==_iff, lt→ltb, le→ltb, Run, ok,
}
use libpussy.Base.Bits.{bit, bit_ext, bit_zero, bit-bit_or}
use libpussy.AddressSpace.{Mmap}
use libpussy.Allocator.{Reallocated, same_addr}
use libpussy.PetAllocator.Sizes.{bytes_to_units}
use libpussy.PetAllocator.State.{Pet}
use libpussy.PetAllocator.Interface.{Mremap, cleansed_if, shrink_block, grow_block, reallocate}

or_zero : (a b : ℕ) → bit_or a b ≡ 0 → a ≡ 0
or_zero a b e =
    bit_ext a 0 (λ i. omega (arith, sym (bit-bit_or a b i) ∙ ap (λ t. bit t i) e, bit_zero i))

some_size : (old new : ℕ) → 0 < old → (bit_or old new == 0) ≡ false
some_size old new h = ne→== (bit_or old new) 0 (λ e. omega (arith, or_zero old new e))

module _ (page_size : ℕ) (mmap : Mmap) (mremap : Mremap) (s : Pet) (addr old new : ℕ)
    (clean : Bool) where
  abbrev result : Run (Reallocated Pet)
  result = reallocate page_size mmap mremap s (some addr) old new clean

  pub reallocate-unchanged : old ≡ new → result ≡ ok (same_addr (some addr) s)
  unfolding reallocate
  reallocate-unchanged e = rw ((==_iff old new).1 e) refl

  module _ (some_bytes : 0 < old) where
    pub reallocate-same :
        old ≢ new
        → bytes_to_units old ≡ bytes_to_units new
        → result ≡ ok (same_addr (some addr) (cleansed_if (clean && ltb old new) s addr old new))
    unfolding reallocate
    reallocate-same ne same =
        rw
          (
            ne→== _ _ ne,
            some_size old new some_bytes,
            (==_iff (bytes_to_units new) (bytes_to_units old)).1 (sym same),
          )
          refl

    pub reallocate-less :
        bytes_to_units new < bytes_to_units old
        → result ≡ shrink_block page_size mmap mremap s addr old new
    unfolding reallocate shrink_block
    reallocate-less less =
        rw
          (
            ne→== old new (λ e. omega (arith, ap bytes_to_units e)),
            some_size old new some_bytes,
            ne→== (bytes_to_units new) (bytes_to_units old) (λ e. omega (arith, e)),
            lt→ltb _ _ less,
          )
          refl

    pub reallocate-more :
        bytes_to_units old < bytes_to_units new
        → result ≡ grow_block page_size mmap mremap s addr old new clean
    unfolding reallocate grow_block
    reallocate-more more =
        rw
          (
            ne→== old new (λ e. omega (arith, ap bytes_to_units e)),
            some_size old new some_bytes,
            ne→== (bytes_to_units new) (bytes_to_units old) (λ e. omega (arith, e)),
            le→ltb (bytes_to_units new) (bytes_to_units old) (omega arith),
          )
          refl
