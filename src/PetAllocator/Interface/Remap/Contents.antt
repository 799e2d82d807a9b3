-- ===== src/PetAllocator/Interface/Remap/Contents.antt =====
-- What is in a block of whole pages of src/allocator_pet.c that `mremap` moved or left.
use mathlib.Core.Bool.{false≢true}
use libpussy.Base.{
  ℕ, ◌+◌, ◌-◌, ◌≤◌, ◌<◌, ◌≡◌, ◌⊎◌, refl, ap, ◌∙◌, arith, inl, inr, ◌∷◌, Bool, true, false, ◌&&◌,
  ltb, lt→ltb,
}
use libpussy.Align.{align_unsigned_to_page}
use libpussy.AddressSpace.{extent, munmap}
use libpussy.PetAllocator.State.{Pet}
use libpussy.PetAllocator.Blocks.{cleansed}
use libpussy.PetAllocator.Interface.{copied, cleansed_if}

-- What the block holds, where it is now, and the rest.
pub record Holds (page_size addr old new : ℕ) (clean : Bool) (s : Pet) (place : ℕ) (after : Pet)
    : Type 0 where
  pub kept : (i : ℕ) → i < old → i < new → after.bytes (place + i) ≡ s.bytes (addr + i)
  pub zeroed : clean ≡ true → (i : ℕ) → old ≤ i → i < new → after.bytes (place + i) ≡ 0
  pub elsewhere :
      (p : ℕ)
      → (p < place) ⊎ (place + align_unsigned_to_page page_size new ≤ p)
      → after.bytes p ≡ s.bytes p
  pub bitmap : after.bitmap ≡ s.bitmap
  pub blocks_allocated : after.blocks_allocated ≡ s.blocks_allocated
  pub maps :
      ((place ≡ addr) × (after.maps ≡ s.maps))
      ⊎ (after.maps
          ≡ extent place (align_unsigned_to_page page_size new)
            ∷ munmap s.maps addr (align_unsigned_to_page page_size old))

cleansed-before :
    (addr start end i : ℕ) (bytes : ℕ → ℕ)
    → i < start
    → cleansed addr start end bytes (addr + i) ≡ bytes (addr + i)
unfolding cleansed
cleansed-before addr start end i bytes h = ground arith

cleansed-inside :
    (addr start end i : ℕ) (bytes : ℕ → ℕ)
    → start ≤ i
    → i < end
    → cleansed addr start end bytes (addr + i) ≡ 0
unfolding cleansed
cleansed-inside addr start end i bytes lo hi = ground arith

cleansed-outside :
    (addr start end n p : ℕ) (bytes : ℕ → ℕ)
    → end ≤ n
    → (p < addr) ⊎ (addr + n ≤ p)
    → cleansed addr start end bytes p ≡ bytes p
unfolding cleansed
cleansed-outside addr start end n p bytes h out = ground arith

copied-inside :
    (dst src n i : ℕ) (bytes : ℕ → ℕ)
    → i < n
    → copied dst src n bytes (dst + i) ≡ bytes (src + (dst + i - dst))
unfolding copied
copied-inside dst src n i bytes h = ground arith

copied-outside :
    (dst src n m p : ℕ) (bytes : ℕ → ℕ)
    → n ≤ m
    → (p < dst) ⊎ (dst + m ≤ p)
    → copied dst src n bytes p ≡ bytes p
unfolding copied
copied-outside dst src n m p bytes h out = ground arith

module _ (page_size addr old new : ℕ) (clean : Bool) (s : Pet)
    (room : new ≤ align_unsigned_to_page page_size new) where
  abbrev old_size : ℕ
  old_size = align_unsigned_to_page page_size old

  abbrev new_size : ℕ
  new_size = align_unsigned_to_page page_size new

  -- What is behind the old bytes is cleaned, if it is to be and there is anything.
  pub cleaned :
      (test : Bool) (t : Pet) (place : ℕ)
      → (clean ≡ true → old < new → test ≡ true)
      → Holds page_size addr old new false s place t
      → Holds page_size addr old new clean s place (cleansed_if test t place old new)
  unfolding cleansed_if
  cleaned true t place tested h = record {
    kept = λ i lo hi. cleansed-before place old new i t.bytes lo ∙ h.kept i lo hi;
    zeroed = λ e i lo hi. cleansed-inside place old new i t.bytes lo hi;
    elsewhere =
        λ p out. cleansed-outside place old new new_size p t.bytes room out ∙ h.elsewhere p out;
    bitmap = h.bitmap;
    blocks_allocated = h.blocks_allocated;
    maps = h.maps;
  }
  cleaned false t place tested h = record {
    kept = h.kept;
    zeroed = λ e i lo hi. absurd (false≢true (tested e (omega arith)));
    elsewhere = h.elsewhere;
    bitmap = h.bitmap;
    blocks_allocated = h.blocks_allocated;
    maps = h.maps;
  }

  -- There is nothing to clean behind fewer bytes.
  pub fewer :
      (t : Pet) (place : ℕ)
      → new ≤ old
      → Holds page_size addr old new false s place t
      → Holds page_size addr old new clean s place t
  fewer t place less h = record {
    kept = h.kept;
    zeroed = λ e i lo hi. absurd (omega arith);
    elsewhere = h.elsewhere;
    bitmap = h.bitmap;
    blocks_allocated = h.blocks_allocated;
    maps = h.maps;
  }

  -- The mapping is where it was.
  pub here : Holds page_size addr old new false s addr s
  here = record {
    kept = λ i lo hi. refl;
    zeroed = λ e. absurd (false≢true e);
    elsewhere = λ p out. refl;
    bitmap = refl;
    blocks_allocated = refl;
    maps = inl (refl, refl);
  }

  -- The mapping is at `a`, with `n` bytes from the old one.
  abbrev pub remapped : ℕ → ℕ → Pet
  remapped a n = record s {
    maps = extent a new_size ∷ munmap s.maps addr old_size;
    bytes = copied a addr n s.bytes;
  }

  pub there :
      (a n : ℕ)
      → n ≤ new_size
      → ((i : ℕ) → i < old → i < new → i < n)
      → Holds page_size addr old new false s a (remapped a n)
  there a n inside all = record {
    kept = λ i lo hi.
        copied-inside a addr n i s.bytes (all i lo hi)
        ∙ ap s.bytes {x = addr + (a + i - a)} (omega arith);
    zeroed = λ e. absurd (false≢true e);
    elsewhere = λ p out. copied-outside a addr n new_size p s.bytes inside out;
    bitmap = refl;
    blocks_allocated = refl;
    maps = inr refl;
  }

pub tested : (c : Bool) (old new : ℕ) → c ≡ true → old < new → (c && ltb old new) ≡ true
tested true old new e lt = lt→ltb old new lt
tested false old new e lt = absurd (false≢true e)

pub tested' : (c : Bool) (old new : ℕ) → c ≡ true → old < new → (c && true) ≡ true
tested' true old new e lt = refl
tested' false old new e lt = absurd (false≢true e)
