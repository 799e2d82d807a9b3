-- ===== src/PetAllocator/Interface/Resize/Pointwise.antt =====
-- The units and the bytes of a block of src/allocator_pet.c that changes its size, one at a time.
use libpussy.Base.{
  ℕ, ◌+◌, ◌-◌, ◌*◌, ◌≤◌, ◌<◌, ◌≡◌, refl, arith, Bool, true, false, ◌&&◌, if◌then◌else◌, ltb, ◌==◌,
}
use libpussy.PetAllocator.Bitmap.Range.{in_range}
use libpussy.PetAllocator.State.{Pet}
use libpussy.PetAllocator.Blocks.{cleansed}
use libpussy.PetAllocator.Interface.{cleansed_if}

-- The bit of unit `p` when the units of a block from `offset` on change from `u` to `v`.
abbrev pub resized_bit : ℕ → ℕ → ℕ → ℕ → ℕ → ℕ
resized_bit offset u v p old =
    if in_range (offset + u) (offset + v) p
    then 1
    else if in_range (offset + v) (offset + u) p
    then 0
    else old

pub cleansed_if-bytes :
    (clean : Bool) (s : Pet) (addr start end a : ℕ)
    → (cleansed_if clean s addr start end).bytes a
      ≡ (if clean && in_range (addr + start) (addr + end) a then 0 else s.bytes a)
unfolding cleansed_if cleansed
cleansed_if-bytes true s addr start end a = refl
cleansed_if-bytes false s addr start end a = refl

pub record SameButBytes (s s' : Pet) : Type 0 where
  pub bitmap : s'.bitmap ≡ s.bitmap
  pub blocks_allocated : s'.blocks_allocated ≡ s.blocks_allocated

pub cleansed_if-same :
    (clean : Bool) (s : Pet) (addr start end : ℕ)
    → SameButBytes s (cleansed_if clean s addr start end)
unfolding cleansed_if
cleansed_if-same true s addr start end = record { bitmap = refl; blocks_allocated = refl }
cleansed_if-same false s addr start end = record { bitmap = refl; blocks_allocated = refl }

pub if_grows :
    (clean : Bool) (lo old new a b : ℕ)
    → (if (clean && ltb old new) && in_range (lo + old) (lo + new) a then 0 else b)
      ≡ (if clean && in_range (lo + old) (lo + new) a then 0 else b)
if_grows true lo old new a b = ground arith
if_grows false lo old new a b = refl

pub not_grown :
    (clean : Bool) (lo old new a b : ℕ)
    → new ≤ old
    → b ≡ (if clean && in_range (lo + old) (lo + new) a then 0 else b)
not_grown true lo old new a b less = ground arith
not_grown false lo old new a b less = refl

pub same_bit : (offset u v p b : ℕ) → u ≡ v → b ≡ resized_bit offset u v p b
same_bit offset u v p b e = ground arith

pub less_bit :
    (offset u v p b : ℕ)
    → v ≤ u
    → (if in_range (offset + v) (offset + u) p then 0 else b) ≡ resized_bit offset u v p b
less_bit offset u v p b less = ground arith

pub more_bit :
    (offset u v p b : ℕ)
    → u ≤ v
    → (if in_range (offset + u) (offset + u + (v - u)) p then 1 else b) ≡ resized_bit offset u v p b
more_bit offset u v p b more = ground arith

pub at_unit : (page offset : ℕ) → 0 < offset → ((page + offset * 16) == page) ≡ false
at_unit page offset h = ground arith
