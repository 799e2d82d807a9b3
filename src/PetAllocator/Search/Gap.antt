-- ===== src/PetAllocator/Search/Gap.antt =====
-- Gaps in the bitmap of a page: the units that the searches of src/allocator_pet.c look for.
use native.Mathlib.Decide.{dec_lt, ℕ_discrete}
use libpussy.Base.{
  ℕ, ◌%◌, ap, ◌∙◌, ◌+◌, ◌*◌, ◌≤◌, ◌<◌, ◌≡◌, ◌≢◌, ◌⊎◌, arith, List, length, inl, inr,
}
use libpussy.Base.Bits.{bit-lt}
use libpussy.PetAllocator.Bitmap.Range.{bit_at}
use libpussy.PetAllocator.Bitmap.Count.{IsRun}

-- The `size` units from `start` on are in the page, and free.
pub record IsGap (bm : List ℕ) (start size : ℕ) : Type 0 where
  pub inside : start + size ≤ length bm * 64
  pub free : (p : ℕ) → start ≤ p → p < start + size → bit_at bm p ≡ 0

bit_at-lt : (bm : List ℕ) (p : ℕ) → bit_at bm p < 2
unfolding bit_at
bit_at-lt bm p = bit-lt _ (p % 64)

binary : (b : ℕ) → b < 2 → b ≢ 1 → b ≡ 0
binary b h ne = omega arith

module _ (bm : List ℕ) (offset limit c : ℕ) (zeros : IsRun 0 bm offset limit c) where
  -- A gap that starts in a run of zeros ends in it, if the run did not stop at the limit.
  pub gap_inside_run :
      (start size : ℕ)
      → offset ≤ start
      → start < offset + c
      → IsGap bm start size
      → (c < limit) ⊎ (offset + limit ≡ length bm * 64)
      → start + size ≤ offset + c
  gap_inside_run start size lo hi gap early = elim zeros.ends [
    | inl end ↦ omega (arith, gap.inside)
    | inr (inl one) ↦ elim (dec_lt (offset + c) (start + size)) [
      | yes over ↦ absurd (one (gap.free (offset + c) (omega arith) over))
      | no fits ↦ omega arith
    ]
    | inr (inr full) ↦ elim early [
      | inl h ↦ absurd (omega arith)
      | inr h ↦ omega (arith, gap.inside)
    ]
  ]

  -- A run of zeros has room for a gap.
  pub gap_of_run : (size : ℕ) → size ≤ c → IsGap bm offset size
  gap_of_run size h = record {
    inside = omega (arith, zeros.inside);
    free = λ p lo hi. zeros.all p lo (omega arith);
  }

  -- A run of zeros and the run of ones behind it move the search forward.
  pub runs-advance :
      (limit' c' : ℕ)
      → IsRun 1 bm (offset + c) limit' c'
      → offset < length bm * 64
      → 0 < limit
      → (0 < limit') ⊎ (offset + c ≡ length bm * 64)
      → 0 < c + c'
  runs-advance limit' c' ones more some_limit some_limit' = elim (dec_lt 0 (c + c')) [
    | yes h ↦ h
    | no h ↦ elim zeros.ends [
      | inl end ↦ absurd (omega arith)
      | inr (inr full) ↦ absurd (omega arith)
      | inr (inl one) ↦ elim ones.ends [
        | inl end ↦ absurd (omega arith)
        | inr (inl zero_bit) ↦ absurd (
            one (
              binary (bit_at bm (offset + c)) (bit_at-lt bm (offset + c))
                (λ e. zero_bit (ap (bit_at bm) (omega arith) ∙ e))))
        | inr (inr full) ↦ absurd (ground arith)
      ]
    ]
  ]

-- No gap starts at a used unit.
pub no_gap-ones :
    (bm : List ℕ) (offset limit c start size : ℕ)
    → IsRun 1 bm offset limit c
    → offset ≤ start
    → start < offset + c
    → IsGap bm start size
    → size ≡ 0
no_gap-ones bm offset limit c start size ones lo hi gap = elim (ℕ_discrete size 0) [
  | yes e ↦ e
  | no ne ↦ absurd (omega (arith, gap.free start (omega arith) (omega arith), ones.all start lo hi))
]
