-- ===== src/PetAllocator/Bitmap/Masks.antt =====
-- The masks of `set_bits` and `clear_bits` in src/allocator_pet.c, digit by digit.
use native.Mathlib.Nat.{pow-le-pow_right}
use native.Mathlib.Decide.{dec_lt}
use libpussy.Base.{
  ℕ, ◌+◌, ◌-◌, ◌*◌, ◌%◌, ◌^◌, ◌<◌, ◌≡◌, ◌∙◌, sym, ap, ap₂, arith, min, Bool, false, leb, ltb,
  if◌then◌else◌, bit_and, lt→ltb, le→ltb, Bool-cases, inl, inr,
}
use libpussy.Base.Bits.{bit, bit-bit_and, pow2_pos}
use libpussy.Base.Bits.Shift.{bit-shl_low, bit-shl_high, bit_high, bit-mod_low, bit-low_mask}
use libpussy.Word.{word_max}
use libpussy.PetAllocator.Bitmap.{ones, start_mask}
use libpussy.PetAllocator.Bitmap.Range.{in_range}

abbrev pub one_if : Bool → ℕ
one_if b = if b then 1 else 0

-- `word` has ones exactly from `lo` to `hi`.
pub record IsMask (lo hi word : ℕ) : Type 0 where
  pub digits : (j : ℕ) → j < 64 → bit word j ≡ one_if (in_range lo hi j)
  pub fits : word < 2 ^ 64

ones-digit : (n j : ℕ) → bit (ones n) j ≡ one_if (ltb j n)
ones-digit n j = elim (dec_lt j n) [
  | yes h ↦ rw (lt→ltb _ _ h) (bit-low_mask n j h)
  | no h ↦
      rw (le→ltb j n (omega arith))
        (bit_high n (ones n) j (omega (arith, pow2_pos n)) (omega arith))
]

pub ones-IsMask : (n : ℕ) → n < 64 → IsMask 0 n (ones n)
ones-IsMask n h = record {
  digits = λ j p. ones-digit n j ∙ ap one_if (ground arith);
  fits =
      omega
        (arith, pow2_pos n, pow-le-pow_right {n = 2} (omega arith) {i = n} {j = 64} (omega arith));
}

pub word_max-IsMask : IsMask 0 64 word_max
word_max-IsMask = record {
  digits = λ j p. ones-digit 64 j ∙ ap one_if (ground arith);
  fits = omega arith;
}

-- The mask before it is shifted.
abbrev low_part : ℕ → ℕ → ℕ
low_part s n = if leb n (64 - s) then bit_and word_max (ones n) else word_max

low_part-digit : (s n j : ℕ) → s < 64 → s + j < 64 → bit (low_part s n) j ≡ one_if (ltb j n)
low_part-digit s n j hs h = elim (Bool-cases (leb n (64 - s))) [
  | inl e ↦
      rw (e, bit-bit_and)
        (ap₂ min (word_max-IsMask.digits j (omega arith)) (ones-digit n j) ∙ ground arith)
  | inr e ↦ rw e (word_max-IsMask.digits j (omega arith) ∙ ap one_if (ground arith))
]

pub start_mask-IsMask : (s n : ℕ) → s < 64 → IsMask s (s + min n (64 - s)) (start_mask s n)
unfolding start_mask
start_mask-IsMask s n hs = record { digits = digits; fits = omega arith }
  where
    digits :
        (j : ℕ)
        → j < 64
        → bit (low_part s n * 2 ^ s % 2 ^ 64) j ≡ one_if (in_range s (s + min n (64 - s)) j)
    digits j p = bit-mod_low 64 (low_part s n * 2 ^ s) j p ∙ elim (dec_lt j s) [
      | yes below ↦
          bit-shl_low s (low_part s n) j below ∙ sym (ap one_if {y = false} (ground arith))
      | no above ↦
          bit-shl_high s (low_part s n) j (omega arith)
          ∙ low_part-digit s n (j - s) hs (omega arith)
          ∙ ap one_if (ground arith)
    ]
