-- ===== src/FsbArena/Bits.antt =====
-- The bits that src/fsb_arena.c finds, sets and clears in the bitmap of a page.
use native.Mathlib.Decide.{dec_lt, ℕ_discrete}
use native.Mathlib.Nat.{pow-le-pow_right}
use mathlib.Core.Path.{subst}
use libpussy.Base.{
  ℕ, zero, suc, ◌+◌, ◌-◌, ◌*◌, ◌/◌, ◌%◌, ◌^◌, ◌≤◌, ◌<◌, ◌≡◌, ◌≢◌, refl, sym, ap, ◌∙◌, arith, true,
  false, List, length, bit_and, bit_or, Bool-cases, inl, inr, ◌==◌, Run, ok, aborted,
}
use libpussy.Base.Bits.{bit, bit-lt, bit_zero, complement, pow2-suc, pow2_pos}
use libpussy.Base.Bits.Shift.{bit-shl_low, bit-shl_high, bit-complement}
use libpussy.Word.{word_width, word_max, count_trailing_zeros}
use libpussy.Word.Laws.{count_trailing_zeros-IsLowestOne}
use libpussy.PetAllocator.Bitmap.{put_mask}
use libpussy.PetAllocator.Bitmap.Range.{IsWords, word_at, bit_at, in_range, load_word_inside}
use libpussy.PetAllocator.Bitmap.Masks.{IsMask, one_if}
use libpussy.PetAllocator.Bitmap.Put.{Done, Done-at, put_mask-Done, bit_or-IsPut, bit_clear-IsPut}
use libpussy.FsbArena.Blocks.{find_free}

-- The first bit from word `i` on that is zero, or none in the `n` words.
pub data Found (bm : List ℕ) (i n : ℕ) (result : Run (ℕ × ℕ)) : Type 0 where
  found :
      (j b : ℕ)
      → result ≡ ok (j, b)
      → b < 64
      → j < i + n
      → bit_at bm (j * 64 + b) ≡ 0
      → ((p : ℕ) → i * 64 ≤ p → p < j * 64 + b → bit_at bm p ≡ 1)
      → Found bm i n result
  crowded :
      result ≡ aborted
      → ((p : ℕ) → i * 64 ≤ p → p < (i + n) * 64 → bit_at bm p ≡ 1)
      → Found bm i n result

bit_at-word : (bm : List ℕ) (j b : ℕ) → b < 64 → bit_at bm (j * 64 + b) ≡ bit (word_at bm j) b
unfolding bit_at
bit_at-word bm j b h =
    ap (λ k. bit (word_at bm k) ((j * 64 + b) % 64)) {x = (j * 64 + b) / 64} {y = j} (omega arith)
    ∙ ap (bit (word_at bm j)) {x = (j * 64 + b) % 64} {y = b} (omega arith)

-- Where the inverted word has its digits.
one_where_zero : (w j : ℕ) → w < 2 ^ 64 → j < 64 → bit (complement 64 w) j ≡ 0 → bit w j ≡ 1
one_where_zero w j hw hj e = omega (arith, e, bit-complement 64 w j hw hj, bit-lt w j)

zero_where_one : (w j : ℕ) → w < 2 ^ 64 → j < 64 → bit (complement 64 w) j ≡ 1 → bit w j ≡ 0
zero_where_one w j hw hj e = omega (arith, e, bit-complement 64 w j hw hj, bit-lt w j)

in_word :
    (bm : List ℕ) (i n p : ℕ)
    → i * 64 ≤ p
    → p < i * 64 + n
    → n ≤ 64
    → ((j : ℕ) → j < n → bit (word_at bm i) j ≡ 1)
    → bit_at bm p ≡ 1
in_word bm i n p lo hi few ones =
    subst (λ q. bit_at bm q ≡ 1) {x = i * 64 + (p - i * 64)} {y = p} (omega arith)
      (bit_at-word bm i (p - i * 64) (omega arith) ∙ ones (p - i * 64) (omega arith))

pub find_free-Found :
    (bm : List ℕ) (n i : ℕ) → IsWords bm → i + n ≤ length bm → Found bm i n (find_free bm n i)
unfolding find_free
find_free-Found bm zero i words inside = crowded refl (λ p lo hi. absurd (omega arith))
find_free-Found bm (suc n) i words inside =
    let word = word_at bm i in
    elim (Bool-cases (complement 64 word == 0)) [
      | inl all_ones ↦
          let here : (j : ℕ) → j < 64 → bit word j ≡ 1 = λ j h.
            one_where_zero word j (words i) h (zero_digits (complement 64 word) j all_ones) in
          elim (find_free-Found bm n (i + 1) words (omega arith)) [
            | found j b e small below free before ↦
                found j b (rw (load_word_inside bm i (omega arith), all_ones) e) small (omega arith)
                  free
                  (λ p lo hi. elim (dec_lt p (i * 64 + 64)) [
                    | yes h ↦ in_word bm i 64 p lo h (omega arith) here
                    | no h ↦ before p (omega arith) hi
                  ])
            | crowded e all ↦
                crowded (rw (load_word_inside bm i (omega arith), all_ones) e) (λ p lo hi.
                  elim (dec_lt p (i * 64 + 64)) [
                    | yes h ↦ in_word bm i 64 p lo h (omega arith) here
                    | no h ↦ all p (omega arith) (omega arith)
                  ])
          ]
      | inr some_zero ↦
          let low =
            count_trailing_zeros-IsLowestOne (complement 64 word) (nonzero_of _ some_zero)
              (omega (arith, words i)) in
          let c = count_trailing_zeros (complement 64 word) in
          found i c (rw (load_word_inside bm i (omega arith), some_zero) refl) low.inside
            (omega arith)
            (bit_at-word bm i c low.inside ∙ zero_where_one word c (words i) low.inside low.one)
            (λ p lo hi.
              in_word bm i c p lo hi (omega (arith, low.inside)) (λ j h.
                one_where_zero word j (words i) (omega (arith, low.inside)) (low.zeros j h)))
    ]
  where
    zero_digits : (w j : ℕ) → (w == 0) ≡ true → bit w j ≡ 0
    zero_digits w j e = ap (λ t. bit t j) {y = 0} (ground arith) ∙ bit_zero j

    nonzero_of : (w : ℕ) → (w == 0) ≡ false → w ≢ 0
    nonzero_of w e = ground arith

one_digit : (i : ℕ) → 0 < i → bit 1 i ≡ 0
unfolding bit
one_digit zero h = absurd (omega arith)
one_digit (suc i) h = bit_zero i

bit_one : bit 1 0 ≡ 1
unfolding bit
bit_one = refl

pow-digit : (b j : ℕ) → bit (2 ^ b) j ≡ one_if (in_range b (b + 1) j)
pow-digit b j = ap (λ t. bit t j) {x = 2 ^ b} {y = 1 * 2 ^ b} (omega arith) ∙ elim (dec_lt j b) [
  | yes h ↦ bit-shl_low b 1 j h ∙ sym (ap one_if {y = false} (ground arith))
  | no h ↦ bit-shl_high b 1 j (omega arith) ∙ elim (ℕ_discrete j b) [
    | yes e ↦
        ap (bit 1) {x = j - b} {y = 0} (omega arith)
        ∙ bit_one
        ∙ sym (ap one_if {y = true} (ground arith))
    | no ne ↦ one_digit (j - b) (omega arith) ∙ sym (ap one_if {y = false} (ground arith))
  ]
]

pow-IsMask : (b : ℕ) → b < 64 → IsMask b (b + 1) (2 ^ b)
pow-IsMask b h = record {
  digits = λ j p. pow-digit b j;
  fits = omega (
    arith,
    pow2-suc b,
    pow2_pos b,
    pow-le-pow_right {n = 2} (omega arith) {i = suc b} {j = 64} (omega arith),
  );
}

-- One bit is set.
pub set_bit-Done :
    (bm : List ℕ) (i b : ℕ)
    → IsWords bm
    → i < length bm
    → b < 64
    → Done 1 (i * 64 + b) (i * 64 + b + 1) bm (put_mask bit_or word_max bm i (2 ^ b))
set_bit-Done bm i b words inside h = Done-at (i * 64 + b) (i * 64 + b + 1) refl (omega arith) (
    put_mask-Done bit_or word_max 1 bit_or-IsPut bm i b (b + 1) (2 ^ b) words inside (omega arith)
      (pow-IsMask b h))

-- One bit is cleared.
pub clear_bit-Done :
    (bm : List ℕ) (p : ℕ)
    → IsWords bm
    → p < length bm * 64
    → Done 0 p (p + 1) bm (
        put_mask
          (λ word mask. bit_and word (complement word_width mask))
          0
          bm
          (p / word_width)
          (2 ^ (p % word_width)))
clear_bit-Done bm p words inside = Done-at p (p + 1) (omega arith) (omega arith) (
    put_mask-Done (λ word mask. bit_and word (complement word_width mask)) 0 0 bit_clear-IsPut bm
      (p / 64) (p % 64) (p % 64 + 1) (2 ^ (p % 64)) words (omega arith) (omega arith)
      (pow-IsMask (p % 64) (omega arith)))
