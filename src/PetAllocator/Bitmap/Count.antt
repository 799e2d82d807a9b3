-- ===== src/PetAllocator/Bitmap/Count.antt =====
-- `count_zero_bits` and `count_nonzero_bits` of src/allocator_pet.c measure a run of equal bits.
use native.Mathlib.Decide.{dec_lt, ℕ_discrete}
use libpussy.Base.{
  ℕ, zero, suc, ◌+◌, ◌-◌, ◌*◌, ◌/◌, ◌%◌, ◌^◌, ◌≤◌, ◌<◌, ◌≡◌, ◌≢◌, ◌⊎◌, ◌∙◌, refl, sym, ap, ap₂,
  arith, true, false, ◌&&◌, List, ltb, ◌==◌, length, Bool-cases, inl, inr, Run, ok,
}
use libpussy.Base.Bits.{bit, bit-lt, bit_zero, bit_and-low_mask, complement}
use libpussy.Base.Bits.Shift.{lt_of_bits, bit_high, bit-complement, bit-shr}
use libpussy.Word.{count_trailing_zeros, word_width}
use libpussy.Word.Laws.{IsLowestOne, count_trailing_zeros-IsLowestOne}
use libpussy.PetAllocator.Bitmap.{count_words, count_bits, count_zero_bits, count_nonzero_bits}
use libpussy.PetAllocator.Bitmap.Range.{IsWords, word_at, bit_at, load_word_inside}

-- From `start` on there are `c` bits equal to `want`, and no more, unless the limit was reached.
pub record IsRun (want : ℕ) (bm : List ℕ) (start limit c : ℕ) : Type 0 where
  pub inside : start + c ≤ length bm * 64
  pub all : (p : ℕ) → start ≤ p → p < start + c → bit_at bm p ≡ want
  pub ends : (start + c ≡ length bm * 64) ⊎ ((bit_at bm (start + c) ≢ want) ⊎ (limit ≤ c))

pub record Counted (want : ℕ) (bm : List ℕ) (start limit : ℕ) (result : Run ℕ) : Type 0 where
  pub count : ℕ
  pub returns : result ≡ ok count
  pub run : IsRun want bm start limit count

-- `view` has a zero exactly where the word has the wanted bit.
record IsView (view : ℕ → ℕ) (want : ℕ) : Type 0 where
  fits : (w : ℕ) → w < 2 ^ 64 → view w < 2 ^ 64
  hit : (w j : ℕ) → w < 2 ^ 64 → j < 64 → bit (view w) j ≡ 0 → bit w j ≡ want
  miss : (w j : ℕ) → w < 2 ^ 64 → j < 64 → bit (view w) j ≡ 1 → bit w j ≢ want

same-IsView : IsView (λ w. w) 0
same-IsView = record { fits = λ w h. h; hit = λ w j h p e. e; miss = λ w j h p e. omega arith }

inverted-IsView : IsView (complement word_width) 1
inverted-IsView = record {
  fits = λ w h. omega arith;
  hit = λ w j h p e. omega (arith, bit-complement 64 w j h p, bit-lt w j);
  miss = λ w j h p e. omega (arith, bit-complement 64 w j h p, bit-lt w j);
}

bit_at-word : (bm : List ℕ) (i j : ℕ) → j < 64 → bit_at bm (i * 64 + j) ≡ bit (word_at bm i) j
unfolding bit_at
bit_at-word bm i j h =
    ap₂ (λ a b. bit (word_at bm a) b) {x = (i * 64 + j) / 64} {y = i} {u = (i * 64 + j) % 64}
      {v = j} (omega arith) (omega arith)

is_zero : (a : ℕ) → a ≡ 0 → (a == 0) ≡ true
is_zero a e = ground arith

not_zero : (a : ℕ) → a ≢ 0 → (a == 0) ≡ false
not_zero a ne = ground arith

module _ (units : ℕ) (view : ℕ → ℕ) (want : ℕ) (law : IsView view want) (bm : List ℕ) (limit : ℕ)
    (words : IsWords bm) (extent : units ≡ length bm * 64) where
  -- `n` wanted bits of word `i` from `s` on continue a run.
  all-add :
      (start i s n : ℕ)
      → s + n ≤ 64
      → ((p : ℕ) → start ≤ p → p < i * 64 + s → bit_at bm p ≡ want)
      → ((j : ℕ) → s ≤ j → j < s + n → bit (view (word_at bm i)) j ≡ 0)
      → (p : ℕ) → start ≤ p
      → p < i * 64 + s + n
      → bit_at bm p ≡ want
  all-add start i s n fits before zeros p lo hi = elim (dec_lt p (i * 64 + s)) [
    | yes old ↦ before p lo old
    | no new ↦
        ap (bit_at bm) {y = i * 64 + (p - i * 64)} (omega arith)
        ∙ bit_at-word bm i (p - i * 64) (omega arith)
        ∙ law.hit (word_at bm i) (p - i * 64) (words i) (omega arith)
            (zeros (p - i * 64) (omega arith) (omega arith))
  ]

  -- A run ends inside word `i`, `c` bits after bit `s` of it.
  IsRun-ends :
      (start count i s c : ℕ)
      → start + count ≡ i * 64 + s
      → i < length bm
      → s + c < 64
      → ((p : ℕ) → start ≤ p → p < i * 64 + s → bit_at bm p ≡ want)
      → ((j : ℕ) → s ≤ j → j < s + c → bit (view (word_at bm i)) j ≡ 0)
      → bit (view (word_at bm i)) (s + c) ≡ 1
      → IsRun want bm start limit (count + c)
  IsRun-ends start count i s c at inside fits before zeros one = record {
    inside = omega arith;
    all = λ p lo hi. all-add start i s c (omega arith) before zeros p lo (omega arith);
    ends = inr (
        inl (λ same.
          law.miss (word_at bm i) (s + c) (words i) fits one
            (sym (bit_at-word bm i (s + c) fits) ∙ ap (bit_at bm) (omega arith) ∙ same)));
  }

  count_words-Counted :
      (fuel i start count : ℕ)
      → start + count ≡ i * 64
      → i * 64 ≤ units
      → units < i * 64 + fuel
      → ((p : ℕ) → start ≤ p → p < i * 64 → bit_at bm p ≡ want)
      → Counted want bm start limit (count_words units view bm limit fuel i (i * 64) count)
  unfolding count_words
  count_words-Counted zero i start count at low enough before = absurd (omega arith)
  count_words-Counted (suc fuel) i start count at low enough before =
      elim (Bool-cases (ltb (i * 64) units && ltb count limit)) [
        | inr stop ↦ rw stop (record {
          count = count;
          returns = refl;
          run = record {
            inside = omega (arith, extent);
            all = λ p lo hi. before p lo (omega arith);
            ends = stopped stop;
          };
        })
        | inl go ↦
            rw (go, load_word_inside bm i (inside go))
              (elim (ℕ_discrete (view (word_at bm i)) 0) [
                | yes blank ↦ rw (is_zero _ blank) (
                    let e : i * 64 + word_width ≡ (i + 1) * 64 = omega arith in
                    rw e (
                      count_words-Counted fuel (i + 1) start (count + 64) (omega arith)
                        (omega (arith, inside go, extent)) (omega arith) (longer blank)))
                | no found ↦ rw (not_zero _ found) (
                    let v =
                      count_trailing_zeros-IsLowestOne (view (word_at bm i)) found
                        (law.fits (word_at bm i) (words i)) in
                    record {
                      count = count + count_trailing_zeros (view (word_at bm i));
                      returns = refl;
                      run =
                          IsRun-ends start count i 0 (count_trailing_zeros (view (word_at bm i)))
                            (omega arith) (inside go) (omega (arith, v.inside))
                            (λ q a b. before q a (omega arith)) (λ j a b. v.zeros j (omega arith))
                            (ap (bit (view (word_at bm i))) (omega arith) ∙ v.one);
                    })
              ])
      ]
    where
      inside : (ltb (i * 64) units && ltb count limit) ≡ true → i < length bm
      inside go = ground (arith, extent)

      stopped :
          (ltb (i * 64) units && ltb count limit) ≡ false
          → (start + count ≡ length bm * 64)
            ⊎ ((bit_at bm (start + count) ≢ want) ⊎ (limit ≤ count))
      stopped stop = elim (dec_lt (i * 64) units) [
        | yes more ↦ inr (inr (ground arith))
        | no done ↦ inl (omega (arith, extent))
      ]

      longer : view (word_at bm i) ≡ 0 → (p : ℕ) → start ≤ p → p < (i + 1) * 64 → bit_at bm p ≡ want
      longer blank p lo hi =
          all-add start i 0 64 (omega arith) (λ q a b. before q a (omega arith))
            (λ j a b. ap (λ t. bit t j) blank ∙ bit_zero j) p lo (omega arith)

  words-Counted :
      (i o start count : ℕ)
      → o ≡ i * 64
      → start + count ≡ o
      → o ≤ units
      → ((p : ℕ) → start ≤ p → p < o → bit_at bm p ≡ want)
      → Counted want bm start limit (count_words units view bm limit (units + 1) i o count)
  words-Counted i o start count e at low before = rw e (
      count_words-Counted (units + 1) i start count (omega arith) (omega arith) (omega arith)
        (λ p lo hi. before p lo (omega arith)))

  -- The first word is looked at from bit `offset % 64` on.
  count_bits-Counted :
      (offset : ℕ)
      → offset ≤ units
      → Counted want bm offset limit (count_bits units view bm limit offset)
  unfolding count_bits
  count_bits-Counted offset low =
      rw (bit_and-low_mask 6 offset) (elim (ℕ_discrete (offset % 64) 0) [
        | yes aligned ↦ rw (is_zero _ aligned) (
            words-Counted (offset / 64) offset offset 0 (omega arith) (omega arith) low
              (λ p lo hi. absurd (omega arith)))
        | no unaligned ↦
            rw (not_zero _ unaligned, load_word_inside bm (offset / 64) (inside unaligned))
              (elim (ℕ_discrete (view (word_at bm (offset / 64)) / 2 ^ (offset % 64)) 0) [
                | yes blank ↦ rw (is_zero _ blank) (
                    words-Counted (offset / 64 + 1) (offset + (64 - offset % 64)) offset
                      (64 - offset % 64) (omega arith) (omega arith)
                      (omega (arith, inside unaligned, extent))
                      (λ p lo hi.
                        all-add offset (offset / 64) (offset % 64) (64 - offset % 64) (omega arith)
                          (λ q a b. absurd (omega arith))
                          (λ j a b.
                            shifted j a ∙ ap (λ t. bit t (j - offset % 64)) blank ∙ bit_zero _)
                          p lo (omega arith)))
                | no found ↦ rw (not_zero _ found) (
                    let v =
                      count_trailing_zeros-IsLowestOne
                        (view (word_at bm (offset / 64)) / 2 ^ (offset % 64)) found
                        (narrow (offset % 64)) in
                    ends unaligned
                      (count_trailing_zeros (view (word_at bm (offset / 64)) / 2 ^ (offset % 64)))
                      v)
              ])
      ])
    where
      inside : offset % 64 ≢ 0 → offset / 64 < length bm
      inside ne = omega (arith, extent)

      shifted :
          (j : ℕ)
          → offset % 64 ≤ j
          → bit (view (word_at bm (offset / 64))) j
            ≡ bit (view (word_at bm (offset / 64)) / 2 ^ (offset % 64)) (j - offset % 64)
      shifted j h =
          ap (bit (view (word_at bm (offset / 64)))) (omega arith)
          ∙ sym (bit-shr (offset % 64) (view (word_at bm (offset / 64))) (j - offset % 64))

      narrow : (k : ℕ) → view (word_at bm (offset / 64)) / 2 ^ k < 2 ^ 64
      narrow k = lt_of_bits 64 (view (word_at bm (offset / 64)) / 2 ^ k) λ i p.
          bit-shr k (view (word_at bm (offset / 64))) i
          ∙ bit_high 64 (view (word_at bm (offset / 64))) (k + i)
              (law.fits (word_at bm (offset / 64)) (words (offset / 64))) (omega arith)

      ends :
          offset % 64 ≢ 0
          → (c : ℕ) → IsLowestOne 64 (view (word_at bm (offset / 64)) / 2 ^ (offset % 64)) c
          → Counted want bm offset limit (ok c)
      ends ne c v = record {
        count = 0 + c;
        returns = ap ok (omega arith);
        run =
            IsRun-ends offset 0 (offset / 64) (offset % 64) c (omega arith) (inside ne) fits
              (λ p a b. absurd (omega arith))
              (λ j a b. shifted j a ∙ v.zeros (j - offset % 64) (omega arith)) one;
      }
        where
          one : bit (view (word_at bm (offset / 64))) (offset % 64 + c) ≡ 1
          one = sym (bit-shr (offset % 64) (view (word_at bm (offset / 64))) c) ∙ v.one

          fits : offset % 64 + c < 64
          fits = elim (dec_lt (offset % 64 + c) 64) [
            | yes h ↦ h
            | no h ↦ absurd (
                omega (
                  arith,
                  one,
                  bit_high 64 (view (word_at bm (offset / 64))) (offset % 64 + c)
                      (law.fits (word_at bm (offset / 64)) (words (offset / 64))) (omega arith),
                ))
          ]

module _ (units : ℕ) (bm : List ℕ) (words : IsWords bm) (extent : units ≡ length bm * 64)
    (offset limit : ℕ) (low : offset ≤ units) where
  -- On a bitmap of `units` bits in whole words, `count_zero_bits` returns, never reads past the end, and
  -- counts a run of zero bits from `offset` on: it ends at the end of the bitmap, at a one, or when the
  -- limit is reached.
  pub count_zero_bits-Counted : Counted 0 bm offset limit (count_zero_bits units bm offset limit)
  unfolding count_zero_bits
  count_zero_bits-Counted =
      count_bits-Counted units (λ w. w) 0 same-IsView bm limit words extent offset low

  -- On a bitmap of `units` bits in whole words, `count_nonzero_bits` returns, never reads past the end,
  -- and counts a run of one bits from `offset` on: it ends at the end of the bitmap, at a zero, or when
  -- the limit is reached.
  pub count_nonzero_bits-Counted :
      Counted 1 bm offset limit (count_nonzero_bits units bm offset limit)
  unfolding count_nonzero_bits
  count_nonzero_bits-Counted =
      count_bits-Counted units (complement word_width) 1 inverted-IsView bm limit words extent
        offset low
