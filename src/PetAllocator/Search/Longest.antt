-- ===== src/PetAllocator/Search/Longest.antt =====
-- `find_longest_free_block` of src/allocator_pet.c returns the length of the longest gap.
use native.Mathlib.Decide.{dec_lt}
use libpussy.Base.{
  true, false, ℕ, zero, suc, ◌+◌, ◌-◌, ◌*◌, ◌^◌, ◌≤◌, ◌<◌, ◌≡◌, ◌⊎◌, arith, List, length, inl, inr,
  ltb, Run, ok, ◌==◌, sub32, if◌then◌else◌, Bool-cases, ltb→lt, ltb→le, refl,
}
use libpussy.PetAllocator.Bitmap.Range.{IsWords}
use libpussy.PetAllocator.Bitmap.Count.{IsRun, count_zero_bits-Counted, count_nonzero_bits-Counted}
use libpussy.PetAllocator.Search.{find_longest_from, find_longest_free_block}
use libpussy.PetAllocator.Search.Gap.{IsGap, gap_inside_run, gap_of_run, runs-advance, no_gap-ones}

-- Among the gaps that start before `to`, one has `size` units, and none has more.
pub record IsLongest (bm : List ℕ) (header to size : ℕ) : Type 0 where
  pub start : ℕ
  pub behind : header ≤ start
  pub gap : IsGap bm start size
  pub longest : (q k : ℕ) → header ≤ q → q < to → IsGap bm q k → k ≤ size

pub record Longest (bm : List ℕ) (header : ℕ) (result : Run ℕ) : Type 0 where
  pub size : ℕ
  pub returns : result ≡ ok size
  pub longest : IsLongest bm header (length bm * 64) size

-- What a round adds.
IsLongest-round :
    (bm : List ℕ) (header offset n c limit c' lfb : ℕ)
    → header ≤ offset
    → offset + n ≡ length bm * 64
    → IsRun 0 bm offset n c
    → IsRun 1 bm (offset + c) limit c'
    → IsLongest bm header offset lfb
    → IsLongest bm header (offset + c + c') (if ltb lfb c then c else lfb)
IsLongest-round bm header offset n c limit c' lfb behind left zeros ones best =
    elim (Bool-cases (ltb lfb c)) [
      | inl more ↦ rw more (record {
        start = offset;
        behind = behind;
        gap = gap_of_run bm offset n c zeros c (omega arith);
        longest =
            λ q k lo hi gap. bounded c (omega arith) (omega (arith, ltb→lt _ _ more)) q k lo hi gap;
      })
      | inr less ↦ rw less (record {
        start = best.start;
        behind = best.behind;
        gap = best.gap;
        longest = λ q k lo hi gap. bounded lfb (ltb→le _ _ less) (omega arith) q k lo hi gap;
      })
    ]
  where
    bounded :
        (size : ℕ)
        → c ≤ size
        → lfb ≤ size
        → (q k : ℕ) → header ≤ q
        → q < offset + c + c'
        → IsGap bm q k
        → k ≤ size
    bounded size zeros_fit old_fit q k lo hi gap = elim (dec_lt q offset) [
      | yes old ↦ omega (arith, best.longest q k lo old gap)
      | no new ↦ elim (dec_lt q (offset + c)) [
        | yes in_zeros ↦
            omega
              (arith, gap_inside_run bm offset n c zeros q k (omega arith) in_zeros gap (inr left))
        | no in_ones ↦
            omega (arith, no_gap-ones bm (offset + c) limit c' q k ones (omega arith) hi gap)
      ]
    ]

sub32_inside : (a b : ℕ) → a < 2 ^ 32 → b ≤ a → sub32 a b ≡ a - b
sub32_inside a b h k = omega arith

module _ (units header : ℕ) (bm : List ℕ) (words : IsWords bm) (extent : units ≡ length bm * 64)
    (small : units < 2 ^ 32) where
  find_longest_from-Longest :
      (fuel offset n lfb : ℕ)
      → header ≤ offset
      → offset + n ≡ units
      → n < fuel
      → IsLongest bm header offset lfb
      → Longest bm header (find_longest_from units header bm fuel offset n lfb)
  unfolding find_longest_from
  find_longest_from-Longest zero offset n lfb behind left enough best = absurd (omega arith)
  find_longest_from-Longest (suc fuel) offset n lfb behind left enough best =
      elim (Bool-cases (n == 0)) [
        | inl stop ↦
            rw stop (record { size = lfb; returns = refl; longest = rw (at_end stop) best })
        | inr go ↦
            let zeros = count_zero_bits-Counted units bm words extent offset n (omega arith) in
            let run = zeros.run in
            let ones =
              count_nonzero_bits-Counted units bm words extent (offset + zeros.count)
                (n - zeros.count) (omega (arith, run.inside, extent)) in
            let ones_run = ones.run in
            rw
              (
                go,
                zeros.returns,
                sub32_inside n zeros.count (omega arith) (omega (arith, run.inside, extent)),
                ones.returns,
                sub32_inside (n - zeros.count) ones.count (omega arith)
                    (omega (arith, ones_run.inside, extent)),
              )
              (find_longest_from-Longest fuel (offset + zeros.count + ones.count)
                (n - zeros.count - ones.count) (if ltb lfb zeros.count then zeros.count else lfb)
                (omega arith) (omega (arith, ones_run.inside, extent))
                (omega (
                  arith,
                  go_nonzero go,
                  runs-advance bm offset n zeros.count run (n - zeros.count) ones.count ones_run
                      (omega (arith, extent, go_nonzero go)) (go_nonzero go)
                      (room zeros.count run.inside),
                ))
                (IsLongest-round bm header offset n zeros.count (n - zeros.count) ones.count lfb
                  behind (omega (arith, extent)) run ones_run best))
      ]
    where
      go_nonzero : (n == 0) ≡ false → 0 < n
      go_nonzero go = ground arith

      room : (c : ℕ) → offset + c ≤ length bm * 64 → (0 < n - c) ⊎ (offset + c ≡ length bm * 64)
      room c h = elim (dec_lt 0 (n - c)) [
        | yes more ↦ inl more
        | no full ↦ inr (omega (arith, extent))
      ]

      at_end : (n == 0) ≡ true → length bm * 64 ≡ offset
      at_end stop = ground (arith, extent)

  -- On a bitmap of `units` bits in whole words, fewer than 2^32, of which the header takes the first
  -- `header`, `find_longest_free_block` returns and never reads past the end. It returns the size of the
  -- longest gap behind the header: there is a gap of that size, and no gap is longer.
  pub find_longest_free_block-Longest :
      header ≤ units → Longest bm header (find_longest_free_block units header bm)
  unfolding find_longest_free_block
  find_longest_free_block-Longest low =
      find_longest_from-Longest (units + 1) header (units - header) 0 (omega arith) (omega arith)
        (omega arith)
        (record {
          start = header;
          behind = omega arith;
          gap = record { inside = omega (arith, extent); free = λ p lo hi. absurd (omega arith) };
          longest = λ q k lo hi gap. absurd (omega arith);
        })
