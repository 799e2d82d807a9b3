-- ===== src/PetAllocator/Search/FirstFit.antt =====
-- `find_free_block` of src/allocator_pet.c is first fit.
use native.Mathlib.Decide.{dec_lt}
use libpussy.Base.{
  ℕ, zero, suc, ◌+◌, ◌*◌, ◌≤◌, ◌<◌, ◌≡◌, arith, List, length, inl, inr, ltb, leb, Run, ok,
  Bool-cases, ltb→lt, ltb→le, leb→le, leb→lt, refl,
}
use libpussy.PetAllocator.Bitmap.Range.{IsWords}
use libpussy.PetAllocator.Bitmap.Count.{IsRun, count_zero_bits-Counted, count_nonzero_bits-Counted}
use libpussy.PetAllocator.Search.{uint_max, find_free_from, find_free_block}
use libpussy.PetAllocator.Search.Gap.{IsGap, gap_inside_run, gap_of_run, runs-advance, no_gap-ones}

-- No gap of `size` units starts at `from` or behind it, and before `to`.
abbrev pub NoGap : List ℕ → ℕ → ℕ → ℕ → Type 0
NoGap bm size from to = (q : ℕ) → from ≤ q → q < to → ¬ IsGap bm q size

-- `r` is the start of the first gap of `size` units behind the header, or 0 if there is none.
pub data IsFirstFit (bm : List ℕ) (header size r : ℕ) : Type 0 where
  found : header ≤ r → IsGap bm r size → NoGap bm size header r → IsFirstFit bm header size r
  missing : r ≡ 0 → NoGap bm size header (length bm * 64) → IsFirstFit bm header size r

pub record FirstFit (bm : List ℕ) (header size : ℕ) (result : Run ℕ) : Type 0 where
  pub offset : ℕ
  pub returns : result ≡ ok offset
  pub first : IsFirstFit bm header size offset

-- What the two runs of a round leave behind has no gap, if the zeros are too few.
NoGap-round :
    (bm : List ℕ) (header size offset limit c c' : ℕ)
    → 0 < size
    → IsRun 0 bm offset size c
    → c < size
    → IsRun 1 bm (offset + c) limit c'
    → NoGap bm size header offset
    → NoGap bm size header (offset + c + c')
NoGap-round bm header size offset limit c c' some_units zeros short ones no_gap q lo hi gap =
    elim (dec_lt q offset) [
      | yes old ↦ no_gap q lo old gap
      | no new ↦ elim (dec_lt q (offset + c)) [
        | yes in_zeros ↦ omega (
          arith,
          gap_inside_run bm offset size c zeros q size (omega arith) in_zeros gap (inl short),
        )
        | no in_ones ↦
            omega (arith, no_gap-ones bm (offset + c) limit c' q size ones (omega arith) hi gap)
      ]
    ]

module _ (units header : ℕ) (bm : List ℕ) (words : IsWords bm) (extent : units ≡ length bm * 64)
    (size : ℕ) (some_units : 0 < size) where
  find_free_from-FirstFit :
      (fuel offset : ℕ)
      → header ≤ offset
      → offset ≤ units
      → units < offset + fuel
      → NoGap bm size header offset
      → FirstFit bm header size (find_free_from units header bm size fuel offset)
  unfolding find_free_from
  find_free_from-FirstFit zero offset behind low enough no_gap = absurd (omega arith)
  find_free_from-FirstFit (suc fuel) offset behind low enough no_gap =
      elim (Bool-cases (ltb offset units)) [
        | inr stop ↦ rw stop (record {
          offset = 0;
          returns = refl;
          first = missing refl (λ q lo hi. no_gap q lo (omega (arith, ltb→le _ _ stop, extent)));
        })
        | inl go ↦
            let zeros = count_zero_bits-Counted units bm words extent offset size low in
            let run = zeros.run in
            rw (go, zeros.returns)
              (elim (Bool-cases (leb size zeros.count)) [
                | inl fits ↦ rw fits (record {
                  offset = offset;
                  returns = refl;
                  first =
                      found behind
                        (gap_of_run bm offset size zeros.count run size (leb→le _ _ fits)) no_gap;
                })
                | inr short ↦
                    let ones =
                      count_nonzero_bits-Counted units bm words extent (offset + zeros.count)
                        uint_max (omega (arith, run.inside, extent)) in
                    let ones_run = ones.run in
                    rw (short, ones.returns)
                      (find_free_from-FirstFit fuel (offset + zeros.count + ones.count)
                        (omega arith) (omega (arith, ones_run.inside, extent))
                        (omega (
                          arith,
                          extent,
                          ltb→lt _ _ go,
                          runs-advance bm offset size zeros.count run uint_max ones.count ones_run
                              (omega (arith, extent, ltb→lt _ _ go)) some_units (inl (omega arith)),
                        ))
                        (NoGap-round bm header size offset uint_max zeros.count ones.count
                          some_units run (leb→lt _ _ short) ones_run no_gap))
              ])
      ]

  -- On a bitmap of `units` bits in whole words, of which the header takes the first `header`, and for
  -- at least one unit, `find_free_block` returns and never reads past the end. It returns the start of the
  -- first gap of `size` free units behind the header, or 0 if there is no such gap.
  pub find_free_block-FirstFit :
      header ≤ units → FirstFit bm header size (find_free_block units header bm size)
  unfolding find_free_block
  find_free_block-FirstFit low =
      find_free_from-FirstFit (units + 1) header (omega arith) low (omega arith)
        (λ q lo hi. absurd (omega arith))
