-- ===== src/Word/Laws.antt =====
-- What `count_trailing_zeros` of src/word.h returns.
use libpussy.Base.{ℕ, zero, suc, ◌/◌, ◌%◌, ◌^◌, ◌<◌, ◌≡◌, ◌≢◌, arith, ◌==◌, inl, inr, Bool-cases}
use libpussy.Base.Bits.{bit, pow2-suc}
use libpussy.Word.{trailing_zeros, count_trailing_zeros}

-- `c` is the place of the lowest one of `w`, a word of `n` digits.
pub record IsLowestOne (n w c : ℕ) : Type 0 where
  pub inside : c < n
  pub one : bit w c ≡ 1
  pub zeros : (i : ℕ) → i < c → bit w i ≡ 0

trailing_zeros-IsLowestOne : (n w : ℕ) → w ≢ 0 → w < 2 ^ n → IsLowestOne n w (trailing_zeros n w)
unfolding trailing_zeros
trailing_zeros-IsLowestOne zero w ne h = absurd (ne (omega arith))
trailing_zeros-IsLowestOne (suc n) w ne h = elim (Bool-cases (w % 2 == 0)) [
  | inl even ↦ rw even (
      shifted (ground arith)
        (trailing_zeros-IsLowestOne n (w / 2) (ground arith) (omega (arith, pow2-suc n))))
  | inr odd ↦ rw odd (record {
    inside = omega arith;
    one = unfold bit in ground arith;
    zeros = λ i p. absurd (omega arith);
  })
]
  where
    shifted :
        w % 2 ≡ 0
        → IsLowestOne n (w / 2) (trailing_zeros n (w / 2))
        → IsLowestOne (suc n) w (suc (trailing_zeros n (w / 2)))
    shifted even v = record {
      inside = omega (arith, v.inside);
      one = unfold bit in v.one;
      zeros = zeros v;
    }
      where
        zeros :
            IsLowestOne n (w / 2) (trailing_zeros n (w / 2))
            → (i : ℕ) → i < suc (trailing_zeros n (w / 2))
            → bit w i ≡ 0
        zeros v zero p = unfold bit in even
        zeros v (suc i) p = unfold bit in v.zeros i (omega arith)

pub count_trailing_zeros-IsLowestOne :
    (w : ℕ) → w ≢ 0 → w < 2 ^ 64 → IsLowestOne 64 w (count_trailing_zeros w)
unfolding count_trailing_zeros
count_trailing_zeros-IsLowestOne w ne h = trailing_zeros-IsLowestOne 64 w ne h
