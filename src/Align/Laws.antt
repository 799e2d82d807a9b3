-- ===== src/Align/Laws.antt =====
-- What `align_unsigned` and `align_pointer` of include/allocator.h return.
use native.Mathlib.Nat.{
  pow-le-pow_right, div-add-mod', div-add-mod, mul-sub, mul-mod_right, mod-one, pow-suc,
  mod-eq_of_lt, mul-mod_left, mul-le-mul_right, lt_of_mul-lt-mul_right,
}
use native.Mathlib.Decide.{dec_lt}
use libpussy.Base.{ℕ, ◌+◌, ◌-◌, ◌*◌, ◌/◌, ◌%◌, ◌^◌, ◌≤◌, ◌<◌, ◌≡◌, arith, u32, bit_and}
use libpussy.Base.Bits.{
  complement, bit_and-add-complement, bit_and-le, bit_and-complement-low_mask, pow2_pos,
}
use libpussy.Align.{align_unsigned}

-- For any alignment, a power of two or not, the result of `align_unsigned` is no smaller than its
-- argument and less than one alignment above it, if the sum does not leave 32 bits.
pub align_unsigned_bounds :
    (n a : ℕ)
    → 0 < a
    → n + (a - 1) < 2 ^ 32
    → (n ≤ align_unsigned n a) × (align_unsigned n a < n + a)
unfolding align_unsigned
align_unsigned_bounds n a pos fits = ground (
  arith,
  bit_and-add-complement 32 (u32 (n + (a - 1))) (a - 1) (omega arith) (omega arith),
  bit_and-le (u32 (n + (a - 1))) (a - 1),
)

pub sub-mod_self : (x p : ℕ) → (x - x % p) % p ≡ 0
sub-mod_self x p =
    let e : x - x % p ≡ x / p * p = omega (arith, div-add-mod' x p) in rw e (mul-mod_left (x / p) p)

pub sub_multiple : (p a b : ℕ) → a % p ≡ 0 → b % p ≡ 0 → (a - b) % p ≡ 0
sub_multiple p a b ea eb =
    let e : a - b ≡ p * (a / p - b / p) =
      omega (arith, div-add-mod a p, div-add-mod b p, mul-sub p (a / p) (b / p)) in
    rw e (mul-mod_right p (a / p - b / p))

-- A positive multiple is at least one step.
pub le_of_multiple : (p a : ℕ) → 0 < a → a % p ≡ 0 → p ≤ a
le_of_multiple p a pos e = elim (dec_lt a p) [
  | yes h ↦ absurd (omega (arith, mod-eq_of_lt h))
  | no h ↦ omega arith
]

-- Two multiples less than one step apart are in order.
pub multiple-le : (p r m : ℕ) → 0 < p → r % p ≡ 0 → m % p ≡ 0 → r < m + p → r ≤ m
multiple-le p r m pos er em h = omega (
  arith,
  div-add-mod' r p,
  div-add-mod' m p,
  mul-le-mul_right {m = r / p} {n = m / p} p (omega (arith, below)),
)
  where
    below : r / p < m / p + 1
    below = lt_of_mul-lt-mul_right p (omega (arith, div-add-mod' r p, div-add-mod' m p))

module _ (k : ℕ) (small : k < 32) where
  pub pow_bound : 2 * 2 ^ k ≤ 2 ^ 32
  pow_bound = omega (arith, pow-suc 2 k, pow-le-pow_right {n = 2} (omega arith) small)

  -- The result at a power of two, before and after the wrap of the sum.
  align_unsigned_wrapped :
      (n : ℕ)
      → n < 2 ^ 32
      → let x = u32 (n + (2 ^ k - 1)) in align_unsigned n (2 ^ k) ≡ x - x % 2 ^ k
  unfolding align_unsigned
  align_unsigned_wrapped n h = ground (
    arith,
    pow_bound,
    mod-one (u32 n),
    mod-one (u32 (n + (2 ^ k - 1))),
    pow2_pos k,
    bit_and-complement-low_mask 32 k (u32 (n + (2 ^ k - 1))) (omega arith) (omega arith),
  )

  pub align_unsigned_multiple : (n : ℕ) → n < 2 ^ 32 → align_unsigned n (2 ^ k) % 2 ^ k ≡ 0
  align_unsigned_multiple n h =
      rw (align_unsigned_wrapped n h) (sub-mod_self (u32 (n + (2 ^ k - 1))) (2 ^ k))

  -- At a power of two, `align_unsigned` returns the least multiple of the alignment that is not below
  -- its argument, if the sum does not leave 32 bits.
  pub align_unsigned_least :
      (n : ℕ)
      → n + (2 ^ k - 1) < 2 ^ 32
      → (n ≤ align_unsigned n (2 ^ k))
        × (align_unsigned n (2 ^ k) % 2 ^ k ≡ 0)
        × ((m : ℕ) → m % 2 ^ k ≡ 0 → n ≤ m → align_unsigned n (2 ^ k) ≤ m)
  align_unsigned_least n fits = (
    (align_unsigned_bounds n (2 ^ k) (pow2_pos k) fits).0,
    align_unsigned_multiple n (omega arith),
    λ m e above.
        multiple-le (2 ^ k) (align_unsigned n (2 ^ k)) m (pow2_pos k)
          (align_unsigned_multiple n (omega arith)) e
          (omega (arith, align_unsigned_bounds n (2 ^ k) (pow2_pos k) fits)),
  )

  -- In the last `2 ^ k - 1` values of `unsigned` the sum wraps and the result is zero.
  pub align_unsigned_overflow :
      (n : ℕ) → n < 2 ^ 32 → 2 ^ 32 < n + 2 ^ k → align_unsigned n (2 ^ k) ≡ 0
  align_unsigned_overflow n h over = rw (align_unsigned_wrapped n h) (
      omega
        (arith, mod-eq_of_lt {n = u32 (n + (2 ^ k - 1))} {m = 2 ^ k} (omega (arith, pow_bound))))

  pub align_unsigned-lt : (n : ℕ) → n < 2 ^ 32 → align_unsigned n (2 ^ k) < 2 ^ 32
  align_unsigned-lt n h = rw (align_unsigned_wrapped n h) (omega arith)

  -- `x & ~(page - 1)` is `x` rounded down.
  pub round_down : (x : ℕ) → x < 2 ^ 32 → bit_and x (complement 32 (2 ^ k - 1)) ≡ x - x % 2 ^ k
  round_down x h = bit_and-complement-low_mask 32 k x (omega arith) h

  pub round_down_multiple : (x : ℕ) → (x - x % 2 ^ k) % 2 ^ k ≡ 0
  round_down_multiple x = sub-mod_self x (2 ^ k)
