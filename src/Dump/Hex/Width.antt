-- ===== src/Dump/Hex/Width.antt =====
-- How many digits src/dump_hex.c gives to its addresses.
use native.Mathlib.Decide.{ℕ_discrete}
use native.Mathlib.Nat.{div-add-mod, mod-lt, pow-le-pow_right}
use libpussy.Base.Returns.{Returns, Returns-bind}
use libpussy.Base.{
  ap, true, ℕ, zero, suc, ◌+◌, ◌-◌, ◌*◌, ◌/◌, ◌^◌, ◌≤◌, ◌<◌, ◌≡◌, ◌≢◌, ◌⊎◌, inl, inr, refl, arith,
  Bool-cases, ltb→lt, ltb→le, ne→==, ltb, ◌==◌, if◌then◌else◌,
}
use libpussy.Base.Bits.{pow2-suc, pow2_pos}
use libpussy.Dump.Hex.{count_leading_zeros, first_leading_one, width_of}

zero-== : (n : ℕ) → n ≡ 0 → (n == 0) ≡ true
zero-== n e = ground arith

-- The highest bit of a number is bit `top`.
pub record TopBit (value top : ℕ) : Type 0 where
  pub low : 2 ^ top ≤ value
  pub high : value < 2 ^ suc top

quotient_zero : (v m : ℕ) → 0 < m → v / m ≡ 0 → v < m
quotient_zero v m pos e = omega (arith, div-add-mod v m, mod-lt v pos, ap (λ t. m * t) e)

le_mul : (m q : ℕ) → q ≢ 0 → m ≤ m * q
le_mul m zero ne = absurd (ne refl)
le_mul m (suc q) ne = omega arith

quotient_some : (v m : ℕ) → 0 < m → v / m ≢ 0 → m ≤ v
quotient_some v m pos ne = omega (arith, div-add-mod v m, le_mul m (v / m) ne)

count_leading_zeros-TopBit :
    (k value : ℕ)
    → value ≢ 0
    → value < 2 ^ k
    → (top : ℕ) × (k ≡ count_leading_zeros k value + suc top) × TopBit value top
unfolding count_leading_zeros
count_leading_zeros-TopBit zero value some_bit below = absurd (some_bit (omega arith))
count_leading_zeros-TopBit (suc k) value some_bit below = elim (ℕ_discrete (value / 2 ^ k) 0) [
  | yes e ↦
      let (top, at, bit) =
        count_leading_zeros-TopBit k value some_bit (quotient_zero value (2 ^ k) (pow2_pos k) e) in
      (top, rw (zero-== (value / 2 ^ k) e) (omega (arith, at)), bit)
  | no ne ↦ (
    k,
    rw (ne→== (value / 2 ^ k) 0 ne) (omega arith),
    record { low = quotient_some value (2 ^ k) (pow2_pos k) ne; high = below },
  )
]

first_leading_one-TopBit :
    (value : ℕ)
    → value ≢ 0
    → value < 2 ^ 64
    → Returns (λ top. (top < 64) × TopBit value top) (first_leading_one value)
unfolding first_leading_one Returns
first_leading_one-TopBit value some_bit below =
    let (top, at, bit) = count_leading_zeros-TopBit 64 value some_bit below in
    rw (ne→== value 0 some_bit, at_top top (count_leading_zeros 64 value) at) (omega arith, bit)
  where
    at_top : (top leading : ℕ) → 64 ≡ leading + suc top → 64 - leading - 1 ≡ top
    at_top top leading e = omega arith

-- The width that is found, and what it is good for: all digits of the addresses, or all but a leading 1.
pub record Width (max_addr width : ℕ) : Type 0 where
  pub at_least : 4 ≤ width
  pub at_most : width ≤ 16
  pub fits :
      (max_addr < 2 ^ (4 * width)) ⊎ (2 ^ (4 * width) ≤ max_addr × max_addr < 2 * 2 ^ (4 * width))

enough-Width :
    (value top width : ℕ)
    → 4 ≤ width
    → width ≤ 16
    → top ≤ 4 * width
    → TopBit value top
    → Width value width
enough-Width value top width least most enough bit = elim (ℕ_discrete (4 * width) top) [
  | yes e ↦ record {
    at_least = least;
    at_most = most;
    fits = inr (rw e (bit.low, omega (arith, bit.high, pow2-suc top)));
  }
  | no ne ↦ record {
    at_least = least;
    at_most = most;
    fits = inl (
        omega (
          arith,
          bit.high,
          pow-le-pow_right {n = 2} (omega arith) {i = suc top} {j = 4 * width} (omega arith),
        ));
  }
]

top-Width :
    (value top : ℕ)
    → top < 64
    → TopBit value top
    → Width value (if ltb ((top + 3) / 4) 4 then 4 else (top + 3) / 4)
top-Width value top small bit = elim (Bool-cases (ltb ((top + 3) / 4) 4)) [
  | inl few ↦
      rw few
        (enough-Width value top 4 (omega arith) (omega arith) (omega (arith, ltb→lt _ _ few)) bit)
  | inr many ↦ rw many (
      enough-Width value top ((top + 3) / 4) (omega (arith, ltb→le _ _ many)) (omega arith)
        (omega arith) bit)
]

-- For the end of a dump that is not 0, the width that dump_hex gives to its addresses is from 4 to 16
-- digits, and the end either fits in it, or has exactly a leading 1 above it.
pub width_of-Width :
    (max_addr : ℕ) → max_addr ≢ 0 → max_addr < 2 ^ 64 → Returns (Width max_addr) (width_of max_addr)
unfolding width_of Returns
width_of-Width v some_bit below =
    Returns-bind _ (first_leading_one v) _ (first_leading_one-TopBit v some_bit below)
      (λ top bit. top-Width v top bit.0 bit.1)
