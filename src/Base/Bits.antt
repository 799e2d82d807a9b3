-- ===== src/Base/Bits.antt =====
-- The binary digits of a number, and what `&`, `|`, `~` and the shifts do to each of them.
pub mod Shift
use Prim.Native.Nat.{
  ℕ, zero, suc, ◌+◌, ◌-◌, ◌*◌, ◌/◌, ◌%◌, ◌^◌, ◌≤◌, ◌<◌, min, max, digits, bit_and, bit_or,
  bit_and-bitwise, bit_or-bitwise,
}
use mathlib.Core.Path.{◌≡◌, refl, sym, ◌∙◌, ap}
use native.Mathlib.Nat.{
  pow-suc, one-le-pow, le_refl, pow-le-pow_right, mod-lt, mod-eq_of_lt, div-add-mod',
  add-mul-mod_self_right,
}
use native.Mathlib.Omega.{arith}

-- The digit of `x` at position `i`, lowest first.
unfoldable pub bit : ℕ → ℕ → ℕ
bit x zero = x % 2
bit x (suc i) = bit (x / 2) i

-- `~x` on words of `w` bits.
abbrev pub complement : ℕ → ℕ → ℕ
complement w x = 2 ^ w - 1 - x

pub bit-lt : (x i : ℕ) → bit x i < 2
unfolding bit
bit-lt x zero = omega arith
bit-lt x (suc i) = bit-lt (x / 2) i

pub bit_zero : (i : ℕ) → bit 0 i ≡ 0
unfolding bit
bit_zero zero = refl
bit_zero (suc i) = bit_zero i

bit_ext_below : (n a b : ℕ) → a ≤ n → b ≤ n → ((i : ℕ) → bit a i ≡ bit b i) → a ≡ b
unfolding bit
bit_ext_below zero a b ha hb same = omega arith
bit_ext_below (suc n) a b ha hb same =
    omega (
      arith,
      same 0,
      bit_ext_below n (a / 2) (b / 2) (omega arith) (omega arith) (λ i. same (suc i)),
    )

-- A number is given by its digits.
pub bit_ext : (a b : ℕ) → ((i : ℕ) → bit a i ≡ bit b i) → a ≡ b
bit_ext a b same = bit_ext_below (max a b) a b (omega arith) (omega arith) same

pub pow2-suc : (w : ℕ) → 2 ^ suc w ≡ 2 * 2 ^ w
pow2-suc w = omega (arith, pow-suc 2 w)

pub pow2_pos : (w : ℕ) → 0 < 2 ^ w
pow2_pos w = one-le-pow w 2 (omega arith)

-- An operation that works digit by digit.
module _ (z : ℕ → ℕ) (f : ℕ → ℕ → ℕ) (z_digit : (b i : ℕ) → bit (z b) i ≡ f 0 (bit b i))
    (f_digit : (x y : ℕ) → x < 2 → y < 2 → f x y < 2) where
  bit-digits : (n a b i : ℕ) → a ≤ n → bit (digits z f n a b) i ≡ f (bit a i) (bit b i)
  unfolding bit
  bit-digits zero zero b i h = z_digit b i ∙ ap (λ t. f t (bit b i)) (sym (bit_zero i))
  bit-digits zero (suc a) b i h = absurd (omega arith)
  bit-digits (suc n) zero b i h = z_digit b i ∙ ap (λ t. f t (bit b i)) (sym (bit_zero i))
  bit-digits (suc n) (suc a) b zero h =
      omega (arith, f_digit (suc a % 2) (b % 2) (omega arith) (omega arith))
  bit-digits (suc n) (suc a) b (suc i) h =
      ap (λ t. bit t i) halves ∙ bit-digits n (suc a / 2) (b / 2) i (omega arith)
    where
      low : f (suc a % 2) (b % 2) < 2
      low = f_digit (suc a % 2) (b % 2) (omega arith) (omega arith)

      halves : digits z f (suc n) (suc a) b / 2 ≡ digits z f n (suc a / 2) (b / 2)
      halves = omega (arith, low)

pub bit-bit_and : (a b i : ℕ) → bit (bit_and a b) i ≡ min (bit a i) (bit b i)
bit-bit_and a b i = rw bit_and-bitwise (
    bit-digits (λ y. 0) min (λ b i. omega (arith, bit_zero i)) (λ x y p q. omega arith) a a b i
      (le_refl a))

pub bit-bit_or : (a b i : ℕ) → bit (bit_or a b) i ≡ max (bit a i) (bit b i)
bit-bit_or a b i =
    rw bit_or-bitwise
      (bit-digits (λ y. y) max (λ b i. omega arith) (λ x y p q. omega arith) a a b i (le_refl a))

zero-bit_and : (b : ℕ) → bit_and 0 b ≡ 0
zero-bit_and b = bit_and-bitwise 0 b

-- One step of `&`: the lowest digit apart.
bit_and_step : (a b : ℕ) → bit_and a b ≡ bit_and (a / 2) (b / 2) * 2 + min (a % 2) (b % 2)
unfolding bit
bit_and_step a b = bit_ext _ _ λ i. step i
  where
    step : (i : ℕ) → bit (bit_and a b) i ≡ bit (bit_and (a / 2) (b / 2) * 2 + min (a % 2) (b % 2)) i
    step zero = omega (arith, bit-bit_and a b 0)
    step (suc i) =
        bit-bit_and a b (suc i)
        ∙ sym (bit-bit_and (a / 2) (b / 2) i)
        ∙ ap (λ t. bit t i) {x = bit_and (a / 2) (b / 2)} (omega arith)

-- `x & m` and `x & ~m` make up `x`.
pub bit_and-add-complement :
    (w x m : ℕ) → x < 2 ^ w → m < 2 ^ w → bit_and x m + bit_and x (complement w m) ≡ x
bit_and-add-complement zero x m hx hm =
    let e : x ≡ 0 = omega arith in rw (e, zero-bit_and, zero-bit_and) (omega arith)
bit_and-add-complement (suc w) x m hx hm = omega (
  arith,
  pow2-suc w,
  bit_and_step x m,
  bit_and_step x (complement (suc w) m),
  bit_and-add-complement w (x / 2) (m / 2) (omega arith) (omega arith),
  ap (λ t. bit_and (x / 2) t) {x = complement (suc w) m / 2} {y = complement w (m / 2)}
      (omega arith),
)

pub bit_and-le : (x m : ℕ) → bit_and x m ≤ m
bit_and-le x m = below x x m (le_refl x)
  where
    below : (n x m : ℕ) → x ≤ n → bit_and x m ≤ m
    below n zero m h = omega (arith, zero-bit_and m)
    below zero (suc x) m h = absurd (omega arith)
    below (suc n) (suc x) m h =
        omega (arith, bit_and_step (suc x) m, below n (suc x / 2) (m / 2) (omega arith))

pub mod_halves : (k x : ℕ) → x % 2 ^ suc k ≡ x / 2 % 2 ^ k * 2 + x % 2
mod_halves k x =
    ap (λ t. t % 2 ^ suc k) split
    ∙ add-mul-mod_self_right low q (2 ^ suc k)
    ∙ mod-eq_of_lt (omega (arith, pow2-suc k, mod-lt (x / 2) (pow2_pos k)))
  where
    q : ℕ
    q = x / 2 / 2 ^ k

    low : ℕ
    low = x / 2 % 2 ^ k * 2 + x % 2

    split : x ≡ low + q * 2 ^ suc k
    split = omega (arith, div-add-mod' (x / 2) (2 ^ k), ap (λ t. q * t) (pow2-suc k))

-- A mask of `k` ones keeps the remainder by `2 ^ k`.
pub bit_and-low_mask : (k x : ℕ) → bit_and x (2 ^ k - 1) ≡ x % 2 ^ k
bit_and-low_mask zero x =
    let e : bit_and x 0 ≡ 0 = omega (arith, bit_and-le x 0) in rw e (omega arith)
bit_and-low_mask (suc k) x = ground (
  arith,
  pow2-suc k,
  pow2_pos k,
  bit_and_step x (2 ^ suc k - 1),
  bit_and-low_mask k (x / 2),
  ap (λ t. bit_and (x / 2) t) {x = (2 ^ suc k - 1) / 2} {y = 2 ^ k - 1}
      (omega (arith, pow2-suc k, pow2_pos k)),
  mod_halves k x,
)

-- Clearing the `k` low digits of a word rounds it down.
pub bit_and-complement-low_mask :
    (w k x : ℕ) → k ≤ w → x < 2 ^ w → bit_and x (complement w (2 ^ k - 1)) ≡ x - x % 2 ^ k
bit_and-complement-low_mask w k x hk hx = omega (
  arith,
  bit_and-low_mask k x,
  pow2_pos k,
  pow-le-pow_right {n = 2} (omega arith) hk,
  bit_and-add-complement w x (2 ^ k - 1) hx
      (omega (arith, pow2_pos k, pow-le-pow_right {n = 2} (omega arith) hk)),
)
