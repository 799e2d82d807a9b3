-- ===== src/Base/Bits/Shift.antt =====
-- The digits of shifted, cut and complemented words, and the lowest digit that is one.
use native.Mathlib.Nat.{div-div-eq-div-mul, div-one}
use Prim.Native.Nat.{ℕ, zero, suc, ◌+◌, ◌-◌, ◌*◌, ◌/◌, ◌%◌, ◌^◌, ◌≤◌, ◌<◌}
use mathlib.Core.Path.{◌≡◌, sym, ◌∙◌, ap}
use native.Mathlib.Omega.{arith}
use libpussy.Base.Bits.{bit, complement, bit_zero, bit_ext, pow2-suc, pow2_pos, mod_halves}

pub bit-shr : (k x i : ℕ) → bit (x / 2 ^ k) i ≡ bit x (k + i)
unfolding bit
bit-shr zero x i =
    ap (λ t. bit t i) {y = x} (div-one x) ∙ ap (bit x) {x = i} {y = 0 + i} (omega arith)
bit-shr (suc k) x i =
    ap (λ t. bit t i) (ap (λ t. x / t) (pow2-suc k) ∙ sym (div-div-eq-div-mul x 2 (2 ^ k)))
    ∙ bit-shr k (x / 2) i
    ∙ ap (bit x) {x = suc (k + i)} {y = suc k + i} (omega arith)

double : (k x : ℕ) → x * 2 ^ suc k ≡ 2 * (x * 2 ^ k)
double k x = omega (arith, ap (λ t. x * t) (pow2-suc k))

pub bit-shl_low : (k x i : ℕ) → i < k → bit (x * 2 ^ k) i ≡ 0
unfolding bit
bit-shl_low zero x i h = absurd (omega arith)
bit-shl_low (suc k) x zero h = omega (arith, double k x)
bit-shl_low (suc k) x (suc i) h =
    ap (λ t. bit t i) {y = x * 2 ^ k} (omega (arith, double k x)) ∙ bit-shl_low k x i (omega arith)

pub bit-shl_high : (k x i : ℕ) → k ≤ i → bit (x * 2 ^ k) i ≡ bit x (i - k)
unfolding bit
bit-shl_high zero x i h =
    ap (λ t. bit t i) {y = x} (omega arith) ∙ ap (bit x) {x = i} {y = i - 0} (omega arith)
bit-shl_high (suc k) x zero h = absurd (omega arith)
bit-shl_high (suc k) x (suc i) h =
    ap (λ t. bit t i) {y = x * 2 ^ k} (omega (arith, double k x))
    ∙ bit-shl_high k x i (omega arith)
    ∙ ap (bit x) {x = i - k} {y = suc i - suc k} (omega arith)

pub bit_high : (w x i : ℕ) → x < 2 ^ w → w ≤ i → bit x i ≡ 0
unfolding bit
bit_high zero x i hx h = ap (λ t. bit t i) {y = 0} (omega arith) ∙ bit_zero i
bit_high (suc w) x zero hx h = absurd (omega arith)
bit_high (suc w) x (suc i) hx h = bit_high w (x / 2) i (omega (arith, pow2-suc w)) (omega arith)

pub bit-mod_low : (w x i : ℕ) → i < w → bit (x % 2 ^ w) i ≡ bit x i
unfolding bit
bit-mod_low zero x i h = absurd (omega arith)
bit-mod_low (suc w) x zero h = omega (arith, mod_halves w x)
bit-mod_low (suc w) x (suc i) h =
    ap (λ t. bit t i) {y = x / 2 % 2 ^ w} (omega (arith, mod_halves w x))
    ∙ bit-mod_low w (x / 2) i (omega arith)

pub bit-complement : (w x i : ℕ) → x < 2 ^ w → i < w → bit (complement w x) i ≡ 1 - bit x i
unfolding bit
bit-complement zero x i hx h = absurd (omega arith)
bit-complement (suc w) x zero hx h = omega (arith, pow2-suc w)
bit-complement (suc w) x (suc i) hx h =
    ap (λ t. bit t i) {y = complement w (x / 2)} (omega (arith, pow2-suc w))
    ∙ bit-complement w (x / 2) i (omega (arith, pow2-suc w)) (omega arith)

pub bit-low_mask : (k i : ℕ) → i < k → bit (2 ^ k - 1) i ≡ 1
bit-low_mask k i h =
    ap (λ t. bit t i) {y = complement k 0} (omega arith)
    ∙ bit-complement k 0 i (pow2_pos k) h
    ∙ ap (λ t. 1 - t) (bit_zero i)

-- A number below `2 ^ w` is one with no digit from `w` on.
pub lt_of_bits : (w x : ℕ) → ((i : ℕ) → w ≤ i → bit x i ≡ 0) → x < 2 ^ w
unfolding bit
lt_of_bits zero x h =
    let e : x ≡ 0 = bit_ext x 0 (λ i. h i (omega arith) ∙ sym (bit_zero i)) in omega arith
lt_of_bits (suc w) x h =
    omega (arith, pow2-suc w, lt_of_bits w (x / 2) (λ i p. h (suc i) (omega arith)))
