-- ===== src/MmArray/Size.antt =====
-- `calc_memsize` and the capacity in src/mmarray.c.
use native.Mathlib.Nat.{mod-eq_of_lt, mod-lt, le-div_iff_mul-le, div-mul-le_self}
use libpussy.Base.{ℕ, ◌+◌, ◌-◌, ◌*◌, ◌/◌, ◌%◌, ◌^◌, ◌≤◌, ◌<◌, ◌≡◌, arith}
use libpussy.Base.Bits.{pow2_pos, bit_and-complement-low_mask}
use libpussy.Align.Laws.{multiple-le, sub-mod_self}
use libpussy.MmArray.{calc_memsize}

-- `size` is the least multiple of the page for the header and `n` items.
pub record IsMemsize (page item_size n size : ℕ) : Type 0 where
  pub room : 16 + n * item_size ≤ size
  pub tight : size < 16 + n * item_size + page
  pub multiple : size % page ≡ 0

module _ (k : ℕ) (small : k < 32) where
  pub calc_memsize-IsMemsize :
      (n item_size : ℕ)
      → 16 + n * item_size + 2 ^ k ≤ 2 ^ 32
      → IsMemsize (2 ^ k) item_size n (calc_memsize (2 ^ k) n item_size)
  unfolding calc_memsize
  calc_memsize-IsMemsize n item_size fits =
      rw
        (
          mod-eq_of_lt {n = 16 + n * item_size + (2 ^ k - 1)} {m = 2 ^ 64} (omega arith),
          bit_and-complement-low_mask 64 k (16 + n * item_size + (2 ^ k - 1)) (omega arith)
              (omega arith),
        )
        (record {
          room = omega (arith, mod-lt (16 + n * item_size + (2 ^ k - 1)) (pow2_pos k));
          tight = omega (arith, pow2_pos k);
          multiple = sub-mod_self (16 + n * item_size + (2 ^ k - 1)) (2 ^ k);
        })

  -- The capacity that fills a mapping has the same mapping.
  pub same_memsize :
      (item_size n c size size' : ℕ)
      → IsMemsize (2 ^ k) item_size n size
      → IsMemsize (2 ^ k) item_size c size'
      → n * item_size ≤ c * item_size
      → 16 + c * item_size ≤ size
      → size' ≡ size
  same_memsize item_size n c size size' v v' more fits = omega (
    arith,
    multiple-le (2 ^ k) size' size (pow2_pos k) v'.multiple v.multiple (omega arith),
    multiple-le (2 ^ k) size size' (pow2_pos k) v.multiple v'.multiple (omega arith),
  )

-- As many items as there is room for.
pub fill :
    (item_size n size : ℕ)
    → 0 < item_size
    → 16 + n * item_size ≤ size
    → (n ≤ (size - 16) / item_size) × (16 + (size - 16) / item_size * item_size ≤ size)
fill item_size n size pos room =
    ((le-div_iff_mul-le pos).1 (omega arith), omega (arith, div-mul-le_self (size - 16) item_size))
