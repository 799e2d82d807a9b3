-- ===== src/FsbArena/Count.antt =====
-- The counter of free blocks in a page header of src/fsb_arena.c, and what keeps it right.
use native.Mathlib.Decide.{dec_lt}
use libpussy.Base.{
  ℕ, zero, suc, ◌+◌, ◌-◌, ◌/◌, ◌%◌, ◌^◌, ◌≤◌, ◌<◌, ◌≡◌, ◌≢◌, refl, ap, ◌∙◌, arith, List, length,
  replicate,
}
use libpussy.Base.Bits.{bit, bit_zero}
use libpussy.PetAllocator.Bitmap.Range.{IsWords, bit_at, word_at, Puts}
use libpussy.FsbArena.{FsbArena}
use libpussy.FsbArena.Fits.{IsLayout}
use libpussy.FsbArena.Blocks.{Fsba}

-- The number of zeros among the first `n` bits.
unfoldable pub zeros_below : List ℕ → ℕ → ℕ
zeros_below bm zero = 0
zeros_below bm (suc n) = (1 - bit_at bm n) + zeros_below bm n

pub no_zeros : (bm : List ℕ) (n : ℕ) → ((p : ℕ) → p < n → bit_at bm p ≡ 1) → zeros_below bm n ≡ 0
unfolding zeros_below
no_zeros bm zero ones = refl
no_zeros bm (suc n) ones =
    omega (arith, ones n (omega arith), no_zeros bm n (λ p h. ones p (omega arith)))

pub all_zeros : (bm : List ℕ) (n : ℕ) → ((p : ℕ) → bit_at bm p ≡ 0) → zeros_below bm n ≡ n
unfolding zeros_below
all_zeros bm zero zeros = refl
all_zeros bm (suc n) zeros = omega (arith, zeros n, all_zeros bm n zeros)

same_zeros :
    (a b : List ℕ) (n : ℕ)
    → ((p : ℕ) → p < n → bit_at b p ≡ bit_at a p)
    → zeros_below b n ≡ zeros_below a n
unfolding zeros_below
same_zeros a b zero same = refl
same_zeros a b (suc n) same =
    omega (arith, same n (omega arith), same_zeros a b n (λ p h. same p (omega arith)))

-- Changing one bit changes the number of zeros by it.
pub zeros_below-Puts :
    (v q : ℕ) (a b : List ℕ) (n : ℕ)
    → Puts v q (q + 1) a b
    → q < n
    → zeros_below b n + (1 - bit_at a q) ≡ zeros_below a n + (1 - v)
unfolding zeros_below
zeros_below-Puts v q a b zero puts h = absurd (omega arith)
zeros_below-Puts v q a b (suc n) puts h = elim (dec_lt q n) [
  | yes below ↦ omega (arith, zeros_below-Puts v q a b n puts below, other n (omega arith))
  | no last ↦
      let here : q ≡ n = omega arith in
      omega (
        arith,
        ap (bit_at b) here,
        ap (bit_at a) here,
        put_here,
        same_zeros a b n (λ p below. other p (omega arith)),
      )
]
  where
    other : (p : ℕ) → p ≢ q → bit_at b p ≡ bit_at a p
    other p ne = ground (arith, puts.bits p)

    put_here : bit_at b q ≡ v
    put_here = ground (arith, puts.bits q)

pub zero_bitmap : (n p : ℕ) → bit_at (replicate n 0) p ≡ 0
unfolding bit_at
zero_bitmap n p = ap (λ w. bit w (p % 64)) (zero_word n (p / 64)) ∙ bit_zero (p % 64)
  where
    zero_word : (n i : ℕ) → word_at (replicate n 0) i ≡ 0
    zero_word zero i = refl
    zero_word (suc n) zero = refl
    zero_word (suc n) (suc i) = zero_word n i

pub zero-IsWords : (n : ℕ) → IsWords (replicate n 0)
zero-IsWords zero i = omega arith
zero-IsWords (suc n) zero = omega arith
zero-IsWords (suc n) (suc i) = zero-IsWords n i

pub zeros_below-le : (bm : List ℕ) (n : ℕ) → zeros_below bm n ≤ n
unfolding zeros_below
zeros_below-le bm zero = omega arith
zeros_below-le bm (suc n) = omega (arith, zeros_below-le bm n)

-- The page counts its free blocks.
pub record IsCounted (s : Fsba) (page : ℕ) : Type 0 where
  pub words : IsWords (s.bitmap page)
  pub whole : length (s.bitmap page) ≡ s.arena.bitmap_size
  pub counted : s.num_free page ≡ zeros_below (s.bitmap page) s.arena.blocks_per_page

-- The arena divides a page as `_init_fsb_arena` does.
pub record IsArena (page_size : ℕ) (a : FsbArena) : Type 0 where
  pub layout : IsLayout page_size a.block_size a.bitmap_size a.blocks_per_page
  pub small : page_size ≤ 2 ^ 25
  pub few : a.blocks_per_page < 2 ^ 32
