-- ===== src/PetAllocator/Bitmap/Range.antt =====
-- A bitmap as a sequence of bits, and what it means that a range of them is overwritten.
use native.Mathlib.Decide.{ℕ_discrete}
use libpussy.Base.{
  ℕ, ◌+◌, ◌*◌, ◌/◌, ◌%◌, ◌^◌, ◌≤◌, ◌<◌, ◌≡◌, ◌≢◌, ◌∙◌, refl, sym, ap, ap₂, arith, Bool, false, ◌&&◌,
  List, leb, ltb, if◌then◌else◌, length, set, get_or, get_or-set_self, get_or-set_ne, length-set,
  get_elem?-eq-get_or, lt→ltb, ok,
}
use libpussy.Base.Bits.{bit}
use libpussy.PetAllocator.Bitmap.{load_word, store_word}

abbrev pub word_at : List ℕ → ℕ → ℕ
word_at bm i = get_or bm i 0

-- Bit `p` of the bitmap.
unfoldable pub bit_at : List ℕ → ℕ → ℕ
bit_at bm p = bit (word_at bm (p / 64)) (p % 64)

abbrev pub in_range : ℕ → ℕ → ℕ → Bool
in_range lo hi p = leb lo p && ltb p hi

-- Every word fits 64 bits.
abbrev pub IsWords : List ℕ → Type 0
IsWords bm = (i : ℕ) → word_at bm i < 2 ^ 64

-- `after` is `before` with `value` in the bits from `lo` to `hi`.
pub record Puts (value lo hi : ℕ) (before after : List ℕ) : Type 0 where
  pub same_length : length after ≡ length before
  pub bits : (p : ℕ) → bit_at after p ≡ (if in_range lo hi p then value else bit_at before p)
  pub words : IsWords before → IsWords after

pub Puts-none : {value lo hi : ℕ} (bm : List ℕ) → hi ≤ lo → Puts value lo hi bm bm
Puts-none bm h = record { same_length = refl; bits = λ p. ground arith; words = λ w. w }

pub Puts-join :
    {value lo mid hi : ℕ} {a b c : List ℕ}
    → lo ≤ mid
    → mid ≤ hi
    → Puts value lo mid a b
    → Puts value mid hi b c
    → Puts value lo hi a c
Puts-join h k first second = record {
  same_length = second.same_length ∙ first.same_length;
  bits = λ p. ground (arith, first.bits p, second.bits p);
  words = λ w. second.words (first.words w);
}

pub load_word_inside : (bm : List ℕ) (i : ℕ) → i < length bm → load_word bm i ≡ ok (word_at bm i)
unfolding load_word
load_word_inside bm i h = rw (get_elem?-eq-get_or bm i 0 h, load_word) refl

-- Overwriting one word puts a value into a range of its bits, if the new word does.
module _ (value i lo hi : ℕ) (bm : List ℕ) (w : ℕ) (inside : i < length bm) (top : hi ≤ 64)
    (fits : w < 2 ^ 64)
    (digits : (j : ℕ)
      → j < 64
      → bit w j ≡ (if in_range lo hi j then value else bit (word_at bm i) j)) where
  bit_at-set :
      (p : ℕ)
      → bit_at (set bm i w) p
        ≡ (if in_range (i * 64 + lo) (i * 64 + hi) p then value else bit_at bm p)
  unfolding bit_at
  bit_at-set p = elim (ℕ_discrete i (p / 64)) [
    | yes here ↦
        ap (λ k. bit (word_at (set bm i w) k) (p % 64)) (sym here)
        ∙ ap (λ t. bit t (p % 64)) (get_or-set_self bm i w 0 inside)
        ∙ digits (p % 64) (omega arith)
        ∙ ap₂ (λ (t : Bool) (u : ℕ). if t then value else bit (word_at bm u) (p % 64))
            (same_range here) here
    | no away ↦
        ap (λ t. bit t (p % 64)) (get_or-set_ne bm i (p / 64) w 0 away)
        ∙ sym (
            ap (λ (t : Bool). if t then value else bit (word_at bm (p / 64)) (p % 64))
              (outside away))
  ]
    where
      same_range : i ≡ p / 64 → in_range lo hi (p % 64) ≡ in_range (i * 64 + lo) (i * 64 + hi) p
      same_range here = ground arith

      outside : i ≢ p / 64 → in_range (i * 64 + lo) (i * 64 + hi) p ≡ false
      outside away = ground arith

  words-set : ((k : ℕ) → word_at bm k < 2 ^ 64) → (k : ℕ) → word_at (set bm i w) k < 2 ^ 64
  words-set all k = elim (ℕ_discrete i k) [
    | yes here ↦ rw (← here, get_or-set_self bm i w 0 inside) fits
    | no away ↦ rw (get_or-set_ne bm i k w 0 away) (all k)
  ]

  pub store_word-Puts :
      (store_word bm i w ≡ ok (set bm i w)) × Puts value (i * 64 + lo) (i * 64 + hi) bm (set bm i w)
  unfolding store_word
  store_word-Puts = (
    rw (lt→ltb _ _ inside) refl,
    record { same_length = length-set bm i w; bits = bit_at-set; words = words-set },
  )
