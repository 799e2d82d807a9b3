-- ===== src/PetAllocator/Bitmap.antt =====
-- The bitmap of a page in src/allocator_pet.c: one bit for each unit of 16 bytes, in words.
-- `units_per_page` is a variable that `_init` sets, and an argument here. Loops are recursion on fuel;
-- each runs with more fuel than it has rounds. Offsets and counts stay below `units_per_page` + 64, far from the
-- 2^32 at which `unsigned` wraps, so sums of them are written without the wrap.
pub mod Range
pub mod Masks
pub mod Put
pub mod Count
use libpussy.Base.{
  ℕ, zero, suc, ◌+◌, ◌-◌, ◌*◌, ◌/◌, ◌%◌, ◌^◌, bit_and, bit_or, ◌&&◌, List, none, some, ltb, leb,
  ◌==◌, if◌then◌else◌, Run, ok, undefined, ◌>>=◌, length, set, get_elem?,
}
use libpussy.Base.Bits.{complement}
use libpussy.Word.{word_width, word_max, count_trailing_zeros}

-- `*ptr`, for the pointer to word `i` of the bitmap.
unfoldable pub load_word : List ℕ → ℕ → Run ℕ
load_word bm i = elim (get_elem? bm i) [ none ↦ undefined | some w ↦ ok w ]

unfoldable pub store_word : List ℕ → ℕ → ℕ → Run (List ℕ)
store_word bm i w = if ltb i (length bm) then ok (set bm i w) else undefined

abbrev pub index_mask : ℕ
index_mask = word_width - 1

-- `count_zero_bits` and `count_nonzero_bits` are the same code up to `view`, which inverts the word.
module _ (units_per_page : ℕ) (view : ℕ → ℕ) (bm : List ℕ) (limit : ℕ) where
  -- The loop over whole words; `i` is the index of `*ptr`.
  unfoldable pub count_words : ℕ → ℕ → ℕ → ℕ → Run ℕ
  count_words zero i offset count = ok count
  count_words (suc fuel) i offset count =
      let rest = count_words fuel (i + 1) (offset + word_width) (count + word_width) in
      if ltb offset units_per_page && ltb count limit
      then (do
        v ← load_word bm i
        if view v == 0 then rest else ok (count + count_trailing_zeros (view v)))
      else ok count

  unfoldable pub count_bits : ℕ → Run ℕ
  unfolding count_words
  count_bits offset =
      let i = offset / word_width in
      let bit_index = bit_and offset index_mask in
      if bit_index == 0 then count_words (units_per_page + 1) i offset 0 else (do
        v ← load_word bm i
        let w = view v / 2 ^ bit_index
        let count = word_width - bit_index
        if w == 0
            then count_words (units_per_page + 1) (i + 1) (offset + count) count
            else ok (count_trailing_zeros w))

unfoldable pub count_zero_bits : ℕ → List ℕ → ℕ → ℕ → Run ℕ
unfolding count_bits
count_zero_bits units_per_page bm offset limit = count_bits units_per_page (λ w. w) bm limit offset

unfoldable pub count_nonzero_bits : ℕ → List ℕ → ℕ → ℕ → Run ℕ
unfolding count_bits
count_nonzero_bits units_per_page bm offset limit =
    count_bits units_per_page (complement word_width) bm limit offset

-- `((Word) 1 << length) - 1`, for a length below the width of a word.
abbrev pub ones : ℕ → ℕ
ones length = 2 ^ length - 1

-- The mask of the first word: `length` ones, or all that fit, from `bit_index` on.
unfoldable pub start_mask : ℕ → ℕ → ℕ
start_mask bit_index length =
    let bitmask =
      if leb length (word_width - bit_index) then bit_and word_max (ones length) else word_max in
    bitmask * 2 ^ bit_index % 2 ^ word_width

-- `set_bits` and `clear_bits` are the same code up to how a mask is put into a word, and what a whole
-- word becomes.
module _ (put : ℕ → ℕ → ℕ) (whole : ℕ) where
  unfoldable pub put_mask : List ℕ → ℕ → ℕ → Run (List ℕ)
  unfolding load_word store_word
  put_mask bm i mask = do w ← load_word bm i; store_word bm i (put w mask)

  unfoldable pub put_words : ℕ → List ℕ → ℕ → ℕ → Run (List ℕ)
  put_words zero bm i length = ok bm
  put_words (suc fuel) bm i length =
      if leb word_width length
      then (do bm' ← store_word bm i whole; put_words fuel bm' (i + 1) (length - word_width))
      else if length == 0
      then ok bm
      else put_mask bm i (ones length)

  unfoldable pub put_bits : List ℕ → ℕ → ℕ → Run (List ℕ)
  unfolding put_mask put_words start_mask
  put_bits bm offset length =
      let i = offset / word_width in
      let bit_index = bit_and offset index_mask in
      if bit_index == 0 then put_words (length + 1) bm i length else (do
        bm' ← put_mask bm i (start_mask bit_index length)
        let num_bits = word_width - bit_index
        let done = if leb length num_bits then length else num_bits
        put_words (length + 1) bm' (i + 1) (length - done))

unfoldable pub set_bits : List ℕ → ℕ → ℕ → Run (List ℕ)
unfolding put_bits
set_bits = put_bits bit_or word_max

unfoldable pub clear_bits : List ℕ → ℕ → ℕ → Run (List ℕ)
unfolding put_bits
clear_bits = put_bits (λ w mask. bit_and w (complement word_width mask)) 0
