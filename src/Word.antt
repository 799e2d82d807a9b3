-- ===== src/Word.antt =====
-- src/word.h: the words of the bitmaps, at the default width of a 64-bit platform. The lowest one of a
-- word is what `__builtin_ctzl` counts to.
pub mod Laws
use libpussy.Base.{ℕ, zero, suc, ◌-◌, ◌/◌, ◌%◌, ◌^◌, ◌==◌, if◌then◌else◌}

abbrev pub word_width : ℕ
word_width = 64

abbrev pub word_max : ℕ
word_max = 2 ^ 64 - 1

-- In the lowest `n` digits.
unfoldable pub trailing_zeros : ℕ → ℕ → ℕ
trailing_zeros zero w = 0
trailing_zeros (suc n) w = if w % 2 == 0 then suc (trailing_zeros n (w / 2)) else 0

unfoldable pub count_trailing_zeros : ℕ → ℕ
unfolding trailing_zeros
count_trailing_zeros value = trailing_zeros word_width value
