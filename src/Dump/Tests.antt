-- ===== src/Dump/Tests.antt =====
-- Dumps of src/dump_hex.c and src/dump_bitmap.c.
use libpussy.Base.{
  ℕ, ◌+◌, ◌*◌, ◌%◌, ◌^◌, ◌++◌, ◌≡◌, refl, arith, true, false, List, [], ◌∷◌, ok, ◌>>=◌, ◌==◌,
  if◌then◌else◌,
}
use Prim.{tt}
use libpussy.Base.Returns.{Returns}
use libpussy.Dump.{Pointer, pointer_to, Any, IsReadable}
use libpussy.Dump.Hex.Width.{Width, width_of-Width}
use libpussy.Dump.Hex.ReadBack.{read_row, bytes_from, print_row-read}
use libpussy.Dump.Hex.Inside.{dump_hex-Returns}
use libpussy.Dump.Bitmap.{dump_bitmap, bitmap_loop, skips, print_at, print_byte, print_bits}
use libpussy.Dump.Hex.{
  count_leading_zeros, first_leading_one, width_of, print_digits, print_addr, print_hex, hex_cells,
  end_row, print_row, copy_row, same_bytes, print_line, repeat_row, print_same_rows, other_row,
  one_row, full_rows, last_row, dump_rows, dump_from, dump_hex,
}

abbrev no_number : ℕ → List ℕ
no_number n = []

abbrev zeros : Pointer
zeros i = ok 0

abbrev lines : List ℕ → ℕ
lines [] = 0
lines (c ∷ text) = (if c == b'\n' then 1 else 0) + lines text

-- An address of five digits is printed with four.
narrow_test : width_of 70000 ≡ ok 4
unfolding width_of first_leading_one count_leading_zeros
narrow_test = refl

-- Two rows of zeros make three lines.
extra_line_test :
    dump_hex no_number zeros 0 4096 32 4096 true false >>= (λ text. ok (lines text)) ≡ ok 3
unfolding dump_hex width_of first_leading_one count_leading_zeros dump_from dump_rows full_rows
    copy_row one_row other_row same_bytes print_same_rows repeat_row print_line print_row print_addr
    print_digits hex_cells print_hex end_row last_row pointer_to
extra_line_test = refl

around : IsReadable zeros 4099 (4099 + 40)
unfolding IsReadable Returns
around i lo hi = tt

dump_hex-Returns_example : Returns Any (dump_hex no_number zeros 2 4099 40 4099 true true)
dump_hex-Returns_example =
    dump_hex-Returns no_number zeros 2 4099 40 4099 true true around (omega arith) (omega arith)
      (omega arith)

width_of-Width_example : Returns (Width 70000) (width_of 70000)
width_of-Width_example = width_of-Width 70000 (λ e. omega arith) (omega arith)

print_row-read_example :
    (text : List ℕ) × (print_row zeros 4096 4 true ≡ ok text)
    × (read_row 4 text ≡ (4096 % 2 ^ (4 * 4), bytes_from (λ i. 0) 0 16))
print_row-read_example = print_row-read zeros (λ i. 0) (λ i. omega arith) 4096 4 true (λ i h. refl)

-- A byte is shown by its bits, the lowest first; the row ends with a space and a line end.
bits_test :
    dump_bitmap no_number 0 (λ i. ok 5) 1
    ≡ ok (b':' ∷ (b' ' ∷ (print_bits 8 5 ++ (b' ' ∷ (b'\n' ∷ [])))))
unfolding dump_bitmap bitmap_loop skips print_at print_byte print_bits
bits_test = refl
