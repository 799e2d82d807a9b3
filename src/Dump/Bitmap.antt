-- ===== src/Dump/Bitmap.antt =====
-- src/dump_bitmap.c. How `fprintf` writes a pointer is a parameter.
pub mod Inside
use libpussy.Base.{
  ℕ, zero, suc, ◌+◌, ◌-◌, ◌*◌, ◌/◌, ◌%◌, Bool, true, false, ◌&&◌, ◌||◌, List, [], ◌∷◌, ◌++◌, ltb,
  ◌==◌, if◌then◌else◌, Run, ok, undefined, ◌>>=◌,
}
use libpussy.Dump.{Pointer, moved, add64}

-- `n` bytes of the block from index `i` on.
unfoldable pub same_chars : Pointer → ℕ → ℕ → ℕ → Run Bool
same_chars block chr i zero = ok true
same_chars block chr i (suc n) = do
  c ← block i
  if c == chr then same_chars block chr (i + 1) n else ok false

unfoldable pub same_16_chars : Pointer → ℕ → Run Bool
same_16_chars block chr = same_chars block chr 0 16

-- The local variables but for the index.
pub record Columns : Type 0 where
  pub prev_row_same_char : Bool
  pub prev_row_char : ℕ
  pub skipping : Bool
  pub column : ℕ

-- The bits of a byte, the lowest first.
unfoldable pub print_bits : ℕ → ℕ → List ℕ
print_bits zero b = []
print_bits (suc n) b = (if b % 2 == 1 then b'*' else b'.') ∷ print_bits n (b / 2)

-- A byte, and what follows it.
unfoldable pub print_byte : Columns → ℕ → List ℕ × Columns
print_byte s b =
    let s' = record s {
      column = s.column + 1;
      prev_row_same_char = if s.prev_row_char == b then s.prev_row_same_char else false;
    } in
    if s'.column == 16
    then (print_bits 8 b ++ (b'\n' ∷ []), record s' { column = 0 })
    else (print_bits 8 b ++ (b' ' ∷ []), s')

module _ (address_text : ℕ → List ℕ) (data_addr : ℕ) (block : Pointer) (size : ℕ) where
  -- Whether a row is left out.
  unfoldable pub skips : Columns → ℕ → Run Bool
  skips s i =
      if s.column == 0
        && (s.prev_row_same_char
            && (ltb 16 (size - i) && (s.prev_row_char == 0 || s.prev_row_char == 255)))
      then same_16_chars (moved block i) s.prev_row_char
      else ok false

  -- A byte, with the address in front of a row.
  unfoldable pub print_at : Columns → ℕ → ℕ → List ℕ × Columns
  print_at s i b =
      if s.column == 0
      then (let (text, s') =
            print_byte (record s { prev_row_same_char = true; prev_row_char = b; skipping = false })
              b in
          (address_text (add64 data_addr i) ++ (b':' ∷ (b' ' ∷ text)), s'))
      else print_byte s b

  -- The loop. The fuel is more than the bytes left, and each round takes one at least.
  unfoldable pub bitmap_loop : ℕ → Columns → ℕ → Run (List ℕ)
  bitmap_loop zero s i = undefined
  bitmap_loop (suc fuel) s i =
      if ltb i size
      then (do
        skip ← skips s i
        elim skip [
          | true ↦ do
            rest ← bitmap_loop fuel (record s { skipping = true }) (i + 16)
            ok ((if s.skipping then [] else b'-' ∷ b'-' ∷ b'-' ∷ b'\n' ∷ []) ++ rest)
          | false ↦ do
            b ← block i
            rest ← bitmap_loop fuel (print_at s i b).1 (i + 1)
            ok ((print_at s i b).0 ++ rest)
        ])
      else ok (if ltb s.column 16 then b'\n' ∷ [] else [])

  unfoldable pub dump_bitmap : Run (List ℕ)
  dump_bitmap =
      bitmap_loop (size + 1)
        (record { prev_row_same_char = false; prev_row_char = 0; skipping = false; column = 0 }) 0
