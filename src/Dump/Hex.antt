-- ===== src/Dump/Hex.antt =====
-- src/dump_hex.c. How `fprintf` writes a number is a parameter.
pub mod Width
pub mod Inside
pub mod ReadBack
use libpussy.Base.{
  ℕ, zero, suc, ◌+◌, ◌-◌, ◌*◌, ◌/◌, ◌%◌, ◌^◌, bit_and, max, Bool, true, false, not, ◌&&◌, ◌||◌,
  List, [], ◌∷◌, ◌++◌, ltb, ◌==◌, if◌then◌else◌, get_or, replicate, u32, Run, ok, undefined, ◌>>=◌,
}
use libpussy.Dump.{Pointer, pointer_to, moved, add64, sub64}

-- `__builtin_clzl` on the lowest `k` bits.
unfoldable pub count_leading_zeros : ℕ → ℕ → ℕ
count_leading_zeros zero value = 0
count_leading_zeros (suc k) value =
    let rest = count_leading_zeros k value in if value / 2 ^ k == 0 then suc rest else 0

-- `__builtin_clzl(0)` is undefined.
unfoldable pub first_leading_one : ℕ → Run ℕ
first_leading_one value =
    if value == 0 then undefined else ok (64 - count_leading_zeros 64 value - 1)

abbrev pub hexdigits : List ℕ
hexdigits =
    b'0' ∷ b'1' ∷ b'2' ∷ b'3' ∷ b'4' ∷ b'5' ∷ b'6' ∷ b'7' ∷ b'8' ∷ b'9' ∷ b'A' ∷ b'B' ∷ b'C' ∷ b'D'
    ∷ b'E' ∷ b'F' ∷ []

abbrev pub hexdigit : ℕ → ℕ
hexdigit d = get_or hexdigits d 0

abbrev pub print_indent : ℕ → List ℕ
print_indent indent = replicate indent b' '

-- The last `width` digits; a round shifts by four bits less than the one before.
unfoldable pub print_digits : ℕ → ℕ → List ℕ
print_digits addr zero = []
print_digits addr (suc width) =
    hexdigit (bit_and (addr / 2 ^ (4 * width)) 15) ∷ print_digits addr width

unfoldable pub print_addr : ℕ → ℕ → List ℕ
print_addr addr addr_width = print_digits addr addr_width ++ (b':' ∷ b' ' ∷ [])

unfoldable pub print_hex : ℕ → List ℕ
print_hex b = hexdigit (b / 16) ∷ hexdigit (bit_and b 15) ∷ []

-- The bytes from index `j` on, `n` of them.
unfoldable pub hex_cells : Pointer → ℕ → ℕ → Run (List ℕ)
hex_cells p j zero = ok []
hex_cells p j (suc n) = do
  b ← p j
  rest ← hex_cells p (j + 1) n
  ok ((if j == 8 then b'-' ∷ b' ' ∷ [] else []) ++ (print_hex b ++ (b' ' ∷ rest)))

unfoldable pub blank_cells : ℕ → ℕ → List ℕ
blank_cells j zero = []
blank_cells j (suc n) =
    (if j == 8 then b' ' ∷ b' ' ∷ [] else []) ++ (b' ' ∷ b' ' ∷ b' ' ∷ blank_cells (j + 1) n)

unfoldable pub char_cells : Pointer → ℕ → ℕ → Run (List ℕ)
char_cells p j zero = ok []
char_cells p j (suc n) = do
  c ← p j
  rest ← char_cells p (j + 1) n
  ok ((if ltb c 32 || ltb 127 c then b'.' else c) ∷ rest)

-- The characters of the bytes `j` to `j + n`, if they are wanted, and the end of the line.
unfoldable pub end_row : Bool → Pointer → ℕ → ℕ → Run (List ℕ)
end_row true p j n = do chars ← char_cells p j n; ok (chars ++ (b'\n' ∷ []))
end_row false p j n = ok (b'\n' ∷ [])

unfoldable pub print_row : Pointer → ℕ → ℕ → Bool → Run (List ℕ)
print_row p display_addr addr_width with_chars = do
  cells ← hex_cells p 0 16
  end ← end_row with_chars p 0 16
  ok (print_addr display_addr addr_width ++ (cells ++ end))

-- `memcpy` into an array.
unfoldable pub copy_row : Pointer → ℕ → ℕ → Run (List ℕ)
copy_row p j zero = ok []
copy_row p j (suc n) = do b ← p j; rest ← copy_row p (j + 1) n; ok (b ∷ rest)

-- `memcmp` is 0.
unfoldable pub same_bytes : List ℕ → List ℕ → Bool
same_bytes [] [] = true
same_bytes (x ∷ xs) (y ∷ ys) = x == y && same_bytes xs ys
same_bytes _ _ = false

module _ (decimal : ℕ → List ℕ) (indent addr_width : ℕ) (with_chars : Bool) where
  -- A row with its indent.
  unfoldable pub print_line : Pointer → ℕ → Run (List ℕ)
  print_line p display_addr = do
    row ← print_row p display_addr addr_width with_chars
    ok (print_indent indent ++ row)

  -- The loop runs once more after `num_same_rows` has come to 0.
  unfoldable pub repeat_row : ℕ → List ℕ → ℕ → Run (List ℕ)
  repeat_row zero row display_addr = print_line (pointer_to row) display_addr
  repeat_row (suc n) row display_addr = do
    line ← print_line (pointer_to row) (sub64 display_addr (16 * suc n))
    rest ← repeat_row n row display_addr
    ok (line ++ rest)

  unfoldable pub print_same_rows : ℕ → List ℕ → ℕ → Run (List ℕ)
  print_same_rows num_same_rows row display_addr =
      if ltb 3 num_same_rows
      then (do
        line ← print_line (pointer_to row) (sub64 display_addr 16)
        ok (
            print_indent indent
            ++ (b'-'
                ∷ b'-'
                ∷ b' '
                ∷ (decimal (num_same_rows - 1)
                    ++ (b' ' ∷ b's' ∷ b'a' ∷ b'm' ∷ b'e' ∷ b' ' ∷ b'r' ∷ b'o' ∷ b'w' ∷ b's' ∷ b' '
                        ∷ b'-' ∷ b'-' ∷ b'\n' ∷ line)))))
      else if num_same_rows == 0
      then ok []
      else repeat_row num_same_rows row display_addr

-- The local variables of `dump_hex` in the loop over full rows.
pub record Rows : Type 0 where
  pub pointer : Pointer
  pub display_addr : ℕ
  pub num_rows : ℕ
  pub num_same_rows : ℕ
  pub prev_row : List ℕ

-- `prev_row` is not set yet.
abbrev pub no_rows : Pointer → ℕ → Rows
no_rows p display_addr = record {
  pointer = p;
  display_addr = display_addr;
  num_rows = 0;
  num_same_rows = 0;
  prev_row = [];
}

module _ (decimal : ℕ → List ℕ) (indent addr_width : ℕ) (with_chars : Bool) where
  abbrev pub next_row : Rows → Rows
  next_row s = record s {
    pointer = moved s.pointer 16;
    display_addr = add64 s.display_addr 16;
    num_rows = u32 (s.num_rows + 1);
  }

  -- A row that is not one of the same rows.
  unfoldable pub other_row : Rows → List ℕ → Run (List ℕ × Rows)
  other_row s row = do
    same ←
        if s.num_rows == 0
        then ok []
        else print_same_rows decimal indent addr_width with_chars s.num_same_rows s.prev_row
            s.display_addr
    line ← print_line decimal indent addr_width with_chars s.pointer s.display_addr
    ok (
      same ++ line,
      next_row (record s {
        num_same_rows = if s.num_rows == 0 then s.num_same_rows else 0;
        prev_row = row;
      }),
    )

  -- The body of the loop, for the bytes that `memcmp` and `memcpy` read.
  unfoldable pub one_row : Rows → List ℕ → Run (List ℕ × Rows)
  one_row s row =
      if not (s.num_rows == 0) && same_bytes row s.prev_row
      then ok ([], next_row (record s { num_same_rows = u32 (s.num_same_rows + 1) }))
      else other_row s row

  -- The loop, which has as many rounds as there are rows left.
  unfoldable pub full_rows : ℕ → Rows → Run (List ℕ × Rows)
  full_rows zero s = ok ([], s)
  full_rows (suc n) s = do
    row ← copy_row s.pointer 0 16
    (text, s') ← one_row s row
    (texts, s'') ← full_rows n s'
    ok (text ++ texts, s'')

  -- The last row, of which there are `remainder` bytes.
  unfoldable pub last_row : Pointer → ℕ → ℕ → Run (List ℕ)
  last_row p display_addr remainder = if remainder == 0 then ok [] else (do
    cells ← hex_cells p 0 remainder
    end ← end_row with_chars p 0 remainder
    ok (
        print_indent indent
        ++ (print_addr display_addr addr_width
            ++ (cells ++ (blank_cells remainder (16 - remainder) ++ end)))))

  -- What follows the first row: `size` bytes from the pointer on are left.
  unfoldable pub dump_rows : Pointer → ℕ → ℕ → Run (List ℕ)
  dump_rows p size display_addr = do
    (text, s) ← full_rows (size / 16) (no_rows p display_addr)
    same ←
        print_same_rows decimal indent addr_width with_chars s.num_same_rows s.prev_row
          s.display_addr
    end ← last_row s.pointer s.display_addr (bit_and size 15)
    ok (text ++ (same ++ end))

  -- The first row, with `offset` bytes left blank, up to index `sz`.
  unfoldable pub first_row : Pointer → ℕ → ℕ → ℕ → Run (List ℕ)
  first_row p display_addr offset sz = do
    cells ← hex_cells p offset (sz - offset)
    end ← end_row with_chars p offset (sz - offset)
    let j = max offset sz
    let blanks = if with_chars then replicate offset b' ' else []
    ok (
        print_indent indent
        ++ (print_addr display_addr addr_width
            ++ (blank_cells 0 offset ++ (cells ++ (blank_cells j (16 - j) ++ (blanks ++ end))))))

  -- The pointer is the aligned one, and the size counts from it.
  unfoldable pub dump_from : Pointer → ℕ → ℕ → ℕ → Run (List ℕ)
  dump_from p offset size display_addr = if offset == 0 then dump_rows p size display_addr else (do
    first ← first_row p display_addr offset (if ltb size 16 then size else 16)
    if ltb size 16 then ok first else (do
      rest ← dump_rows (moved p 16) (size - 16) (add64 display_addr 16)
      ok (first ++ rest)))

-- The width of addresses that end below `max_addr`.
unfoldable pub width_of : ℕ → Run ℕ
width_of max_addr = do
  top ← first_leading_one max_addr
  let addr_width = (top + 3) / 4
  ok (if ltb addr_width 4 then 4 else addr_width)

-- The bytes are those of the memory; the pointer is an address in it.
unfoldable pub dump_hex : (ℕ → List ℕ) → Pointer → ℕ → ℕ → ℕ → ℕ → Bool → Bool → Run (List ℕ)
dump_hex decimal memory indent addr size display_addr aligned with_chars =
    let offset = if aligned then bit_and addr 15 else 0 in
    let size' = u32 (size + offset) in
    let display_addr' = sub64 display_addr offset in
    do
      addr_width ← width_of (add64 display_addr' size')
      dump_from decimal indent addr_width with_chars (moved memory (addr - offset)) offset size'
          display_addr'

unfoldable pub dump_hex_simple : (ℕ → List ℕ) → Pointer → ℕ → ℕ → Run (List ℕ)
dump_hex_simple decimal memory addr size = dump_hex decimal memory 0 addr size addr true true
