-- ===== src/Dump/Hex/ReadBack.antt =====
-- The rows that src/dump_hex.c prints, read back.
use native.Mathlib.Nat.{
  div-add-mod, mod-lt, mod-eq_of_lt, add-mul-mod_self_right, add-mul, mul_assoc, mul_comm,
}
use libpussy.Base.{
  ℕ, zero, suc, ◌+◌, ◌-◌, ◌*◌, ◌/◌, ◌%◌, ◌^◌, ◌≤◌, ◌<◌, ◌≡◌, refl, ap, ap₂, ◌∙◌, arith, bit_and,
  Bool, true, false, ◌||◌, List, [], ◌∷◌, ◌++◌, take, drop, ltb, ◌==◌, if◌then◌else◌, ok,
}
use libpussy.Base.Bits.{pow2-suc, pow2_pos, bit_and-low_mask}
use libpussy.Dump.{Pointer}
use libpussy.Dump.Hex.{
  hexdigit, print_digits, print_addr, print_hex, hex_cells, char_cells, end_row, print_row,
}

hex_value : ℕ → ℕ
hex_value c = if ltb c 58 then c - 48 else c - 55

hex_value-hexdigit : (d : ℕ) → d < 16 → hex_value (hexdigit d) ≡ d
unfolding hex_value
hex_value-hexdigit zero h = refl
hex_value-hexdigit (suc zero) h = refl
hex_value-hexdigit (suc (suc zero)) h = refl
hex_value-hexdigit (suc (suc (suc zero))) h = refl
hex_value-hexdigit (suc (suc (suc (suc zero)))) h = refl
hex_value-hexdigit (suc (suc (suc (suc (suc zero))))) h = refl
hex_value-hexdigit (suc (suc (suc (suc (suc (suc zero)))))) h = refl
hex_value-hexdigit (suc (suc (suc (suc (suc (suc (suc zero))))))) h = refl
hex_value-hexdigit (suc (suc (suc (suc (suc (suc (suc (suc zero)))))))) h = refl
hex_value-hexdigit (suc (suc (suc (suc (suc (suc (suc (suc (suc zero))))))))) h = refl
hex_value-hexdigit (suc (suc (suc (suc (suc (suc (suc (suc (suc (suc zero)))))))))) h = refl
hex_value-hexdigit (suc (suc (suc (suc (suc (suc (suc (suc (suc (suc (suc zero))))))))))) h = refl
hex_value-hexdigit (suc (suc (suc (suc (suc (suc (suc (suc (suc (suc (suc (suc zero)))))))))))) h =
    refl
hex_value-hexdigit
      (suc (suc (suc (suc (suc (suc (suc (suc (suc (suc (suc (suc (suc zero))))))))))))) h =
    refl
hex_value-hexdigit
      (suc (suc (suc (suc (suc (suc (suc (suc (suc (suc (suc (suc (suc (suc zero)))))))))))))) h =
    refl
hex_value-hexdigit
      (suc (suc (suc (suc (suc (suc (suc (suc (suc (suc (suc (suc (suc (suc (suc zero)))))))))))))))
      h =
    refl
hex_value-hexdigit
      (suc
        (suc (suc (suc (suc (suc (suc (suc (suc (suc (suc (suc (suc (suc (suc (suc d))))))))))))))))
      h =
    absurd (omega arith)

-- The number that hexadecimal digits stand for, behind a number read already.
read_number : ℕ → List ℕ → ℕ
read_number n [] = n
read_number n (c ∷ text) = read_number (n * 16 + hex_value c) text

mod_split : (a m : ℕ) → 0 < m → a % (16 * m) ≡ a / m % 16 * m + a % m
mod_split a m pos =
    ap (λ t. t % (16 * m)) split
    ∙ add-mul-mod_self_right low (a / m / 16) (16 * m)
    ∙ mod-eq_of_lt (omega (arith, mod-lt a pos, digit (a / m % 16) m (omega arith)))
  where
    low : ℕ
    low = a / m % 16 * m + a % m

    digit : (d m : ℕ) → d < 16 → d * m + m ≤ 16 * m
    digit d m h = omega (
      arith,
      add-mul (d + 1) (15 - d) m,
      add-mul d 1 m,
      ap (λ t. t * m) {x = d + 1 + (15 - d)} {y = 16} (omega arith),
    )

    split : a ≡ low + a / m / 16 * (16 * m)
    split = omega (
      arith,
      div-add-mod a m,
      mul_comm m (a / m),
      ap (λ t. t * m) {x = a / m} {y = a / m / 16 * 16 + a / m % 16} (omega arith),
      add-mul (a / m / 16 * 16) (a / m % 16) m,
      mul_assoc (a / m / 16) 16 m,
    )

pow4-suc : (w : ℕ) → 2 ^ (4 * suc w) ≡ 16 * 2 ^ (4 * w)
pow4-suc w =
    ap (λ e. 2 ^ e) {x = 4 * suc w} {y = suc (suc (suc (suc (4 * w))))} (omega arith)
    ∙ omega (
      arith,
      pow2-suc (4 * w),
      pow2-suc (suc (4 * w)),
      pow2-suc (suc (suc (4 * w))),
      pow2-suc (suc (suc (suc (4 * w)))),
    )

regroup : (n d m r : ℕ) → (n * 16 + d) * m + r ≡ n * (16 * m) + (d * m + r)
regroup n d m r = omega (arith, add-mul (n * 16) d m, mul_assoc n 16 m)

read_number-print_digits :
    (n addr width : ℕ)
    → read_number n (print_digits addr width) ≡ n * 2 ^ (4 * width) + addr % 2 ^ (4 * width)
unfolding read_number print_digits
read_number-print_digits n addr zero = omega arith
read_number-print_digits n addr (suc width) =
    rw
      (
        bit_and-low_mask 4 (addr / 2 ^ (4 * width)),
        hex_value-hexdigit (addr / 2 ^ (4 * width) % 16) (omega arith),
      )
      (read_number-print_digits (n * 16 + addr / 2 ^ (4 * width) % 16) addr width
        ∙ regroup n (addr / 2 ^ (4 * width) % 16) (2 ^ (4 * width)) (addr % 2 ^ (4 * width))
        ∙ rw (pow4-suc width, mod_split addr (2 ^ (4 * width)) (pow2_pos (4 * width))) refl)

-- The bytes of `n` cells from index `j` on.
read_cells : ℕ → ℕ → List ℕ → List ℕ
read_cells j zero text = []
read_cells j (suc n) text =
    let cell = if j == 8 then drop 2 text else text in
    read_number 0 (take 2 cell) ∷ read_cells (j + 1) n (drop 3 cell)

pub bytes_from : (ℕ → ℕ) → ℕ → ℕ → List ℕ
bytes_from bytes j zero = []
bytes_from bytes j (suc n) = bytes j ∷ bytes_from bytes (j + 1) n

-- What the reader of a row sees: its address and its bytes.
pub read_row : ℕ → List ℕ → ℕ × List ℕ
read_row width text = (read_number 0 (take width text), read_cells 0 16 (drop 2 (drop width text)))

take-print_addr :
    (addr width : ℕ) (rest : List ℕ)
    → take width (print_addr addr width ++ rest) ≡ print_digits addr width
unfolding print_addr print_digits
take-print_addr addr zero rest = refl
take-print_addr addr (suc width) rest =
    ap (λ t. hexdigit (bit_and (addr / 2 ^ (4 * width)) 15) ∷ t) (take-print_addr addr width rest)

drop-print_addr :
    (addr width : ℕ) (rest : List ℕ) → drop 2 (drop width (print_addr addr width ++ rest)) ≡ rest
unfolding print_addr print_digits
drop-print_addr addr zero rest = refl
drop-print_addr addr (suc width) rest = drop-print_addr addr width rest

skip_separator :
    (middle : Bool) (cell rest : List ℕ)
    → (if middle
        then drop 2 (((if middle then b'-' ∷ b' ' ∷ [] else []) ++ cell) ++ rest)
        else ((if middle then b'-' ∷ b' ' ∷ [] else []) ++ cell) ++ rest)
      ≡ cell ++ rest
skip_separator true cell rest = refl
skip_separator false cell rest = refl

read_number-print_hex : (b : ℕ) → b < 256 → read_number 0 (print_hex b) ≡ b
unfolding read_number print_hex
read_number-print_hex b h =
    rw
      (
        bit_and-low_mask 4 b,
        hex_value-hexdigit (b / 16) (omega arith),
        hex_value-hexdigit (b % 16) (omega arith),
      )
      (omega arith)

module _ (p : Pointer) (bytes : ℕ → ℕ) (small : (i : ℕ) → bytes i < 256) where
  hex_cells-read :
      (j n : ℕ)
      → ((i : ℕ) → i < j + n → p i ≡ ok (bytes i))
      → (cells : List ℕ) × (hex_cells p j n ≡ ok cells)
        × ((rest : List ℕ) → read_cells j n (cells ++ rest) ≡ bytes_from bytes j n)
  unfolding hex_cells read_cells bytes_from print_hex
  hex_cells-read j zero at = ([], refl, (λ rest. refl))
  hex_cells-read j (suc n) at =
      let (cells, e, read) = hex_cells-read (j + 1) n (λ i h. at i (omega arith)) in
      (
        (if j == 8 then b'-' ∷ b' ' ∷ [] else []) ++ (print_hex (bytes j) ++ (b' ' ∷ cells)),
        rw (at j (omega arith), e) refl,
        λ rest.
            rw (skip_separator (j == 8) (print_hex (bytes j) ++ (b' ' ∷ cells)) rest)
              (ap₂ (λ x t. x ∷ t) (read_number-print_hex (bytes j) (small j)) (read rest)),
      )

  char_cells-Returns :
      (j n : ℕ)
      → ((i : ℕ) → i < j + n → p i ≡ ok (bytes i))
      → (text : List ℕ) × (char_cells p j n ≡ ok text)
  unfolding char_cells
  char_cells-Returns j zero at = ([], refl)
  char_cells-Returns j (suc n) at =
      let (text, e) = char_cells-Returns (j + 1) n (λ i h. at i (omega arith)) in
      (
        (if ltb (bytes j) 32 || ltb 127 (bytes j) then b'.' else bytes j) ∷ text,
        rw (at j (omega arith), e) refl,
      )

  end_row-Returns :
      (with_chars : Bool)
      → ((i : ℕ) → i < 16 → p i ≡ ok (bytes i))
      → (text : List ℕ) × (end_row with_chars p 0 16 ≡ ok text)
  unfolding end_row
  end_row-Returns true at =
      let (chars, e) = char_cells-Returns 0 16 at in (chars ++ (b'\n' ∷ []), rw e refl)
  end_row-Returns false at = (b'\n' ∷ [], refl)

  -- A row that print_row prints for 16 bytes, with or without their characters, can be read back: its
  -- digits are the address, without what is above the width, and its cells are the 16 bytes in order.
  pub print_row-read :
      (display_addr width : ℕ) (with_chars : Bool)
      → ((i : ℕ) → i < 16 → p i ≡ ok (bytes i))
      → (text : List ℕ) × (print_row p display_addr width with_chars ≡ ok text)
        × (read_row width text ≡ (display_addr % 2 ^ (4 * width), bytes_from bytes 0 16))
  unfolding print_row read_row
  print_row-read display_addr width with_chars at =
      let (cells, e, read) = hex_cells-read 0 16 at in
      let (end, e') = end_row-Returns with_chars at in
      (
        print_addr display_addr width ++ (cells ++ end),
        rw (e, e') refl,
        ap₂ (λ a b. (a, b))
            (ap (read_number 0) (take-print_addr display_addr width (cells ++ end))
              ∙ read_number-print_digits 0 display_addr width
              ∙ omega arith)
            (ap (read_cells 0 16) (drop-print_addr display_addr width (cells ++ end)) ∙ read end),
      )
