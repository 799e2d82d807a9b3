-- ===== src/Dump/Hex/Inside.antt =====
-- src/dump_hex.c reads no byte but those that it is given, and returns.
pub mod Row
use Prim.{tt}
use native.Mathlib.Decide.{ℕ_discrete}
use libpussy.Base.{
  ℕ, zero, suc, ◌+◌, ◌-◌, ◌*◌, ◌/◌, ◌%◌, ◌^◌, ◌≤◌, ◌<◌, ◌≡◌, ◌⊎◌, inl, inr, refl, sym, ap, ◌∙◌,
  arith, bit_and, Bool, true, false, not, ◌&&◌, List, [], ◌∷◌, length, get_elem?-eq-get_or, ltb,
  ◌==◌, if◌then◌else◌, u32, Bool-cases, ne→==, ltb→le, ok, ◌>>=◌,
}
use libpussy.Base.Returns.{Returns, Returns-bind, Returns-if}
use libpussy.Base.Bits.{bit_and-low_mask}
use libpussy.Dump.{Any, IsReadable, Pointer, pointer_to, moved, add64, sub64}
use libpussy.Dump.Hex.{
  hex_cells, char_cells, end_row, print_row, copy_row, same_bytes, print_line, repeat_row,
  print_same_rows, Rows, no_rows, other_row, one_row, full_rows, last_row, dump_rows, first_row,
  dump_from, width_of, dump_hex,
}
use libpussy.Dump.Hex.Width.{Width, width_of-Width}
use libpussy.Dump.Hex.Inside.Row.{
  hex_cells-Returns, copy_row-Returns, end_row-Returns, print_row-Returns, pointer_to-IsReadable,
  and_right, same_bytes-length,
}

module _ (decimal : ℕ → List ℕ) (indent width : ℕ) (chars : Bool) where
  print_line-Returns :
      (p : Pointer) (display_addr : ℕ)
      → IsReadable p 0 16
      → Returns Any (print_line decimal indent width chars p display_addr)
  unfolding print_line Returns
  print_line-Returns p d at =
      Returns-bind _ (print_row p d width chars) _ (print_row-Returns p d width chars at)
        (λ t u. tt)

  repeat_row-Returns :
      (n : ℕ) (row : List ℕ) (display_addr : ℕ)
      → length row ≡ 16
      → Returns Any (repeat_row decimal indent width chars n row display_addr)
  unfolding repeat_row Returns
  repeat_row-Returns zero row d e =
      print_line-Returns (pointer_to row) d (pointer_to-IsReadable row 16 e)
  repeat_row-Returns (suc n) row d e =
      Returns-bind _ (print_line decimal indent width chars (pointer_to row) (sub64 d (16 * suc n)))
        _
        (print_line-Returns (pointer_to row) (sub64 d (16 * suc n))
          (pointer_to-IsReadable row 16 e))
        (λ t u.
          Returns-bind _ (repeat_row decimal indent width chars n row d) _
            (repeat_row-Returns n row d e) (λ t' u'. tt))

  -- There is a row to repeat if there are same rows.
  HasRow : ℕ → List ℕ → Type 0
  HasRow num_same_rows row = (num_same_rows ≡ 0) ⊎ (length row ≡ 16)

  print_same_rows-Returns :
      (n : ℕ) (row : List ℕ) (display_addr : ℕ)
      → HasRow n row
      → Returns Any (print_same_rows decimal indent width chars n row display_addr)
  unfolding print_same_rows Returns HasRow
  print_same_rows-Returns n row d (inl none_same) = rw none_same tt
  print_same_rows-Returns n row d (inr e) =
      Returns-if _ (ltb 3 n) _ _
        (Returns-bind _ (print_line decimal indent width chars (pointer_to row) (sub64 d 16)) _
          (print_line-Returns (pointer_to row) (sub64 d 16) (pointer_to-IsReadable row 16 e))
          (λ t u. tt))
        (Returns-if _ (n == 0) (ok []) _ tt (repeat_row-Returns n row d e))

  -- What is left to read after some rows.
  record Left (n : ℕ) (s : Rows) : Type 0 where
    readable : IsReadable s.pointer 0 n
    has_row : HasRow s.num_same_rows s.prev_row

  moved-IsReadable : (p : Pointer) (n : ℕ) → IsReadable p 0 (16 + n) → IsReadable (moved p 16) 0 n
  unfolding IsReadable
  moved-IsReadable p n at i lo hi = at (16 + i) (omega arith) (omega arith)

  other_row-Returns :
      (n : ℕ) (s : Rows) (row : List ℕ)
      → Left (16 + n) s
      → length row ≡ 16
      → Returns (λ r. Left n r.1) (other_row decimal indent width chars s row)
  unfolding other_row Returns IsReadable HasRow
  other_row-Returns n s row left e =
      Returns-bind _
        (if s.num_rows == 0
          then ok []
          else print_same_rows decimal indent width chars s.num_same_rows s.prev_row s.display_addr)
        _
        (Returns-if _ (s.num_rows == 0) (ok []) _ tt
          (print_same_rows-Returns s.num_same_rows s.prev_row s.display_addr left.has_row))
        (λ same u.
          Returns-bind _ (print_line decimal indent width chars s.pointer s.display_addr) _
            (print_line-Returns s.pointer s.display_addr
              (λ i lo hi. left.readable i lo (omega arith)))
            (λ line v. record {
              readable = moved-IsReadable s.pointer n left.readable;
              has_row = inr e;
            }))

  one_row-Returns :
      (n : ℕ) (s : Rows) (row : List ℕ)
      → Left (16 + n) s
      → length row ≡ 16
      → Returns (λ r. Left n r.1) (one_row decimal indent width chars s row)
  unfolding one_row Returns HasRow
  one_row-Returns n s row left e =
      elim (Bool-cases (not (s.num_rows == 0) && same_bytes row s.prev_row)) [
        | inl same ↦ rw same (record {
          readable = moved-IsReadable s.pointer n left.readable;
          has_row = inr (sym (same_bytes-length row s.prev_row (and_right _ _ same)) ∙ e);
        })
        | inr other ↦ rw other (other_row-Returns n s row left e)
      ]

  full_rows-Returns :
      (rows n : ℕ) (s : Rows)
      → Left (16 * rows + n) s
      → Returns (λ r. Left n r.1) (full_rows decimal indent width chars rows s)
  unfolding full_rows Returns IsReadable
  full_rows-Returns zero n s left = record {
    readable = λ i lo hi. left.readable i lo (omega arith);
    has_row = left.has_row;
  }
  full_rows-Returns (suc rows) n s left =
      Returns-bind _ (copy_row s.pointer 0 16) _
        (copy_row-Returns s.pointer 0 16 (λ i lo hi. left.readable i lo (omega arith)))
        (λ row e.
          Returns-bind _ (one_row decimal indent width chars s row) _
            (one_row-Returns (16 * rows + n) s row
              (record {
                readable = λ i lo hi. left.readable i lo (omega arith);
                has_row = left.has_row;
              })
              e)
            (λ r left'.
              Returns-bind _ (full_rows decimal indent width chars rows r.1) _
                (full_rows-Returns rows n r.1 left') (λ r' left''. left'')))

  last_row-Returns :
      (p : Pointer) (display_addr remainder : ℕ)
      → IsReadable p 0 remainder
      → Returns Any (last_row decimal indent width chars p display_addr remainder)
  unfolding last_row Returns IsReadable
  last_row-Returns p d n at = Returns-if _ (n == 0) (ok []) _ tt (
      Returns-bind _ (hex_cells p 0 n) _ (hex_cells-Returns p 0 n at') (λ t u.
        Returns-bind _ (end_row chars p 0 n) _ (end_row-Returns chars p 0 n at') (λ t' u'. tt)))
    where
      at' : IsReadable p 0 (0 + n)
      at' i lo hi = at i lo (omega arith)

  dump_rows-Returns :
      (p : Pointer) (size display_addr : ℕ)
      → IsReadable p 0 size
      → Returns Any (dump_rows decimal indent width chars p size display_addr)
  unfolding dump_rows Returns IsReadable HasRow
  dump_rows-Returns p size d at =
      Returns-bind _ (full_rows decimal indent width chars (size / 16) (no_rows p d)) _
        (full_rows-Returns (size / 16) (size % 16) (no_rows p d)
          (record { readable = λ i lo hi. at i lo (omega arith); has_row = inl refl }))
        (λ r left.
          Returns-bind _
            (print_same_rows decimal indent width chars r.1.num_same_rows r.1.prev_row
              r.1.display_addr)
            _ (print_same_rows-Returns r.1.num_same_rows r.1.prev_row r.1.display_addr left.has_row)
            (λ same u.
              Returns-bind _
                (last_row decimal indent width chars r.1.pointer r.1.display_addr (bit_and size 15))
                _
                (last_row-Returns r.1.pointer r.1.display_addr (bit_and size 15)
                  (λ i lo hi. left.readable i lo (omega (arith, bit_and-low_mask 4 size))))
                (λ end v. tt)))

  first_row-Returns :
      (p : Pointer) (display_addr offset sz : ℕ)
      → IsReadable p offset sz
      → offset ≤ sz
      → Returns Any (first_row decimal indent width chars p display_addr offset sz)
  unfolding first_row Returns IsReadable
  first_row-Returns p d offset sz at room =
      Returns-bind _ (hex_cells p offset (sz - offset)) _
        (hex_cells-Returns p offset (sz - offset) at')
        (λ t u.
          Returns-bind _ (end_row chars p offset (sz - offset)) _
            (end_row-Returns chars p offset (sz - offset) at') (λ t' u'. tt))
    where
      at' : IsReadable p offset (offset + (sz - offset))
      at' i lo hi = at i lo (omega arith)

  dump_from-Returns :
      (p : Pointer) (offset size display_addr : ℕ)
      → IsReadable p offset size
      → offset ≤ size
      → offset < 16
      → Returns Any (dump_from decimal indent width chars p offset size display_addr)
  unfolding dump_from Returns IsReadable
  dump_from-Returns p offset size d at room small = elim (ℕ_discrete offset 0) [
    | yes e ↦ rw e (dump_rows-Returns p size d (λ i lo hi. at i (omega (arith, e)) hi))
    | no ne ↦ rw (ne→== offset 0 ne) (elim (Bool-cases (ltb size 16)) [
      | inl short ↦ rw short (
          Returns-bind _ (first_row decimal indent width chars p d offset size) _
            (first_row-Returns p d offset size at room) (λ t u. tt))
      | inr long ↦ rw long (
          Returns-bind _ (first_row decimal indent width chars p d offset 16) _
            (first_row-Returns p d offset 16 (λ i lo hi. at i lo (omega (arith, ltb→le _ _ long)))
              (omega arith))
            (λ t u.
              Returns-bind _
                (dump_rows decimal indent width chars (moved p 16) (size - 16) (add64 d 16)) _
                (dump_rows-Returns (moved p 16) (size - 16) (add64 d 16)
                  (λ i lo hi. at (16 + i) (omega arith) (omega arith)))
                (λ t' u'. tt)))
    ])
  ]

max_addr_eq :
    (d offset size : ℕ)
    → offset < 16
    → size + 15 < 2 ^ 32
    → d + size < 2 ^ 64
    → add64 (sub64 d offset) (u32 (size + offset)) ≡ d + size
max_addr_eq d offset size small fits high = omega arith

dump_offset-Returns :
    (decimal : ℕ → List ℕ) (memory : Pointer) (indent addr size d offset : ℕ) (chars : Bool)
    → IsReadable memory addr (addr + size)
    → size + 15 < 2 ^ 32
    → 0 < d + size
    → d + size < 2 ^ 64
    → offset ≤ addr
    → offset < 16
    → Returns Any (
        width_of (add64 (sub64 d offset) (u32 (size + offset))) >>= (λ addr_width.
          dump_from decimal indent addr_width chars
            (moved memory (addr - offset))
            offset
            (u32 (size + offset))
            (sub64 d offset)))
unfolding Returns IsReadable
dump_offset-Returns decimal memory indent addr size d offset chars at small some_addr high below
      few =
    Returns-bind {P = Width (d + size)} _ (width_of (add64 (sub64 d offset) (u32 (size + offset))))
      _
      (rw (max_addr_eq d offset size few small high)
        (width_of-Width (d + size) (λ e. omega arith) high))
      (λ addr_width w.
        dump_from-Returns decimal indent addr_width chars (moved memory (addr - offset)) offset
          (u32 (size + offset)) (sub64 d offset)
          (λ i lo hi. at (addr - offset + i) (omega arith) (omega arith)) (omega arith) few)

-- Dumping memory that may be read, whose bytes are shown at addresses in the address space, returns; nothing
-- outside of it is read.
pub dump_hex-Returns :
    (decimal : ℕ → List ℕ) (memory : Pointer) (indent addr size display_addr : ℕ)
    (aligned with_chars : Bool)
    → IsReadable memory addr (addr + size)
    → size + 15 < 2 ^ 32
    → 0 < display_addr + size
    → display_addr + size < 2 ^ 64
    → Returns Any (dump_hex decimal memory indent addr size display_addr aligned with_chars)
unfolding dump_hex Returns IsReadable
dump_hex-Returns decimal memory indent addr size d true chars at small some_addr high =
    dump_offset-Returns decimal memory indent addr size d (bit_and addr 15) chars at small some_addr
      high (omega (arith, bit_and-low_mask 4 addr)) (omega (arith, bit_and-low_mask 4 addr))
dump_hex-Returns decimal memory indent addr size d false chars at small some_addr high =
    dump_offset-Returns decimal memory indent addr size d 0 chars at small some_addr high
      (omega arith) (omega arith)
