-- ===== src/Dump/Bitmap/Inside.antt =====
-- src/dump_bitmap.c reads no byte but those of the block, and returns.
use Prim.{tt}
use libpussy.Base.{
  ℕ, zero, suc, ◌+◌, ◌-◌, ◌≤◌, ◌<◌, ◌≡◌, refl, arith, Bool, true, false, ◌&&◌, ◌||◌, inl, inr, List,
  ltb, ltb→lt, ◌==◌, Bool-cases, ok,
}
use libpussy.Base.Returns.{Returns, Returns-bind, Returns-if, Returns-elim, Returns-weaken}
use libpussy.Dump.{Pointer, Any, IsReadable, moved}
use libpussy.Dump.Bitmap.{
  same_chars, same_16_chars, Columns, print_at, skips, bitmap_loop, dump_bitmap,
}

same_chars-Returns :
    (block : Pointer) (chr i n : ℕ)
    → IsReadable block i (i + n)
    → Returns Any (same_chars block chr i n)
unfolding same_chars Returns IsReadable
same_chars-Returns block chr i zero at = tt
same_chars-Returns block chr i (suc n) at =
    Returns-bind _ (block i) _ (at i (omega arith) (omega arith)) (λ c u.
      Returns-if _ (c == chr) _ (ok false)
        (same_chars-Returns block chr (i + 1) n (λ k lo hi. at k (omega arith) (omega arith))) tt)

-- `a && (b && (c && d))` asks for `c`.
third : (a b c d : Bool) → (a && (b && (c && d))) ≡ true → c ≡ true
third true true true d e = refl
third true true false d e = e
third true false c d e = cc
third false b c d e = cc

module _ (address_text : ℕ → List ℕ) (data_addr : ℕ) (block : Pointer) (size : ℕ)
    (at : IsReadable block 0 size) where
  abbrev asks : Columns → ℕ → Bool
  asks s i =
      s.column == 0
      && (s.prev_row_same_char
          && (ltb 16 (size - i) && (s.prev_row_char == 0 || s.prev_row_char == 255)))

  -- A row is left out only if it is not the last one.
  skips-Returns :
      (s : Columns) (i : ℕ)
      → Returns (λ skip. skip ≡ true → 16 < size - i) (skips address_text data_addr block size s i)
  unfolding skips Returns IsReadable same_16_chars same_chars
  skips-Returns s i = elim (Bool-cases (asks s i)) [
    | inl yes_asks ↦ rw yes_asks (
        Returns-weaken (λ skip. skip ≡ true → 16 < size - i)
          (same_16_chars (moved block i) s.prev_row_char)
          (same_chars-Returns (moved block i) s.prev_row_char 0 16
            (λ k lo hi. at (i + k) (omega arith) (omega (arith, room yes_asks))))
          (λ skip u e. room yes_asks))
    | inr no_asks ↦ rw no_asks (λ e. cc)
  ]
    where
      room : asks s i ≡ true → 16 < size - i
      room e =
          ltb→lt 16 (size - i) (third (s.column == 0) s.prev_row_same_char (ltb 16 (size - i)) _ e)

  bitmap_loop-Returns :
      (fuel : ℕ) (s : Columns) (i : ℕ)
      → size < fuel + i
      → i ≤ size
      → Returns Any (bitmap_loop address_text data_addr block size fuel s i)
  unfolding bitmap_loop Returns IsReadable
  bitmap_loop-Returns zero s i enough inside = absurd (omega arith)
  bitmap_loop-Returns (suc fuel) s i enough inside = elim (Bool-cases (ltb i size)) [
    | inr over ↦ rw over tt
    | inl more ↦ rw more (
        Returns-bind _ (skips address_text data_addr block size s i) _ (skips-Returns s i)
          (λ skip left.
            Returns-elim _ skip _ _
              (λ e.
                Returns-bind _
                  (bitmap_loop address_text data_addr block size fuel (record s { skipping = true })
                    (i + 16))
                  _
                  (bitmap_loop-Returns fuel (record s { skipping = true }) (i + 16) (omega arith)
                    (omega (arith, left e)))
                  (λ t u. tt))
              (λ e. Returns-bind _ (block i) _ (at i (omega arith) (ltb→lt _ _ more)) (λ b u.
                Returns-bind _
                  (bitmap_loop address_text data_addr block size fuel
                    (print_at address_text data_addr block size s i b).1 (i + 1))
                  _
                  (bitmap_loop-Returns fuel (print_at address_text data_addr block size s i b).1
                    (i + 1) (omega arith) (omega (arith, ltb→lt _ _ more)))
                  (λ t v. tt)))))
  ]

  pub dump_bitmap-Returns : Returns Any (dump_bitmap address_text data_addr block size)
  unfolding dump_bitmap
  dump_bitmap-Returns = bitmap_loop-Returns (size + 1) _ 0 (omega arith) (omega arith)
