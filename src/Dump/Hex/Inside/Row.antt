-- ===== src/Dump/Hex/Inside/Row.antt =====
-- One row of src/dump_hex.c: the bytes that it reads.
use Prim.{tt}
use libpussy.Base.{
  ℕ, zero, suc, ◌+◌, ◌≡◌, refl, ap, arith, Bool, true, false, ◌&&◌, List, [], ◌∷◌, length,
  get_elem?-eq-get_or, ◌==◌,
}
use libpussy.Base.Returns.{Returns, Returns-bind}
use libpussy.Dump.{Any, IsReadable, Pointer, pointer_to}
use libpussy.Dump.Hex.{hex_cells, char_cells, end_row, print_row, copy_row, same_bytes}

pub hex_cells-Returns :
    (p : Pointer) (j n : ℕ) → IsReadable p j (j + n) → Returns Any (hex_cells p j n)
unfolding hex_cells Returns IsReadable
hex_cells-Returns p j zero at = tt
hex_cells-Returns p j (suc n) at = Returns-bind _ (p j) _ (at j (omega arith) (omega arith)) (λ b u.
    Returns-bind _ (hex_cells p (j + 1) n) _
      (hex_cells-Returns p (j + 1) n (λ i lo hi. at i (omega arith) (omega arith))) (λ rest v. tt))

pub char_cells-Returns :
    (p : Pointer) (j n : ℕ) → IsReadable p j (j + n) → Returns Any (char_cells p j n)
unfolding char_cells Returns IsReadable
char_cells-Returns p j zero at = tt
char_cells-Returns p j (suc n) at =
    Returns-bind _ (p j) _ (at j (omega arith) (omega arith)) (λ b u.
      Returns-bind _ (char_cells p (j + 1) n) _
        (char_cells-Returns p (j + 1) n (λ i lo hi. at i (omega arith) (omega arith)))
        (λ rest v. tt))

pub copy_row-Returns :
    (p : Pointer) (j n : ℕ)
    → IsReadable p j (j + n)
    → Returns (λ row. length row ≡ n) (copy_row p j n)
unfolding copy_row Returns IsReadable
copy_row-Returns p j zero at = refl
copy_row-Returns p j (suc n) at = Returns-bind _ (p j) _ (at j (omega arith) (omega arith)) (λ b u.
    Returns-bind _ (copy_row p (j + 1) n) _
      (copy_row-Returns p (j + 1) n (λ i lo hi. at i (omega arith) (omega arith)))
      (λ rest e. ap suc e))

pub end_row-Returns :
    (chars : Bool) (p : Pointer) (j n : ℕ)
    → IsReadable p j (j + n)
    → Returns Any (end_row chars p j n)
unfolding end_row Returns
end_row-Returns true p j n at =
    Returns-bind _ (char_cells p j n) _ (char_cells-Returns p j n at) (λ t u. tt)
end_row-Returns false p j n at = tt

pub print_row-Returns :
    (p : Pointer) (display_addr width : ℕ) (chars : Bool)
    → IsReadable p 0 16
    → Returns Any (print_row p display_addr width chars)
unfolding print_row Returns
print_row-Returns p d w chars at =
    Returns-bind _ (hex_cells p 0 16) _ (hex_cells-Returns p 0 16 at) (λ t u.
      Returns-bind _ (end_row chars p 0 16) _ (end_row-Returns chars p 0 16 at) (λ t' u'. tt))

pub pointer_to-IsReadable :
    (row : List ℕ) (n : ℕ) → length row ≡ n → IsReadable (pointer_to row) 0 n
unfolding IsReadable pointer_to Returns
pointer_to-IsReadable row n e i lo hi =
    rw (Returns, pointer_to, get_elem?-eq-get_or row i 0 (omega arith)) tt

pub and_right : (a b : Bool) → (a && b) ≡ true → b ≡ true
and_right true b e = e
and_right false b e = cc

pub same_bytes-length : (xs ys : List ℕ) → same_bytes xs ys ≡ true → length xs ≡ length ys
unfolding same_bytes
same_bytes-length [] [] e = refl
same_bytes-length [] (y ∷ ys) e = cc
same_bytes-length (x ∷ xs) [] e = cc
same_bytes-length (x ∷ xs) (y ∷ ys) e =
    ap suc (same_bytes-length xs ys (and_right (x == y) (same_bytes xs ys) e))
