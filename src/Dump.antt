-- ===== src/Dump.antt =====
-- src/dump_hex.c and src/dump_bitmap.c: what they print, as the list of its bytes, and which bytes they read.
pub mod Hex
mod Tests
pub mod Bitmap
use libpussy.Base.Returns.{Returns}
use libpussy.Base.{
  ◌≤◌, ◌<◌, ℕ, none, some, Option, List, get_elem?, Run, ok, undefined, ◌+◌, ◌-◌, ◌%◌, ◌^◌,
}

-- The bytes that a pointer points to, by their index; a byte that may not be read is undefined.
abbrev pub Pointer : Type 0
Pointer = ℕ → Run ℕ

-- A pointer to a local array.
unfoldable pub pointer_to : List ℕ → Pointer
pointer_to row i = elim (get_elem? row i) [ none ↦ undefined | some b ↦ ok b ]

-- `p + n`
abbrev pub moved : Pointer → ℕ → Pointer
moved p n i = p (n + i)

-- Addresses that are only printed.
abbrev pub add64 : ℕ → ℕ → ℕ
add64 a b = (a + b) % 2 ^ 64

abbrev pub sub64 : ℕ → ℕ → ℕ
sub64 a b = (a + 2 ^ 64 - b) % 2 ^ 64

abbrev pub Any : {B : Type 0} → B → Type 0
Any b = Unit

-- The bytes from index `j` on and below `n` may be read.
unfoldable pub IsReadable : Pointer → ℕ → ℕ → Type 0
IsReadable p j n = (i : ℕ) → j ≤ i → i < n → Returns Any (p i)
