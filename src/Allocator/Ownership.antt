-- ===== src/Allocator/Ownership.antt =====
-- Which blocks the client of an allocator (include/allocator.h) has: what `allocate` and `release` do to them.
pub mod Stdlib
mod Tests
pub mod Bump
pub mod Debug
pub mod Regions
use libpussy.Base.{ℕ, ◌≤◌, ◌^◌, Bool, Option, none, some, List, ◌∷◌, ◌++◌, Run}
use libpussy.Base.Returns.{Returns}
use libpussy.Allocator.{Allocator}

-- A block: its address, and the size that it was asked for with.
pub record Block : Type 0 where
  pub address : ℕ
  pub size : ℕ

module _ {S : Type 0} (Holds : S → List Block → Type 0) where
  unfoldable pub Granted : ℕ → List Block → Option ℕ × S → Type 0
  Granted n blocks (none, s) = Holds s blocks
  Granted n blocks (some p, s) = Holds s (record { address = p; size = n } ∷ blocks)

  unfoldable pub TakenBack : List Block → Option ℕ × S → Type 0
  TakenBack blocks (none, s) = Holds s blocks
  TakenBack blocks (some p, s) = ⊥

  -- Blocks may be released in any order. The sizes are those of the structures of the library.
  pub record Owns (a : Allocator S) : Type 0 where
    pub grants :
        (s : S) (blocks : List Block) (n : ℕ) (clean : Bool)
        → n ≤ 2 ^ 16
        → Holds s blocks
        → Returns (Granted n blocks) (a.allocate s n clean)
    pub takes_back :
        (s : S) (before after : List Block) (block : Block)
        → Holds s (before ++ (block ∷ after))
        → Returns (TakenBack (before ++ after)) (a.release s (some block.address) block.size)
