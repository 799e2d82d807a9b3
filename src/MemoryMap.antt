-- ===== src/MemoryMap.antt =====
-- The system calls `mmap` and `mremap`, which libpussy only calls. A mapping is the list of its
-- bytes; `none` is MAP_FAILED. The laws are what the manual promises.
pub mod Zeroed
use libpussy.Base.{ℕ, min, ◌≡◌, Option, some, List, length, take}

pub record MemoryMap : Type 0 where
  pub mmap : ℕ → Option (List ℕ)
  pub mremap : List ℕ → ℕ → Option (List ℕ)

pub record IsMemoryMap (m : MemoryMap) : Type 0 where
  pub mmap_length : (n : ℕ) (b : List ℕ) → m.mmap n ≡ some b → length b ≡ n
  pub mremap_length : (old : List ℕ) (n : ℕ) (b : List ℕ) → m.mremap old n ≡ some b → length b ≡ n
  pub mremap_keeps :
      (old : List ℕ) (n : ℕ) (b : List ℕ)
      → m.mremap old n ≡ some b
      → take (min (length old) n) b ≡ take (min (length old) n) old
