-- ===== src/AddressSpace.antt =====
-- The system calls `mmap` and `munmap` of an arena, which libpussy only calls. The mappings are
-- extents of addresses; `none` is MAP_FAILED. The laws are what the manual promises: a mapping begins at a
-- page and takes no byte that is mapped already.
pub mod Bump
use libpussy.Base.{
  ℕ, ◌+◌, ◌%◌, ◌^◌, ◌≤◌, ◌<◌, ◌≡◌, ◌≢◌, ◌⊎◌, Option, none, some, List, [], ◌∷◌, ◌==◌, ◌&&◌,
  if◌then◌else◌,
}

pub record Extent : Type 0 where
  pub start : ℕ
  pub size : ℕ

abbrev pub extent : ℕ → ℕ → Extent
extent start size = record { start = start; size = size }

abbrev pub Within : Extent → ℕ → Type 0
Within e p = (e.start ≤ p) × (p < e.start + e.size)

-- Address `p` is in a mapping.
unfoldable pub Mapped : List Extent → ℕ → Type 0
Mapped [] p = ⊥
Mapped (e ∷ maps) p = Within e p ⊎ Mapped maps p

-- Where `mmap` puts a new mapping of a size, given those there are.
abbrev pub Mmap : Type 0
Mmap = List Extent → ℕ → Option ℕ

pub record IsMmap (page : ℕ) (mmap : Mmap) : Type 0 where
  pub aligned : (maps : List Extent) (n a : ℕ) → mmap maps n ≡ some a → a % page ≡ 0
  pub fresh :
      (maps : List Extent) (n a p : ℕ)
      → mmap maps n ≡ some a
      → Within (extent a n) p
      → ¬ Mapped maps p

-- `munmap` of exactly one mapping.
unfoldable pub munmap : List Extent → ℕ → ℕ → List Extent
munmap [] start size = []
munmap (e ∷ maps) start size =
    let rest = munmap maps start size in
    if (e.start == start) && (e.size == size) then maps else e ∷ rest
