-- ===== src/Allocator.antt =====
-- include/allocator.h: the operations of an allocator, over its state, and the wrappers of the default one.
pub mod Ownership
use libpussy.Base.{ℕ, ◌≡◌, ◌≢◌, Bool, true, false, Option, none, some, Run, ok, ◌>>=◌}

-- What `reallocate` returns, what it leaves in `*addr_ptr` and in `*addr_changed`.
pub record Reallocated (S : Type 0) : Type 0 where
  pub done : Bool
  pub pointer : Option ℕ
  pub changed : Bool
  pub state : S

module _ {S : Type 0} where
  -- The three labels at the end of each `_reallocate`.
  abbrev pub same_addr : Option ℕ → S → Reallocated S
  same_addr p s = record { done = true; pointer = p; changed = false; state = s }

  abbrev pub changed_addr : ℕ → S → Reallocated S
  changed_addr p s = record { done = true; pointer = some p; changed = true; state = s }

  abbrev pub error : Option ℕ → S → Reallocated S
  error p s = record { done = false; pointer = p; changed = false; state = s }

-- `release` gives the pointer that it leaves. A null pointer is `none`, so is a missing `init`.
pub record Allocator (S : Type 0) : Type 0 where
  pub init : Option (S → Run S)
  pub allocate : S → ℕ → Bool → Run (Option ℕ × S)
  pub reallocate : S → Option ℕ → ℕ → ℕ → Bool → Run (Reallocated S)
  pub release : S → Option ℕ → ℕ → Run (Option ℕ × S)

-- A null pointer is reallocated by `allocate`.
abbrev pub allocated : {S : Type 0} → Option ℕ × S → Run (Reallocated S)
allocated (none, s) = ok (error none s)
allocated (some addr, s) = ok (changed_addr addr s)

-- `default_allocator`, with its state; there is none before `init_allocator`.
pub record Default (S : Type 0) : Type 0 where
  pub allocator : Allocator S
  pub state : S

unfoldable pub init_allocator : {S : Type 0} → Allocator S → S → Run (Default S)
init_allocator a s = elim a.init [
  | none ↦ ok (record { allocator = a; state = s })
  | some init ↦ do s' ← init s; ok (record { allocator = a; state = s' })
]
