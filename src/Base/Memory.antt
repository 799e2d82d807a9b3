-- ===== src/Base/Memory.antt =====
-- `memcpy` and `memmove` on a mapped region, kept as the list of its bytes.
pub mod Splice
use Prim.Native.Nat.{ℕ, ◌+◌, ◌≤◌, ◌<◌}
use mathlib.Core.Path.{◌≡◌}
use mathlib.Core.List.{List, ◌++◌}
use libpussy.Base.Tests.{leb, if◌then◌else◌, le→leb, lt→leb}
use libpussy.Base.Lists.{length, take, drop}
use libpussy.Base.Outcome.{Run, ok, undefined, ◌>>=◌}

module _ {ℓ} {A : Type ℓ} where
  abbrev pub slice : ℕ → ℕ → List A → List A
  slice off n mem = take n (drop off mem)

  abbrev pub splice : ℕ → List A → List A → List A
  splice off xs mem = take off mem ++ (xs ++ drop (off + length xs) mem)

  -- The `n` bytes from `off` on.
  unfoldable pub load : List A → ℕ → ℕ → Run (List A)
  load mem off n = if leb (off + n) (length mem) then ok (slice off n mem) else undefined

  -- Overwrites the bytes from `off` on.
  unfoldable pub store : List A → ℕ → List A → Run (List A)
  store mem off xs =
      if leb (off + length xs) (length mem) then ok (splice off xs mem) else undefined

  unfoldable pub memmove : List A → ℕ → ℕ → ℕ → Run (List A)
  unfolding load store
  memmove mem dst src n = do x ← load mem src n; store mem dst x

  pub load_inside :
      (mem : List A) (off n : ℕ) → off + n ≤ length mem → load mem off n ≡ ok (slice off n mem)
  unfolding load
  load_inside mem off n h = rw (le→leb _ _ h)

  pub load_outside : (mem : List A) (off n : ℕ) → length mem < off + n → load mem off n ≡ undefined
  unfolding load
  load_outside mem off n h = rw (lt→leb _ _ h)

  pub store_inside :
      (mem : List A) (off : ℕ) (xs : List A)
      → off + length xs ≤ length mem
      → store mem off xs ≡ ok (splice off xs mem)
  unfolding store
  store_inside mem off xs h = rw (le→leb _ _ h)
