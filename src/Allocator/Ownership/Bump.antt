-- ===== src/Allocator/Ownership/Bump.antt =====
-- A `malloc`, as src/allocator_debug.c calls it, that gives the address 16 above all regions in use.
use mathlib.Core.Option.{some-injective}
use libpussy.Base.{ℕ, ◌+◌, ◌<◌, arith, some, List, [], ◌∷◌, inr}
use Prim.{tt}
use libpussy.AddressSpace.{Extent}
use libpussy.AddressSpace.Bump.{top}
use libpussy.PageList.Ring.{NotIn}
use libpussy.Heap.{Malloc}
use libpussy.Allocator.Ownership.Regions.{starts, Apart, IsMalloc}

abbrev pub bump_malloc : Malloc
bump_malloc regions n = some (top regions + 16)

above-NotIn : (a : ℕ) (regions : List Extent) → top regions < a → NotIn a (starts regions)
unfolding NotIn top
above-NotIn a [] h = tt
above-NotIn a (e ∷ regions) h = ((λ same. omega arith), above-NotIn a regions (omega arith))

above-Apart : (a n : ℕ) (regions : List Extent) → top regions < a → Apart a n regions
unfolding Apart top
above-Apart a n [] h = tt
above-Apart a n (e ∷ regions) h = (inr (omega arith), above-Apart a n regions (omega arith))

pub bump_malloc-IsMalloc : IsMalloc bump_malloc
bump_malloc-IsMalloc = record {
  fresh = λ regions n a e. above-NotIn a regions (omega (arith, some-injective _ a e));
  apart = λ regions n a e. above-Apart a n regions (omega (arith, some-injective _ a e));
}
