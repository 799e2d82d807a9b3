-- ===== src/Allocator/Ownership/Regions.antt =====
-- `free` on a list of regions of which no two start at one place (src/allocator_debug.c, src/allocator_stdlib.c).
use mathlib.Core.List.{map-append}
use mathlib.Core.Path.{subst}
use libpussy.Base.{
  ℕ, ◌+◌, ◌≤◌, ◌⊎◌, ◌≡◌, ◌≢◌, sym, ap, ◌∙◌, arith, ne→==, some, List, [], ◌∷◌, ◌++◌, map,
}
use libpussy.AddressSpace.{Extent}
use libpussy.PageList.Ring.{NotIn, Distinct}
use libpussy.Heap.{Malloc, free_region}
use libpussy.Allocator.Ownership.{Block}

abbrev pub starts : List Extent → List ℕ
starts = map (λ e. e.start)

-- The `n` bytes from `a` on lie in none of the regions.
unfoldable pub Apart : ℕ → ℕ → List Extent → Type 0
Apart a n [] = Unit
Apart a n (e ∷ regions) = ((a + n ≤ e.start) ⊎ (e.start + e.size ≤ a)) × Apart a n regions

-- What `malloc` promises of the region that it gives.
pub record IsMalloc (malloc : Malloc) : Type 0 where
  pub fresh :
      (regions : List Extent) (n a : ℕ) → malloc regions n ≡ some a → NotIn a (starts regions)
  pub apart : (regions : List Extent) (n a : ℕ) → malloc regions n ≡ some a → Apart a n regions

NotIn-remove :
    (p : ℕ) (before after : List Extent) (e : Extent)
    → NotIn p (starts (before ++ (e ∷ after)))
    → (p ≢ e.start) × NotIn p (starts (before ++ after))
unfolding NotIn
NotIn-remove p [] after e away = away
NotIn-remove p (x ∷ before) after e away =
    let (ne, rest) = NotIn-remove p before after e away.1 in (ne, (away.0, rest))

pub free_region-append :
    (before after : List Extent) (e : Extent)
    → Distinct (starts (before ++ (e ∷ after)))
    → free_region e.start (before ++ (e ∷ after)) ≡ before ++ after
unfolding free_region Distinct
free_region-append [] after e d = ground arith
free_region-append (x ∷ before) after e d =
    rw (ne→== x.start e.start (NotIn-remove x.start before after e d.0).0)
      (ap (λ t. x ∷ t) (free_region-append before after e d.1))

pub Distinct-remove :
    (before after : List Extent) (e : Extent)
    → Distinct (starts (before ++ (e ∷ after)))
    → Distinct (starts (before ++ after))
unfolding Distinct
Distinct-remove [] after e d = d.1
Distinct-remove (x ∷ before) after e d =
    ((NotIn-remove x.start before after e d.0).1, Distinct-remove before after e d.1)

-- The regions of blocks, each at its place, are those of the other blocks when one is freed.
pub free_region-map :
    (region_of : Block → Extent) (regions : List Extent) (before after : List Block) (b : Block)
    → regions ≡ map region_of (before ++ (b ∷ after))
    → Distinct (starts regions)
    → (free_region (region_of b).start regions ≡ map region_of (before ++ after))
      × Distinct (starts (free_region (region_of b).start regions))
free_region-map region_of regions before after b e d =
    rw (split, freed)
      (sym (map-append region_of before after), Distinct-remove _ _ (region_of b) distinct)
  where
    split : regions ≡ map region_of before ++ (region_of b ∷ map region_of after)
    split = e ∙ map-append region_of before (b ∷ after)

    distinct : Distinct (starts (map region_of before ++ (region_of b ∷ map region_of after)))
    distinct = subst (λ l. Distinct (starts l)) split d

    freed :
        free_region
          (region_of b).start
          (map region_of before ++ (region_of b ∷ map region_of after))
        ≡ map region_of before ++ map region_of after
    freed = free_region-append (map region_of before) (map region_of after) (region_of b) distinct
