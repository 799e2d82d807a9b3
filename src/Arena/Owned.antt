-- ===== src/Arena/Owned.antt =====
-- Which addresses the regions of an arena (src/arena.c) cover, and which of them are handed out.
use Prim.{tt}
use mathlib.Core.Option.{none-ne-some, some-injective}
use mathlib.Core.Path.{subst, sym}
use libpussy.Base.{
  ℕ, zero, suc, ◌+◌, ◌%◌, ◌≡◌, ◌⊎◌, inl, inr, arith, some, List, [], ◌∷◌, ◌++◌, set, get_elem?, ap,
  ◌∙◌,
}
use libpussy.AddressSpace.{Extent, extent, Within}
use libpussy.Arena.{Region, Block}
use libpussy.Arena.Room.{IsRegion, Grants}

-- All of a region, header included, and the part that is handed out.
abbrev pub region_extent : Region → Extent
region_extent r = extent r.address (16 + r.capacity)

abbrev pub handed_out : Region → Extent
handed_out r = extent (r.address + 16) r.tail

unfoldable pub Covers : List Region → ℕ → Type 0
Covers [] p = ⊥
Covers (r ∷ rs) p = Within (region_extent r) p ⊎ Covers rs p

unfoldable pub Owned : List Region → ℕ → Type 0
Owned [] p = ⊥
Owned (r ∷ rs) p = Within (handed_out r) p ⊎ Owned rs p

-- Every region is well formed, and no two have an address in common.
unfoldable pub IsRegions : List Region → Type 0
unfolding Covers
IsRegions [] = Unit
IsRegions (r ∷ rs) =
    IsRegion r × ((p : ℕ) → Within (region_extent r) p → ¬ Covers rs p) × IsRegions rs

Within-region :
    (r : Region) (p : ℕ) → IsRegion r → Within (handed_out r) p → Within (region_extent r) p
Within-region r p wf w = omega (arith, w, wf.tail_inside)

pub Covers-Owned : (rs : List Region) (p : ℕ) → IsRegions rs → Owned rs p → Covers rs p
unfolding IsRegions Owned
Covers-Owned [] p wf o = o
Covers-Owned (r ∷ rs) p wf (inl w) = inl (Within-region r p wf.0 w)
Covers-Owned (r ∷ rs) p wf (inr o) = inr (Covers-Owned rs p wf.2 o)

pub region-IsRegion :
    (rs : List Region) (i : ℕ) (r : Region) → IsRegions rs → get_elem? rs i ≡ some r → IsRegion r
unfolding IsRegions
region-IsRegion [] i r wf found = absurd (none-ne-some r found)
region-IsRegion (r' ∷ rs) zero r wf found = subst IsRegion (some-injective r' r found) wf.0
region-IsRegion (r' ∷ rs) (suc i) r wf found = region-IsRegion rs i r wf.2 found

-- From `rs` to `rs'` the block of `size` bytes at `ptr`, free before, is handed out, and what was
-- handed out still is. No address is covered anew, but for those in `more`.
pub record Extends (more : Extent) (rs rs' : List Region) (ptr size : ℕ) : Type 0 where
  pub regions : IsRegions rs'
  pub covers : (p : ℕ) → Covers rs' p → Covers rs p ⊎ Within more p
  pub block : (p : ℕ) → Within (extent ptr size) p → Owned rs' p
  pub fresh : (p : ℕ) → Within (extent ptr size) p → ¬ Owned rs p
  pub keeps : (p : ℕ) → Owned rs p → Owned rs' p

grown-IsRegion :
    (r : Region) (size alignment : ℕ) (b : Block)
    → IsRegion r
    → Grants r size alignment b
    → IsRegion b.region
grown-IsRegion r size alignment b wf grant = record {
  tail_inside = omega arith;
  small = omega (arith, wf.small);
  aligned = ap (λ t. t % 16) grant.same_address ∙ wf.aligned;
}

-- The block comes from the first region.
pub Extends-here :
    (r : Region) (rs : List Region) (size alignment : ℕ) (b : Block)
    → IsRegions (r ∷ rs)
    → Grants r size alignment b
    → Extends (extent 0 0) (r ∷ rs) (b.region ∷ rs) b.result size
unfolding IsRegions Owned
Extends-here r rs size alignment b wf grant = record {
  regions = (grown-IsRegion r size alignment b wf.0 grant, λ p w. wf.1 p (same_extent p w), wf.2);
  covers = covers;
  block = λ p w. inl (omega arith);
  fresh = fresh;
  keeps = keeps;
}
  where
    same_extent : (p : ℕ) → Within (region_extent b.region) p → Within (region_extent r) p
    same_extent p w = omega arith

    covers : (p : ℕ) → Covers (b.region ∷ rs) p → Covers (r ∷ rs) p ⊎ Within (extent 0 0) p
    covers p (inl w) = inl (inl (same_extent p w))
    covers p (inr c) = inl (inr c)

    in_region : (p : ℕ) → Within (extent b.result size) p → Within (region_extent r) p
    in_region p w = omega arith

    fresh : (p : ℕ) → Within (extent b.result size) p → ¬ Owned (r ∷ rs) p
    fresh p w (inl o) = omega arith
    fresh p w (inr o) = wf.1 p (in_region p w) (Covers-Owned rs p wf.2 o)

    keeps : (p : ℕ) → Owned (r ∷ rs) p → Owned (b.region ∷ rs) p
    keeps p (inl w) = inl (omega arith)
    keeps p (inr o) = inr o

-- The block comes from behind the first region.
pub Extends-there :
    (more : Extent) (r : Region) (rs rs' : List Region) (ptr size : ℕ)
    → IsRegions (r ∷ rs)
    → ((p : ℕ) → Within (region_extent r) p → ¬ Within more p)
    → Extends more rs rs' ptr size
    → Extends more (r ∷ rs) (r ∷ rs') ptr size
unfolding IsRegions Owned
Extends-there more r rs rs' ptr size wf apart e = record {
  regions = (wf.0, separate, e.regions);
  covers = covers;
  block = λ p w. inr (e.block p w);
  fresh = fresh;
  keeps = keeps;
}
  where
    separate : (p : ℕ) → Within (region_extent r) p → ¬ Covers rs' p
    separate p w c = elim (e.covers p c) [ inl old ↦ wf.1 p w old | inr new ↦ apart p w new ]

    covers : (p : ℕ) → Covers (r ∷ rs') p → Covers (r ∷ rs) p ⊎ Within more p
    covers p (inl w) = inl (inl w)
    covers p (inr c) = elim (e.covers p c) [ inl old ↦ inl (inr old) | inr new ↦ inr new ]

    fresh : (p : ℕ) → Within (extent ptr size) p → ¬ Owned (r ∷ rs) p
    fresh p w (inl o) =
        separate p (Within-region r p wf.0 o) (Covers-Owned rs' p e.regions (e.block p w))
    fresh p w (inr o) = e.fresh p w o

    keeps : (p : ℕ) → Owned (r ∷ rs) p → Owned (r ∷ rs') p
    keeps p (inl w) = inl w
    keeps p (inr o) = inr (e.keeps p o)

-- The block comes from a new region.
pub Extends-new :
    (new : Region) (size alignment : ℕ) (b : Block)
    → IsRegion new
    → Grants new size alignment b
    → Extends (region_extent new) [] (b.region ∷ []) b.result size
unfolding IsRegions Owned
Extends-new new size alignment b wf grant = record {
  regions = (grown-IsRegion new size alignment b wf grant, λ p w c. c, tt);
  covers = covers;
  block = λ p w. inl (omega arith);
  fresh = λ p w o. o;
  keeps = λ p o. absurd o;
}
  where
    covers : (p : ℕ) → Covers (b.region ∷ []) p → Covers [] p ⊎ Within (region_extent new) p
    covers p (inl w) = inr (omega arith)
    covers p (inr c) = absurd c

-- The block comes from a region that is put behind the others.
pub Extends-append :
    (more : Extent) (rs : List Region) (new : Region) (ptr size : ℕ)
    → IsRegions rs
    → ((p : ℕ) → Covers rs p → ¬ Within more p)
    → Extends more [] (new ∷ []) ptr size
    → Extends more rs (rs ++ (new ∷ [])) ptr size
unfolding IsRegions
Extends-append more [] new ptr size wf apart e = e
Extends-append more (r ∷ rs) new ptr size wf apart e =
    Extends-there more r rs (rs ++ (new ∷ [])) ptr size wf (λ p w. apart p (inl w))
      (Extends-append more rs new ptr size wf.2 (λ p c. apart p (inr c)) e)

-- The block comes from the region at place `i`.
pub Extends-set :
    (rs : List Region) (i : ℕ) (r : Region) (size alignment : ℕ) (b : Block)
    → IsRegions rs
    → get_elem? rs i ≡ some r
    → Grants r size alignment b
    → Extends (extent 0 0) rs (set rs i b.region) b.result size
unfolding IsRegions
Extends-set [] i r size alignment b wf found grant = absurd (none-ne-some r found)
Extends-set (r' ∷ rs) zero r size alignment b wf found grant =
    Extends-here r' rs size alignment b wf
      (subst (λ x. Grants x size alignment b) (sym (some-injective r' r found)) grant)
Extends-set (r' ∷ rs) (suc i) r size alignment b wf found grant =
    Extends-there (extent 0 0) r' rs (set rs i b.region) b.result size wf (λ p w h. omega arith)
      (Extends-set rs i r size alignment b wf.2 found grant)
