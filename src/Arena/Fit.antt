-- ===== src/Arena/Fit.antt =====
-- The search of `_arena_fit` of src/arena.c through the regions.
use mathlib.Core.Option.{none-ne-some, some-injective}
use mathlib.Core.Path.{subst}
use libpussy.Base.{
  ℕ, zero, suc, ◌%◌, ◌^◌, ◌≤◌, ◌<◌, ◌≡◌, ◌⊎◌, inl, inr, refl, arith, Option, none, some, List, [],
  ◌∷◌, get_elem?, length, ap, ap₂, Run, ok,
}
use libpussy.AddressSpace.{extent}
use libpussy.Arena.{Region, fit_regions}
use libpussy.Arena.Room.{NoRoom, region_alloc_lem}
use libpussy.Arena.Owned.{IsRegions, Extends, Extends-here, Extends-there}
use libpussy.Arena.Laid.{shape, shapes}

-- A region of the list has given the block.
pub record Fits (rs : List Region) (size alignment : ℕ) (result : Run (Option (ℕ × List Region)))
    : Type 0 where
  pub ptr : ℕ
  pub after : List Region
  pub returned : result ≡ ok (some (ptr, after))
  pub extends : Extends (extent 0 0) rs after ptr size
  pub aligned : ptr % alignment ≡ 0
  pub same_shapes : shapes after ≡ shapes rs
  pub same_length : length after ≡ length rs

abbrev pub FullRegions : List Region → ℕ → ℕ → Type 0
FullRegions rs size alignment =
    (i : ℕ) (r : Region) → get_elem? rs i ≡ some r → NoRoom r size alignment

module _ (size k : ℕ) (some_bytes : 0 < size) (small : k ≤ 4) where
  pub fit_regions_lem :
      (rs : List Region)
      → IsRegions rs
      → Fits rs size (2 ^ k) (fit_regions rs size (2 ^ k))
        ⊎ ((fit_regions rs size (2 ^ k) ≡ ok none) × FullRegions rs size (2 ^ k))
  unfolding fit_regions IsRegions
  fit_regions_lem [] wf = inr (refl, λ i r e. absurd (none-ne-some r e))
  fit_regions_lem (r ∷ rs) wf = elim (region_alloc_lem r size k wf.0 some_bytes small) [
    | inl got ↦ rw got.1 (
        inl (record {
          ptr = got.0.result;
          after = got.0.region ∷ rs;
          returned = refl;
          extends = Extends-here r rs size (2 ^ k) got.0 wf got.2;
          aligned = got.2.aligned;
          same_shapes = ap₂ (λ a c. extent a c ∷ shapes rs) got.2.same_address got.2.same_capacity;
          same_length = refl;
        }))
    | inr full ↦ rw full.0 (elim (fit_regions_lem rs wf.2) [
      | inl f ↦ rw f.returned (
          inl (record {
            ptr = f.ptr;
            after = r ∷ f.after;
            returned = refl;
            extends =
                Extends-there (extent 0 0) r rs f.after f.ptr size wf (λ p w h. omega arith)
                  f.extends;
            aligned = f.aligned;
            same_shapes = ap (λ es. shape r ∷ es) f.same_shapes;
            same_length = ap suc f.same_length;
          }))
      | inr rest ↦ rw rest.0 (inr (refl, all_full full.1 rest.1))
    ])
  ]
    where
      all_full :
          NoRoom r size (2 ^ k) → FullRegions rs size (2 ^ k) → FullRegions (r ∷ rs) size (2 ^ k)
      all_full first others zero q e =
          subst (λ x. NoRoom x size (2 ^ k)) (some-injective r q e) first
      all_full first others (suc i) q e = others i q e
