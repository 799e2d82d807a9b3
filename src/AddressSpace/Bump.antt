-- ===== src/AddressSpace/Bump.antt =====
-- An `mmap` that puts each mapping at the first page above all others.
use native.Mathlib.Nat.{mul-mod_right, mul-add, div-add-mod, mod-lt}
use libpussy.Base.{ℕ, ◌+◌, ◌*◌, ◌/◌, ◌%◌, ◌<◌, ◌≡◌, max, arith, some, List, [], ◌∷◌, inl, inr}
use libpussy.AddressSpace.{Extent, Mapped, Mmap, IsMmap}
use mathlib.Core.Option.{some-injective}
use mathlib.Core.Path.{subst}

unfoldable pub top : List Extent → ℕ
top [] = 0
top (e ∷ maps) = max (e.start + e.size) (top maps)

below_top : (maps : List Extent) (p : ℕ) → Mapped maps p → p < top maps
unfolding Mapped top
below_top [] p m = absurd m
below_top (e ∷ maps) p (inl w) = omega arith
below_top (e ∷ maps) p (inr m) = omega (arith, below_top maps p m)

abbrev pub bump : ℕ → Mmap
bump page maps n = some (page * (top maps / page + 1))

pub bump-IsMmap : (page : ℕ) → 0 < page → IsMmap page (bump page)
bump-IsMmap page pos = record {
  aligned = λ maps n a e.
      subst (λ x. x % page ≡ 0) (some-injective _ a e) (mul-mod_right page (top maps / page + 1));
  fresh =
      λ maps n a p e w m. omega (arith, some-injective _ a e, below_top maps p m, above (top maps));
}
  where
    above : (t : ℕ) → t < page * (t / page + 1)
    above t = omega (arith, div-add-mod t page, mod-lt t pos, mul-add page (t / page) 1)
