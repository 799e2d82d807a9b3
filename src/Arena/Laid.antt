-- ===== src/Arena/Laid.antt =====
-- How the mappings of an arena (src/arena.c) lie above those that were there before it: one for the arena, and
-- one for each region behind the first.
use mathlib.Core.List.{map-append}
use mathlib.Core.Option.{some-injective}
use libpussy.Base.{
  ℕ, zero, suc, ◌+◌, ◌≡◌, refl, ap, sym, ◌∙◌, some, List, [], ◌∷◌, ◌++◌, map, get_elem?, set,
  length, arith, u32,
}
use libpussy.AddressSpace.{Extent, extent}
use libpussy.Arena.{Region, State, region_header_size, arena_header_size}

-- What an allocation does not change of a region.
abbrev pub shape : Region → Extent
shape r = extent r.address r.capacity

abbrev pub shapes : List Region → List Extent
shapes = map shape

abbrev pub region_mapping : Extent → Extent
region_mapping e = extent e.start (u32 (e.size + region_header_size))

-- Each mapping is put in front of the older ones.
unfoldable pub pile : List Extent → List Extent → List Extent
pile [] below = below
pile (e ∷ es) below = pile es (region_mapping e ∷ below)

unfoldable pub all_mappings : ℕ → List Extent → List Extent → List Extent
unfolding pile
all_mappings address [] below = below
all_mappings address (first ∷ es) below =
    pile es (extent address (u32 (first.size + arena_header_size)) ∷ below)

-- The mappings are those of the arena, above `below`.
abbrev pub Laid : State → List Extent → Type 0
Laid s below = s.maps ≡ all_mappings s.arena.address (shapes s.arena.regions) below

pub pile-append :
    (es below : List Extent) (e : Extent)
    → pile (es ++ (e ∷ [])) below ≡ region_mapping e ∷ pile es below
unfolding pile
pile-append [] below e = refl
pile-append (x ∷ es) below e = pile-append es (region_mapping x ∷ below) e

pub all_mappings-append :
    (address : ℕ) (rs : List Region) (r : Region) (below : List Extent) (n : ℕ)
    → length rs ≡ n + 1
    → all_mappings address (shapes (rs ++ (r ∷ []))) below
      ≡ region_mapping (shape r) ∷ all_mappings address (shapes rs) below
unfolding all_mappings
all_mappings-append address [] r below n e = absurd (omega arith)
all_mappings-append address (x ∷ rs) r below n e =
    ap (λ es. pile es (extent address (u32 (x.capacity + arena_header_size)) ∷ below))
      (map-append shape rs (r ∷ []))
    ∙ pile-append (shapes rs) (extent address (u32 (x.capacity + arena_header_size)) ∷ below)
        (shape r)

pub shapes-set :
    (rs : List Region) (i : ℕ) (r new : Region)
    → get_elem? rs i ≡ some r
    → shape new ≡ shape r
    → shapes (set rs i new) ≡ shapes rs
shapes-set [] i r new found same = refl
shapes-set (x ∷ rs) zero r new found same =
    ap (λ e. e ∷ shapes rs) (same ∙ sym (ap shape (some-injective x r found)))
shapes-set (x ∷ rs) (suc i) r new found same =
    ap (λ es. shape x ∷ es) (shapes-set rs i r new found same)
