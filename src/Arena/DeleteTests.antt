-- ===== src/Arena/DeleteTests.antt =====
-- An arena of src/arena.c from `create_arena` to `delete_arena`, on pages of 4096 bytes.
use libpussy.Base.{◌^◌, ◌≡◌, refl, arith, some, List, [], ◌∷◌, ok}
use libpussy.Align.{align_unsigned, align_unsigned_to_page}
use libpussy.AddressSpace.{Extent, extent}
use libpussy.AddressSpace.Bump.{top, bump, bump-IsMmap}
use libpussy.Arena.{
  region_at, is_power_of_two, region_alloc, State, state, returns, create_region, link_region,
  set_regions, new_region_alloc, fit_regions, create_arena, arena_alloc, arena_fit, delete_arena,
}
use libpussy.Arena.Delete.{unused, allocates, fits, delete_arena-Uses}

abbrev below : List Extent
below = extent 0 100 ∷ []

-- An arena of one page.
abbrev made : State
made = state (extent 4096 4096 ∷ below) (record {
  address = 4096;
  last = 0;
  new_region_capacity = 100;
  regions = region_at 4112 0 4064 ∷ [];
})

-- 5000 bytes took a new region.
abbrev two_regions : State
two_regions = state (extent 12288 8192 ∷ (extent 4096 4096 ∷ below)) (record {
  address = 4096;
  last = 1;
  new_region_capacity = 100;
  regions = region_at 4112 0 4064 ∷ (region_at 12288 5000 8176 ∷ []);
})

-- Ten bytes fit in the first.
abbrev fitted : State
fitted = state two_regions.maps (record two_regions.arena {
  regions = region_at 4112 10 4064 ∷ (region_at 12288 5000 8176 ∷ []);
})

create_test : create_arena (bump 4096) 4096 below 100 ≡ some made
unfolding create_arena align_unsigned_to_page align_unsigned top
create_test = refl

alloc_test : arena_alloc (bump 4096) 4096 made 5000 (2 ^ 4) ≡ ok (returns (some 12304) two_regions)
unfolding arena_alloc new_region_alloc create_region link_region set_regions region_alloc
    is_power_of_two align_unsigned_to_page align_unsigned top
alloc_test = refl

fit_test : arena_fit (bump 4096) 4096 two_regions 10 (2 ^ 3) ≡ ok (returns (some 4128) fitted)
unfolding arena_fit fit_regions set_regions region_alloc is_power_of_two align_unsigned
fit_test = refl

delete_arena-Uses_example : delete_arena fitted ≡ ok below
delete_arena-Uses_example =
    delete_arena-Uses (bump 4096) 4096 (bump-IsMmap 4096 (omega arith)) refl (omega arith) below 100
      made fitted (omega arith) create_test
      (allocates 5000 4 (some 12304) (omega arith) (omega arith) (omega arith) alloc_test
        (fits 10 3 (some 4128) (omega arith) (omega arith) (omega arith) fit_test unused))
