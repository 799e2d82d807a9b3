-- ===== src/Arena/Tests.antt =====
-- The arena of src/arena.c on pages of 4096 bytes.
use Prim.{tt}
use libpussy.Base.{inl, inr, ℕ, ◌^◌, ◌≡◌, refl, arith, none, some, [], ◌∷◌, ok, aborted}
use libpussy.Align.{align_unsigned}
use libpussy.AddressSpace.{extent, Mapped}
use libpussy.AddressSpace.Bump.{bump, bump-IsMmap}
use libpussy.Arena.{Region, region_at, State, state, region_alloc, arena_alloc, arena_fit}
use libpussy.Arena.Room.{IsRegion}
use libpussy.Arena.Owned.{Covers, IsRegions}
use libpussy.Arena.Create.{IsArena}
use libpussy.Arena.Alloc.{Serves, arena_alloc-Serves, arena_fit-Serves}

-- An arena of one page with 100 bytes handed out.
abbrev first : Region
first = region_at 4112 100 4064

abbrev s : State
s =
    state (extent 4096 4096 ∷ [])
      (record { address = 4096; last = 0; new_region_capacity = 1000; regions = first ∷ [] })

first-IsRegion : IsRegion first
first-IsRegion = record { tail_inside = omega arith; small = omega arith; aligned = refl }

s-IsArena : IsArena 4096 s
unfolding IsRegions Covers Mapped
s-IsArena = record {
  regions = (first-IsRegion, λ p w c. c, tt);
  mapped = mapped;
  last = refl;
  small = omega arith;
}
  where
    mapped : (p : ℕ) → Covers s.arena.regions p → Mapped s.maps p
    mapped p (inl w) = inl (omega arith)
    mapped p (inr c) = absurd c

-- Rounded up to 104.
aligned_test :
    region_alloc first 8 8 ≡ ok (some (record { result = 4232; region = region_at 4112 112 4064 }))
unfolding region_alloc align_unsigned
aligned_test = refl

full_test : region_alloc first 4000 8 ≡ ok none
unfolding region_alloc align_unsigned
full_test = refl

bad_alignment_test : region_alloc first 8 3 ≡ aborted
unfolding region_alloc
bad_alignment_test = refl

arena_alloc-Serves_example :
    Serves (bump 4096) 4096 s 5000 (2 ^ 3) (arena_alloc (bump 4096) 4096 s 5000 (2 ^ 3))
arena_alloc-Serves_example =
    arena_alloc-Serves (bump 4096) 4096 (bump-IsMmap 4096 (omega arith)) refl (omega arith) 5000 3
      (omega arith) (omega arith) (omega arith) s s-IsArena

arena_fit-Serves_example :
    Serves (bump 4096) 4096 s 5000 (2 ^ 3) (arena_fit (bump 4096) 4096 s 5000 (2 ^ 3))
arena_fit-Serves_example =
    arena_fit-Serves (bump 4096) 4096 (bump-IsMmap 4096 (omega arith)) refl (omega arith) 5000 3
      (omega arith) (omega arith) (omega arith) s s-IsArena
