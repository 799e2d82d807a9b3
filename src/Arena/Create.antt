-- ===== src/Arena/Create.antt =====
-- `create_region` and `create_arena` of src/arena.c, and what a well formed arena is.
use native.Mathlib.Nat.{mod-eq-zero_of_dvd, dvd_trans, dvd_of_mod-eq-zero}
use Prim.{tt}
use mathlib.Core.Option.{some-injective}
use mathlib.Core.Path.{subst}
use libpussy.Base.{
  ℕ, ◌+◌, ◌%◌, ◌^◌, ◌≤◌, ◌<◌, ◌≡◌, ◌⊎◌, inl, inr, refl, arith, Option, none, some, List, [], ◌∷◌,
  get_elem?, length, ap, Option-cases, u32, sub32,
}
use libpussy.Align.Laws.{align_unsigned_bounds}
use libpussy.Align.{align_unsigned, align_unsigned_to_page}
use libpussy.AddressSpace.{Extent, extent, Within, Mapped, Mmap, IsMmap}
use libpussy.Arena.{Region, region_at, State, state, create_region, create_arena}
use libpussy.Arena.Room.{IsRegion}
use libpussy.Arena.Owned.{region_extent, Covers, Owned, IsRegions}
use libpussy.Arena.Laid.{shape, region_mapping, pile, all_mappings, Laid}

pub record IsArena (page : ℕ) (s : State) : Type 0 where
  pub regions : IsRegions s.arena.regions
  pub mapped : (p : ℕ) → Covers s.arena.regions p → Mapped s.maps p
  pub last : length s.arena.regions ≡ s.arena.last + 1
  pub small : s.arena.new_region_capacity + page + 32 ≤ 2 ^ 32

-- `create_arena` has returned an arena with nothing handed out, in a mapping of its own.
pub record Created (page capacity : ℕ) (maps : List Extent) (result : Option State) : Type 0 where
  pub made : State
  pub returned : result ≡ some made
  pub wf : IsArena page made
  pub unowned : (p : ℕ) → ¬ Owned made.arena.regions p
  pub room : (r : Region) → get_elem? made.arena.regions 0 ≡ some r → capacity ≤ r.capacity
  pub laid : Laid made maps

-- An empty region with room for `wanted` bytes, in a mapping of its own.
pub record Made (maps : List Extent) (wanted : ℕ) (r : Region) (maps' : List Extent) : Type 0 where
  pub wf : IsRegion r
  pub empty : r.tail ≡ 0
  pub room : wanted ≤ r.capacity
  pub apart : (p : ℕ) → Within (region_extent r) p → ¬ Mapped maps p
  pub keeps_maps : (p : ℕ) → Mapped maps p → Mapped maps' p
  pub mapped : (p : ℕ) → Within (region_extent r) p → Mapped maps' p
  pub on_top : maps' ≡ region_mapping (shape r) ∷ maps

module _ (mmap : Mmap) (page : ℕ) (law : IsMmap page mmap) (page_aligned : page % 16 ≡ 0)
    (some_page : 0 < page) where
  multiple_of_page : (a : ℕ) → a % page ≡ 0 → a % 16 ≡ 0
  multiple_of_page a h =
      mod-eq-zero_of_dvd 16
        (dvd_trans 16 (dvd_of_mod-eq-zero 16 page_aligned) (dvd_of_mod-eq-zero page h))

  pub create_region-Made :
      (maps : List Extent) (wanted : ℕ)
      → wanted + page + 32 ≤ 2 ^ 32
      → ((r : Region) × (maps' : List Extent) × (create_region mmap page maps wanted
            ≡ some (r, maps'))
          × Made maps wanted r maps')
        ⊎ ((n : ℕ) × (mmap maps n ≡ none) × (create_region mmap page maps wanted ≡ none))
  unfolding create_region align_unsigned_to_page Mapped
  create_region-Made maps wanted small = elim (Option-cases (mmap maps mem_size)) [
    | inl failed ↦ inr (mem_size, failed, rw (create_region, failed) refl)
    | inr got ↦ inl (
      region_at got.0 0 (sub32 mem_size 16),
      extent got.0 mem_size ∷ maps,
      rw (create_region, got.1) refl,
      made got.0 got.1,
    )
  ]
    where
      mem_size : ℕ
      mem_size = align_unsigned (u32 (wanted + 16)) page

      bounds : (wanted + 16 ≤ mem_size) × (mem_size < wanted + 16 + page)
      bounds =
          let e : u32 (wanted + 16) ≡ wanted + 16 = omega arith in
          rw e (align_unsigned_bounds (wanted + 16) page some_page (omega arith))

      made :
          (a : ℕ)
          → mmap maps mem_size ≡ some a
          → Made maps wanted (region_at a 0 (sub32 mem_size 16)) (extent a mem_size ∷ maps)
      made a got = record {
        wf = record {
          tail_inside = omega arith;
          small = omega (arith, bounds);
          aligned = multiple_of_page a (law.aligned maps mem_size a got);
        };
        empty = refl;
        room = omega (arith, bounds);
        apart = λ p w. law.fresh maps mem_size a p got (omega (arith, bounds));
        keeps_maps = λ p m. inr m;
        mapped = λ p w. inl (omega (arith, bounds));
        on_top = ap (λ n. extent a n ∷ maps) (omega (arith, bounds));
      }

  -- With room for the header and a page within 32 bits, `create_arena` returns a well formed arena that
  -- has handed out nothing and whose first region has the wanted capacity; or `mmap` fails.
  pub create_arena_lem :
      (maps : List Extent) (capacity : ℕ)
      → capacity + page + 48 ≤ 2 ^ 32
      → Created page capacity maps (create_arena mmap page maps capacity)
        ⊎ ((n : ℕ) × (mmap maps n ≡ none) × (create_arena mmap page maps capacity ≡ none))
  unfolding create_arena align_unsigned_to_page all_mappings pile Mapped Owned Covers IsRegions
  create_arena_lem maps capacity small = elim (Option-cases (mmap maps mem_size)) [
    | inl failed ↦ inr (mem_size, failed, rw (create_arena, failed) refl)
    | inr got ↦ inl (record {
      made = new got.0;
      returned = rw (create_arena, got.1) refl;
      wf = made got.0 got.1;
      unowned = unowned got.0;
      room =
          λ r e. subst (λ x. capacity ≤ x.capacity) (some-injective _ r e) (omega (arith, bounds));
      laid = laid got.0;
    })
  ]
    where
      mem_size : ℕ
      mem_size = align_unsigned (u32 (capacity + 32)) page

      bounds : (capacity + 32 ≤ mem_size) × (mem_size < capacity + 32 + page)
      bounds =
          let e : u32 (capacity + 32) ≡ capacity + 32 = omega arith in
          rw e (align_unsigned_bounds (capacity + 32) page some_page (omega arith))

      new : ℕ → State
      new a = state (extent a mem_size ∷ maps) (record {
        address = a;
        last = 0;
        new_region_capacity = capacity;
        regions = region_at (a + 16) 0 (sub32 mem_size 32) ∷ [];
      })

      laid : (a : ℕ) → Laid (new a) maps
      laid a = ap (λ n. extent a n ∷ maps) (omega (arith, bounds))

      unowned : (a p : ℕ) → ¬ Owned (new a).arena.regions p
      unowned a p (inl w) = omega arith
      unowned a p (inr o) = o

      in_mapping : (a p : ℕ) → Covers (new a).arena.regions p → Mapped (new a).maps p
      in_mapping a p (inl w) = inl (omega (arith, bounds))
      in_mapping a p (inr c) = absurd c

      made : (a : ℕ) → mmap maps mem_size ≡ some a → IsArena page (new a)
      made a got = record {
        regions = (
          record {
            tail_inside = omega arith;
            small = omega (arith, bounds);
            aligned = omega (arith, multiple_of_page a (law.aligned maps mem_size a got));
          },
          λ p w c. c,
          tt,
        );
        mapped = in_mapping a;
        last = omega arith;
        small = omega arith;
      }
