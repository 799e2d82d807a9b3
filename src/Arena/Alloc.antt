-- ===== src/Arena/Alloc.antt =====
-- `_arena_alloc` and `_arena_fit` of src/arena.c hand out memory that is nobody's yet.
use mathlib.Core.Option.{none-ne-some}
use mathlib.Core.Path.{subst, sym}
use libpussy.Base.{
  ℕ, ◌+◌, ◌%◌, ◌^◌, ◌≤◌, ◌<◌, ◌≡◌, inl, inr, refl, arith, none, some, List, [], ◌∷◌, ◌++◌, take,
  set, get_elem?, length, length-append, get_elem?-eq-get_or, length-set, take-all, ap, ap₂, ◌∙◌,
  Run, ok, Option-cases, ltb, if◌then◌else◌,
}
use libpussy.AddressSpace.{Extent, extent, Within, Mapped, Mmap, IsMmap}
use libpussy.Arena.{
  Region, region_at, Block, State, state, Result, returns, create_region, link_region, set_regions,
  new_region_alloc, arena_alloc, arena_fit,
}
use libpussy.Arena.Room.{Grants, NoRoom, region_alloc_lem, empty_has_room}
use libpussy.Arena.Create.{IsArena, Made, create_region-Made}
use libpussy.Arena.Fit.{fit_regions_lem}
use libpussy.Arena.Owned.{
  region_extent, region-IsRegion, Owned, Extends, Extends-new, Extends-append, Extends-set,
}
use libpussy.Arena.Laid.{
  shapes, region_mapping, all_mappings, Laid, all_mappings-append, shapes-set,
}

-- The `size` bytes at `ptr` were nobody's in `s`, and are handed out in `s'`; what was handed out in
-- `s` still is, no mapping is gone, and there is one for each region if there was.
pub record Allocated (page : ℕ) (s s' : State) (ptr size alignment : ℕ) : Type 0 where
  pub wf : IsArena page s'
  pub block : (p : ℕ) → Within (extent ptr size) p → Owned s'.arena.regions p
  pub fresh : (p : ℕ) → Within (extent ptr size) p → ¬ Owned s.arena.regions p
  pub keeps : (p : ℕ) → Owned s.arena.regions p → Owned s'.arena.regions p
  pub keeps_maps : (p : ℕ) → Mapped s.maps p → Mapped s'.maps p
  pub aligned : ptr % alignment ≡ 0
  pub laid : (below : List Extent) → Laid s below → Laid s' below

-- An allocation succeeds, or `mmap` fails and nothing changes.
pub data Serves (mmap : Mmap) (page : ℕ) (s : State) (size alignment : ℕ) (result : Run Result)
    : Type 0 where
  allocated :
      (ptr : ℕ) (s' : State)
      → result ≡ ok (returns (some ptr) s')
      → Allocated page s s' ptr size alignment
      → Serves mmap page s size alignment result
  refused :
      (n : ℕ)
      → mmap s.maps n ≡ none
      → result ≡ ok (returns none s)
      → Serves mmap page s size alignment result

Allocated-of :
    (page : ℕ) (s s' : State) (more : Extent) (ptr size alignment : ℕ)
    → IsArena page s
    → Extends more s.arena.regions s'.arena.regions ptr size
    → ((p : ℕ) → Mapped s.maps p → Mapped s'.maps p)
    → ((p : ℕ) → Within more p → Mapped s'.maps p)
    → length s'.arena.regions ≡ s'.arena.last + 1
    → s'.arena.new_region_capacity ≡ s.arena.new_region_capacity
    → ptr % alignment ≡ 0
    → ((below : List Extent) → Laid s below → Laid s' below)
    → Allocated page s s' ptr size alignment
Allocated-of page s s' more ptr size alignment wf e keeps_maps maps_more last same aligned laid =
    record {
      wf = record {
        regions = e.regions;
        mapped = λ p c. elim (e.covers p c) [
          | inl old ↦ keeps_maps p (wf.mapped p old)
          | inr new ↦ maps_more p new
        ];
        last = last;
        small = omega (arith, wf.small);
      };
      block = e.block;
      fresh = e.fresh;
      keeps = e.keeps;
      keeps_maps = keeps_maps;
      aligned = aligned;
      laid = laid;
    }

set_end :
    (rs : List Region) (r new : Region) → set (rs ++ (r ∷ [])) (length rs) new ≡ rs ++ (new ∷ [])
set_end [] r new = refl
set_end (x ∷ rs) r new = ap (λ t. x ∷ t) (set_end rs r new)

set_appended :
    (rs : List Region) (r new : Region) (n : ℕ)
    → length rs ≡ n
    → set (take n rs ++ (r ∷ [])) n new ≡ rs ++ (new ∷ [])
set_appended rs r new n e = rw (← e, take-all (length rs) rs (omega arith)) (set_end rs r new)

module _ (mmap : Mmap) (page : ℕ) (law : IsMmap page mmap) (page_aligned : page % 16 ≡ 0)
    (some_page : 0 < page) where
  module _ (size k : ℕ) (some_bytes : 0 < size) (small_alignment : k ≤ 4)
      (small_size : size + page + 32 ≤ 2 ^ 32) where
    new_region_alloc-Serves :
        (s : State)
        → IsArena page s
        → Serves mmap page s size (2 ^ k) (new_region_alloc mmap page s size (2 ^ k))
    unfolding new_region_alloc link_region set_regions
    new_region_alloc-Serves s wf =
        elim (create_region-Made mmap page law page_aligned some_page s.maps wanted fits) [
          | inr failed ↦ refused failed.0 failed.1 (rw (new_region_alloc, failed.2) refl)
          | inl got ↦ from_region got.0 got.1 got.2 got.3
        ]
      where
        wanted : ℕ
        wanted = if ltb s.arena.new_region_capacity size then size else s.arena.new_region_capacity

        fits : wanted + page + 32 ≤ 2 ^ 32
        fits = ground (arith, wf.small)

        from_region :
            (r : Region) (maps' : List Extent)
            → create_region mmap page s.maps wanted ≡ some (r, maps')
            → Made s.maps wanted r maps'
            → Serves mmap page s size (2 ^ k) (new_region_alloc mmap page s size (2 ^ k))
        from_region r maps' e made =
            elim (region_alloc_lem r size k made.wf some_bytes small_alignment) [
              | inr full ↦ absurd (
                  empty_has_room r size k made.wf small_alignment made.empty
                    (ground (arith, made.room)) full.1)
              | inl got ↦
                  let b = got.0 in
                  let grant = got.2 in
                  let s' = state maps' (
                    set_regions (link_region s.arena r) (
                      set (link_region s.arena r).regions (link_region s.arena r).last b.region)) in
                  allocated b.result s' (rw (new_region_alloc, e, got.1) refl) (
                    Allocated-of page s s' (region_extent r) b.result size (2 ^ k) wf
                      (at_end r b grant made) made.keeps_maps made.mapped
                      (ap length
                          (set_appended s.arena.regions r b.region (s.arena.last + 1) wf.last)
                        ∙ omega (arith, length-append s.arena.regions (b.region ∷ []), wf.last))
                      refl grant.aligned (laid_on r b grant made))
            ]
          where
            laid_on :
                (r : Region) (b : Block)
                → Grants r size (2 ^ k) b
                → Made s.maps wanted r maps'
                → (below : List Extent) → Laid s below
                → maps'
                  ≡ all_mappings s.arena.address
                      (shapes (
                        set
                          (take (s.arena.last + 1) s.arena.regions ++ (r ∷ []))
                          (s.arena.last + 1)
                          b.region))
                      below
            laid_on r b grant made below l =
                made.on_top
                ∙ ap₂ (λ e maps. region_mapping e ∷ maps)
                    (sym (ap₂ extent grant.same_address grant.same_capacity)) l
                ∙ sym (
                    all_mappings-append s.arena.address s.arena.regions b.region below s.arena.last
                      wf.last)
                ∙ ap (λ rs. all_mappings s.arena.address (shapes rs) below)
                    (sym (set_appended s.arena.regions r b.region (s.arena.last + 1) wf.last))

            at_end :
                (r : Region) (b : Block)
                → Grants r size (2 ^ k) b
                → Made s.maps wanted r maps'
                → Extends
                    (region_extent r)
                    s.arena.regions
                    (set
                      (take (s.arena.last + 1) s.arena.regions ++ (r ∷ []))
                      (s.arena.last + 1)
                      b.region)
                    b.result
                    size
            at_end r b grant made =
                subst (λ t. Extends (region_extent r) s.arena.regions t b.result size)
                  (sym (set_appended s.arena.regions r b.region (s.arena.last + 1) wf.last))
                  (Extends-append (region_extent r) s.arena.regions b.region b.result size
                    wf.regions (λ p c w. made.apart p w (wf.mapped p c))
                    (Extends-new r size (2 ^ k) b made.wf grant))

    -- For at least one byte, at an alignment that is a power of two of at most 16, with a size that stays a
    -- page and 32 bytes below 2^32, on pages of a multiple of 16 bytes, over an mmap that gives addresses
    -- of pages and no byte that is mapped already, `_arena_alloc` on a well formed arena does not abort: it
    -- hands out an aligned block that was nobody's, takes nothing back, and keeps one mapping for each
    -- region and the arena well formed, or mmap fails and nothing changes.
    pub arena_alloc-Serves :
        (s : State)
        → IsArena page s
        → Serves mmap page s size (2 ^ k) (arena_alloc mmap page s size (2 ^ k))
    unfolding arena_alloc set_regions
    arena_alloc-Serves s wf = elim (Option-cases (get_elem? s.arena.regions s.arena.last)) [
      | inl gone ↦ absurd (
          none-ne-some _ (
            sym gone
            ∙ get_elem?-eq-get_or s.arena.regions s.arena.last (region_at 0 0 0)
                (omega (arith, wf.last))))
      | inr found ↦ from_last found.0 found.1
    ]
      where
        from_last :
            (r : Region)
            → get_elem? s.arena.regions s.arena.last ≡ some r
            → Serves mmap page s size (2 ^ k) (arena_alloc mmap page s size (2 ^ k))
        from_last r found =
            elim (region_alloc_lem r size k
              (region-IsRegion s.arena.regions s.arena.last r wf.regions found) some_bytes
              small_alignment) [
                | inr full ↦
                    subst (Serves mmap page s size (2 ^ k))
                      (sym (rw (arena_alloc, found, full.0) refl)) (new_region_alloc-Serves s wf)
                | inl got ↦
                    allocated got.0.result
                      (state s.maps
                        (set_regions s.arena (set s.arena.regions s.arena.last got.0.region)))
                      (rw (arena_alloc, found, got.1) refl)
                      (Allocated-of page s _ (extent 0 0) got.0.result size (2 ^ k) wf
                        (Extends-set s.arena.regions s.arena.last r size (2 ^ k) got.0 wf.regions
                          found got.2)
                        (λ p m. m) (λ p w. absurd (omega arith))
                        (length-set s.arena.regions s.arena.last got.0.region ∙ wf.last) refl
                        got.2.aligned
                        (λ below l.
                          l
                          ∙ ap (λ es. all_mappings s.arena.address es below)
                              (sym (
                                shapes-set s.arena.regions s.arena.last r got.0.region found
                                  (ap₂ extent got.2.same_address got.2.same_capacity)))))
              ]

    -- For at least one byte, at an alignment that is a power of two of at most 16, with a size that stays a
    -- page and 32 bytes below 2^32, on pages of a multiple of 16 bytes, over an mmap that gives addresses
    -- of pages and no byte that is mapped already, `_arena_fit` on a well formed arena does not abort: it
    -- hands out an aligned block that was nobody's, takes nothing back, and keeps one mapping for each
    -- region and the arena well formed, or mmap fails and nothing changes.
    pub arena_fit-Serves :
        (s : State)
        → IsArena page s
        → Serves mmap page s size (2 ^ k) (arena_fit mmap page s size (2 ^ k))
    unfolding arena_fit set_regions
    arena_fit-Serves s wf =
        elim (fit_regions_lem size k some_bytes small_alignment s.arena.regions wf.regions) [
          | inr full ↦ rw full.0 (new_region_alloc-Serves s wf)
          | inl f ↦ rw f.returned (
              allocated f.ptr (state s.maps (set_regions s.arena f.after)) refl (
                Allocated-of page s _ (extent 0 0) f.ptr size (2 ^ k) wf f.extends (λ p m. m)
                  (λ p w. absurd (omega arith)) (f.same_length ∙ wf.last) refl f.aligned
                  (λ below l.
                    l ∙ ap (λ es. all_mappings s.arena.address es below) (sym f.same_shapes))))
        ]

    -- For at least one byte and at an alignment of at most 16, with sizes whose mappings fit 32 bits,
    -- `_arena_fit` on a well formed arena maps no memory while some region has an aligned place with enough
    -- room: it succeeds, and the mappings are the same.
    pub arena_fit-reuses :
        (s : State) (i : ℕ) (r : Region)
        → IsArena page s
        → get_elem? s.arena.regions i ≡ some r
        → ¬ NoRoom r size (2 ^ k)
        → (ptr : ℕ) × (s' : State) × (arena_fit mmap page s size (2 ^ k)
            ≡ ok (returns (some ptr) s'))
          × (s'.maps ≡ s.maps)
    unfolding arena_fit
    arena_fit-reuses s i r wf found room =
        elim (fit_regions_lem size k some_bytes small_alignment s.arena.regions wf.regions) [
          | inr full ↦ absurd (room (full.1 i r found))
          | inl f ↦ (f.ptr, state s.maps (set_regions s.arena f.after), rw f.returned refl, refl)
        ]
