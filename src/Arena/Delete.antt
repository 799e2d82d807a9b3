-- ===== src/Arena/Delete.antt =====
-- `delete_arena` of src/arena.c unmaps what was mapped.
use Prim.{tt}
use mathlib.Core.Option.{none-ne-some, some-injective}
use mathlib.Core.Path.{subst}
use libpussy.Base.Returns.{Returns}
use libpussy.Base.{
  ℕ, ◌+◌, ◌%◌, ◌^◌, ◌≤◌, ◌<◌, ◌≡◌, inl, inr, refl, ap, sym, ◌∙◌, arith, Option, some, List, [], ◌∷◌,
  ◌++◌, length, ne→==, le→leb, u32, Run, ok,
}
use libpussy.AddressSpace.{Extent, extent, Mmap, IsMmap, munmap}
use libpussy.PageList.Ring.{NotIn}
use libpussy.Allocator.Ownership.Regions.{starts}
use libpussy.Arena.{
  Region, State, Result, returns, state, create_arena, arena_alloc, arena_fit, set_region_capacity,
  free_regions, delete_arena,
}
use libpussy.Arena.Owned.{Covers, IsRegions}
use libpussy.Arena.Create.{IsArena, create_arena_lem}
use libpussy.Arena.Alloc.{Serves, allocated, refused, arena_alloc-Serves, arena_fit-Serves}
use libpussy.Arena.Laid.{shape, shapes, region_mapping, pile, all_mappings, Laid}

-- A mapping is the first of its address behind those that start elsewhere.
munmap-append :
    (before after : List Extent) (e : Extent)
    → NotIn e.start (starts before)
    → munmap (before ++ (e ∷ after)) e.start e.size ≡ before ++ after
unfolding munmap NotIn
munmap-append [] after e away = ground arith
munmap-append (x ∷ before) after e away =
    rw (ne→== x.start e.start (λ same. away.0 (sym same)))
      (ap (λ t. x ∷ t) (munmap-append before after e away.1))

munmap-pile :
    (es before after : List Extent) (e : Extent)
    → NotIn e.start (starts es)
    → NotIn e.start (starts before)
    → munmap (pile es (before ++ (e ∷ after))) e.start e.size ≡ pile es (before ++ after)
unfolding pile NotIn
munmap-pile [] before after e away away' = munmap-append before after e away'
munmap-pile (x ∷ es) before after e away away' =
    munmap-pile es (region_mapping x ∷ before) after e away.1 (away.0, away')

-- Regions with no address in common start at different ones.
starts-NotIn : (p : ℕ) (rs : List Region) → ¬ Covers rs p → NotIn p (starts (shapes rs))
unfolding Covers NotIn
starts-NotIn p [] away = tt
starts-NotIn p (r ∷ rs) away =
    ((λ same. away (inl (omega arith))), starts-NotIn p rs (λ c. away (inr c)))

free_regions-pile :
    (rs : List Region) (below : List Extent)
    → IsRegions rs
    → free_regions (pile (shapes rs) below) rs ≡ ok below
unfolding free_regions IsRegions pile NotIn
free_regions-pile [] below wf = refl
free_regions-pile (r ∷ rs) below wf =
    rw
      (
        le→leb r.tail r.capacity wf.0.tail_inside,
        munmap-pile (shapes rs) [] below (region_mapping (shape r))
            (starts-NotIn r.address rs (wf.1 r.address (omega arith))) tt,
      )
      (free_regions-pile rs below wf.2)

delete_regions :
    (maps below : List Extent) (address last capacity : ℕ) (rs : List Region)
    → IsRegions rs
    → length rs ≡ last + 1
    → maps ≡ all_mappings address (shapes rs) below
    → delete_arena (
        state maps
          (record { address = address; last = last; new_region_capacity = capacity; regions = rs }))
      ≡ ok below
unfolding delete_arena IsRegions all_mappings NotIn
delete_regions maps below address last capacity [] wf one laid = absurd (omega arith)
delete_regions maps below address last capacity (first ∷ rs) wf one laid =
    let mapping = extent address (u32 (first.capacity + 32)) in
    rw
      (
        laid,
        free_regions-pile rs (mapping ∷ below) wf.2,
        le→leb first.tail first.capacity wf.0.tail_inside,
      )
      (ap ok (munmap-append [] below mapping tt))

module _ (mmap : Mmap) (page : ℕ) where
  -- A client uses an arena.
  pub data Uses : State → State → Type 0 where
    unused : {s : State} → Uses s s
    allocates :
        {s s' s'' : State} (size k : ℕ) (ptr : Option ℕ)
        → 0 < size
        → k ≤ 4
        → size + page + 32 ≤ 2 ^ 32
        → arena_alloc mmap page s size (2 ^ k) ≡ ok (returns ptr s')
        → Uses s' s''
        → Uses s s''
    fits :
        {s s' s'' : State} (size k : ℕ) (ptr : Option ℕ)
        → 0 < size
        → k ≤ 4
        → size + page + 32 ≤ 2 ^ 32
        → arena_fit mmap page s size (2 ^ k) ≡ ok (returns ptr s')
        → Uses s' s''
        → Uses s s''
    sets_capacity :
        {s s'' : State} (capacity : ℕ)
        → capacity + page + 32 ≤ 2 ^ 32
        → Uses (state s.maps (set_region_capacity s.arena capacity)) s''
        → Uses s s''

-- An arena that is well formed, above the mappings `below`.
record Stands (page : ℕ) (below : List Extent) (s : State) : Type 0 where
  wf : IsArena page s
  laid : Laid s below

module _ (mmap : Mmap) (page : ℕ) (law : IsMmap page mmap) (page_aligned : page % 16 ≡ 0)
    (some_page : 0 < page) (below : List Extent) where
  Serves-Stands :
      (s s' : State) (size alignment : ℕ) (ptr : Option ℕ) (result : Run Result)
      → Stands page below s
      → Serves mmap page s size alignment result
      → result ≡ ok (returns ptr s')
      → Stands page below s'
  unfolding Returns
  Serves-Stands s s' size alignment ptr result st serves e = subst (Returns P) e (before serves)
    where
      P : Result → Type 0
      P r = Stands page below r.after

      before : Serves mmap page s size alignment result → Returns P result
      before (allocated p t e' a) =
          subst (Returns P) (sym e') (record { wf = a.wf; laid = a.laid below st.laid })
      before (refused n failed e') = subst (Returns P) (sym e') st

  Uses-Stands : (s s' : State) → Stands page below s → Uses mmap page s s' → Stands page below s'
  unfolding set_region_capacity
  Uses-Stands s s' st unused = st
  Uses-Stands s s'' st (allocates {s' = s'} size k ptr some_bytes small fit e rest) =
      Uses-Stands s' s''
        (Serves-Stands s s' size (2 ^ k) ptr _ st
          (arena_alloc-Serves mmap page law page_aligned some_page size k some_bytes small fit s
            st.wf)
          e)
        rest
  Uses-Stands s s'' st (fits {s' = s'} size k ptr some_bytes small fit e rest) =
      Uses-Stands s' s''
        (Serves-Stands s s' size (2 ^ k) ptr _ st
          (arena_fit-Serves mmap page law page_aligned some_page size k some_bytes small fit s
            st.wf)
          e)
        rest
  Uses-Stands s s'' st (sets_capacity capacity fit rest) =
      Uses-Stands (state s.maps (set_region_capacity s.arena capacity)) s''
        (record {
          wf = record {
            regions = st.wf.regions;
            mapped = st.wf.mapped;
            last = st.wf.last;
            small = fit;
          };
          laid = st.laid;
        })
        rest

  -- After create_arena, and any sequence of _arena_alloc and _arena_fit, for at least one byte and at an
  -- alignment of at most 16, and of set_region_capacity, with sizes whose mappings fit 32 bits, on pages
  -- that are a multiple of 16 bytes, delete_arena returns and the mappings are exactly those there were
  -- before create_arena.
  pub delete_arena-Uses :
      (capacity : ℕ) (s s' : State)
      → capacity + page + 48 ≤ 2 ^ 32
      → create_arena mmap page below capacity ≡ some s
      → Uses mmap page s s'
      → delete_arena s' ≡ ok below
  delete_arena-Uses capacity s s' small created uses =
      let st = Uses-Stands s s' start uses in
      delete_regions s'.maps below s'.arena.address s'.arena.last s'.arena.new_region_capacity
        s'.arena.regions st.wf.regions st.wf.last st.laid
    where
      start : Stands page below s
      start = elim (create_arena_lem mmap page law page_aligned some_page below capacity small) [
        | inl c ↦
            subst (Stands page below) (some-injective _ _ (sym c.returned ∙ created))
              (record { wf = c.wf; laid = c.laid })
        | inr failed ↦ absurd (none-ne-some _ (sym failed.2 ∙ created))
      ]
