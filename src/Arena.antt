-- ===== src/Arena.antt =====
-- src/arena.c. The regions are the linked list from `first` on, `last` is the place of the last one in
-- it; an address is a number. The parameters of the system, `mmap` and the page size, are arguments,
-- and the mappings there are belong to the state.
pub mod Room
pub mod Owned
pub mod Laid
pub mod Fit
pub mod Create
pub mod Alloc
pub mod Delete
mod Tests
mod DeleteTests
use libpussy.Base.{
  ℕ, zero, suc, ◌+◌, ◌-◌, ◌^◌, bit_and, ◌≡◌, Bool, true, false, not, ◌&&◌, Option, none, some, List,
  [], ◌∷◌, ◌++◌, ltb, leb, ◌==◌, if◌then◌else◌, u32, sub32, Run, ok, aborted, undefined, ◌>>=◌,
  get_elem?, set, take,
}
use libpussy.Align.{align_unsigned, align_unsigned_to_page}
use libpussy.AddressSpace.{Extent, extent, Mmap, munmap}

-- `address` is where the header of the region is; `data` is 16 bytes behind it.
pub record Region : Type 0 where
  pub address : ℕ
  pub tail : ℕ
  pub capacity : ℕ

abbrev pub region_at : ℕ → ℕ → ℕ → Region
region_at address tail capacity = record { address = address; tail = tail; capacity = capacity }

pub record Arena : Type 0 where
  pub address : ℕ
  pub last : ℕ
  pub new_region_capacity : ℕ
  pub regions : List Region

-- `offsetof(Region, data)`, and the size of an arena up to the data of its first region.
abbrev pub region_header_size : ℕ
region_header_size = 16

abbrev pub arena_header_size : ℕ
arena_header_size = 32

-- The place of `first` in an arena.
abbrev pub first_offset : ℕ
first_offset = 16

abbrev pub max_alignment : ℕ
max_alignment = 16

unfoldable pub is_power_of_two : ℕ → Bool
is_power_of_two v = not (v == 0) && (bit_and v (v - 1) == 0)

pub record Block : Type 0 where
  pub result : ℕ
  pub region : Region

-- `none` is the null pointer, and leaves the region as it was.
unfoldable pub region_alloc : Region → ℕ → ℕ → Run (Option Block)
unfolding is_power_of_two
region_alloc r size alignment =
    let start =
      sub32 (align_unsigned (u32 (r.tail + region_header_size)) alignment) region_header_size in
    if ltb 0 size && (leb alignment max_alignment && is_power_of_two alignment)
    then (if leb r.capacity start
        then ok none
        else if ltb (r.capacity - start) size
        then ok none
        else ok (
            some (record {
              result = r.address + region_header_size + start;
              region = region_at r.address (start + size) r.capacity;
            })))
    else aborted

pub record State : Type 0 where
  pub maps : List Extent
  pub arena : Arena

pub record Result : Type 0 where
  pub pointer : Option ℕ
  pub after : State

abbrev pub state : List Extent → Arena → State
state maps arena = record { maps = maps; arena = arena }

abbrev pub returns : Option ℕ → State → Result
returns pointer after = record { pointer = pointer; after = after }

-- `arena->last->next = new_region; arena->last = new_region;`, and then the region is allocated from.
unfoldable pub link_region : Arena → Region → Arena
link_region a r = record {
  address = a.address;
  last = a.last + 1;
  new_region_capacity = a.new_region_capacity;
  regions = take (a.last + 1) a.regions ++ (r ∷ []);
}

unfoldable pub set_regions : Arena → List Region → Arena
set_regions a rs = record {
  address = a.address;
  last = a.last;
  new_region_capacity = a.new_region_capacity;
  regions = rs;
}

-- The first region with room, in the order of the list.
unfoldable pub fit_regions : List Region → ℕ → ℕ → Run (Option (ℕ × List Region))
fit_regions [] size alignment = ok none
fit_regions (r ∷ rs) size alignment = do
  b ← region_alloc r size alignment
  elim b [
    | some b ↦ ok (some (b.result, b.region ∷ rs))
    | none ↦ do
      rest ← fit_regions rs size alignment
      elim rest [ some rest ↦ ok (some (rest.0, r ∷ rest.1)) | none ↦ ok none ]
  ]

unfoldable pub set_region_capacity : Arena → ℕ → Arena
set_region_capacity a capacity = record {
  address = a.address;
  last = a.last;
  new_region_capacity = capacity;
  regions = a.regions;
}

module _ (mmap : Mmap) (page : ℕ) where
  -- The mapped size of a region, and the region in it.
  unfoldable pub create_region : List Extent → ℕ → Option (Region × List Extent)
  create_region maps capacity =
      let mem_size = align_unsigned_to_page page (u32 (capacity + region_header_size)) in
      elim (mmap maps mem_size) [
        | none ↦ none
        | some a ↦
            some (region_at a 0 (sub32 mem_size region_header_size), extent a mem_size ∷ maps)
      ]

  unfoldable pub new_region_alloc : State → ℕ → ℕ → Run Result
  unfolding create_region link_region set_regions
  new_region_alloc s size alignment =
      let arena = s.arena in
      let wanted = if ltb arena.new_region_capacity size then size else arena.new_region_capacity in
      elim (create_region s.maps wanted) [
        | none ↦ ok (returns none s)
        | some made ↦ do
          let linked = link_region arena made.0
          b ← region_alloc made.0 size alignment
          elim b [
            | none ↦ ok (returns none (state made.1 linked))
            | some b ↦ ok (
                returns (some b.result)
                  (state made.1 (set_regions linked (set linked.regions linked.last b.region))))
          ]
      ]

  unfoldable pub create_arena : List Extent → ℕ → Option State
  create_arena maps capacity =
      let mem_size = align_unsigned_to_page page (u32 (capacity + arena_header_size)) in
      elim (mmap maps mem_size) [
        | none ↦ none
        | some a ↦ some (
            state (extent a mem_size ∷ maps) (record {
              address = a;
              last = 0;
              new_region_capacity = capacity;
              regions = region_at (a + first_offset) 0 (sub32 mem_size arena_header_size) ∷ [];
            }))
      ]

  unfoldable pub arena_alloc : State → ℕ → ℕ → Run Result
  unfolding new_region_alloc
  arena_alloc s size alignment =
      let arena = s.arena in
      elim (get_elem? arena.regions arena.last) [
        | none ↦ undefined
        | some r ↦ do
          b ← region_alloc r size alignment
          elim b [
            | none ↦ new_region_alloc s size alignment
            | some b ↦ ok (
                returns (some b.result)
                  (state s.maps (set_regions arena (set arena.regions arena.last b.region))))
          ]
      ]

  unfoldable pub arena_fit : State → ℕ → ℕ → Run Result
  unfolding new_region_alloc
  arena_fit s size alignment = do
    let arena = s.arena
    b ← fit_regions arena.regions size alignment
    elim b [
      | none ↦ new_region_alloc s size alignment
      | some b ↦ ok (returns (some b.0) (state s.maps (set_regions arena b.1)))
    ]

abbrev pub free_region : List Extent → Region → List Extent
free_region maps r = munmap maps r.address (u32 (r.capacity + region_header_size))

abbrev pub free_arena : List Extent → ℕ → Region → List Extent
free_arena maps address first = munmap maps address (u32 (first.capacity + arena_header_size))

-- The regions behind the first.
unfoldable pub free_regions : List Extent → List Region → Run (List Extent)
free_regions maps [] = ok maps
free_regions maps (r ∷ rs) =
    if leb r.tail r.capacity then free_regions (free_region maps r) rs else aborted

unfoldable pub delete_arena : State → Run (List Extent)
unfolding free_regions
delete_arena s =
    let arena = s.arena in
    elim arena.regions [
      | [] ↦ undefined
      | first ∷ rs ↦ do
        maps ← free_regions s.maps rs
        if leb first.tail first.capacity then ok (free_arena maps arena.address first) else aborted
    ]
