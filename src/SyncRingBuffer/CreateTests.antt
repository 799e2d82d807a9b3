-- ===== src/SyncRingBuffer/CreateTests.antt =====
-- Synchronised rings of src/ringbuffer_sync.c over the debug allocator, with pages of 4 bytes.
use Prim.{tt}
use libpussy.Base.{
  ℕ, Run, Option, ◌≡◌, refl, arith, true, false, some, [], ◌∷◌, ◌==◌, if◌then◌else◌, ok, ◌>>=◌,
  replicate,
}
use libpussy.Base.Returns.{Returns}
use libpussy.AddressSpace.Bump.{top}
use libpussy.PageList.Ring.{Distinct, NotIn}
use libpussy.Heap.{Heap, malloc_or_calloc, free_region}
use libpussy.MemoryMap.Zeroed.{zeroed}
use libpussy.Allocator.Ownership.Bump.{bump_malloc, bump_malloc-IsMalloc}
use libpussy.Allocator.Ownership.Debug.{AllWrapped, debug_allocator-Owns}
use libpussy.Allocator.Ownership.Debug
use libpussy.Allocator.Ownership.Stdlib.{stdlib_allocator-Owns}
use libpussy.Allocator.Ownership.Stdlib
use libpussy.DebugAllocator.{debug_allocator}
use libpussy.StdlibAllocator.{stdlib_allocator}
use libpussy.AddressSpace.{extent}
use libpussy.StdlibAllocator
use libpussy.Align.{align_unsigned}
use libpussy.RingBuffer.{mapped, init_ringbuffer, fini_ringbuffer, round_size}
use libpussy.Event.Create.{
  create_event, event_allocated, cond_made, mtx_made, give_up, delete_event,
}
use libpussy.World.{World, System, success, failure, init_ring, fini_ring}
use libpussy.SyncRingBuffer.Create.{
  SrbAt, srb_create, srb_delete, srb_allocated, srb_init, ring_made, lock_made, make_events,
  with_events, drop_events, init_failed, srb_ready,
}
use libpussy.SyncRingBuffer.Create.Balance.{Live}
use libpussy.SyncRingBuffer.Create.RoundTrip.{
  srb_block, Created, Gone, srb_create-Created, srb_delete-Gone,
}

abbrev no_blocks : World Heap
no_blocks = record {
  heap = record { bytes = λ p. 0; regions = []; blocks_allocated = 0 };
  conds = 0;
  mutexes = 0;
  mappings = 0;
  errno = 0;
}

no_blocks-Holds : Debug.Holds no_blocks.heap []
unfolding Distinct AllWrapped
no_blocks-Holds = record { regions = refl; distinct = tt; wrapped = tt; counter = omega arith }

abbrev working : System Heap
working = record {
  allocator = debug_allocator bump_malloc;
  cnd_init = λ w. success;
  mtx_init = λ type w. success;
  map = zeroed;
  page = 4;
}

-- The mutex of the second event cannot be made.
abbrev failing : System Heap
failing = record working { mtx_init = λ type w. if w.mutexes == 2 then failure else success }

srb_create-Created_example :
    Returns (Created Debug.Holds [] no_blocks) (srb_create failing 8 no_blocks)
srb_create-Created_example =
    srb_create-Created Debug.Holds failing (debug_allocator-Owns bump_malloc bump_malloc-IsMalloc)
      [] no_blocks 8 (λ e. omega arith) no_blocks-Holds

-- A ring that was made over `malloc`: the structure at 16, the events at 112 and 224.
abbrev over_malloc : System Heap
over_malloc = record working { allocator = stdlib_allocator bump_malloc }

abbrev made : SrbAt
made = record {
  address = 16;
  srb = record {
    ringbuf = record { buf = mapped (replicate 8 0); size = 8; head = 0; tail = 2 };
    more = some (record { address = 112; flag = true });
    less = some (record { address = 224; flag = false });
  };
}

abbrev in_use : World Heap
in_use = record {
  heap = record {
    bytes = λ p. 0;
    regions = extent 224 96 ∷ (extent 112 96 ∷ (extent 16 80 ∷ []));
    blocks_allocated = 3;
  };
  conds = 2;
  mutexes = 3;
  mappings = 1;
  errno = 0;
}

made-Live : Live Stdlib.Holds (srb_block 16 ∷ []) no_blocks made.srb in_use
unfolding Distinct NotIn
made-Live = record {
  more = record { address = 112; flag = true };
  less = record { address = 224; flag = false };
  at_more = refl;
  at_less = refl;
  holds = record {
    regions = refl;
    distinct =
        (((λ e. omega arith), ((λ e. omega arith), tt)), (((λ e. omega arith), tt), (tt, tt)));
  };
  ring = (replicate 8 0, refl);
  one_mapping = refl;
  three_mutexes = refl;
  two_conds = refl;
}

srb_delete-Gone_example :
    Returns (Gone Stdlib.Holds [] no_blocks) (srb_delete over_malloc (some made) in_use)
srb_delete-Gone_example =
    srb_delete-Gone Stdlib.Holds over_malloc
      (stdlib_allocator-Owns bump_malloc bump_malloc-IsMalloc) [] no_blocks made in_use made-Live

-- The mutex of the ring and the condition variable of the second event are left over.
abbrev left_over : Option SrbAt × World Heap → Run (ℕ × ℕ)
left_over (p, w) = ok (w.mutexes, w.conds)

leak_test :
    srb_create (record failing { allocator = stdlib_allocator bump_malloc }) 8 no_blocks
      >>= left_over
    ≡ ok (1, 1)
unfolding srb_create srb_allocated srb_init ring_made lock_made make_events with_events drop_events
    init_failed srb_ready create_event event_allocated cond_made mtx_made give_up delete_event
    init_ring fini_ring init_ringbuffer fini_ringbuffer round_size align_unsigned
    StdlibAllocator.allocate StdlibAllocator.release malloc_or_calloc free_region top
leak_test = refl
