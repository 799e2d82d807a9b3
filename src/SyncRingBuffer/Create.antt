-- ===== src/SyncRingBuffer/Create.antt =====
-- `srb_init`, `srb_fini`, `srb_create` and `srb_delete` of src/ringbuffer_sync.c.
pub mod Balance
pub mod RoundTrip
use libpussy.Base.{
  ℕ, suc, ◌-◌, Bool, true, false, Option, none, some, ◌==◌, if◌then◌else◌, Run, ok, aborted, ◌>>=◌,
}
use libpussy.RingBuffer.{Mapping, nullptr, RingBuffer}
use libpussy.Event.Create.{EventAt, create_event, delete_event}
use libpussy.World.{World, System, Status, success, nomem, failure, plain, init_ring, fini_ring}

-- `sizeof(SyncRingBuffer)`
abbrev pub srb_size : ℕ
srb_size = 80

-- The structure but for its mutex.
pub record Srb : Type 0 where
  pub ringbuf : RingBuffer
  pub more : Option EventAt
  pub less : Option EventAt

-- A pointer to the structure, with what is there.
pub record SrbAt : Type 0 where
  pub address : ℕ
  pub srb : Srb

-- A clean block.
abbrev pub zeroed_srb : Srb
zeroed_srb = record {
  ringbuf = record { buf = nullptr; size = 0; head = 0; tail = 0 };
  more = none;
  less = none;
}

module _ {S : Type 0} (sys : System S) where
  -- `fini_ringbuffer` and `return false`
  unfoldable pub init_failed : Srb → World S → Run (Bool × (Srb × World S))
  init_failed srb w =
      let (r, w') = fini_ring sys srb.ringbuf w in ok (false, (record srb { ringbuf = r }, w'))

  -- `delete_event` does not clear the pointers.
  unfoldable pub drop_events : Srb → World S → Run (Bool × (Srb × World S))
  unfolding init_failed
  drop_events srb w = do
    w' ← delete_event sys (some srb.more) w
    w'' ← delete_event sys (some srb.less) w'
    init_failed srb w''

  -- `less` is set.
  unfoldable pub with_events :
      Srb → World S → Option EventAt → Option EventAt → Run (Bool × (Srb × World S))
  unfolding drop_events
  with_events srb w (some more) (some less) =
      ok (true, (record srb { more = some more; less = some (record less { flag = true }) }, w))
  with_events srb w more less = drop_events (record srb { more = more; less = less }) w

  unfoldable pub make_events : Srb → World S → Run (Bool × (Srb × World S))
  unfolding with_events
  make_events srb w = do
    (more, w') ← create_event sys w
    (less, w'') ← create_event sys w'
    with_events srb w'' more less

  -- What follows `mtx_init`.
  unfoldable pub lock_made : Srb → World S → Status → Run (Bool × (Srb × World S))
  unfolding make_events init_failed
  lock_made srb w success = make_events srb (record w { mutexes = suc w.mutexes })
  lock_made srb w nomem = init_failed srb w
  lock_made srb w failure = init_failed srb w

  -- What follows `init_ringbuffer`.
  unfoldable pub ring_made : Srb → Bool × (RingBuffer × World S) → Run (Bool × (Srb × World S))
  unfolding lock_made
  ring_made srb (true, (r, w)) = lock_made (record srb { ringbuf = r }) w (sys.mtx_init plain w)
  ring_made srb (false, (r, w)) = ok (false, (record srb { ringbuf = r }, w))

  unfoldable pub srb_init : Srb → ℕ → World S → Run (Bool × (Srb × World S))
  unfolding ring_made
  srb_init srb size w = ring_made srb (init_ring sys srb.ringbuf size w)

  unfoldable pub srb_fini : Srb → World S → Run (Srb × World S)
  srb_fini srb w = elim srb.ringbuf.buf [
    | nullptr ↦ ok (srb, w)
    | _ ↦ do
      w' ← delete_event sys (some srb.more) (record w { mutexes = w.mutexes - 1 })
      w'' ← delete_event sys (some srb.less) w'
      let (r, w3) = fini_ring sys srb.ringbuf w''
      ok (record srb { ringbuf = r }, w3)
  ]

  -- What follows `srb_init`.
  unfoldable pub srb_ready : ℕ → Bool × (Srb × World S) → Run (Option SrbAt × World S)
  srb_ready a (true, (srb, w)) = ok (some (record { address = a; srb = srb }), w)
  srb_ready a (false, (srb, w)) = do
    (p, h) ← sys.allocator.release w.heap (some a) srb_size
    ok (none, record w { heap = h })

  -- What follows `allocate`.
  unfoldable pub srb_allocated : ℕ → World S → Option ℕ × S → Run (Option SrbAt × World S)
  unfolding srb_init srb_ready
  srb_allocated size w (none, h) = ok (none, record w { heap = h })
  srb_allocated size w (some a, h) =
      srb_init zeroed_srb size (record w { heap = h }) >>= srb_ready a

  unfoldable pub srb_create : ℕ → World S → Run (Option SrbAt × World S)
  unfolding srb_allocated
  srb_create size w =
      if sys.page == 0
      then aborted
      else sys.allocator.allocate w.heap srb_size true >>= srb_allocated size w

  -- The pointer is null afterwards.
  unfoldable pub srb_delete : Option SrbAt → World S → Run (Option SrbAt × World S)
  unfolding srb_fini
  srb_delete none w = ok (none, w)
  srb_delete (some at) w = do
    (srb, w') ← srb_fini at.srb w
    (p, h) ← sys.allocator.release w'.heap (some at.address) srb_size
    ok (none, record w' { heap = h })
