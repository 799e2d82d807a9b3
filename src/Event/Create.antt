-- ===== src/Event/Create.antt =====
-- `create_event` and `delete_event` of src/sync_event.c.
pub mod Balance
use libpussy.Base.{ℕ, suc, ◌-◌, Bool, true, false, Option, none, some, Run, ok, ◌>>=◌}
use libpussy.World.{World, System, Status, success, nomem, failure, timed_recursive, enomem}

-- `sizeof(Event)`: a `cnd_t` of 48 bytes, a `mtx_t` of 40, and the flag.
abbrev pub event_size : ℕ
event_size = 96

-- A pointer to an event, with the flag there.
pub record EventAt : Type 0 where
  pub address : ℕ
  pub flag : Bool

module _ {S : Type 0} (sys : System S) where
  -- The label `err`.
  unfoldable pub give_up : ℕ → ℕ → World S → Run (Option EventAt × World S)
  give_up e err w = do
    (p, h) ← sys.allocator.release w.heap (some e) event_size
    ok (none, record w { heap = h; errno = err })

  -- What follows `mtx_init`.
  unfoldable pub mtx_made : ℕ → World S → Status → Run (Option EventAt × World S)
  unfolding give_up
  mtx_made e w success =
      ok (some (record { address = e; flag = false }), record w { mutexes = suc w.mutexes })
  mtx_made e w nomem = give_up e enomem w
  mtx_made e w failure = give_up e 0 w

  -- What follows `cnd_init`.
  unfoldable pub cond_made : ℕ → World S → Status → Run (Option EventAt × World S)
  unfolding mtx_made
  cond_made e w success =
      let w' = record w { conds = suc w.conds } in mtx_made e w' (sys.mtx_init timed_recursive w')
  cond_made e w nomem = give_up e enomem w
  cond_made e w failure = give_up e 0 w

  -- What follows `allocate`. The block is clean, so the flag is clear.
  unfoldable pub event_allocated : World S → Option ℕ × S → Run (Option EventAt × World S)
  unfolding cond_made
  event_allocated w (none, h) = ok (none, record w { heap = h; errno = enomem })
  event_allocated w (some e, h) = let w' = record w { heap = h } in cond_made e w' (sys.cnd_init w')

  unfoldable pub create_event : World S → Run (Option EventAt × World S)
  unfolding event_allocated
  create_event w = sys.allocator.allocate w.heap event_size true >>= event_allocated w

  -- The outer `none` is a null `event_ptr`.
  unfoldable pub delete_event : Option (Option EventAt) → World S → Run (World S)
  delete_event none w = ok w
  delete_event (some none) w = ok w
  delete_event (some (some e)) w = do
    (p, h) ← sys.allocator.release w.heap (some e.address) event_size
    ok (record w { heap = h; mutexes = w.mutexes - 1; conds = w.conds - 1 })
