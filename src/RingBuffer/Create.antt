-- ===== src/RingBuffer/Create.antt =====
-- `create_ringbuffer` and `delete_ringbuffer` of src/ringbuffer_base.c.
pub mod RoundTrip
use libpussy.Base.{
  ℕ, Bool, true, false, Option, none, some, ◌==◌, if◌then◌else◌, Run, ok, aborted, ◌>>=◌,
}
use libpussy.RingBuffer.{RingBuffer}
use libpussy.World.{World, System, init_ring, fini_ring}

-- `sizeof(RingBuffer)`
abbrev pub ringbuffer_size : ℕ
ringbuffer_size = 24

-- A pointer to a ring buffer, with the structure there.
pub record RingBufferAt : Type 0 where
  pub address : ℕ
  pub ringbuf : RingBuffer

module _ {S : Type 0} (sys : System S) where
  -- What follows `init_ringbuffer`.
  unfoldable pub ring_ready :
      ℕ → Bool × (RingBuffer × World S) → Run (Option RingBufferAt × World S)
  ring_ready a (true, (r, w)) = ok (some (record { address = a; ringbuf = r }), w)
  ring_ready a (false, (r, w)) = do
    (p, h) ← sys.allocator.release w.heap (some a) ringbuffer_size
    ok (none, record w { heap = h })

  -- What follows `allocate`.
  unfoldable pub ring_allocated :
      RingBuffer → ℕ → World S → Option ℕ × S → Run (Option RingBufferAt × World S)
  unfolding ring_ready
  ring_allocated unset size w (none, h) = ok (none, record w { heap = h })
  ring_allocated unset size w (some a, h) =
      ring_ready a (init_ring sys unset size (record w { heap = h }))

  -- The block is not clean: `unset` is what it has.
  unfoldable pub create_ringbuffer : RingBuffer → ℕ → World S → Run (Option RingBufferAt × World S)
  unfolding ring_allocated
  create_ringbuffer unset size w =
      if sys.page == 0
      then aborted
      else sys.allocator.allocate w.heap ringbuffer_size false >>= ring_allocated unset size w

  -- The pointer is null afterwards.
  unfoldable pub delete_ringbuffer :
      Option RingBufferAt → World S → Run (Option RingBufferAt × World S)
  delete_ringbuffer none w = ok (none, w)
  delete_ringbuffer (some at) w =
      let w' = (fini_ring sys at.ringbuf w).1 in
      do
        (p, h) ← sys.allocator.release w'.heap (some at.address) ringbuffer_size
        ok (none, record w' { heap = h })
