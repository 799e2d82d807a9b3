-- ===== src/World.antt =====
-- What the functions that make and free the structures of events and rings change: the state of the default
-- allocator, `errno`, and how many condition variables, mutexes and mappings there are. The results of
-- `cnd_init` and `mtx_init` are parameters.
use libpussy.Base.{ℕ, suc, ◌-◌, ◌≡◌, refl, Bool, true, false, none, some, List, if◌then◌else◌}
use libpussy.Allocator.{Allocator}
use libpussy.MemoryMap.{MemoryMap}
use libpussy.RingBuffer.{
  nullptr, mapped, map_failed, RingBuffer, round_size, init_ringbuffer, fini_ringbuffer,
}

pub record World (S : Type 0) : Type 0 where
  pub heap : S
  pub conds : ℕ
  pub mutexes : ℕ
  pub mappings : ℕ
  pub errno : ℕ

-- `thrd_success`, `thrd_nomem` and any other result.
pub data Status : Type 0 where
  success nomem failure : Status

pub data MutexType : Type 0 where
  plain timed_recursive : MutexType

-- The page size is `sys_page_size`, 0 before it is known.
pub record System (S : Type 0) : Type 0 where
  pub allocator : Allocator S
  pub cnd_init : World S → Status
  pub mtx_init : MutexType → World S → Status
  pub map : MemoryMap
  pub page : ℕ

abbrev pub enomem : ℕ
enomem = 12

module _ {S : Type 0} (sys : System S) where
  -- `init_ringbuffer` and `fini_ringbuffer`, with the mapping counted.
  unfoldable pub init_ring : RingBuffer → ℕ → World S → Bool × (RingBuffer × World S)
  init_ring r size w =
      let (made, r') = init_ringbuffer sys.map sys.page r size in
      (made, (r', if made then record w { mappings = suc w.mappings } else w))

  unfoldable pub fini_ring : RingBuffer → World S → RingBuffer × World S
  fini_ring r w = (
    fini_ringbuffer sys.map sys.page r,
    elim r.buf [ nullptr ↦ w | _ ↦ record w { mappings = w.mappings - 1 } ],
  )

  pub init_ring_mapped :
      (r : RingBuffer) (size : ℕ) (w : World S) (b : List ℕ)
      → sys.map.mmap (round_size sys.map sys.page size) ≡ some b
      → init_ring r size w ≡ (
        true,
        (
          record { buf = mapped b; size = round_size sys.map sys.page size; head = 0; tail = 0 },
          record w { mappings = suc w.mappings },
        ),
      )
  unfolding init_ring init_ringbuffer round_size
  init_ring_mapped r size w b e = rw (init_ring, init_ringbuffer, e) refl

  pub init_ring_unmapped :
      (r : RingBuffer) (size : ℕ) (w : World S)
      → sys.map.mmap (round_size sys.map sys.page size) ≡ none
      → init_ring r size w
        ≡ (false, (record r { buf = map_failed; size = round_size sys.map sys.page size }, w))
  unfolding init_ring init_ringbuffer round_size
  init_ring_unmapped r size w e = rw (init_ring, init_ringbuffer, e) refl
