-- ===== src/RingBuffer/Create/RoundTrip.antt =====
-- What `create_ringbuffer` and `delete_ringbuffer` of src/ringbuffer_base.c leave allocated.
use libpussy.Base.{
  ℕ, suc, ◌-◌, ◌≡◌, ◌≢◌, refl, arith, ne→==, false, Option, none, some, List, [], ◌∷◌, inl, inr, ok,
  Option-cases,
}
use libpussy.Base.Returns.{Returns, Returns-bind}
use libpussy.Allocator.Ownership.{Block, Granted, TakenBack, Owns}
use libpussy.RingBuffer.{mapped, map_failed, RingBuffer, round_size}
use libpussy.World.{World, System, fini_ring, init_ring_mapped, init_ring_unmapped}
use libpussy.RingBuffer.Create.{
  RingBufferAt, ringbuffer_size, ring_ready, ring_allocated, create_ringbuffer, delete_ringbuffer,
}

abbrev pub ring_block : ℕ → Block
ring_block a = record { address = a; size = ringbuffer_size }

module _ {S : Type 0} (Holds : S → List Block → Type 0) where
  -- The block and the mapping of the ring are there.
  pub record Live (blocks : List Block) (w : World S) (at : RingBufferAt) (w' : World S)
      : Type 0 where
    pub holds : Holds w'.heap (ring_block at.address ∷ blocks)
    pub ring : (b : List ℕ) × (at.ringbuf.buf ≡ mapped b)
    pub one_mapping : w'.mappings ≡ suc w.mappings

  pub record Balanced (blocks : List Block) (w w' : World S) : Type 0 where
    pub holds : Holds w'.heap blocks
    pub same_mappings : w'.mappings ≡ w.mappings

  unfoldable pub Created : List Block → World S → Option RingBufferAt × World S → Type 0
  Created blocks w (none, w') = Balanced blocks w w'
  Created blocks w (some at, w') =
      Live blocks w at w' × (at.ringbuf.head ≡ 0) × (at.ringbuf.tail ≡ 0)

  module _ (sys : System S) (owns : Owns Holds sys.allocator) (blocks : List Block)
      (w0 : World S) where
    unmapped-Created :
        (a : ℕ) (r : RingBuffer) (w : World S)
        → Holds w.heap (ring_block a ∷ blocks)
        → w.mappings ≡ w0.mappings
        → Returns (Created blocks w0) (ring_ready sys a (false, (r, w)))
    unfolding ring_ready Created Returns TakenBack
    unmapped-Created a r w h maps =
        Returns-bind _ (sys.allocator.release w.heap (some a) ringbuffer_size) _
          (owns.takes_back w.heap [] blocks (ring_block a) h) released
      where
        released :
            (r : Option ℕ × S)
            → TakenBack Holds blocks r
            → Returns (Created blocks w0) (ok (none, record w { heap = r.1 }))
        released (none, h) t = record { holds = t; same_mappings = maps }
        released (some p, h) t = elim t [ ]

    allocated-Created :
        (unset : RingBuffer) (size : ℕ) (r : Option ℕ × S)
        → Granted Holds ringbuffer_size blocks r
        → Returns (Created blocks w0) (ring_allocated sys unset size w0 r)
    unfolding ring_allocated Granted Created Returns ring_ready
    allocated-Created unset size (none, h) g = record { holds = g; same_mappings = refl }
    allocated-Created unset size (some a, h) g =
        elim (Option-cases (sys.map.mmap (round_size sys.map sys.page size))) [
          | inl e ↦ rw (init_ring_unmapped sys unset size (record w0 { heap = h }) e) (
              unmapped-Created a
                (record unset { buf = map_failed; size = round_size sys.map sys.page size })
                (record w0 { heap = h }) g refl)
          | inr (b, e) ↦
              rw (init_ring_mapped sys unset size (record w0 { heap = h }) b e)
                (record { holds = g; ring = (b, refl); one_mapping = refl }, refl, refl)
        ]

    pub create_ringbuffer-Created :
        (unset : RingBuffer) (size : ℕ)
        → sys.page ≢ 0
        → Holds w0.heap blocks
        → Returns (Created blocks w0) (create_ringbuffer sys unset size w0)
    unfolding create_ringbuffer
    create_ringbuffer-Created unset size known h = rw (ne→== sys.page 0 known) (
        Returns-bind _ (sys.allocator.allocate w0.heap ringbuffer_size false) _
          (owns.grants w0.heap blocks ringbuffer_size false (omega arith) h)
          (allocated-Created unset size))

    pub delete_ringbuffer-Balanced :
        (at : RingBufferAt) (w : World S)
        → Live blocks w0 at w
        → Returns (λ r. (r.0 ≡ none) × Balanced blocks w0 r.1) (delete_ringbuffer sys (some at) w)
    unfolding delete_ringbuffer fini_ring Returns TakenBack
    delete_ringbuffer-Balanced at w live =
        let (b, e) = live.ring in
        rw e (
          Returns-bind _ (sys.allocator.release w.heap (some at.address) ringbuffer_size) _
            (owns.takes_back w.heap [] blocks (ring_block at.address) live.holds) released)
      where
        released :
            (r : Option ℕ × S)
            → TakenBack Holds blocks r
            → (◌≡◌ {A = Option RingBufferAt} none none)
              × Balanced blocks w0 (record w { heap = r.1; mappings = w.mappings - 1 })
        released (none, h) t =
            (refl, record { holds = t; same_mappings = omega (arith, live.one_mapping) })
        released (some p, h) t = elim t [ ]
