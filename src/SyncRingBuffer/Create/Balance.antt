-- ===== src/SyncRingBuffer/Create/Balance.antt =====
-- What `srb_init` of src/ringbuffer_sync.c leaves allocated, whichever of its calls fails.
use libpussy.Base.{
  ℕ, suc, ◌+◌, ◌≤◌, ◌≡◌, refl, arith, inl, inr, Bool, true, false, Option, none, some, List, [],
  ◌∷◌, ◌>>=◌, Option-cases,
}
use libpussy.Base.Returns.{Returns, Returns-bind}
use libpussy.Allocator.Ownership.{Block, Owns}
use libpussy.RingBuffer.{mapped, RingBuffer, round_size}
use libpussy.World.{
  init_ring_mapped, init_ring_unmapped, World, System, Status, success, nomem, failure, fini_ring,
}
use libpussy.Event.Create.{EventAt, create_event, delete_event}
use libpussy.Event.Create.Balance.{
  event_block, EventMade, Failed, Made, create_event-EventMade, delete_event-Deleted,
}
use libpussy.SyncRingBuffer.Create.{
  Srb, init_failed, drop_events, with_events, make_events, lock_made, ring_made, srb_init,
}

-- The ring of a structure is mapped.
abbrev pub IsMapped : RingBuffer → Type 0
IsMapped r = (b : List ℕ) × (r.buf ≡ mapped b)

module _ {S : Type 0} (Holds : S → List Block → Type 0) where
  -- Nothing is left over but, if `mtx_init` fails later, condition variables and a mutex.
  pub record Left (blocks : List Block) (w : World S) (mappings : ℕ) (w' : World S) : Type 0 where
    pub holds : Holds w'.heap blocks
    pub mapped : w'.mappings ≡ mappings
    pub kept_mutexes : w.mutexes ≤ w'.mutexes
    pub left_mutexes : w'.mutexes ≤ suc w.mutexes
    pub kept_conds : w.conds ≤ w'.conds
    pub left_conds : w'.conds ≤ w.conds + 2

  -- The structure has its events and its ring, and all is there that belongs to it.
  pub record Live (blocks : List Block) (w : World S) (srb : Srb) (w' : World S) : Type 0 where
    pub more : EventAt
    pub less : EventAt
    pub at_more : srb.more ≡ some more
    pub at_less : srb.less ≡ some less
    pub holds : Holds w'.heap (event_block less ∷ (event_block more ∷ blocks))
    pub ring : IsMapped srb.ringbuf
    pub one_mapping : w'.mappings ≡ suc w.mappings
    pub three_mutexes : w'.mutexes ≡ w.mutexes + 3
    pub two_conds : w'.conds ≡ w.conds + 2

  -- Nothing is written yet: the ring is empty, and only `less` is set.
  pub record Ready (blocks : List Block) (w : World S) (srb : Srb) (w' : World S) : Type 0 where
    pub live : Live blocks w srb w'
    pub is_empty : (srb.ringbuf.head ≡ 0) × (srb.ringbuf.tail ≡ 0)
    pub more_clear : live.more.flag ≡ false
    pub less_set : live.less.flag ≡ true

  unfoldable pub SrbMade : List Block → World S → Bool × (Srb × World S) → Type 0
  SrbMade blocks w (true, (srb, w')) = Ready blocks w srb w'
  SrbMade blocks w (false, (srb, w')) = Left blocks w w.mappings w'

  module _ (sys : System S) (owns : Owns Holds sys.allocator) (blocks : List Block)
      (w0 : World S) where
    -- The state behind `mtx_init`, before an event is made.
    record Locked (srb : Srb) (w : World S) : Type 0 where
      holds : Holds w.heap blocks
      ring : IsMapped srb.ringbuf
      is_empty : (srb.ringbuf.head ≡ 0) × (srb.ringbuf.tail ≡ 0)
      one_mapping : w.mappings ≡ suc w0.mappings
      one_mutex : w.mutexes ≡ suc w0.mutexes
      no_cond : w.conds ≡ w0.conds

    init_failed-Left :
        (srb : Srb) (w : World S)
        → IsMapped srb.ringbuf
        → Left blocks w0 (suc w0.mappings) w
        → Returns (SrbMade blocks w0) (init_failed sys srb w)
    unfolding init_failed fini_ring Returns SrbMade
    init_failed-Left srb w (b, e) l = rw e (record {
      holds = l.holds;
      mapped = omega (arith, l.mapped);
      kept_mutexes = l.kept_mutexes;
      left_mutexes = l.left_mutexes;
      kept_conds = l.kept_conds;
      left_conds = l.left_conds;
    })

    no_events :
        (srb : Srb) (w w1 w2 : World S)
        → Locked srb w
        → Failed Holds blocks w w1
        → Failed Holds blocks w1 w2
        → Returns (SrbMade blocks w0) (with_events sys srb w2 none none)
    unfolding with_events drop_events delete_event
    no_events srb w w1 w2 k f f' =
        init_failed-Left (record srb { more = none; less = none }) w2 k.ring
          (record {
            holds = f'.holds;
            mapped = omega arith;
            kept_mutexes = omega arith;
            left_mutexes = omega arith;
            kept_conds = omega arith;
            left_conds = omega arith;
          })

    only_less :
        (srb : Srb) (w w1 w2 : World S) (less : EventAt)
        → Locked srb w
        → Failed Holds blocks w w1
        → Made Holds blocks w1 less w2
        → Returns (SrbMade blocks w0) (with_events sys srb w2 none (some less))
    unfolding with_events drop_events delete_event
    only_less srb w w1 w2 less k f m =
        Returns-bind _ (delete_event sys (some (some less)) w2) _
          (delete_event-Deleted Holds sys owns [] blocks less w2 m.holds)
          (λ w3 d.
            init_failed-Left (record srb { more = none; less = some less }) w3 k.ring
              (record {
                holds = d.holds;
                mapped = omega arith;
                kept_mutexes = omega arith;
                left_mutexes = omega arith;
                kept_conds = omega arith;
                left_conds = omega arith;
              }))

    only_more :
        (srb : Srb) (w w1 w2 : World S) (more : EventAt)
        → Locked srb w
        → Made Holds blocks w more w1
        → Failed Holds (event_block more ∷ blocks) w1 w2
        → Returns (SrbMade blocks w0) (with_events sys srb w2 (some more) none)
    unfolding with_events drop_events delete_event
    only_more srb w w1 w2 more k m f =
        Returns-bind _ (delete_event sys (some (some more)) w2) _
          (delete_event-Deleted Holds sys owns [] blocks more w2 f.holds)
          (λ w3 d.
            init_failed-Left (record srb { more = some more; less = none }) w3 k.ring
              (record {
                holds = d.holds;
                mapped = omega arith;
                kept_mutexes = omega arith;
                left_mutexes = omega arith;
                kept_conds = omega arith;
                left_conds = omega arith;
              }))

    both :
        (srb : Srb) (w w1 w2 : World S) (more less : EventAt)
        → Locked srb w
        → Made Holds blocks w more w1
        → Made Holds (event_block more ∷ blocks) w1 less w2
        → Returns (SrbMade blocks w0) (with_events sys srb w2 (some more) (some less))
    unfolding with_events Returns SrbMade
    both srb w w1 w2 more less k m m' = record {
      live = record {
        more = more;
        less = record less { flag = true };
        at_more = refl;
        at_less = refl;
        holds = m'.holds;
        ring = k.ring;
        one_mapping = omega arith;
        three_mutexes = omega arith;
        two_conds = omega arith;
      };
      is_empty = k.is_empty;
      more_clear = m.is_clear;
      less_set = refl;
    }

    make_events-SrbMade :
        (srb : Srb) (w : World S)
        → Locked srb w
        → Returns (SrbMade blocks w0) (make_events sys srb w)
    unfolding make_events EventMade
    make_events-SrbMade srb w k =
        Returns-bind _ (create_event sys w) _
          (create_event-EventMade Holds sys owns blocks w k.holds) with_more
      where
        with_less_only :
            (w1 : World S)
            → Failed Holds blocks w w1
            → (r : Option EventAt × World S) → EventMade Holds blocks w1 r
            → Returns (SrbMade blocks w0) (with_events sys srb r.1 none r.0)
        with_less_only w1 f (none, w2) f' = no_events srb w w1 w2 k f f'
        with_less_only w1 f (some less, w2) m = only_less srb w w1 w2 less k f m

        with_both :
            (w1 : World S) (more : EventAt)
            → Made Holds blocks w more w1
            → (r : Option EventAt × World S) → EventMade Holds (event_block more ∷ blocks) w1 r
            → Returns (SrbMade blocks w0) (with_events sys srb r.1 (some more) r.0)
        with_both w1 more m (none, w2) f = only_more srb w w1 w2 more k m f
        with_both w1 more m (some less, w2) m' = both srb w w1 w2 more less k m m'

        with_more :
            (r : Option EventAt × World S)
            → EventMade Holds blocks w r
            → Returns
                (SrbMade blocks w0)
                (create_event sys r.1 >>= (λ r'. with_events sys srb r'.1 r.0 r'.0))
        with_more (none, w1) f =
            Returns-bind _ (create_event sys w1) _
              (create_event-EventMade Holds sys owns blocks w1 f.holds) (with_less_only w1 f)
        with_more (some more, w1) m =
            Returns-bind _ (create_event sys w1) _
              (create_event-EventMade Holds sys owns (event_block more ∷ blocks) w1 m.holds)
              (with_both w1 more m)

    no_lock :
        (w : World S)
        → Holds w.heap blocks
        → w.mappings ≡ suc w0.mappings
        → w.mutexes ≡ w0.mutexes
        → w.conds ≡ w0.conds
        → Left blocks w0 (suc w0.mappings) w
    no_lock w h maps mtx cond = record {
      holds = h;
      mapped = maps;
      kept_mutexes = omega arith;
      left_mutexes = omega arith;
      kept_conds = omega arith;
      left_conds = omega arith;
    }

    lock_made-SrbMade :
        (srb : Srb) (w : World S) (status : Status)
        → Holds w.heap blocks
        → IsMapped srb.ringbuf
        → (srb.ringbuf.head ≡ 0) × (srb.ringbuf.tail ≡ 0)
        → w.mappings ≡ suc w0.mappings
        → w.mutexes ≡ w0.mutexes
        → w.conds ≡ w0.conds
        → Returns (SrbMade blocks w0) (lock_made sys srb w status)
    unfolding lock_made
    lock_made-SrbMade srb w success h ring empty maps mtx cond =
        make_events-SrbMade srb (record w { mutexes = suc w.mutexes })
          (record {
            holds = h;
            ring = ring;
            is_empty = empty;
            one_mapping = maps;
            one_mutex = omega arith;
            no_cond = cond;
          })
    lock_made-SrbMade srb w nomem h ring empty maps mtx cond =
        init_failed-Left srb w ring (no_lock w h maps mtx cond)
    lock_made-SrbMade srb w failure h ring empty maps mtx cond =
        init_failed-Left srb w ring (no_lock w h maps mtx cond)

    pub srb_init-SrbMade :
        (srb : Srb) (size : ℕ) (w : World S)
        → Holds w.heap blocks
        → w.mappings ≡ w0.mappings
        → w.mutexes ≡ w0.mutexes
        → w.conds ≡ w0.conds
        → Returns (SrbMade blocks w0) (srb_init sys srb size w)
    unfolding srb_init ring_made Returns SrbMade
    srb_init-SrbMade srb size w h maps mtx cond =
        elim (Option-cases (sys.map.mmap (round_size sys.map sys.page size))) [
          | inl e ↦ rw (init_ring_unmapped sys srb.ringbuf size w e) (record {
            holds = h;
            mapped = maps;
            kept_mutexes = omega arith;
            left_mutexes = omega arith;
            kept_conds = omega arith;
            left_conds = omega arith;
          })
          | inr (b, e) ↦ rw (init_ring_mapped sys srb.ringbuf size w b e) (
              lock_made-SrbMade
                (record srb {
                  ringbuf = record {
                    buf = mapped b;
                    size = round_size sys.map sys.page size;
                    head = 0;
                    tail = 0;
                  };
                })
                (record w { mappings = suc w.mappings }) _ h (b, refl) (refl, refl) (omega arith)
                mtx cond)
        ]
