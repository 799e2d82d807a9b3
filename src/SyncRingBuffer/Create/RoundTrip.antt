-- ===== src/SyncRingBuffer/Create/RoundTrip.antt =====
-- `srb_create` and `srb_delete` of src/ringbuffer_sync.c, over an allocator that keeps its promises.
use libpussy.Base.{
  ℕ, ◌-◌, ◌≡◌, ◌≢◌, refl, arith, ne→==, Bool, true, false, Option, none, some, List, [], ◌∷◌, ok,
}
use libpussy.Base.Returns.{Returns, Returns-bind}
use libpussy.Allocator.Ownership.{Block, Granted, TakenBack, Owns}
use libpussy.World.{World, System, fini_ring}
use libpussy.Event.Create.{delete_event}
use libpussy.Event.Create.Balance.{event_block, delete_event-Deleted}
use libpussy.SyncRingBuffer.Create.{
  Srb, SrbAt, srb_size, zeroed_srb, srb_init, srb_ready, srb_allocated, srb_create, srb_fini,
  srb_delete,
}
use libpussy.SyncRingBuffer.Create.Balance.{Left, Live, Ready, SrbMade, srb_init-SrbMade}

abbrev pub srb_block : ℕ → Block
srb_block a = record { address = a; size = srb_size }

module _ {S : Type 0} (Holds : S → List Block → Type 0) where
  unfoldable pub Created : List Block → World S → Option SrbAt × World S → Type 0
  Created blocks w (none, w') = Left Holds blocks w w.mappings w'
  Created blocks w (some at, w') = Ready Holds (srb_block at.address ∷ blocks) w at.srb w'

  -- All is as it was before the structure was made, and the pointer is null.
  unfoldable pub Gone : List Block → World S → Option SrbAt × World S → Type 0
  Gone blocks w r =
      (r.0 ≡ none)
      × Holds r.1.heap blocks
      × (r.1.mappings ≡ w.mappings)
      × (r.1.mutexes ≡ w.mutexes)
      × (r.1.conds ≡ w.conds)

  module _ (sys : System S) (owns : Owns Holds sys.allocator) (blocks : List Block)
      (w0 : World S) where
    ready-Created :
        (a : ℕ) (r : Bool × (Srb × World S))
        → SrbMade Holds (srb_block a ∷ blocks) w0 r
        → Returns (Created blocks w0) (srb_ready sys a r)
    unfolding srb_ready SrbMade Created Returns TakenBack
    ready-Created a (true, (srb, w)) made = made
    ready-Created a (false, (srb, w)) left =
        Returns-bind _ (sys.allocator.release w.heap (some a) srb_size) _
          (owns.takes_back w.heap [] blocks (srb_block a) left.holds) released
      where
        released :
            (r : Option ℕ × S)
            → TakenBack Holds blocks r
            → Returns (Created blocks w0) (ok (none, record w { heap = r.1 }))
        released (none, h) t = record {
          holds = t;
          mapped = left.mapped;
          kept_mutexes = omega arith;
          left_mutexes = omega arith;
          kept_conds = omega arith;
          left_conds = omega arith;
        }
        released (some p, h) t = elim t [ ]

    allocated-Created :
        (size : ℕ) (r : Option ℕ × S)
        → Granted Holds srb_size blocks r
        → Returns (Created blocks w0) (srb_allocated sys size w0 r)
    unfolding srb_allocated Granted Created Returns
    allocated-Created size (none, h) g = record {
      holds = g;
      mapped = refl;
      kept_mutexes = omega arith;
      left_mutexes = omega arith;
      kept_conds = omega arith;
      left_conds = omega arith;
    }
    allocated-Created size (some a, h) g =
        Returns-bind _ (srb_init sys zeroed_srb size (record w0 { heap = h })) _
          (srb_init-SrbMade Holds sys owns (srb_block a ∷ blocks) w0 zeroed_srb size
            (record w0 { heap = h }) g refl refl refl)
          (ready-Created a)

    -- Over an allocator that keeps account of its blocks, once the page size is known, srb_create returns
    -- whichever of allocate, mmap, mtx_init and cnd_init fail. It returns a structure with an empty ring,
    -- the event less set and more clear, and holds one block for the structure and one for each event, a
    -- mapping, three mutexes and two condition variables more; or null, with the blocks and mappings as
    -- before, at most one mutex and at most two condition variables left over.
    pub srb_create-Created :
        (size : ℕ)
        → sys.page ≢ 0
        → Holds w0.heap blocks
        → Returns (Created blocks w0) (srb_create sys size w0)
    unfolding srb_create
    srb_create-Created size known h = rw (ne→== sys.page 0 known) (
        Returns-bind _ (sys.allocator.allocate w0.heap srb_size true) _
          (owns.grants w0.heap blocks srb_size true (omega arith) h) (allocated-Created size))

    srb_fini-Gone :
        (block : Block) (srb : Srb) (w : World S)
        → Live Holds (block ∷ blocks) w0 srb w
        → Returns (λ r. Gone (block ∷ blocks) w0 (none, r.1)) (srb_fini sys srb w)
    unfolding srb_fini Returns Gone fini_ring
    srb_fini-Gone block srb w live =
        let (b, mapped_at) = live.ring in
        rw (mapped_at, live.at_more, live.at_less)
          (Returns-bind _
            (delete_event sys (some (some live.more)) (record w { mutexes = w.mutexes - 1 })) _
            (delete_event-Deleted Holds sys owns (event_block live.less ∷ []) (block ∷ blocks)
              live.more (record w { mutexes = w.mutexes - 1 }) live.holds)
            (λ w1 d1.
              Returns-bind _ (delete_event sys (some (some live.less)) w1) _
                (delete_event-Deleted Holds sys owns [] (block ∷ blocks) live.less w1 d1.holds)
                (λ w2 d2. (refl, d2.holds, omega arith, omega arith, omega arith))))

    -- Over an allocator that keeps account of its blocks, srb_delete on a structure with its ring and its
    -- two events returns null and gives back the three blocks, the mapping, the three mutexes and the two
    -- condition variables.
    pub srb_delete-Gone :
        (at : SrbAt) (w : World S)
        → Live Holds (srb_block at.address ∷ blocks) w0 at.srb w
        → Returns (Gone blocks w0) (srb_delete sys (some at) w)
    unfolding srb_delete Returns Gone TakenBack
    srb_delete-Gone at w live =
        Returns-bind _ (srb_fini sys at.srb w) _
          (srb_fini-Gone (srb_block at.address) at.srb w live)
          (λ r gone.
            Returns-bind _ (sys.allocator.release r.1.heap (some at.address) srb_size) _
              (owns.takes_back r.1.heap [] blocks (srb_block at.address) gone.1)
              (released r.1 (gone.2, gone.3, gone.4)))
      where
        released :
            (w : World S)
            → (w.mappings ≡ w0.mappings) × (w.mutexes ≡ w0.mutexes) × (w.conds ≡ w0.conds)
            → (r : Option ℕ × S) → TakenBack Holds blocks r
            → Gone blocks w0 (none, record w { heap = r.1 })
        released w same (none, h) t = (refl, t, same.0, same.1, same.2)
        released w same (some p, h) t = elim t [ ]
