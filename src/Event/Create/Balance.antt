-- ===== src/Event/Create/Balance.antt =====
-- What `create_event` and `delete_event` of src/sync_event.c leave allocated.
use libpussy.Base.{
  ℕ, suc, ◌-◌, ◌≤◌, ◌≡◌, refl, ap, arith, true, false, Option, none, some, List, [], ◌∷◌, ◌++◌, ok,
}
use libpussy.Base.Returns.{Returns, Returns-bind}
use libpussy.Allocator.Ownership.{Block, Granted, TakenBack, Owns}
use libpussy.World.{World, System, Status, success, nomem, failure}
use libpussy.Event.Create.{
  EventAt, event_size, give_up, mtx_made, cond_made, event_allocated, create_event, delete_event,
}

abbrev pub event_block : EventAt → Block
event_block e = record { address = e.address; size = event_size }

module _ {S : Type 0} (Holds : S → List Block → Type 0) where
  -- Without an event no block is left over, but the condition variable may be.
  pub record Failed (blocks : List Block) (w w' : World S) : Type 0 where
    pub holds : Holds w'.heap blocks
    pub same_mappings : w'.mappings ≡ w.mappings
    pub same_mutexes : w'.mutexes ≡ w.mutexes
    pub kept_conds : w.conds ≤ w'.conds
    pub left_conds : w'.conds ≤ suc w.conds

  pub record Made (blocks : List Block) (w : World S) (e : EventAt) (w' : World S) : Type 0 where
    pub holds : Holds w'.heap (event_block e ∷ blocks)
    pub is_clear : e.flag ≡ false
    pub same_mappings : w'.mappings ≡ w.mappings
    pub one_mutex : w'.mutexes ≡ suc w.mutexes
    pub one_cond : w'.conds ≡ suc w.conds

  unfoldable pub EventMade : List Block → World S → Option EventAt × World S → Type 0
  EventMade blocks w (none, w') = Failed blocks w w'
  EventMade blocks w (some e, w') = Made blocks w e w'

  -- An event is gone, with its condition variable and its mutex.
  pub record Deleted (blocks : List Block) (w w' : World S) : Type 0 where
    pub holds : Holds w'.heap blocks
    pub same_mappings : w'.mappings ≡ w.mappings
    pub less_mutexes : w'.mutexes ≡ w.mutexes - 1
    pub less_conds : w'.conds ≡ w.conds - 1

  module _ (sys : System S) (owns : Owns Holds sys.allocator) where
    give_up-Failed :
        (blocks : List Block) (e err : ℕ) (w0 w : World S)
        → Holds w.heap (record { address = e; size = event_size } ∷ blocks)
        → w.mappings ≡ w0.mappings
        → w.mutexes ≡ w0.mutexes
        → w0.conds ≤ w.conds
        → w.conds ≤ suc w0.conds
        → Returns (EventMade blocks w0) (give_up sys e err w)
    unfolding give_up Returns EventMade TakenBack
    give_up-Failed blocks e err w0 w h maps mtx low high =
        Returns-bind _ (sys.allocator.release w.heap (some e) event_size) _
          (owns.takes_back w.heap [] blocks (record { address = e; size = event_size }) h) released
      where
        released :
            (r : Option ℕ × S)
            → TakenBack Holds blocks r
            → Returns (EventMade blocks w0) (ok (none, record w { heap = r.1; errno = err }))
        released (none, h) t = record {
          holds = t;
          same_mappings = maps;
          same_mutexes = mtx;
          kept_conds = low;
          left_conds = high;
        }
        released (some p, h) t = elim t [ ]

    mtx_made-EventMade :
        (blocks : List Block) (e : ℕ) (w0 w : World S) (status : Status)
        → Holds w.heap (record { address = e; size = event_size } ∷ blocks)
        → w.mappings ≡ w0.mappings
        → w.mutexes ≡ w0.mutexes
        → w.conds ≡ suc w0.conds
        → Returns (EventMade blocks w0) (mtx_made sys e w status)
    unfolding mtx_made Returns EventMade
    mtx_made-EventMade blocks e w0 w success h maps mtx cond = record {
      holds = h;
      is_clear = refl;
      same_mappings = maps;
      one_mutex = ap suc mtx;
      one_cond = cond;
    }
    mtx_made-EventMade blocks e w0 w nomem h maps mtx cond =
        give_up-Failed blocks e _ w0 w h maps mtx (omega arith) (omega arith)
    mtx_made-EventMade blocks e w0 w failure h maps mtx cond =
        give_up-Failed blocks e _ w0 w h maps mtx (omega arith) (omega arith)

    cond_made-EventMade :
        (blocks : List Block) (e : ℕ) (w0 w : World S) (status : Status)
        → Holds w.heap (record { address = e; size = event_size } ∷ blocks)
        → w.mappings ≡ w0.mappings
        → w.mutexes ≡ w0.mutexes
        → w.conds ≡ w0.conds
        → Returns (EventMade blocks w0) (cond_made sys e w status)
    unfolding cond_made
    cond_made-EventMade blocks e w0 w success h maps mtx cond =
        mtx_made-EventMade blocks e w0 (record w { conds = suc w.conds }) _ h maps mtx (ap suc cond)
    cond_made-EventMade blocks e w0 w nomem h maps mtx cond =
        give_up-Failed blocks e _ w0 w h maps mtx (omega arith) (omega arith)
    cond_made-EventMade blocks e w0 w failure h maps mtx cond =
        give_up-Failed blocks e _ w0 w h maps mtx (omega arith) (omega arith)

    pub create_event-EventMade :
        (blocks : List Block) (w : World S)
        → Holds w.heap blocks
        → Returns (EventMade blocks w) (create_event sys w)
    unfolding create_event event_allocated Granted Returns EventMade
    create_event-EventMade blocks w h =
        Returns-bind _ (sys.allocator.allocate w.heap event_size true) _
          (owns.grants w.heap blocks event_size true (omega arith) h) allocated
      where
        allocated :
            (r : Option ℕ × S)
            → Granted Holds event_size blocks r
            → Returns (EventMade blocks w) (event_allocated sys w r)
        allocated (none, h) g = record {
          holds = g;
          same_mappings = refl;
          same_mutexes = refl;
          kept_conds = omega arith;
          left_conds = omega arith;
        }
        allocated (some e, h) g =
            cond_made-EventMade blocks e w (record w { heap = h }) _ g refl refl refl

    pub delete_event-Deleted :
        (before after : List Block) (e : EventAt) (w : World S)
        → Holds w.heap (before ++ (event_block e ∷ after))
        → Returns (Deleted (before ++ after) w) (delete_event sys (some (some e)) w)
    unfolding delete_event Returns TakenBack
    delete_event-Deleted before after e w h =
        Returns-bind _ (sys.allocator.release w.heap (some e.address) event_size) _
          (owns.takes_back w.heap before after (event_block e) h) released
      where
        released :
            (r : Option ℕ × S)
            → TakenBack Holds (before ++ after) r
            → Returns
                (Deleted (before ++ after) w)
                (ok (record w { heap = r.1; mutexes = w.mutexes - 1; conds = w.conds - 1 }))
        released (none, h) t = record {
          holds = t;
          same_mappings = refl;
          less_mutexes = refl;
          less_conds = refl;
        }
        released (some p, h) t = elim t [ ]
