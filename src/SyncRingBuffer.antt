-- ===== src/SyncRingBuffer.antt =====
-- src/ringbuffer_sync.c: threads that share a SyncRingBuffer, as a transition system. A step is what one
-- thread does between two points where another may go on: it calls, gets the mutex, works on the ring, sets
-- an event, unlocks and returns. The clients of the library clear the events.
pub mod Inv
pub mod Progress
pub mod Create
mod Tests
mod CreateTests
use libpussy.Base.{
  ℕ, Bool, true, false, Option, none, some, List, [], ◌∷◌, ◌≡◌, ◌&&◌, if◌then◌else◌, update, Run,
  ok, ◌>>=◌,
}
use libpussy.MemoryMap.{MemoryMap}
use libpussy.RingBuffer.{
  RingBuffer, init_ringbuffer, fini_ringbuffer, grow_ringbuffer, shrink_ringbuffer, read_ringbuffer,
  write_ringbuffer,
}

-- The calls of srb_grow, srb_shrink, srb_read and srb_write, with their arguments.
pub data Call : Type 0 where
  srb_grow : ℕ → Call
  srb_shrink : ℕ → Call
  srb_read : ℕ → Call
  srb_write : List ℕ → ℕ → Call

-- What a call returns; `srb_read` also fills the caller's buffer.
pub data Answer : Type 0 where
  flag : Bool → Answer
  nothing : Answer
  count : List ℕ → ℕ → Answer

-- The event that a call sets: `more`, `less` or none.
pub data Signal : Type 0 where
  more less silent : Signal

unfoldable pub signal_of : Call → Signal
signal_of (srb_grow n) = less
signal_of (srb_shrink n) = silent
signal_of (srb_read n) = less
signal_of (srb_write src n) = more

-- Where a thread is in its call.
pub data Place : Type 0 where
  idle : Place
  waiting inside : Call → Place
  worked signalled returned : Call → Answer → Place

pub record Entry : Type 0 where
  pub thread : ℕ
  pub call : Call
  pub answer : Answer

-- `log` has the work done so far, the newest first; it is not in the source.
pub record SyncRingBuffer : Type 0 where
  pub ringbuf : RingBuffer
  pub lock : Option ℕ
  pub more_flag : Bool
  pub less_flag : Bool
  pub place : ℕ → Place
  pub log : List Entry

-- `set_event`
unfoldable pub set_event : Signal → SyncRingBuffer → SyncRingBuffer
set_event more s = record s { more_flag = true }
set_event less s = record s { less_flag = true }
set_event silent s = s

unfoldable pub is_free : Place → Bool
is_free idle = true
is_free (waiting c) = false
is_free (inside c) = false
is_free (worked c a) = false
is_free (signalled c a) = false
is_free (returned c a) = true

-- No thread has called yet. The buffer is empty, so `less` is set.
unfoldable pub initial : RingBuffer → SyncRingBuffer
initial r = record {
  ringbuf = r;
  lock = none;
  more_flag = false;
  less_flag = true;
  place = λ i. idle;
  log = [];
}

module _ (m : MemoryMap) (page : ℕ) where
  -- The work on the ring while the mutex is held.
  unfoldable pub work : Call → RingBuffer → Run (Answer × RingBuffer)
  work (srb_grow n) r = do (b, r') ← grow_ringbuffer m page r n; ok (flag b, r')
  work (srb_shrink n) r = do r' ← shrink_ringbuffer m page r n; ok (nothing, r')
  work (srb_read n) r = do got ← read_ringbuffer r n; ok (count got.bytes got.count, got.ring)
  work (srb_write src n) r = do (b, r') ← write_ringbuffer r src n; ok (flag b, r')

  -- Work that does not return ends the program, so it has no step.
  pub data Step (s : SyncRingBuffer) : SyncRingBuffer → Type 0 where
    call :
        (i : ℕ) (c : Call)
        → is_free (s.place i) ≡ true
        → Step s (record s { place = update s.place i (waiting c) })
    acquire :
        (i : ℕ) (c : Call)
        → s.place i ≡ waiting c
        → s.lock ≡ none
        → Step s (record s { lock = some i; place = update s.place i (inside c) })
    do_work :
        (i : ℕ) (c : Call) (a : Answer) (r : RingBuffer)
        → s.place i ≡ inside c
        → work c s.ringbuf ≡ ok (a, r)
        → Step s (record s {
          ringbuf = r;
          place = update s.place i (worked c a);
          log = record { thread = i; call = c; answer = a } ∷ s.log;
        })
    signal :
        (i : ℕ) (c : Call) (a : Answer)
        → s.place i ≡ worked c a
        → Step s (set_event (signal_of c) (record s { place = update s.place i (signalled c a) }))
    unlock :
        (i : ℕ) (c : Call) (a : Answer)
        → s.place i ≡ signalled c a
        → Step s (record s { lock = none; place = update s.place i (returned c a) })
    clear_more : Step s (record s { more_flag = false })
    clear_less : Step s (record s { less_flag = false })

  pub data Reach (s : SyncRingBuffer) : SyncRingBuffer → Type 0 where
    start : Reach s s
    later : {s' s'' : SyncRingBuffer} → Reach s s' → Step s' s'' → Reach s s''
