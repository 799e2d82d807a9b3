-- ===== src/Event.antt =====
-- src/sync_event.c: threads that set an event, clear it and wait for it, as a transition system. A step is what
-- one thread does between two points where another may go on. `cnd_wait` and `cnd_timedwait` release the mutex
-- and sleep in one step, may wake for no reason, and take the mutex again before they return. A timeout is one
-- that is not negative; when it expires is not said.
pub mod Waiting
pub mod Create
mod Tests
use libpussy.Base.{ℕ, suc, Bool, true, false, Option, none, some, ◌≡◌, if◌then◌else◌, update}

-- Where a thread is in `wait_event`, with whether it has a timeout; `deciding` has seen the flag clear.
pub data Waiter : Type 0 where
  outside : Waiter
  entering looking deciding asleep woken : Bool → Waiter
  expired : Waiter
  leaving returned : Bool → Waiter

-- `setting` counts the threads in `set_event` between the flag and the broadcast.
pub record Event : Type 0 where
  pub flag : Bool
  pub mtx : Option ℕ
  pub setting : ℕ
  pub waiter : ℕ → Waiter

unfoldable pub is_outside : Waiter → Bool
is_outside outside = true
is_outside (returned b) = true
is_outside _ = false

-- `cnd_broadcast` on one thread.
unfoldable pub wake : Waiter → Waiter
wake outside = outside
wake (entering timed) = entering timed
wake (looking timed) = looking timed
wake (deciding timed) = deciding timed
wake (asleep timed) = woken timed
wake (woken timed) = woken timed
wake expired = expired
wake (leaving b) = leaving b
wake (returned b) = returned b

-- What kind of step it is: one of `wait_event`, one of `set_event`, `clear_event`, or waking for no reason.
pub data Act : Type 0 where
  waits sets clears stirs : Act

-- `signalled` stays false behind `cnd_wait`, and is true behind `cnd_timedwait` unless the time is over.
pub data Step (s : Event) : Act → Event → Type 0 where
  enter :
      (i : ℕ) (timed : Bool)
      → is_outside (s.waiter i) ≡ true
      → Step s waits (record s { waiter = update s.waiter i (entering timed) })
  lock :
      (i : ℕ) (timed : Bool)
      → s.waiter i ≡ entering timed
      → s.mtx ≡ none
      → Step s waits (record s { mtx = some i; waiter = update s.waiter i (looking timed) })
  look :
      (i : ℕ) (timed : Bool)
      → s.waiter i ≡ looking timed
      → Step s waits (record s {
        waiter = update s.waiter i (if s.flag then leaving true else deciding timed);
      })
  sleep :
      (i : ℕ) (timed : Bool)
      → s.waiter i ≡ deciding timed
      → Step s waits (record s { mtx = none; waiter = update s.waiter i (asleep timed) })
  expire :
      (i : ℕ)
      → s.waiter i ≡ asleep true
      → Step s waits (record s { waiter = update s.waiter i expired })
  stir :
      (i : ℕ) (timed : Bool)
      → s.waiter i ≡ asleep timed
      → Step s stirs (record s { waiter = update s.waiter i (woken timed) })
  relock :
      (i : ℕ) (timed : Bool)
      → s.waiter i ≡ woken timed
      → s.mtx ≡ none
      → Step s waits (record s { mtx = some i; waiter = update s.waiter i (leaving timed) })
  relock_expired :
      (i : ℕ)
      → s.waiter i ≡ expired
      → s.mtx ≡ none
      → Step s waits (record s { mtx = some i; waiter = update s.waiter i (leaving false) })
  unlock :
      (i : ℕ) (b : Bool)
      → s.waiter i ≡ leaving b
      → Step s waits (record s { mtx = none; waiter = update s.waiter i (returned b) })
  set_flag : Step s sets (record s { flag = true; setting = suc s.setting })
  broadcast :
      (n : ℕ)
      → s.setting ≡ suc n
      → Step s sets (record s { setting = n; waiter = λ j. wake (s.waiter j) })
  clear : Step s clears (record s { flag = false })

-- Runs of the steps of some kinds.
pub data Reach (allowed : Act → Bool) (s : Event) : Event → Type 0 where
  start : Reach allowed s s
  later :
      {s' s'' : Event} (act : Act)
      → Reach allowed s s'
      → allowed act ≡ true
      → Step s' act s''
      → Reach allowed s s''
