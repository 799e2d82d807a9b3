-- ===== src/SyncRingBuffer/Inv.antt =====
-- The threads of src/ringbuffer_sync.c take turns, and their calls have the effect of one call after another.
use mathlib.Core.Option.{some-injective, none-ne-some}
use libpussy.Base.{
  ℕ, ◌≡◌, ◌≢◌, refl, sym, ap, ◌∙◌, Bool, true, false, Option, none, some, List, [], ◌∷◌, ◌==◌,
  if◌then◌else◌, update, arith, update-elim, ok,
}
use libpussy.MemoryMap.{MemoryMap}
use libpussy.RingBuffer.{RingBuffer}
use libpussy.SyncRingBuffer.{
  Call, Answer, Place, idle, waiting, inside, worked, signalled, returned, Entry, Signal, more,
  less, silent, SyncRingBuffer, signal_of, set_event, is_free, initial, work, Step, call, acquire,
  do_work, signal, unlock, clear_more, clear_less, Reach, start, later,
}

-- The thread is between the lock and the unlock.
unfoldable pub is_critical : Place → Bool
is_critical idle = false
is_critical (waiting c) = false
is_critical (inside c) = true
is_critical (worked c a) = true
is_critical (signalled c a) = true
is_critical (returned c a) = false

-- The call whose work is done, with its answer.
unfoldable pub answer_of : Place → Option (Call × Answer)
answer_of idle = none
answer_of (waiting c) = none
answer_of (inside c) = none
answer_of (worked c a) = some (c, a)
answer_of (signalled c a) = some (c, a)
answer_of (returned c a) = some (c, a)

-- The last work of thread `i`.
unfoldable pub last_of : ℕ → List Entry → Option (Call × Answer)
last_of i [] = none
last_of i (e ∷ log) = if i == e.thread then some (e.call, e.answer) else last_of i log

free_outside : (p : Place) → is_free p ≡ true → ¬ (is_critical p ≡ true)
unfolding is_free is_critical
free_outside idle free critical = cc
free_outside (waiting c) free critical = cc
free_outside (inside c) free critical = cc
free_outside (worked c a) free critical = cc
free_outside (signalled c a) free critical = cc
free_outside (returned c a) free critical = cc

same_thread : (i : ℕ) → (i == i) ≡ true
same_thread i = ground arith

other_thread : (j i : ℕ) → j ≢ i → (j == i) ≡ false
other_thread j i ne = ground arith

module _ (m : MemoryMap) (page : ℕ) where
  -- One call after another, in the order of the log, turns the one ring into the other, with these answers.
  pub data Replays (r : RingBuffer) : List Entry → RingBuffer → Type 0 where
    no_call : Replays r [] r
    one_more :
        {log : List Entry} {r' r'' : RingBuffer} (e : Entry)
        → Replays r log r'
        → work m page e.call r' ≡ ok (e.answer, r'')
        → Replays r (e ∷ log) r''

  pub record Inv (r : RingBuffer) (s : SyncRingBuffer) : Type 0 where
    pub sequential : Replays r s.log s.ringbuf
    pub holder : (i : ℕ) → is_critical (s.place i) ≡ true → s.lock ≡ some i
    pub held : (i : ℕ) → s.lock ≡ some i → is_critical (s.place i) ≡ true
    pub logged :
        (i : ℕ) (e : Call × Answer) → answer_of (s.place i) ≡ some e → last_of i s.log ≡ some e

  Inv-initial : (r : RingBuffer) → Inv r (initial r)
  unfolding initial is_critical answer_of
  Inv-initial r = record {
    sequential = no_call;
    holder = λ i e. cc;
    held = λ i e. absurd (none-ne-some i e);
    logged = λ i e h. absurd (none-ne-some e h);
  }

  set_event-Inv :
      {r : RingBuffer} {s : SyncRingBuffer} (g : Signal) → Inv r s → Inv r (set_event g s)
  unfolding set_event
  set_event-Inv more v = record {
    sequential = v.sequential;
    holder = v.holder;
    held = v.held;
    logged = v.logged;
  }
  set_event-Inv less v = record {
    sequential = v.sequential;
    holder = v.holder;
    held = v.held;
    logged = v.logged;
  }
  set_event-Inv silent v = v

  -- A thread goes on outside the work on the ring, the lock being as it should.
  moved :
      {r : RingBuffer} {s : SyncRingBuffer} (i : ℕ) (place : Place) (lock : Option ℕ)
      → Inv r s
      → (is_critical place ≡ true → lock ≡ some i)
      → ((j : ℕ) → j ≢ i → is_critical (s.place j) ≡ true → lock ≡ some j)
      → (lock ≡ some i → is_critical place ≡ true)
      → ((j : ℕ) → j ≢ i → lock ≡ some j → is_critical (s.place j) ≡ true)
      → ((e : Call × Answer) → answer_of place ≡ some e → last_of i s.log ≡ some e)
      → Inv r (record s { lock = lock; place = update s.place i place })
  moved {s = s} i place lock v here others there still answer = record {
    sequential = v.sequential;
    holder = update-elim (λ j p. is_critical p ≡ true → lock ≡ some j) s.place i place here others;
    held = update-elim (λ j p. lock ≡ some j → is_critical p ≡ true) s.place i place there still;
    logged =
        update-elim (λ j p. (e : Call × Answer) → answer_of p ≡ some e → last_of j s.log ≡ some e)
          s.place i place answer (λ j ne. v.logged j);
  }

  -- What a thread in the critical region has.
  has_lock :
      {r : RingBuffer} {s : SyncRingBuffer} {i : ℕ} {p : Place}
      → Inv r s
      → s.place i ≡ p
      → is_critical p ≡ true
      → s.lock ≡ some i
  has_lock {i = i} v at critical = v.holder i (ap is_critical at ∙ critical)

  do_work-Inv :
      {r : RingBuffer} {s : SyncRingBuffer} (i : ℕ) (c : Call) (a : Answer) (r' : RingBuffer)
      → Inv r s
      → s.place i ≡ inside c
      → work m page c s.ringbuf ≡ ok (a, r')
      → Inv r (record s {
        ringbuf = r';
        place = update s.place i (worked c a);
        log = record { thread = i; call = c; answer = a } ∷ s.log;
      })
  unfolding is_critical answer_of last_of
  do_work-Inv {s = s} i c a r' v at works = record {
    sequential = one_more (record { thread = i; call = c; answer = a }) v.sequential works;
    holder =
        update-elim (λ j p. is_critical p ≡ true → s.lock ≡ some j) s.place i (worked c a)
          (λ e. has_lock v at refl) (λ j ne. v.holder j);
    held =
        update-elim (λ j p. s.lock ≡ some j → is_critical p ≡ true) s.place i (worked c a)
          (λ e. refl) (λ j ne. v.held j);
    logged =
        update-elim
          (λ j p.
            (e : Call × Answer)
            → answer_of p ≡ some e
            → last_of j (record { thread = i; call = c; answer = a } ∷ s.log) ≡ some e)
          s.place i (worked c a) (λ e h. rw (same_thread i) h)
          (λ j ne e h. rw (other_thread j i ne) (v.logged j e h));
  }

  -- Each step keeps the invariant.
  pub Step-Inv : {r : RingBuffer} {s s' : SyncRingBuffer} → Inv r s → Step m page s s' → Inv r s'
  unfolding is_critical answer_of
  Step-Inv {s = s} v (call i c free) =
      moved i (waiting c) s.lock v (λ e. cc) (λ j ne. v.holder j)
        (λ e. absurd (free_outside (s.place i) free (v.held i e))) (λ j ne. v.held j)
        (λ e h. absurd (none-ne-some e h))
  Step-Inv {s = s} v (acquire i c at free) =
      moved i (inside c) (some i) v (λ e. refl)
        (λ j ne h. absurd (none-ne-some j (sym free ∙ v.holder j h))) (λ e. refl)
        (λ j ne e. absurd (ne (some-injective j i (sym e)))) (λ e h. absurd (none-ne-some e h))
  Step-Inv v (do_work i c a r at works) = do_work-Inv i c a r v at works
  Step-Inv {s = s} v (signal i c a at) = set_event-Inv (signal_of c) (
      moved i (signalled c a) s.lock v (λ e. has_lock v at refl) (λ j ne. v.holder j) (λ e. refl)
        (λ j ne. v.held j) (λ e h. v.logged i e (ap answer_of at ∙ h)))
  Step-Inv {s = s} v (unlock i c a at) =
      moved i (returned c a) none v (λ e. cc)
        (λ j ne h. absurd (ne (some-injective j i (sym (v.holder j h) ∙ has_lock v at refl))))
        (λ e. absurd (none-ne-some i e)) (λ j ne e. absurd (none-ne-some j e))
        (λ e h. v.logged i e (ap answer_of at ∙ h))
  Step-Inv v clear_more = record {
    sequential = v.sequential;
    holder = v.holder;
    held = v.held;
    logged = v.logged;
  }
  Step-Inv v clear_less = record {
    sequential = v.sequential;
    holder = v.holder;
    held = v.held;
    logged = v.logged;
  }

  pub Reach-Inv : {r : RingBuffer} {s : SyncRingBuffer} → Reach m page (initial r) s → Inv r s
  Reach-Inv {r = r} start = Inv-initial r
  Reach-Inv (later reach step) = Step-Inv (Reach-Inv reach) step

  exclusive :
      {r : RingBuffer} {s : SyncRingBuffer}
      → Inv r s
      → (i j : ℕ) → is_critical (s.place i) ≡ true
      → is_critical (s.place j) ≡ true
      → i ≡ j
  exclusive v i j here there = some-injective i j (sym (v.holder i here) ∙ v.holder j there)

  -- In every state that the threads reach from a fresh ring, the ring is what the calls done so far make of it
  -- one after another, each with the answer it gives then; a thread that has done its work or has returned
  -- holds the answer of its last call in that order; and at most one thread is between its lock and unlock.
  pub linearizable :
      (r : RingBuffer) (s : SyncRingBuffer)
      → Reach m page (initial r) s
      → Replays r s.log s.ringbuf
        × ((i : ℕ) (e : Call × Answer) → answer_of (s.place i) ≡ some e → last_of i s.log ≡ some e)
        × ((i j : ℕ) → is_critical (s.place i) ≡ true → is_critical (s.place j) ≡ true → i ≡ j)
  linearizable r s reach = let v = Reach-Inv reach in (v.sequential, v.logged, exclusive v)
