-- ===== src/SyncRingBuffer/Progress.antt =====
-- The threads of src/ringbuffer_sync.c never wait for each other without end.
use mathlib.Core.Option.{none-ne-some}
use libpussy.Base.{
  ℕ, ◌+◌, ◌≡◌, ◌≢◌, refl, sym, ap, ◌∙◌, true, false, none, some, Option-cases, inl, inr, update,
  update-same, update-other, ok,
}
use libpussy.MemoryMap.{MemoryMap}
use libpussy.RingBuffer.{RingBuffer}
use libpussy.SyncRingBuffer.{
  Call, Answer, Place, idle, waiting, inside, worked, signalled, returned, Signal, more, less,
  silent, SyncRingBuffer, signal_of, set_event, is_free, initial, work, Step, acquire, do_work,
  signal, unlock, Reach,
}
use libpussy.SyncRingBuffer.Inv.{is_critical, Inv, Reach-Inv}

-- The steps that a thread has left in its call.
unfoldable pub steps_left : Place → ℕ
steps_left idle = 0
steps_left (waiting c) = 4
steps_left (inside c) = 3
steps_left (worked c a) = 2
steps_left (signalled c a) = 1
steps_left (returned c a) = 0

module _ (m : MemoryMap) (page : ℕ) where
  -- A thread that is in a call can go on in it.
  pub record Advances (s : SyncRingBuffer) : Type 0 where
    pub thread : ℕ
    pub after : SyncRingBuffer
    pub step : Step m page s after
    pub less_left : steps_left (after.place thread) + 1 ≡ steps_left (s.place thread)
    pub others : (q : ℕ) → q ≢ thread → after.place q ≡ s.place q

  advance :
      (s s' : SyncRingBuffer) (i : ℕ) (p p' : Place)
      → s.place i ≡ p
      → s'.place ≡ update s.place i p'
      → steps_left p' + 1 ≡ steps_left p
      → Step m page s s'
      → Advances s
  advance s s' i p p' at moved one step = record {
    thread = i;
    after = s';
    step = step;
    less_left =
        ap (λ f. steps_left (f i) + 1) moved
        ∙ ap (λ x. steps_left x + 1) (update-same s.place i p')
        ∙ one
        ∙ ap steps_left (sym at);
    others = λ q ne. ap (λ f. f q) moved ∙ update-other s.place i p' q ne;
  }

  set_event-place : (g : Signal) (s : SyncRingBuffer) → (set_event g s).place ≡ s.place
  unfolding set_event
  set_event-place more s = refl
  set_event-place less s = refl
  set_event-place silent s = refl

  abbrev Returns : SyncRingBuffer → Type 0
  Returns s =
      (j : ℕ) (c : Call)
      → s.lock ≡ some j
      → s.place j ≡ inside c
      → (done : Answer × RingBuffer) × (work m page c s.ringbuf ≡ ok done)

  -- The thread with the lock goes on.
  holder-Advances :
      (s : SyncRingBuffer) (j : ℕ) (p : Place)
      → s.place j ≡ p
      → is_critical p ≡ true
      → s.lock ≡ some j
      → Returns s
      → Advances s
  unfolding is_critical steps_left
  holder-Advances s j idle at critical held returns = absurd (cc)
  holder-Advances s j (waiting c) at critical held returns = absurd (cc)
  holder-Advances s j (inside c) at critical held returns =
      let done = returns j c held at in
      advance s _ j (inside c) (worked c done.0.0) at refl refl
        (do_work j c done.0.0 done.0.1 at done.1)
  holder-Advances s j (worked c a) at critical held returns =
      advance s _ j (worked c a) (signalled c a) at (set_event-place (signal_of c) _) refl
        (signal j c a at)
  holder-Advances s j (signalled c a) at critical held returns =
      advance s _ j (signalled c a) (returned c a) at refl refl (unlock j c a at)
  holder-Advances s j (returned c a) at critical held returns = absurd (cc)

  -- While nobody has the lock, a thread in its call waits for it, and gets it.
  lock_open-Advances :
      {r : RingBuffer} (s : SyncRingBuffer) (i : ℕ) (p : Place)
      → Inv m page r s
      → s.place i ≡ p
      → is_free p ≡ false
      → s.lock ≡ none
      → Advances s
  unfolding is_free is_critical steps_left
  lock_open-Advances s i idle v at busy unheld = absurd (cc)
  lock_open-Advances s i (waiting c) v at busy unheld =
      advance s _ i (waiting c) (inside c) at refl refl (acquire i c at unheld)
  lock_open-Advances s i (inside c) v at busy unheld =
      absurd (none-ne-some i (sym unheld ∙ v.holder i (ap is_critical at)))
  lock_open-Advances s i (worked c a) v at busy unheld =
      absurd (none-ne-some i (sym unheld ∙ v.holder i (ap is_critical at)))
  lock_open-Advances s i (signalled c a) v at busy unheld =
      absurd (none-ne-some i (sym unheld ∙ v.holder i (ap is_critical at)))
  lock_open-Advances s i (returned c a) v at busy unheld = absurd (cc)

  -- In every state that the threads reach, if one of them is in a call, and the work on the ring under way returns,
  -- then some thread in a call can take one of its at most four steps, which moves no other.
  pub no_deadlock :
      (r : RingBuffer) (s : SyncRingBuffer) (i : ℕ)
      → Reach m page (initial r) s
      → is_free (s.place i) ≡ false
      → ((j : ℕ) (c : Call)
          → s.lock ≡ some j
          → s.place j ≡ inside c
          → (done : Answer × RingBuffer) × (work m page c s.ringbuf ≡ ok done))
      → Advances s
  no_deadlock r s i reach busy returns =
      let v = Reach-Inv m page reach in
      elim (Option-cases s.lock) [
        | inl unheld ↦ lock_open-Advances s i (s.place i) v refl busy unheld
        | inr (j, held) ↦ holder-Advances s j (s.place j) refl (v.held j held) held returns
      ]
