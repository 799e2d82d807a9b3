-- ===== src/Event/Waiting.antt =====
-- What a thread that waits for an event of src/sync_event.c gets.
use native.Mathlib.Decide.{ℕ_discrete}
use libpussy.Base.{
  update-same, update-other, ℕ, ◌≡◌, refl, sym, ap, ◌∙◌, Bool, true, false, not, none,
  if◌then◌else◌, update,
}
use libpussy.Event.{
  Waiter, outside, entering, looking, deciding, asleep, woken, expired, leaving, returned, Event,
  is_outside, wake, Act, waits, sets, clears, stirs, Step, enter, lock, look, sleep, expire, stir,
  relock, relock_expired, unlock, set_flag, broadcast, clear, Reach, start, later,
}

-- A step of thread `j` keeps what a test says of thread `i`, if it keeps it for `j`.
keeps-update :
    (good : Waiter → Bool) (f : ℕ → Waiter) (j : ℕ) (w : Waiter) (i : ℕ)
    → (good (f j) ≡ true → good w ≡ true)
    → good (f i) ≡ true
    → good (update f j w i) ≡ true
keeps-update good f j w i here is_good = elim (ℕ_discrete i j) [
  | yes e ↦
      ap good (ap (update f j w) e ∙ update-same f j w)
      ∙ here (ap (λ q. good (f q)) (sym e) ∙ is_good)
  | no ne ↦ ap good (update-other f j w i ne) ∙ is_good
]

-- The thread was elsewhere.
never : (good : Waiter → Bool) {w w' : Waiter} → w ≡ w' → good w' ≡ false → good w ≡ true → ⊥
never good at bad h = false-true (sym bad ∙ ap good (sym at) ∙ h)
  where
    false-true : ¬ (false ≡ true)
    false-true e = cc

-- The thread has called and has not looked at the flag yet, or it is about to return true, or has.
unfoldable pub is_sure : Waiter → Bool
is_sure outside = false
is_sure (entering timed) = true
is_sure (looking timed) = true
is_sure (deciding timed) = false
is_sure (asleep timed) = false
is_sure (woken timed) = false
is_sure expired = false
is_sure (leaving b) = b
is_sure (returned b) = b

-- All steps but `clear_event`.
unfoldable pub keeps_flag : Act → Bool
keeps_flag clears = false
keeps_flag waits = true
keeps_flag sets = true
keeps_flag stirs = true

wake-sure : (w : Waiter) → is_sure w ≡ true → is_sure (wake w) ≡ true
unfolding wake is_sure
wake-sure outside h = h
wake-sure (entering timed) h = h
wake-sure (looking timed) h = h
wake-sure (deciding timed) h = h
wake-sure (asleep timed) h = cc
wake-sure (woken timed) h = h
wake-sure expired h = h
wake-sure (leaving b) h = h
wake-sure (returned b) h = h

Step-sure :
    (i : ℕ) {s s' : Event} (act : Act)
    → Step s act s'
    → keeps_flag act ≡ true
    → s.flag ≡ true
    → is_sure (s.waiter i) ≡ true
    → (s'.flag ≡ true) × (is_sure (s'.waiter i) ≡ true)
unfolding is_sure keeps_flag
Step-sure i {s = s} act (enter j timed out) keep set sure =
    (set, keeps-update is_sure s.waiter j (entering timed) i (λ h. refl) sure)
Step-sure i {s = s} act (lock j timed at mtx) keep set sure =
    (set, keeps-update is_sure s.waiter j (looking timed) i (λ h. refl) sure)
Step-sure i {s = s} act (look j timed at) keep set sure = (
  set,
  keeps-update is_sure s.waiter j (if s.flag then leaving true else deciding timed) i
      (λ h. ap (λ b. is_sure (if b then leaving true else deciding timed)) set) sure,
)
Step-sure i {s = s} act (sleep j timed at) keep set sure = (
  set,
  keeps-update is_sure s.waiter j (asleep timed) i (λ h. absurd (never is_sure at refl h)) sure,
)
Step-sure i {s = s} act (expire j at) keep set sure =
    (set, keeps-update is_sure s.waiter j expired i (λ h. absurd (never is_sure at refl h)) sure)
Step-sure i {s = s} act (stir j timed at) keep set sure = (
  set,
  keeps-update is_sure s.waiter j (woken timed) i (λ h. absurd (never is_sure at refl h)) sure,
)
Step-sure i {s = s} act (relock j timed at mtx) keep set sure = (
  set,
  keeps-update is_sure s.waiter j (leaving timed) i (λ h. absurd (never is_sure at refl h)) sure,
)
Step-sure i {s = s} act (relock_expired j at mtx) keep set sure = (
  set,
  keeps-update is_sure s.waiter j (leaving false) i (λ h. absurd (never is_sure at refl h)) sure,
)
Step-sure i {s = s} act (unlock j b at) keep set sure =
    (set, keeps-update is_sure s.waiter j (returned b) i (λ h. sym (ap is_sure at) ∙ h) sure)
Step-sure i {s = s} act set_flag keep set sure = (refl, sure)
Step-sure i {s = s} act (broadcast n more) keep set sure = (set, wake-sure (s.waiter i) sure)
Step-sure i act clear keep set sure = absurd (cc)

-- In any run without `clear_event` from a state in which the flag is set and a thread in `wait_event` has not
-- looked at the flag yet, or is about to return true, or has returned true, the flag stays set, and the thread
-- never sleeps and returns nothing but true. Of a thread that has seen the flag clear it says nothing.
pub wait_event-set :
    (s s' : Event) (i : ℕ)
    → Reach keeps_flag s s'
    → s.flag ≡ true
    → is_sure (s.waiter i) ≡ true
    → (s'.flag ≡ true) × (is_sure (s'.waiter i) ≡ true)
wait_event-set s s' i start set sure = (set, sure)
wait_event-set s s'' i (later {s'} act reach keep step) set sure =
    let before = wait_event-set s s' i reach set sure in Step-sure i act step keep before.0 before.1

-- The thread sleeps without a timeout.
unfoldable pub is_lost : Waiter → Bool
is_lost (asleep timed) = not timed
is_lost _ = false

-- Nobody sets the event, and nobody wakes for no reason.
unfoldable pub is_quiet : Act → Bool
is_quiet waits = true
is_quiet clears = true
is_quiet sets = false
is_quiet stirs = false

abbrev pub any_act : Act → Bool
any_act act = true

not_outside : (w : Waiter) → is_outside w ≡ true → ¬ (is_lost w ≡ true)
unfolding is_outside is_lost
not_outside outside out lost = cc
not_outside (entering timed) out lost = cc
not_outside (looking timed) out lost = cc
not_outside (deciding timed) out lost = cc
not_outside (asleep timed) out lost = cc
not_outside (woken timed) out lost = cc
not_outside expired out lost = cc
not_outside (leaving b) out lost = cc
not_outside (returned b) out lost = cc

Step-lost :
    (i : ℕ) {s s' : Event} (act : Act)
    → Step s act s'
    → is_quiet act ≡ true
    → is_lost (s.waiter i) ≡ true
    → is_lost (s'.waiter i) ≡ true
unfolding is_lost is_quiet is_outside
Step-lost i {s = s} act (enter j timed out) quiet lost =
    keeps-update is_lost s.waiter j (entering timed) i
      (λ h. absurd (not_outside (s.waiter j) out h)) lost
Step-lost i {s = s} act (lock j timed at mtx) quiet lost =
    keeps-update is_lost s.waiter j (looking timed) i (λ h. absurd (never is_lost at refl h)) lost
Step-lost i {s = s} act (look j timed at) quiet lost =
    keeps-update is_lost s.waiter j (if s.flag then leaving true else deciding timed) i
      (λ h. absurd (never is_lost at refl h)) lost
Step-lost i {s = s} act (sleep j timed at) quiet lost =
    keeps-update is_lost s.waiter j (asleep timed) i (λ h. absurd (never is_lost at refl h)) lost
Step-lost i {s = s} act (expire j at) quiet lost =
    keeps-update is_lost s.waiter j expired i (λ h. absurd (never is_lost at refl h)) lost
Step-lost i act (stir j timed at) quiet lost = absurd (cc)
Step-lost i {s = s} act (relock j timed at mtx) quiet lost =
    keeps-update is_lost s.waiter j (leaving timed) i (λ h. absurd (never is_lost at refl h)) lost
Step-lost i {s = s} act (relock_expired j at mtx) quiet lost =
    keeps-update is_lost s.waiter j (leaving false) i (λ h. absurd (never is_lost at refl h)) lost
Step-lost i {s = s} act (unlock j b at) quiet lost =
    keeps-update is_lost s.waiter j (returned b) i (λ h. absurd (never is_lost at refl h)) lost
Step-lost i act set_flag quiet lost = absurd (cc)
Step-lost i act (broadcast n more) quiet lost = absurd (cc)
Step-lost i act clear quiet lost = lost

Reach-lost :
    (s s' : Event) (i : ℕ)
    → Reach is_quiet s s'
    → is_lost (s.waiter i) ≡ true
    → is_lost (s'.waiter i) ≡ true
Reach-lost s s' i start lost = lost
Reach-lost s s'' i (later {s'} act reach quiet step) lost =
    Step-lost i act step quiet (Reach-lost s s' i reach lost)

-- The thread sleeps, though the event is set and every `set_event` that has begun since is done; it sleeps on
-- in every run in which nobody sets the event again and nobody wakes for no reason.
pub record LostWakeup (s : Event) (i : ℕ) : Type 0 where
  pub after : Event
  pub reach : Reach any_act s after
  pub set : after.flag ≡ true
  pub no_setter : after.setting ≡ s.setting
  pub for_good : (s' : Event) → Reach is_quiet after s' → is_lost (s'.waiter i) ≡ true

-- From any state in which a thread without a timeout has seen the flag clear and does not sleep yet, a call of
-- `set_event` by another thread, which does not take the mutex, can come before it sleeps; then it sleeps on
-- with the flag set until someone sets the event again or it wakes for no reason.
pub lost_wakeup : (s : Event) (i : ℕ) → s.waiter i ≡ deciding false → LostWakeup s i
unfolding is_lost wake
lost_wakeup s i at =
    let told = record s { flag = true; setting = s.setting; waiter = λ j. wake (s.waiter j) } in
    let late = record told { mtx = none; waiter = update told.waiter i (asleep false) } in
    record {
      after = late;
      reach =
          later waits (later sets (later sets start refl set_flag) refl (broadcast s.setting refl))
            refl (sleep i false (ap wake at));
      set = refl;
      no_setter = refl;
      for_good = λ s' quiet.
          Reach-lost late s' i quiet (ap is_lost (update-same told.waiter i (asleep false)));
    }
