-- ===== src/Event/Tests.antt =====
-- One thread that waits for an event of src/sync_event.c.
use libpussy.Base.{◌≡◌, refl, true, false, none, some, update}
use libpussy.Event.{outside, entering, looking, deciding, Event, waits, lock, Reach, start, later}
use libpussy.Event.Waiting.{is_sure, keeps_flag, wait_event-set, LostWakeup, lost_wakeup}

abbrev set_before : Event
set_before = record { flag = true; mtx = none; setting = 0; waiter = λ j. entering false }

abbrev locked : Event
locked = record set_before { mtx = some 0; waiter = update set_before.waiter 0 (looking false) }

locked-Reach : Reach keeps_flag set_before locked
unfolding keeps_flag
locked-Reach = later waits start refl (lock 0 false refl refl)

called : is_sure (set_before.waiter 0) ≡ true
unfolding is_sure
called = refl

wait_event-set_example : (locked.flag ≡ true) × (is_sure (locked.waiter 0) ≡ true)
wait_event-set_example = wait_event-set set_before locked 0 locked-Reach refl called

abbrev not_asleep_yet : Event
not_asleep_yet = record {
  flag = false;
  mtx = some 0;
  setting = 0;
  waiter = update (λ j. outside) 0 (deciding false);
}

lost_wakeup_example : LostWakeup not_asleep_yet 0
lost_wakeup_example = lost_wakeup not_asleep_yet 0 refl
