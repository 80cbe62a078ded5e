-- ===== src/Sample/Threads.antt =====
-- Each theorem applied at concrete inputs: runs of parent and child, the graceful shutdown and
-- the copying thread. In three runs more, the conditions of the theorems do not hold.
use spiped.Base.{List, [], ◌∷◌, ◌≡◌, ◌⊎◌, refl, true, false}
use spiped.ThreadStart.{
  absent, ended, at_err1, nobody, returned_ok, returned_error, State, prepare, Calls, Reach, here,
  next, create, leave, wait, wait_fails, wake, sync_ok, sync_failed, unlock, finish, give_up, join,
  join_fails, starting, clean_up, child_lock, child_lock_fails, child_signal, child_signal_fails,
  child_unlock, child_give_up, child_record, child_ends, in_routine,
}
use spiped.GracefulShutdown.{
  IsWatching, Watches, timer, handle, event-Watches, graceful_shutdown_initialize,
  initialize-IsWatching,
}
use spiped.Pushbits.{Call, bytes, interrupted, not_socket, workthread, Copies, workthread-Copies}
use spiped.ThreadStart.Safety.{uses_cookie, thread_start_safe, error_not_run}

abbrev none_fails : Calls
none_fails = record { signal_may_fail = false; wait_may_fail = false; join_may_fail = false }

abbrev started : State
started = record {
  at = returned_ok;
  thread = in_routine;
  mutex = nobody;
  running = true;
  rc_sync = false;
  cookie = false;
  ran = true;
}

-- The parent waits, the child starts and wakes it.
starts : Reach none_fails (prepare true true true true) started
unfolding prepare
starts =
    next
      (next
        (next
          (next
            (next
              (next
                (next
                  (next (next (next here (create refl)) (wait refl refl)) (child_lock refl refl))
                  (child_signal refl))
                (child_unlock refl))
              (wake refl refl))
            (sync_ok refl refl))
          (leave refl refl))
        (unlock refl))
      (finish refl)

thread_start_safe_example :
    (uses_cookie in_routine ≡ true → false ≡ true)
    × (returned_ok ≡ returned_ok → true ≡ true)
    × (returned_ok ≡ returned_error → (in_routine ≡ absent) ⊎ (in_routine ≡ ended))
thread_start_safe_example = thread_start_safe true true true true refl refl starts

abbrev failed : State
failed = record {
  at = returned_error;
  thread = ended;
  mutex = nobody;
  running = false;
  rc_sync = true;
  cookie = false;
  ran = false;
}

-- The child cannot lock the mutex, and the parent wakes up without a signal.
fails : Reach none_fails (prepare true true true true) failed
unfolding prepare
fails =
    next
      (next
        (next
          (next
            (next
              (next (next (next (next here (create refl)) (wait refl refl)) (child_lock_fails refl))
                (child_record refl))
              (wake refl refl))
            (sync_failed refl refl))
          (give_up refl))
        (join refl refl))
      (clean_up refl)

fails_unrun : failed.ran ≡ false
fails_unrun = error_not_run true true true true refl refl refl fails refl

abbrev any_fails : Calls
any_fails = record { signal_may_fail = true; wait_may_fail = true; join_may_fail = true }

abbrev dangling : State
dangling = record {
  at = returned_ok;
  thread = at_err1;
  mutex = nobody;
  running = true;
  rc_sync = false;
  cookie = false;
  ran = false;
}

-- When the child cannot signal, it unlocks the mutex before it records the error: a parent that
-- wakes up in between returns 0 and frees `U`, which the child then writes to.
signal_fails_run : Reach any_fails (prepare true true true true) dangling
unfolding prepare
signal_fails_run =
    next
      (next
        (next
          (next
            (next
              (next
                (next
                  (next (next (next here (create refl)) (wait refl refl)) (child_lock refl refl))
                  (child_signal_fails refl refl))
                (child_give_up refl))
              (wake refl refl))
            (sync_ok refl refl))
          (leave refl refl))
        (unlock refl))
      (finish refl)

abbrev unjoined : State
unjoined = record {
  at = returned_error;
  thread = starting;
  mutex = nobody;
  running = false;
  rc_sync = false;
  cookie = false;
  ran = false;
}

-- When the parent can neither wait nor join the child, it frees `U`, which the child still uses.
join_fails_run : Reach any_fails (prepare true true true true) unjoined
unfolding prepare
join_fails_run =
    next
      (next (next (next (next here (create refl)) (wait_fails refl refl refl)) (give_up refl))
        (join_fails refl refl))
      (clean_up refl)

abbrev ran_anyway : State
ran_anyway = record {
  at = returned_error;
  thread = ended;
  mutex = nobody;
  running = true;
  rc_sync = false;
  cookie = false;
  ran = true;
}

-- When the parent cannot wait, it unlocks the mutex before it cancels the child, which may call
-- the routine in between.
wait_fails_run : Reach any_fails (prepare true true true true) ran_anyway
unfolding prepare
wait_fails_run =
    next
      (next
        (next
          (next
            (next
              (next
                (next (next (next here (create refl)) (wait_fails refl refl refl)) (give_up refl))
                (child_lock refl refl))
              (child_signal refl))
            (child_unlock refl))
          (child_ends refl))
        (join refl refl))
      (clean_up refl)

abbrev all_ok : spiped.GracefulShutdown.Answers
all_ok = record { begin_ok = true; signal_ok = true; atexit_ok = true; timer_ok = true }

abbrev at_start : spiped.GracefulShutdown.State
at_start = record {
  initialized = false;
  timer_cookie = false;
  should_shutdown = false;
  handler = false;
  begun = 0;
  timers = 0;
}

-- SIGTERM has come, and the timer is pending.
abbrev terminated : spiped.GracefulShutdown.State
terminated = record {
  initialized = true;
  timer_cookie = true;
  should_shutdown = true;
  handler = true;
  begun = 0;
  timers = 1;
}

event-Watches_example : Watches 1 (handle all_ok timer terminated)
event-Watches_example =
    event-Watches all_ok timer terminated
      (record { is_initialized = refl; pending = refl; watches = refl; asked = λ e. refl }) refl

-- Two reads, one of which is interrupted first, and the end of the file.
abbrev calls : List Call
calls = bytes (1 ∷ 2 ∷ []) 2 ∷ interrupted ∷ bytes (3 ∷ []) 1 ∷ bytes [] 0 ∷ []

workthread-Copies_example : Copies 1 (1 ∷ 2 ∷ 3 ∷ []) (workthread not_socket 1 [] calls)
workthread-Copies_example = workthread-Copies not_socket 1 calls
