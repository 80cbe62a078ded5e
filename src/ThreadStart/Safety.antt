-- ===== src/ThreadStart/Safety.antt =====
-- lib/util/pthread_create_blocking_np.c: what parent and child keep, step by step.
use spiped.Base.{◌≡◌, ◌≢◌, ◌⊎◌, Bool, true, false, arith}
use spiped.ThreadStart.{
  Parent, creating, testing, woken, leaving, destroying, at_err5, joining, at_err3, returned_ok,
  returned_error, Child, absent, locked, signalled, at_err2, in_routine, ended, parent, child,
  State, prepare, Calls, Step, Reach, here, next, create, create_fails, leave, wait, wait_fails,
  wake, sync_ok, sync_failed, unlock, unlock_fails, finish, give_up, give_up_locked, join,
  join_fails, clean_up, child_lock, child_lock_fails, child_signal, child_signal_fails,
  child_unlock, child_unlock_fails, child_give_up, child_give_up_locked, child_record, child_ends,
}

-- Where the parent has the mutex, and where the child has.
abbrev parent_holds : Parent → Bool
parent_holds creating = true
parent_holds testing = true
parent_holds woken = true
parent_holds leaving = true
parent_holds at_err5 = true
parent_holds _ = false

abbrev child_holds : Child → Bool
child_holds locked = true
child_holds signalled = true
child_holds _ = false

-- The parent is past its loop; it is past a failure; it has returned.
abbrev has_started : Parent → Bool
has_started leaving = true
has_started destroying = true
has_started returned_ok = true
has_started _ = false

abbrev has_failed : Parent → Bool
has_failed at_err3 = true
has_failed returned_error = true
has_failed _ = false

abbrev has_returned : Parent → Bool
has_returned returned_ok = true
has_returned returned_error = true
has_returned _ = false

-- Whether the child may still read or write `U`.
abbrev pub uses_cookie : Child → Bool
uses_cookie absent = false
uses_cookie in_routine = false
uses_cookie ended = false
uses_cookie _ = true

record Keeps (s : State) : Type 0 where
  locked_parent : parent_holds s.at ≡ true → s.mutex ≡ parent
  locked_child : child_holds s.thread ≡ true → s.mutex ≡ child
  no_err2 : s.thread ≢ at_err2
  started : s.running ≡ true → (s.ran ≡ true) ⊎ (s.mutex ≡ child)
  past_cookie : s.ran ≡ true → (s.thread ≡ in_routine) ⊎ (s.thread ≡ ended)
  succeeded : has_started s.at ≡ true → s.ran ≡ true
  failed : has_failed s.at ≡ true → (s.thread ≡ absent) ⊎ (s.thread ≡ ended)
  freed : s.cookie ≡ false → has_returned s.at ≡ true
  not_created : s.at ≡ creating → s.thread ≡ absent

Keeps-Step :
    {f : Calls} {s t : State}
    → f.signal_may_fail ≡ false
    → f.join_may_fail ≡ false
    → Keeps s
    → Step f s t
    → Keeps t
Keeps-Step e j k (create a) = ground arith
Keeps-Step e j k (create_fails a) = ground arith
Keeps-Step e j k (leave a r) = ground arith
Keeps-Step e j k (wait a r) = ground arith
Keeps-Step e j k (wait_fails m a r) = ground arith
Keeps-Step e j k (wake a r) = ground arith
Keeps-Step e j k (sync_ok a r) = ground arith
Keeps-Step e j k (sync_failed a r) = ground arith
Keeps-Step e j k (unlock a) = ground arith
Keeps-Step e j k (unlock_fails a) = ground arith
Keeps-Step e j k (finish a) = ground arith
Keeps-Step e j k (give_up a) = ground arith
Keeps-Step e j k (give_up_locked a) = ground arith
Keeps-Step e j k (join a r) = ground arith
Keeps-Step e j k (join_fails m a) = ground arith
Keeps-Step e j k (clean_up a) = ground arith
Keeps-Step e j k (child_lock a r) = ground arith
Keeps-Step e j k (child_lock_fails a) = ground arith
Keeps-Step e j k (child_signal a) = ground arith
Keeps-Step e j k (child_signal_fails m a) = ground arith
Keeps-Step e j k (child_unlock a) = ground arith
Keeps-Step e j k (child_unlock_fails a) = ground arith
Keeps-Step e j k (child_give_up a) = ground arith
Keeps-Step e j k (child_give_up_locked a) = ground arith
Keeps-Step e j k (child_record a) = ground arith
Keeps-Step e j k (child_ends a) = ground arith

Keeps-prepare : (a m c l : Bool) → Keeps (prepare a m c l)
unfolding prepare
Keeps-prepare a m c l = ground arith

Keeps-Reach :
    {f : Calls} {s t : State}
    → f.signal_may_fail ≡ false
    → f.join_may_fail ≡ false
    → Keeps s
    → Reach f s t
    → Keeps t
Keeps-Reach e j k here = k
Keeps-Reach e j k (next r st) = Keeps-Step e j (Keeps-Reach e j k r) st

module _ {f : Calls} (a m c l : Bool) {s : State} (signals : f.signal_may_fail ≡ false)
    (joins : f.join_may_fail ≡ false) where
  -- In every order of the steps of parent and child, when neither signalling nor joining fails but
  -- any other call may: `U` is there as long as the child may use it; when the parent returns 0, the routine
  -- has been called; and when it returns an error, there is no thread that still runs.
  pub thread_start_safe :
      Reach f (prepare a m c l) s
      → (uses_cookie s.thread ≡ true → s.cookie ≡ true)
        × (s.at ≡ returned_ok → s.ran ≡ true)
        × (s.at ≡ returned_error → (s.thread ≡ absent) ⊎ (s.thread ≡ ended))
  thread_start_safe reached =
      let k = Keeps-Reach signals joins (Keeps-prepare a m c l) reached in ground arith

-- The parent gives up, or has.
abbrev gives_up : Parent → Bool
gives_up at_err5 = true
gives_up joining = true
gives_up _ = false

-- What holds besides when waiting does not fail: the parent gives up only when the child has
-- recorded an error, and then the child has not called the routine.
record NotRun (s : State) : Type 0 where
  before : s.thread ≡ absent → s.ran ≡ false
  recorded : s.rc_sync ≡ true → (s.thread ≡ ended) × (s.ran ≡ false)
  given_up : gives_up s.at ≡ true → s.rc_sync ≡ true
  over : has_failed s.at ≡ true → s.ran ≡ false
  ordinary : (uses_cookie s.thread ≡ true) → s.ran ≡ false

NotRun-Step :
    {f : Calls} {s t : State}
    → f.signal_may_fail ≡ false
    → f.wait_may_fail ≡ false
    → f.join_may_fail ≡ false
    → Keeps s
    → NotRun s
    → Step f s t
    → NotRun t
NotRun-Step e w j k n (create a) = ground arith
NotRun-Step e w j k n (create_fails a) = ground arith
NotRun-Step e w j k n (leave a r) = ground arith
NotRun-Step e w j k n (wait a r) = ground arith
NotRun-Step e w j k n (wait_fails m a r) = ground arith
NotRun-Step e w j k n (wake a r) = ground arith
NotRun-Step e w j k n (sync_ok a r) = ground arith
NotRun-Step e w j k n (sync_failed a r) = ground arith
NotRun-Step e w j k n (unlock a) = ground arith
NotRun-Step e w j k n (unlock_fails a) = ground arith
NotRun-Step e w j k n (finish a) = ground arith
NotRun-Step e w j k n (give_up a) = ground arith
NotRun-Step e w j k n (give_up_locked a) = ground arith
NotRun-Step e w j k n (join a r) = ground arith
NotRun-Step e w j k n (join_fails m a) = ground arith
NotRun-Step e w j k n (clean_up a) = ground arith
NotRun-Step e w j k n (child_lock a r) = ground arith
NotRun-Step e w j k n (child_lock_fails a) = ground arith
NotRun-Step e w j k n (child_signal a) = ground arith
NotRun-Step e w j k n (child_signal_fails m a) = ground arith
NotRun-Step e w j k n (child_unlock a) = ground arith
NotRun-Step e w j k n (child_unlock_fails a) = ground arith
NotRun-Step e w j k n (child_give_up a) = ground arith
NotRun-Step e w j k n (child_give_up_locked a) = ground arith
NotRun-Step e w j k n (child_record a) = ground arith
NotRun-Step e w j k n (child_ends a) = ground arith

NotRun-prepare : (a m c l : Bool) → NotRun (prepare a m c l)
unfolding prepare
NotRun-prepare a m c l = ground arith

NotRun-Reach :
    {f : Calls} {s t : State}
    → f.signal_may_fail ≡ false
    → f.wait_may_fail ≡ false
    → f.join_may_fail ≡ false
    → Keeps s
    → NotRun s
    → Reach f s t
    → NotRun t
NotRun-Reach e w j k n here = n
NotRun-Reach e w j k n (next r st) =
    NotRun-Step e w j (Keeps-Reach e j k r) (NotRun-Reach e w j k n r) st

-- When signalling, waiting and joining do not fail, but any other call may, an error return means that
-- the routine was not called, in every order of the steps.
pub error_not_run :
    {f : Calls} (a m c l : Bool) {s : State}
    → f.signal_may_fail ≡ false
    → f.wait_may_fail ≡ false
    → f.join_may_fail ≡ false
    → Reach f (prepare a m c l) s
    → s.at ≡ returned_error
    → s.ran ≡ false
error_not_run a m c l e w j reached r =
    let n = NotRun-Reach e w j (Keeps-prepare a m c l) (NotRun-prepare a m c l) reached in
    ground arith
