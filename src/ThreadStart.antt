-- ===== src/ThreadStart.antt =====
-- lib/util/pthread_create_blocking_np.c: a thread is created, and its parent waits until it runs.
--
-- The parent and the child share `struct wrapped_cookie` and its mutex. A step is a call of either
-- of them on the mutex or the condition variable, or the code up to the next; the two take steps
-- in any order. A call that fails changes nothing. `pthread_cond_wait` may return without a signal.
pub mod Safety
use spiped.Base.{◌≡◌, Bool, true, false, not, ◌&&◌, if◌then◌else◌}

-- Where the parent is: before `pthread_create`; at the test of the loop; in `pthread_cond_wait`;
-- after it; past the loop; past the unlocking; at `err5`; past its unlocking; at `err3`; or
-- returned.
pub data Parent : Type 0 where
  creating testing waiting woken leaving destroying at_err5 joining at_err3 : Parent
  returned_ok returned_error : Parent

-- Where the child is: not created; before its lock; past it; past the signal; at `err2`; at
-- `err1`; in `start_routine`; or ended.
pub data Child : Type 0 where
  absent starting locked signalled at_err2 at_err1 in_routine ended : Child

pub data Owner : Type 0 where
  nobody parent child : Owner

pub record State : Type 0 where
  pub at : Parent
  pub thread : Child
  pub mutex : Owner
  -- `U->running`, whether `U->rc_sync` is nonzero, and whether `U` is not freed.
  pub running : Bool
  pub rc_sync : Bool
  pub cookie : Bool
  -- Whether `start_routine` has been called.
  pub ran : Bool

-- Up to `pthread_create`, by whether `malloc`, `pthread_mutex_init`, `pthread_cond_init` and
-- `pthread_mutex_lock` succeed.
unfoldable pub prepare : Bool → Bool → Bool → Bool → State
prepare alloc_ok mutex_ok cond_ok lock_ok =
    let s : State = record {
      at = creating;
      thread = absent;
      mutex = parent;
      running = false;
      rc_sync = false;
      cookie = true;
      ran = false;
    } in
    let failed : State = record s { at = returned_error; mutex = nobody; cookie = false } in
    if alloc_ok && (mutex_ok && (cond_ok && lock_ok)) then s else failed

-- Which calls may fail that could not be told from what they guard.
pub record Calls : Type 0 where
  pub signal_may_fail : Bool
  pub wait_may_fail : Bool
  pub join_may_fail : Bool

-- The steps of `pthread_create_blocking_np`, and then those of `wrapped_thread`.
pub data Step (f : Calls) (s : State) : State → Type 0 where
  create : s.at ≡ creating → Step f s (record s { at = testing; thread = starting })
  create_fails : s.at ≡ creating → Step f s (record s { at = at_err3; mutex = nobody })
  leave : s.at ≡ testing → s.running ≡ true → Step f s (record s { at = leaving })
  wait : s.at ≡ testing → s.running ≡ false → Step f s (record s { at = waiting; mutex = nobody })
  wait_fails :
      f.wait_may_fail ≡ true
      → s.at ≡ testing
      → s.running ≡ false
      → Step f s (record s { at = at_err5 })
  wake : s.at ≡ waiting → s.mutex ≡ nobody → Step f s (record s { at = woken; mutex = parent })
  sync_ok : s.at ≡ woken → s.rc_sync ≡ false → Step f s (record s { at = testing })
  sync_failed : s.at ≡ woken → s.rc_sync ≡ true → Step f s (record s { at = at_err5 })
  unlock : s.at ≡ leaving → Step f s (record s { at = destroying; mutex = nobody })
  unlock_fails : s.at ≡ leaving → Step f s (record s { at = returned_ok; cookie = false })
  finish : s.at ≡ destroying → Step f s (record s { at = returned_ok; cookie = false })
  give_up : s.at ≡ at_err5 → Step f s (record s { at = joining; mutex = nobody })
  give_up_locked : s.at ≡ at_err5 → Step f s (record s { at = joining })
  join : s.at ≡ joining → s.thread ≡ ended → Step f s (record s { at = at_err3 })
  join_fails : f.join_may_fail ≡ true → s.at ≡ joining → Step f s (record s { at = at_err3 })
  clean_up : s.at ≡ at_err3 → Step f s (record s { at = returned_error; cookie = false })
  child_lock :
      s.thread ≡ starting
      → s.mutex ≡ nobody
      → Step f s (record s { thread = locked; mutex = child })
  child_lock_fails : s.thread ≡ starting → Step f s (record s { thread = at_err1 })
  child_signal : s.thread ≡ locked → Step f s (record s { running = true; thread = signalled })
  child_signal_fails :
      f.signal_may_fail ≡ true
      → s.thread ≡ locked
      → Step f s (record s { running = true; thread = at_err2 })
  child_unlock :
      s.thread ≡ signalled → Step f s (record s { thread = in_routine; mutex = nobody; ran = true })
  child_unlock_fails : s.thread ≡ signalled → Step f s (record s { thread = at_err1 })
  child_give_up : s.thread ≡ at_err2 → Step f s (record s { thread = at_err1; mutex = nobody })
  child_give_up_locked : s.thread ≡ at_err2 → Step f s (record s { thread = at_err1 })
  child_record : s.thread ≡ at_err1 → Step f s (record s { thread = ended; rc_sync = true })
  -- The routine returns, or is cancelled by the parent.
  child_ends : s.thread ≡ in_routine → Step f s (record s { thread = ended })

pub data Reach (f : Calls) (s : State) : State → Type 0 where
  here : Reach f s s
  next : {t u : State} → Reach f s t → Step f t u → Reach f s u
