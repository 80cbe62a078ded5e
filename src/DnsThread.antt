-- ===== src/DnsThread.antt =====
-- lib/dnsthread/dnsthread.c: a thread that resolves addresses for the event loop.
--
-- The shared structure is only used with its mutex held, so a step is what one of the two threads
-- does while it holds the mutex. Calls on the mutex and the condition variable are taken to succeed
-- once the thread runs, but for signalling in `dnsthread_resolveone`. An address is a number, and
-- so is a callback with its cookie.
pub mod Spawn
pub mod Steps
pub mod Invariant
use spiped.Base.{
  ℕ, ◌+◌, ◌-◌, Bool, true, false, not, Option, none, some, List, [], ◌∷◌, if◌then◌else◌,
}

-- `state`.
pub data ThreadState : Type 0 where
  sleeping has_work suicide : ThreadState

-- Where the worker is: waiting, or at the test of its loop; in `sock_resolve`, without the mutex;
-- or ended.
pub data Worker : Type 0 where
  waiting : Worker
  resolving : ℕ → Worker
  ended : Worker

-- `struct dnsthread_internal`, and what stands beside it.
pub record DnsThread : Type 0 where
  pub worker : Worker
  pub state : ThreadState
  pub addr : ℕ
  -- The answer `sas`, with the address that it answers.
  pub sas : ℕ × Option ℕ
  pub callback : ℕ
  -- The bytes in the socket pair, and whether the event loop listens to it.
  pub wakeups : ℕ
  pub registered : Bool
  -- The duplicated addresses that are allocated, and whether the structure is.
  pub addrs : ℕ
  pub allocated : Bool
  -- The requests that were accepted, and the callbacks that were made, each with the address that
  -- was resolved; the last one first.
  pub asked : List (ℕ × ℕ)
  pub answered : List (ℕ × ℕ)

-- What `strdup`, `pthread_cond_signal` and `events_network_register` report.
pub record Answers : Type 0 where
  pub strdup_ok : Bool
  pub signal_ok : Bool
  pub register_ok : Bool

-- 0; 0 with `EALREADY`; or -1.
pub data Result : Type 0 where
  accepted already failed : Result

abbrev pub is_busy : ThreadState → Bool
is_busy sleeping = false
is_busy has_work = true
is_busy suicide = false

-- For the address `a`, with the callback `cb`.
unfoldable pub dnsthread_resolveone : Answers → ℕ → ℕ → DnsThread → Result × DnsThread
dnsthread_resolveone r a cb t =
    let copied : DnsThread = record t {
      addr = a;
      addrs = t.addrs + 1;
      callback = cb;
      state = has_work;
    } in
    if is_busy t.state
    then (already, t)
    else if not r.strdup_ok
    then (failed, t)
    else if not r.signal_ok
    then (failed, copied)
    else if not r.register_ok
    then (failed, copied)
    else (accepted, record copied { registered = true; asked = (cb, a) ∷ t.asked })

-- The event loop has found the socket readable, and listens no more: one byte is read, by a call
-- that reports `read_ok`, and the callback is made. Whether 0 is returned, when the callback does.
unfoldable pub callback_resolveone : Bool → DnsThread → Bool × DnsThread
callback_resolveone read_ok t =
    let woken : DnsThread = record t { registered = false } in
    if not read_ok then (false, woken) else (
      true,
      record woken {
        wakeups = t.wakeups - 1;
        addrs = t.addrs - 1;
        answered = (t.callback, t.sas.0) ∷ t.answered;
      },
    )

-- Whether the caller then waits for the worker to end.
unfoldable pub dnsthread_kill : DnsThread → Bool × DnsThread
dnsthread_kill t = (
  elim t.state [ sleeping ↦ true | has_work ↦ false | suicide ↦ false ],
  record t { state = suicide },
)

-- The worker, up to the call of `sock_resolve`, from it on, and out of its loop.
unfoldable pub grab_work : DnsThread → DnsThread
grab_work t = record t { worker = resolving t.addr }

abbrev pub back_to_sleep : ThreadState → ThreadState
back_to_sleep suicide = suicide
back_to_sleep _ = sleeping

unfoldable pub write_back : ℕ → Option ℕ → DnsThread → DnsThread
write_back a answer t = record t {
  worker = waiting;
  sas = (a, answer);
  wakeups = t.wakeups + 1;
  state = back_to_sleep t.state;
}

unfoldable pub end_thread : DnsThread → DnsThread
end_thread t = record t { worker = ended; allocated = false }
