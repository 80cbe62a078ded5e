-- ===== src/DnsThread/Steps.antt =====
-- lib/dnsthread/dnsthread.c: the steps of the event loop and of the worker, in any order.
use spiped.Base.{ℕ, ◌<◌, ◌≡◌, ◌≢◌, ◌⊎◌, Bool, true, false, Option, none, []}
use spiped.DnsThread.{
  DnsThread, waiting, resolving, sleeping, has_work, suicide, Answers, dnsthread_resolveone,
  callback_resolveone, dnsthread_kill, grab_work, write_back, end_thread,
}

-- A thread that has just been spawned; no address has been resolved.
abbrev pub spawned : DnsThread
spawned = record {
  worker = waiting;
  state = sleeping;
  addr = 0;
  sas = (0, none);
  callback = 0;
  wakeups = 0;
  registered = false;
  addrs = 0;
  allocated = true;
  asked = [];
  answered = [];
}

-- A caller asks when it waits for no callback, or while the thread still has its request; it does
-- not ask a thread that it has killed. `listens` tells whether signalling, registering and
-- reading the byte that wakes the loop up work.
pub data Step (listens : Bool) (t : DnsThread) : DnsThread → Type 0 where
  ask :
      (r : Answers) (a cb : ℕ)
      → t.state ≢ suicide
      → (t.registered ≡ false) ⊎ (t.state ≡ has_work)
      → (listens ≡ true → (r.signal_ok ≡ true) × (r.register_ok ≡ true))
      → Step listens t (dnsthread_resolveone r a cb t).1
  call_back :
      (read_ok : Bool)
      → t.registered ≡ true
      → 0 < t.wakeups
      → t.state ≢ suicide
      → (listens ≡ true → read_ok ≡ true)
      → Step listens t (callback_resolveone read_ok t).1
  kill : t.state ≢ suicide → Step listens t (dnsthread_kill t).1
  grab : t.worker ≡ waiting → t.state ≡ has_work → Step listens t (grab_work t)
  write :
      (a : ℕ) (answer : Option ℕ) → t.worker ≡ resolving a → Step listens t (write_back a answer t)
  end : t.worker ≡ waiting → t.state ≡ suicide → Step listens t (end_thread t)

pub data Reach (listens : Bool) (t : DnsThread) : DnsThread → Type 0 where
  here : Reach listens t t
  next : {u v : DnsThread} → Reach listens t u → Step listens u v → Reach listens t v
