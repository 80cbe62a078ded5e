-- ===== src/DnsThread/Invariant.antt =====
-- lib/dnsthread/dnsthread.c: what the event loop and the worker keep, step by step.
use spiped.Base.{ℕ, ◌≡◌, ◌≢◌, ◌⊎◌, refl, ap, inl, true, false, none, ◌∷◌, if◌then◌else◌, arith}
use spiped.DnsThread.{
  DnsThread, Worker, waiting, resolving, ended, ThreadState, sleeping, has_work, suicide,
  dnsthread_resolveone, callback_resolveone, dnsthread_kill, grab_work, write_back, end_thread,
  back_to_sleep,
}
use spiped.DnsThread.Steps.{
  Step, Reach, here, next, ask, call_back, kill, grab, write, end, spawned,
}

-- A thread that has not been killed is idle, or has the answer written back; has a request; or
-- resolves its address.
abbrev Phase : DnsThread → Worker → ThreadState → Type 0
Phase t waiting sleeping =
    ((t.registered ≡ false) × (t.wakeups ≡ 0) × (t.addrs ≡ 0))
    ⊎ ((t.registered ≡ true) × (t.wakeups ≡ 1) × (t.addrs ≡ 1) × (t.sas.0 ≡ t.addr))
Phase t waiting has_work = (t.registered ≡ true) × (t.wakeups ≡ 0) × (t.addrs ≡ 1)
Phase t (resolving a) has_work =
    (t.registered ≡ true) × (t.wakeups ≡ 0) × (t.addrs ≡ 1) × (a ≡ t.addr)
Phase t waiting suicide = Unit
Phase t (resolving a) suicide = (t.addrs ≡ 1) × (a ≡ t.addr)
Phase t ended suicide = Unit
Phase t _ _ = ⊥

record Keeps (t : DnsThread) : Type 0 where
  phase : Phase t t.worker t.state
  requests : t.asked ≡ (if t.registered then (t.callback, t.addr) ∷ t.answered else t.answered)
  freed : (t.allocated ≡ false) → t.worker ≡ ended

Keeps-Step : {t u : DnsThread} → Keeps t → Step true t u → Keeps u
unfolding dnsthread_resolveone callback_resolveone dnsthread_kill grab_work write_back end_thread
Keeps-Step {t} k (ask r a cb alive free works) = ground arith
Keeps-Step {t} k (call_back read_ok listens woken alive works) = ground arith
Keeps-Step {t} k (kill alive) = ground arith
Keeps-Step {t} k (grab w s) = ground arith
Keeps-Step {t} k (write a answer w) = ground arith
Keeps-Step {t} k (end w s) = ground arith

Reach-Reach : {t u v : DnsThread} → Reach true t u → Reach true u v → Reach true t v
Reach-Reach r here = r
Reach-Reach r (next q st) = next (Reach-Reach r q) st

Keeps-Reach : {t u : DnsThread} → Keeps t → Reach true t u → Keeps u
Keeps-Reach k here = k
Keeps-Reach k (next r s) = Keeps-Step (Keeps-Reach k r) s

Keeps-spawned : Keeps spawned
Keeps-spawned = record {
  phase = inl (refl, refl, refl);
  requests = refl;
  freed = λ e. absurd (ground arith);
}

-- In every order of the steps of the event loop and the worker, when signalling,
-- registering and the reading of the wake-up byte do not fail: each accepted request but the one that is under way has had its callback, once, in
-- order, with the answer to its own address; while the worker resolves an address, this is the one
-- duplicate that is allocated; and the structure is freed only when the worker has ended.
pub requests_answered :
    {t : DnsThread}
    → Reach true spawned t
    → (t.asked ≡ (if t.registered then (t.callback, t.addr) ∷ t.answered else t.answered))
      × ((a : ℕ) → t.worker ≡ resolving a → (a ≡ t.addr) × (t.addrs ≡ 1))
      × (t.allocated ≡ false → t.worker ≡ ended)
requests_answered {t} reached =
    let k = Keeps-Reach Keeps-spawned reached in
    (k.requests, λ a e. let ph = k.phase in ground arith, k.freed)

Answered : DnsThread → Type 0
Answered t = (u : DnsThread) × Reach true t u × (u.asked ≡ t.asked) × (u.answered ≡ t.asked)

-- The steps to a callback, from the last one on.
calls_back :
    {t : DnsThread}
    → Keeps t
    → t.registered ≡ true
    → t.worker ≡ waiting
    → t.state ≡ sleeping
    → Answered t
unfolding callback_resolveone Answered
calls_back {t} k pending w s =
    let ph = k.phase in
    let asked = k.requests in
    (
      (callback_resolveone true t).1,
      next here (call_back true pending (ground arith) (ground arith) (λ e. refl)),
      refl,
      ground arith,
    )

writes_back :
    {t : DnsThread} (a : ℕ)
    → Keeps t
    → t.registered ≡ true
    → t.worker ≡ resolving a
    → t.state ≡ has_work
    → Answered t
unfolding write_back Answered
writes_back {t} a k pending w s =
    let step : Step true t (write_back a none t) = write a none w in
    let (u, r, asked, answered) =
      calls_back (Keeps-Step k step) pending refl (ap back_to_sleep s) in
    (u, Reach-Reach (next here step) r, asked, answered)

grabs :
    {t : DnsThread}
    → Keeps t
    → t.registered ≡ true
    → t.worker ≡ waiting
    → t.state ≡ has_work
    → Answered t
unfolding grab_work Answered
grabs {t} k pending w s =
    let step : Step true t (grab_work t) = grab w s in
    let (u, r, asked, answered) = writes_back t.addr (Keeps-Step k step) pending refl s in
    (u, Reach-Reach (next here step) r, asked, answered)

answers :
    {t : DnsThread} (w : Worker) (s : ThreadState)
    → Keeps t
    → t.registered ≡ true
    → t.state ≢ suicide
    → t.worker ≡ w
    → t.state ≡ s
    → Answered t
answers waiting sleeping k pending alive e f = calls_back k pending e f
answers waiting has_work k pending alive e f = grabs k pending e f
answers (resolving a) has_work k pending alive e f = writes_back a k pending e f
answers {t} (resolving a) sleeping k pending alive e f = let ph = k.phase in absurd (ground arith)
answers {t} ended sleeping k pending alive e f = let ph = k.phase in absurd (ground arith)
answers {t} ended has_work k pending alive e f = let ph = k.phase in absurd (ground arith)
answers w suicide k pending alive e f = absurd (alive f)

-- From every state that is reached when signalling, registering and the reading of the wake-up byte
-- do not fail, with a request under way and the thread not killed, some steps lead to its callback,
-- with no request more.
pub can_answer :
    {t : DnsThread}
    → Reach true spawned t
    → t.registered ≡ true
    → t.state ≢ suicide
    → (u : DnsThread) × Reach true t u × (u.asked ≡ t.asked) × (u.answered ≡ t.asked)
unfolding Answered
can_answer {t} reached pending alive =
    answers t.worker t.state (Keeps-Reach Keeps-spawned reached) pending alive refl refl

-- Killing an idle thread waits for it, and the wait is not in vain: there is a step then, it is the
-- only one, and it ends the worker, with neither the structure nor an address left allocated.
pub kill_idle :
    {t v : DnsThread}
    → Reach true spawned t
    → t.state ≡ sleeping
    → t.registered ≡ false
    → Step true (dnsthread_kill t).1 v
    → ((dnsthread_kill t).0 ≡ true)
      × Step true (dnsthread_kill t).1 (end_thread (dnsthread_kill t).1)
      × (v ≡ end_thread (dnsthread_kill t).1)
      × (v.allocated ≡ false)
      × (v.addrs ≡ 0)
unfolding dnsthread_kill end_thread
kill_idle reached idle quiet (ask r a cb alive free works) = absurd (alive refl)
kill_idle reached idle quiet (call_back read_ok listens woken alive works) = absurd (alive refl)
kill_idle reached idle quiet (kill alive) = absurd (alive refl)
kill_idle reached idle quiet (grab w s) = absurd (ground arith)
kill_idle {t} reached idle quiet (write a answer w) =
    let k = (Keeps-Reach Keeps-spawned reached).phase in absurd (ground arith)
kill_idle {t} reached idle quiet (end w s) =
    let k = (Keeps-Reach Keeps-spawned reached).phase in
    (ground arith, end w refl, refl, refl, ground arith)
