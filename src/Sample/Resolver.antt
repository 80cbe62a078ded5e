-- ===== src/Sample/Resolver.antt =====
-- Each theorem applied at a concrete run of the resolver's thread. In two runs more, a caller does
-- what the conditions of the theorems rule out.
use spiped.Base.{ℕ, ◌≡◌, ◌⊎◌, refl, inl, true, false, some, [], ◌∷◌, if◌then◌else◌, arith}
use spiped.DnsThread.{
  DnsThread, waiting, resolving, ended, sleeping, has_work, suicide, Answers, dnsthread_resolveone,
  callback_resolveone, dnsthread_kill, grab_work, write_back, end_thread,
}
use spiped.DnsThread.Steps.{Step, Reach, here, next, ask, call_back, grab, write, end, spawned}
use spiped.DnsThread.Invariant.{requests_answered, can_answer, kill_idle}
use spiped.DnsThread.Spawn.{
  Resources, SpawnAnswers, dnsthread_resolve, callback_resolve, dnsthread_resolve_lem,
}

abbrev all_ok : Answers
all_ok = record { strdup_ok = true; signal_ok = true; register_ok = true }

-- The address 5 is asked for with the callback 1, and the worker resolves it.
abbrev busy : DnsThread
busy = record spawned {
  worker = resolving 5;
  state = has_work;
  addr = 5;
  callback = 1;
  registered = true;
  addrs = 1;
  asked = (1, 5) ∷ [];
}

to_busy : Reach true spawned busy
unfolding dnsthread_resolveone grab_work
to_busy =
    next (next here (ask all_ok 5 1 (λ e. ground arith) (inl refl) (λ e. (refl, refl))))
      (grab refl refl)

requests_answered_example :
    ((1, 5) ∷ []
      ≡ (if busy.registered then (busy.callback, busy.addr) ∷ busy.answered else busy.answered))
    × ((a : ℕ) → busy.worker ≡ resolving a → (a ≡ 5) × (busy.addrs ≡ 1))
    × (busy.allocated ≡ false → busy.worker ≡ ended)
requests_answered_example = requests_answered to_busy

can_answer_example :
    (u : DnsThread) × Reach true busy u × (u.asked ≡ busy.asked) × (u.answered ≡ busy.asked)
can_answer_example = can_answer to_busy refl (λ e. ground arith)

abbrev idle : DnsThread
idle = record busy {
  worker = waiting;
  state = sleeping;
  sas = (5, some 80);
  registered = false;
  addrs = 0;
  answered = (1, 5) ∷ [];
}

to_idle : Reach true spawned idle
unfolding write_back callback_resolveone
to_idle =
    next (next to_busy (write 5 (some 80) refl))
      (call_back true refl (omega arith) (λ e. ground arith) (λ e. refl))

abbrev gone : DnsThread
gone = record idle { worker = ended; state = suicide; allocated = false }

ends : Step true (dnsthread_kill idle).1 gone
unfolding dnsthread_kill end_thread
ends = end refl refl

kills_idle :
    ((dnsthread_kill idle).0 ≡ true)
    × Step true (dnsthread_kill idle).1 (end_thread (dnsthread_kill idle).1)
    × (gone ≡ end_thread (dnsthread_kill idle).1)
    × (gone.allocated ≡ false)
    × (gone.addrs ≡ 0)
kills_idle = kill_idle to_idle refl refl ends

abbrev nothing : Resources
nothing = record { heap = 0; mutexes = 0; conds = 0; fds = 3; threads = 1 }

-- `pthread_create` fails.
abbrev no_thread : SpawnAnswers
no_thread = record {
  alloc_ok = true;
  mutex_ok = true;
  lock_ok = true;
  cond_ok = true;
  pair_ok = true;
  create_ok = false;
  unlock_ok = true;
}

resolves_once :
    let (ok, t0, w') =
      dnsthread_resolve true (record no_thread { create_ok = true }) all_ok 5 1 nothing in
    ((ok ≡ false) × (w' ≡ nothing))
    ⊎ ((ok ≡ true)
        × (t0.registered ≡ true)
        × ((callback_resolve true idle w').0 ≡ true)
        × ((callback_resolve true idle w').2 ≡ nothing))
resolves_once =
    dnsthread_resolve_lem true true (record no_thread { create_ok = true }) all_ok 5 1 nothing idle
      refl refl refl refl

-- A caller asks for the address 6, with the callback 2, when the answer for 5 is written back but
-- its callback is not made. The thread does not count as busy: the callback 2 is made, with the
-- answer for 5, the callback 1 is not, and a duplicate is never freed.
asks_early :
    let t =
      dnsthread_resolveone
        (record all_ok { register_ok = false })
        6
        2
        (write_back 5 (some 80) busy) in
    ((callback_resolveone true t.1).1.answered ≡ (2, 5) ∷ [])
    × (t.1.state ≡ has_work)
    × ((callback_resolveone true t.1).1.addrs ≡ 1)
unfolding dnsthread_resolveone callback_resolveone write_back
asks_early = (refl, refl, refl)

-- A thread that is killed while it resolves is not waited for: it ends with the duplicate of the
-- address still allocated, and with the event loop still listening for it.
killed_busy :
    let t = end_thread (write_back 5 (some 80) (dnsthread_kill busy).1) in
    (t.allocated ≡ false)
    × (t.addrs ≡ 1)
    × (t.registered ≡ true)
    × ((dnsthread_kill busy).0 ≡ false)
unfolding dnsthread_kill write_back end_thread
killed_busy = (refl, refl, refl, refl)
