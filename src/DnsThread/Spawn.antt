-- ===== src/DnsThread/Spawn.antt =====
-- lib/dnsthread/dnsthread.c: how a thread is made and released, and the one that is made for a
-- single request.
use spiped.Base.{ℕ, ◌+◌, ◌-◌, ◌≡◌, ◌⊎◌, Bool, true, false, not, if◌then◌else◌, arith}
use spiped.DnsThread.{DnsThread, sleeping, Answers, failed, dnsthread_resolveone, dnsthread_kill}
use spiped.DnsThread.Steps.{spawned}

-- What the process holds.
pub record Resources : Type 0 where
  pub heap : ℕ
  pub mutexes : ℕ
  pub conds : ℕ
  pub fds : ℕ
  pub threads : ℕ

-- What the calls of `dnsthread_spawn` report, in their order.
pub record SpawnAnswers : Type 0 where
  pub alloc_ok : Bool
  pub mutex_ok : Bool
  pub lock_ok : Bool
  pub cond_ok : Bool
  pub pair_ok : Bool
  pub create_ok : Bool
  pub unlock_ok : Bool

-- Whether there is a thread, and what the process then holds.
unfoldable pub dnsthread_spawn : SpawnAnswers → Resources → Bool × Resources
dnsthread_spawn a w =
    let allocated : Resources = record w { heap = w.heap + 1 } in
    let with_mutex : Resources = record allocated { mutexes = w.mutexes + 1 } in
    let with_cond : Resources = record with_mutex { conds = w.conds + 1 } in
    let with_pair : Resources = record with_cond { fds = w.fds + 2 } in
    let made : Resources = record with_pair { threads = w.threads + 1 } in
    let err1 = λ (v : Resources). record v { heap = v.heap - 1 } in
    let err2 = λ (v : Resources). err1 (record v { mutexes = v.mutexes - 1 }) in
    let err4 = λ (v : Resources). err2 (record v { conds = v.conds - 1 }) in
    let err5 = λ (v : Resources). err4 (record v { fds = v.fds - 1 - 1 }) in
    if not a.alloc_ok
    then (false, w)
    else if not a.mutex_ok
    then (false, err1 allocated)
    else if not a.lock_ok
    then (false, err2 with_mutex)
    else if not a.cond_ok
    then (false, err2 with_mutex)
    else if not a.pair_ok
    then (false, err4 with_cond)
    else if not a.create_ok
    then (false, err5 with_pair)
    else (a.unlock_ok, made)

-- What the worker releases when it ends.
unfoldable pub releases : Resources → Resources
releases w = record {
  heap = w.heap - 1;
  mutexes = w.mutexes - 1;
  conds = w.conds - 1;
  fds = w.fds - 1 - 1;
  threads = w.threads - 1;
}

-- A killed thread: if it was waited for, it has ended.
abbrev pub killed : Bool → Resources → Resources
killed true w = releases w
killed false w = w

-- The thread is asked, or `err2`; `R` is freed in either error. The thread and the resources.
unfoldable pub resolve_next : Answers → ℕ → ℕ → Bool × Resources → Bool × DnsThread × Resources
resolve_next r a cb (false, w) = (false, spawned, record w { heap = w.heap - 1 })
resolve_next r a cb (true, w) = elim (dnsthread_resolveone r a cb spawned).0 [
  | failed ↦
      let (waits, t) = dnsthread_kill (dnsthread_resolveone r a cb spawned).1 in
      let w' = killed waits w in (false, t, record w' { heap = w'.heap - 1 })
  | _ ↦ (true, (dnsthread_resolveone r a cb spawned).1, w)
]

unfoldable pub dnsthread_resolve :
    Bool → SpawnAnswers → Answers → ℕ → ℕ → Resources → Bool × DnsThread × Resources
unfolding resolve_next
dnsthread_resolve alloc_ok s r a cb w =
    if alloc_ok
    then resolve_next r a cb (dnsthread_spawn s (record w { heap = w.heap + 1 }))
    else (false, spawned, w)

-- The upstream callback's result, the thread, and the resources once `R` is freed.
unfoldable pub callback_resolve : Bool → DnsThread → Resources → Bool × DnsThread × Resources
callback_resolve rc t w =
    let (waits, t') = dnsthread_kill t in
    let w' = killed waits w in (rc, t', record w' { heap = w'.heap - 1 })

-- When `dnsthread_spawn` fails, at any of its calls but the last, nothing is left; what a thread
-- holds that it made, the worker releases at its end.
pub dnsthread_spawn_lem :
    (a : SpawnAnswers) (w : Resources)
    → a.unlock_ok ≡ true
    → let (ok, w') = dnsthread_spawn a w in
      ((ok ≡ false) × (w' ≡ w)) ⊎ ((ok ≡ true) × (releases w' ≡ w))
unfolding dnsthread_spawn releases
dnsthread_spawn_lem a w unlocks = ground arith

-- A single request that fails, because of an allocation or the thread, leaves nothing behind; one
-- that is accepted, once its callback is made on a thread that sleeps, does not either, and the
-- callback's result is passed on.
pub dnsthread_resolve_lem :
    (alloc_ok rc : Bool) (s : SpawnAnswers) (r : Answers) (a cb : ℕ) (w : Resources) (t : DnsThread)
    → s.unlock_ok ≡ true
    → r.signal_ok ≡ true
    → r.register_ok ≡ true
    → t.state ≡ sleeping
    → let (ok, t0, w') = dnsthread_resolve alloc_ok s r a cb w in
      ((ok ≡ false) × (w' ≡ w))
      ⊎ ((ok ≡ true)
          × (t0.registered ≡ true)
          × ((callback_resolve rc t w').0 ≡ rc)
          × ((callback_resolve rc t w').2 ≡ w))
unfolding dnsthread_resolve dnsthread_spawn releases dnsthread_resolveone dnsthread_kill
    callback_resolve
dnsthread_resolve_lem alloc_ok rc s r a cb w t unlocks signals registers sleeps = ground arith
