-- ===== src/Dispatch.antt =====
-- spiped/dispatch.c: the server, which accepts connections and counts them.
--
-- The state is `struct accept_state`; a node of its list is the name of its connection. `World`
-- counts what the process holds: open descriptors, pending accepts, timers, resolver threads,
-- address lists, list nodes, accept states, and connections, each with the descriptor and the
-- address list that it took over. What the calls report is an argument. `dnsthread_resolveone`
-- leaves a request with the thread, or fails.
pub mod Nodes
pub mod Ledger
pub mod Stop
pub mod Shutdown
use spiped.Base.{
  ℕ, zero, suc, ◌+◌, ◌-◌, ◌%◌, ◌^◌, Bool, true, false, not, ◌&&◌, Option, none, some, List, [], ◌∷◌,
  length, ltb, ◌==◌, if◌then◌else◌, ℤ, is_minus_one,
}

pub record World : Type 0 where
  pub fds : ℕ
  pub accepts : ℕ
  pub timers : ℕ
  pub threads : ℕ
  pub addr_lists : ℕ
  pub nodes : ℕ
  pub states : ℕ
  pub conns : ℕ

pub record AcceptState : Type 0 where
  pub conndone : Bool
  pub shutdown_requested : Bool
  pub nconn : ℕ
  pub nconn_max : ℕ
  -- Whether each cookie, and `T`, is not NULL.
  pub accept_cookie : Bool
  pub dnstimer_cookie : Bool
  pub t : Bool
  -- Whether the thread `T` has a request.
  pub resolving : Bool
  pub conn_cookies : List ℕ

-- What the calls report: `malloc`, `dnsthread_spawn` or `sock_addr_duplist`,
-- `events_timer_register_double`, `dnsthread_resolveone`, `proto_conn_create` and
-- `network_accept`.
pub record Answers : Type 0 where
  pub alloc_ok : Bool
  pub spawn_ok : Bool
  pub duplist_ok : Bool
  pub timer_ok : Bool
  pub resolve_ok : Bool
  pub create_ok : Bool
  pub accept_ok : Bool

-- How a callback ends: it returns 0 (`true`) or -1, or an assertion fails.
pub data Outcome : Type 0 where
  returns : Bool → AcceptState → World → Outcome
  aborted : Outcome

abbrev pub held : Bool → ℕ
held true = 1
held false = 0

-- `nconn += 1` and `nconn -= 1`, on a 64-bit `size_t`.
abbrev pub increment : ℕ → ℕ
increment n = (n + 1) % 2 ^ 64

abbrev pub decrement : ℕ → ℕ
decrement n = (n + (2 ^ 64 - 1)) % 2 ^ 64

-- `LIST_REMOVE`.
unfoldable pub list_remove : ℕ → List ℕ → List ℕ
list_remove i [] = []
list_remove i (j ∷ js) = let rest = list_remove i js in if i == j then js else j ∷ rest

abbrev pub is_empty : List ℕ → Bool
is_empty [] = true
is_empty (j ∷ js) = false

unfoldable pub callback_resolve : Answers → Bool → AcceptState → World → Outcome
callback_resolve a sas c w =
    let w' : World = record w { addr_lists = w.addr_lists - held sas } in
    if a.timer_ok
    then returns true (record c { dnstimer_cookie = true }) (record w' { timers = w.timers + 1 })
    else returns false (record c { dnstimer_cookie = false }) w'

unfoldable pub callback_resolveagain : Answers → AcceptState → World → Outcome
callback_resolveagain a c w =
    returns a.resolve_ok (record c { dnstimer_cookie = false; resolving = a.resolve_ok }) w

-- Whether it succeeds, and the state and the world either way.
unfoldable pub doaccept : Answers → AcceptState → World → Bool × AcceptState × World
doaccept a c w =
    if ltb c.nconn c.nconn_max && (not c.accept_cookie && not c.shutdown_requested)
    then (if a.accept_ok
        then (true, record c { accept_cookie = true }, record w { accepts = w.accepts + 1 })
        else (false, record c { accept_cookie = false }, w))
    else (true, c, w)

unfoldable pub then_accept : Answers → AcceptState → World → Outcome
unfolding doaccept
then_accept a c w = returns (doaccept a c w).0 (doaccept a c w).1 (doaccept a c w).2

-- The connection `i` has closed.
unfoldable pub callback_conndied : Answers → ℕ → AcceptState → World → Outcome
unfolding then_accept
callback_conndied a i c w =
    let n = decrement c.nconn in
    let c' : AcceptState = record c {
      nconn = n;
      conn_cookies = list_remove i c.conn_cookies;
      conndone = if c.shutdown_requested && n == 0 then true else c.conndone;
    } in
    if is_empty c.conn_cookies then aborted else then_accept a c' (record w { nodes = w.nodes - 1 })

-- A connection on the descriptor `s`; `i` is the name that it is given.
unfoldable pub callback_gotconn : Answers → ℤ → ℕ → AcceptState → World → Outcome
unfolding then_accept
callback_gotconn a s i cookie w =
    let c : AcceptState = record cookie { accept_cookie = false } in
    let n = increment c.nconn in
    let gained : AcceptState = record c { nconn = n } in
    let lost : AcceptState = record c { nconn = decrement n } in
    let dup : World = record w { addr_lists = w.addr_lists + 1 } in
    let undup : World = record w { addr_lists = w.addr_lists + 1 - 1; fds = w.fds - 1 } in
    if is_minus_one s
    then returns false c w
    else if not a.duplist_ok
    then returns false lost (record w { fds = w.fds - 1 })
    else if not a.alloc_ok
    then returns false lost undup
    else if not a.create_ok
    then returns false lost (record undup { nodes = w.nodes + 1 - 1 })
    else then_accept a (record gained { conn_cookies = i ∷ c.conn_cookies })
        (record dup {
          nodes = w.nodes + 1;
          conns = w.conns + 1;
          fds = w.fds - 1;
          addr_lists = w.addr_lists + 1 - 1;
        })

-- The first accept, or `err3`: the timer, the thread and the state are released.
unfoldable pub accept_first : World → Bool × AcceptState × World → Option AcceptState × World
accept_first w (true, c, w') = (some c, w')
accept_first w (false, c, w') = (
  none,
  record w' {
    timers = w'.timers - held c.dnstimer_cookie;
    threads = w'.threads - held c.t;
    states = w'.states - 1;
  },
)

-- `rtime` tells whether the re-resolution time is positive.
unfoldable pub dispatch_accept : Answers → Bool → ℕ → World → Option AcceptState × World
unfolding accept_first doaccept
dispatch_accept a rtime nconn_max w =
    let c : AcceptState = record {
      conndone = false;
      shutdown_requested = false;
      nconn = 0;
      nconn_max = nconn_max;
      accept_cookie = false;
      dnstimer_cookie = false;
      t = false;
      resolving = false;
      conn_cookies = [];
    } in
    let baked : World = record w { states = w.states + 1 } in
    let spawned : World = record baked { threads = w.threads + 1 } in
    if not a.alloc_ok
    then (none, w)
    else if not rtime
    then accept_first w (doaccept a c baked)
    else if not a.spawn_ok
    then (none, record baked { states = w.states + 1 - 1 })
    else if not a.timer_ok
    then (none, record spawned { threads = w.threads + 1 - 1; states = w.states + 1 - 1 })
    else accept_first w (
        doaccept a (record c { t = true; dnstimer_cookie = true })
          (record spawned { timers = w.timers + 1 }))

unfoldable pub dispatch_request_shutdown : AcceptState → World → AcceptState × World
dispatch_request_shutdown c w = (
  record c {
    shutdown_requested = true;
    accept_cookie = false;
    conndone = if c.nconn == 0 then true else c.conndone;
  },
  record w { accepts = w.accepts - held c.accept_cookie },
)
