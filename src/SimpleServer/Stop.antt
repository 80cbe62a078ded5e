-- ===== src/SimpleServer/Stop.antt =====
-- tests/nc-server/simple_server.c: how the server starts and stops.
use spiped.Base.{
  ℕ, zero, suc, ◌+◌, ◌-◌, Bool, true, false, not, Option, none, some, List, [], ◌∷◌, length, ◌==◌,
  if◌then◌else◌,
}
use spiped.SimpleServer.{
  World, AcceptState, Answers, Outcome, returns, aborted, held, doaccept, drop,
}

abbrev pub is_first : ℕ → List (ℕ × Bool) → Bool
is_first i [] = false
is_first i ((j, r) ∷ js) = i == j

-- What follows the loop of `simple_server_shutdown`.
unfoldable pub release : World → World
release w = record w { fds = w.fds - 1; states = w.states - 1 }

-- What a pass of the loop goes on with; the connection that was dropped is first no more.
unfoldable pub drop_next : (AcceptState → World → Option World) → ℕ → Outcome → Option World
drop_next rest i (returns ok c w) = if is_first i c.conn_cookies then none else rest c w
drop_next rest i aborted = none

-- The loop, on fuel, and what follows it. `none` stands for a failed assertion, or too little fuel.
unfoldable pub drop_all : ℕ → (ℕ → Answers) → AcceptState → World → Option World
unfolding drop_next
drop_all zero a c w = elim c.conn_cookies [ [] ↦ some (release w) | i ∷ js ↦ none ]
drop_all (suc n) a c w = elim c.conn_cookies [
  | [] ↦ some (release w)
  | (i, r) ∷ js ↦ drop_next (λ c' w'. drop_all n a c' w') i (drop (a n) i r c w)
]

-- There are as many passes as connections.
unfoldable pub simple_server_shutdown : (ℕ → Answers) → AcceptState → World → Option World
simple_server_shutdown a c w =
    drop_all (length c.conn_cookies) a
      (record c { shutdown_requested = true; accept_cookie = false })
      (record w { accepts = w.accepts - held c.accept_cookie })

-- What `simple_server` comes to before its event loop: it returns -1, it goes on to the loop, or an
-- assertion fails.
pub data Start : Type 0 where
  fails : World → Start
  spins : AcceptState → World → Start
  failed_assertion : Start

-- `err1`, with what is held by then.
abbrev pub err1 : World → World
err1 w = record w { addrs = w.addrs - 1 }

unfoldable pub err3 : Option World → Start
err3 none = failed_assertion
err3 (some w) = fails (err1 w)

unfoldable pub accept_first : (ℕ → Answers) → Bool × AcceptState × World → Start
unfolding err3
accept_first b (true, c, w) = spins c w
accept_first b (false, c, w) = err3 (simple_server_shutdown b c w)

-- `resolve_ok` and `listener_ok` are what `sock_resolve_one` and `sock_listener` report.
unfoldable pub start : Answers → Bool → Bool → (ℕ → Answers) → ℕ → ℕ → World → Start
unfolding accept_first
start a resolve_ok listener_ok b nconn_max shutdown_after w =
    let resolved : World = record w { addrs = w.addrs + 1 } in
    let listening : World = record resolved { fds = w.fds + 1 } in
    let c : AcceptState = record {
      conndone = false;
      shutdown_requested = false;
      shutdown_after = shutdown_after;
      shutdown_current = 0;
      nconn = 0;
      nconn_max = nconn_max;
      accept_cookie = false;
      conn_cookies = [];
    } in
    if not resolve_ok
    then fails w
    else if not listener_ok
    then fails (err1 resolved)
    else if not a.alloc_ok
    then fails (err1 (record listening { fds = w.fds + 1 - 1 }))
    else accept_first b (doaccept a c (record listening { states = w.states + 1 }))

-- What follows `events_spin`, which reports `ok`, and what the function returns, 0 (`true`) or -1;
-- `none` stands for a failed assertion.
unfoldable pub finish : (ℕ → Answers) → Bool → AcceptState → World → Option (Bool × World)
finish b true c w = elim (simple_server_shutdown b c (err1 w)) [
  | none ↦ none
  | some v ↦ some (true, v)
]
finish b false c w = elim (simple_server_shutdown b c w) [
  | none ↦ none
  | some v ↦ some (false, err1 v)
]
