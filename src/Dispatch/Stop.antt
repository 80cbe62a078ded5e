-- ===== src/Dispatch/Stop.antt =====
-- spiped/dispatch.c: dispatch_shutdown, by its loop.
use spiped.Base.{
  ℕ, zero, suc, ◌-◌, Bool, false, Option, none, some, List, [], ◌∷◌, length, ◌==◌, if◌then◌else◌,
}
use spiped.Dispatch.{
  World, AcceptState, Answers, Outcome, returns, aborted, held, callback_conndied,
}

-- What follows the loop of `dispatch_shutdown`.
unfoldable pub release : AcceptState → World → World
release c w = record w {
  accepts = w.accepts - held c.accept_cookie;
  timers = w.timers - held c.dnstimer_cookie;
  threads = w.threads - held c.t;
  addr_lists = w.addr_lists - 1;
  fds = w.fds - 1;
  states = w.states - 1;
}

abbrev pub is_first : ℕ → List ℕ → Bool
is_first i [] = false
is_first i (j ∷ js) = i == j

-- What one pass of the loop of `dispatch_shutdown` goes on with; the connection that was dropped
-- is first no more.
unfoldable pub drop_next : (AcceptState → World → Option World) → ℕ → Outcome → Option World
drop_next rest i (returns ok c w) = if is_first i c.conn_cookies then none else rest c w
drop_next rest i aborted = none

-- The loop, on fuel, and what follows it. `proto_conn_drop` ends the connection and calls
-- `callback_conndied`, whose accepts are answered in turn. `none` stands for a failed assertion,
-- or too little fuel.
unfoldable pub drop_all : ℕ → (ℕ → Answers) → AcceptState → World → Option World
unfolding drop_next
drop_all zero a c w = elim c.conn_cookies [ [] ↦ some (release c w) | i ∷ js ↦ none ]
drop_all (suc n) a c w = elim c.conn_cookies [
  | [] ↦ some (release c w)
  | i ∷ js ↦
      drop_next (λ c' w'. drop_all n a c' w') i
        (callback_conndied (a n) i c (record w { conns = w.conns - 1 }))
]

-- There are as many passes as connections.
unfoldable pub dispatch_shutdown : (ℕ → Answers) → AcceptState → World → Option World
dispatch_shutdown a c w = drop_all (length c.conn_cookies) a c w
