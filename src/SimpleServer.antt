-- ===== src/SimpleServer.antt =====
-- tests/nc-server/simple_server.c: the server of the tests, which reads from its connections and
-- stops by itself once enough of them have ended.
--
-- The state is `struct accept_state`; a node of its list is the name of a connection, and whether
-- its `network_read_cookie` is not NULL. `World` counts what the process holds: descriptors that
-- have not been closed, addresses, pending accepts and reads, list nodes, and accept states. What
-- the calls report is an argument.
pub mod Nodes
pub mod Ledger
pub mod Events
pub mod Stop
pub mod Shutdown
pub mod Run
use spiped.Base.{
  ℕ, ◌+◌, ◌-◌, ◌%◌, ◌^◌, Bool, true, false, not, ◌&&◌, Option, none, some, List, [], ◌∷◌, ltb, leb,
  ◌==◌, if◌then◌else◌, ℤ, pos, negsuc, is_minus_one,
}

pub record World : Type 0 where
  pub fds : ℕ
  pub addrs : ℕ
  pub accepts : ℕ
  pub reads : ℕ
  pub nodes : ℕ
  pub states : ℕ

pub record AcceptState : Type 0 where
  pub conndone : Bool
  pub shutdown_requested : Bool
  pub shutdown_after : ℕ
  pub shutdown_current : ℕ
  pub nconn : ℕ
  pub nconn_max : ℕ
  -- Whether the cookie is not NULL.
  pub accept_cookie : Bool
  pub conn_cookies : List (ℕ × Bool)

-- What the calls report: `malloc`, `network_accept`, `network_read`, `close`, and the callback for
-- a message.
pub record Answers : Type 0 where
  pub alloc_ok : Bool
  pub accept_ok : Bool
  pub read_ok : Bool
  pub close_ok : Bool
  pub message_ok : Bool

-- A callback returns 0 (`true`) or -1, or an assertion fails.
pub data Outcome : Type 0 where
  returns : Bool → AcceptState → World → Outcome
  aborted : Outcome

abbrev pub held : Bool → ℕ
held true = 1
held false = 0

-- `+ 1` and `- 1`, on a 64-bit `size_t`.
abbrev pub increment : ℕ → ℕ
increment n = (n + 1) % 2 ^ 64

abbrev pub decrement : ℕ → ℕ
decrement n = (n + (2 ^ 64 - 1)) % 2 ^ 64

-- `LIST_REMOVE`.
unfoldable pub list_remove : ℕ → List (ℕ × Bool) → List (ℕ × Bool)
list_remove i [] = []
list_remove i ((j, r) ∷ js) = let rest = list_remove i js in if i == j then js else (j, r) ∷ rest

abbrev pub is_empty : List (ℕ × Bool) → Bool
is_empty [] = true
is_empty (j ∷ js) = false

-- The cookie of a node, and its assignment.
abbrev pub network_read_cookie : ℕ → List (ℕ × Bool) → Option Bool
network_read_cookie i [] = none
network_read_cookie i ((j, r) ∷ js) = if i == j then some r else network_read_cookie i js

unfoldable pub set_cookie : ℕ → Bool → List (ℕ × Bool) → List (ℕ × Bool)
set_cookie i b [] = []
set_cookie i b ((j, r) ∷ js) =
    let rest = set_cookie i b js in if i == j then (j, b) ∷ js else (j, r) ∷ rest

-- Whether it succeeds, and the state and the world either way.
unfoldable pub doaccept : Answers → AcceptState → World → Bool × AcceptState × World
doaccept a c w =
    if ltb c.nconn c.nconn_max && (not c.accept_cookie && not c.shutdown_requested)
    then (if a.accept_ok
        then (true, record c { accept_cookie = true }, record w { accepts = w.accepts + 1 })
        else (false, record c { accept_cookie = false }, w))
    else (true, c, w)

unfoldable pub then_accept : Answers → AcceptState → World → Outcome
unfolding doaccept
then_accept a c w = returns (doaccept a c w).0 (doaccept a c w).1 (doaccept a c w).2

-- The state without the connection `i`.
unfoldable pub lose : ℕ → AcceptState → AcceptState
lose i c =
    let n = decrement c.nconn in
    let counts = ltb 0 c.shutdown_after in
    let current = if counts then increment c.shutdown_current else c.shutdown_current in
    let stops = if counts && leb c.shutdown_after current then true else c.shutdown_requested in
    record c {
      nconn = n;
      shutdown_current = current;
      shutdown_requested = stops;
      conn_cookies = list_remove i c.conn_cookies;
      conndone = if stops && n == 0 then true else c.conndone;
    }

-- The connection `i` has closed.
unfoldable pub conndied : Answers → ℕ → AcceptState → World → Outcome
unfolding then_accept lose
conndied a i c w =
    if is_empty c.conn_cookies
    then aborted
    else then_accept a (lose i c) (record w { nodes = w.nodes - 1 })

-- What `conndied` returns is ignored.
unfoldable pub ignoring : Bool → Outcome → Outcome
ignoring close_ok (returns ok c w) = returns close_ok c w
ignoring close_ok aborted = aborted

-- `drop` of the node `i`, whose cookie is `reading`.
unfoldable pub drop : Answers → ℕ → Bool → AcceptState → World → Outcome
unfolding ignoring conndied
drop a i reading c w =
    ignoring a.close_ok
      (conndied a i c (record w { reads = w.reads - held reading; fds = w.fds - 1 }))

-- A connection on the descriptor `s`; `i` is the name that it is given.
unfoldable pub callback_gotconn : Answers → ℤ → ℕ → AcceptState → World → Outcome
unfolding then_accept
callback_gotconn a s i cookie w =
    let c : AcceptState = record cookie { accept_cookie = false } in
    let gained : AcceptState = record c { nconn = increment c.nconn } in
    let lost : AcceptState = record c { nconn = decrement (increment c.nconn) } in
    if is_minus_one s
    then returns false c w
    else if not a.alloc_ok
    then returns false lost (record w { fds = w.fds - 1 })
    else if not a.read_ok
    then returns false lost (record w { nodes = w.nodes + 1 - 1; fds = w.fds - 1 })
    else then_accept a (record gained { conn_cookies = (i, true) ∷ c.conn_cookies })
        (record w { nodes = w.nodes + 1; reads = w.reads + 1 })

abbrev pub is_positive : ℤ → Bool
is_positive (pos n) = ltb 0 n
is_positive (negsuc n) = false

-- A message of the connection `i`, its end, or an error.
unfoldable pub callback_read : Answers → ℕ → ℤ → AcceptState → World → Outcome
unfolding drop
callback_read a i lenread cookie w =
    let c : AcceptState = record cookie { conn_cookies = set_cookie i false cookie.conn_cookies } in
    let dropped = drop a i false c w in
    if not (is_positive lenread)
    then dropped
    else if not a.message_ok
    then returns false c w
    else if a.read_ok
    then returns true (record c { conn_cookies = set_cookie i true c.conn_cookies })
        (record w { reads = w.reads + 1 })
    else returns false c w
