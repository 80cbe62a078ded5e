-- ===== src/Server.antt =====
-- spiped/dispatch.c with lib/proto/proto_conn.c: the server and the connections that it has.
--
-- `accept` is the server's state and `conns` the state of each connection, under its name. What the
-- process holds is in two worlds: `held_by_server`, and `held_by_conns`, which takes over the
-- descriptor and the addresses of a new connection.
pub mod Total
pub mod Keeps
pub mod Serves
pub mod Shutdown
pub mod Requested
use spiped.Base.{
  ℕ, ◌+◌, ◌-◌, Bool, true, false, not, ◌&&◌, Option, none, some, List, [], ◌∷◌, ◌==◌, if◌then◌else◌,
  ℤ, is_minus_one,
}
use spiped.Primitives.{Primitives}
use spiped.Conn.{ConnState, Status, ok, upstream, failure, is_some, proto_conn_create}
use spiped.Conn
use spiped.Conn.Ledger as ConnLedger
use spiped.Dispatch.{AcceptState}
use spiped.Dispatch
use spiped.Dispatch.Ledger as DispatchLedger

-- What `callback_conndied` leaves, of which the connection returns the result or -1.
abbrev pub returned : Status → Bool → Bool
returned upstream rc = rc
returned ok rc = true
returned failure rc = false

module _ (p : Primitives) where
  pub record Server : Type 0 where
    pub decr : Bool
    pub accept : AcceptState
    pub held_by_server : Dispatch.World
    pub conns : List (ℕ × ConnState p)
    pub held_by_conns : Conn.World

  abbrev pub names : List (ℕ × ConnState p) → List ℕ
  names [] = []
  names ((i, c) ∷ cs) = i ∷ names cs

  abbrev pub find : ℕ → List (ℕ × ConnState p) → Option (ConnState p)
  find i [] = none
  find i ((j, c) ∷ cs) = if i == j then some c else find i cs

  pub replace : ℕ → ConnState p → List (ℕ × ConnState p) → List (ℕ × ConnState p)
  replace i c' [] = []
  replace i c' ((j, c) ∷ cs) =
      let rest = replace i c' cs in if i == j then (j, c') ∷ cs else (j, c) ∷ rest

  pub remove : ℕ → List (ℕ × ConnState p) → List (ℕ × ConnState p)
  remove i [] = []
  remove i ((j, c) ∷ cs) = let rest = remove i cs in if i == j then cs else (j, c) ∷ rest

  -- The server goes on, after a callback that returned 0 (`true`) or -1, or an assertion failed.
  pub data Outcome : Type 0 where
    runs : Bool → Server → Outcome
    aborted : Outcome

  unfoldable pub died : Status → Server → Dispatch.Outcome → Outcome
  died rc s (Dispatch.Outcome.returns r c w) =
      runs (returned rc r) (record s { accept = c; held_by_server = w })
  died rc s Dispatch.Outcome.aborted = aborted

  -- A connection's callback, and `callback_conndied` when it drops the connection.
  pub after_conn : Dispatch.Answers → ℕ → Server → Conn.Outcome p → Outcome
  after_conn a i s (Conn.Outcome.lives c w) =
      runs true (record s { conns = replace i c s.conns; held_by_conns = w })
  after_conn a i s (Conn.Outcome.dropped reason rc w) =
      died rc (record s { conns = remove i s.conns; held_by_conns = w })
        (DispatchLedger.handle a (DispatchLedger.Event.conn_died i) s.accept s.held_by_server)
  after_conn a i s Conn.Outcome.aborted = aborted

  pub on_conn :
      Conn.Answers
      → Dispatch.Answers
      → ℕ
      → ConnLedger.Event p
      → Server
      → Option (ConnState p)
      → Outcome
  unfolding after_conn died
  on_conn a b i e s none = aborted
  on_conn a b i e s (some c) = after_conn b i s (ConnLedger.handle p a e c s.held_by_conns)

  -- `proto_conn_create` as `callback_gotconn` calls it, if it gets so far.
  pub create : Conn.Answers → Dispatch.Answers → ℤ → Server → Option (ConnState p) × Conn.World
  create a b fd s =
      let w = s.held_by_conns in
      if not (is_minus_one fd) && (b.duplist_ok && b.alloc_ok)
      then proto_conn_create p a s.decr fd
          (record w { fds = w.fds + 1; addr_lists = w.addr_lists + 1 })
      else (none, w)

  -- A connection that is not created leaves the descriptor and the addresses to the server.
  pub with_conn : ℕ → Server → Option (ConnState p) × Conn.World → Server
  with_conn i s (some c, w) = record s { conns = (i, c) ∷ s.conns; held_by_conns = w }
  with_conn i s (none, w) = s

  pub on_accept : Conn.Answers → Dispatch.Answers → ℤ → ℕ → Server → Outcome
  unfolding create with_conn died
  on_accept a b fd i s =
      let made = create a b fd s in
      died upstream (with_conn i s made) (
        DispatchLedger.handle (record b { create_ok = is_some made.0 })
          (DispatchLedger.Event.got_conn fd i) s.accept s.held_by_server)

  -- What happens to the server, or to its connection of a name.
  pub data Event : Type 0 where
    accepts : ℤ → ℕ → Event
    resolved : Bool → Event
    resolve_again : Event
    request_shutdown : Event
    conn_event : ℕ → ConnLedger.Event p → Event

  unfoldable pub handle : Conn.Answers → Dispatch.Answers → Event → Server → Outcome
  unfolding on_conn on_accept died
  handle a b (accepts fd i) s = on_accept a b fd i s
  handle a b (resolved sas) s =
      died upstream s
        (DispatchLedger.handle b (DispatchLedger.Event.resolved sas) s.accept s.held_by_server)
  handle a b resolve_again s =
      died upstream s
        (DispatchLedger.handle b DispatchLedger.Event.resolve_again s.accept s.held_by_server)
  handle a b request_shutdown s =
      died upstream s
        (DispatchLedger.handle b DispatchLedger.Event.request_shutdown s.accept s.held_by_server)
  handle a b (conn_event i e) s = on_conn a b i e s (find i s.conns)
