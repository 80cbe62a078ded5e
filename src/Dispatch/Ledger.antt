-- ===== src/Dispatch/Ledger.antt =====
-- spiped/dispatch.c: what a server counts and holds, event by event.
use spiped.Base.{
  ℕ, ◌+◌, ◌-◌, ◌^◌, ◌≤◌, ◌<◌, ◌≡◌, [], Bool, true, false, not, ◌&&◌, Option, none, some, length,
  ltb, ◌==◌, ℤ, is_minus_one, arith,
}
use spiped.Dispatch.{
  World, AcceptState, Answers, Outcome, returns, aborted, held, callback_resolve,
  callback_resolveagain, doaccept, then_accept, callback_conndied, callback_gotconn, accept_first,
  dispatch_accept, dispatch_request_shutdown,
}
use spiped.Dispatch.Nodes.{
  has, AreDistinct, length-list_remove, AreDistinct-list_remove, is_empty-has,
}

-- `nconn` is the number of connections, at most `nconn_max`, and below it while an accept is
-- pending; after a request to shut down none is, and `conndone` tells that no connection is left;
-- the resolver has either its timer or a request.
pub record IsAccepting (c : AcceptState) : Type 0 where
  pub counted : c.nconn ≡ length c.conn_cookies
  pub at_most : c.nconn ≤ c.nconn_max
  pub is_size : c.nconn_max < 2 ^ 64
  pub has_room : c.accept_cookie ≡ true → c.nconn < c.nconn_max
  pub stopped : c.shutdown_requested ≡ true → c.accept_cookie ≡ false
  pub done : c.conndone ≡ c.shutdown_requested && c.nconn == 0
  pub either : c.dnstimer_cookie && c.resolving ≡ false
  pub distinct : AreDistinct c.conn_cookies

-- An accept is pending whenever another connection may be had.
abbrev pub IsReady : AcceptState → Type 0
IsReady c = c.accept_cookie ≡ ltb c.nconn c.nconn_max && not c.shutdown_requested

-- The world is `base` and what the server holds.
pub record IsBalanced (base : World) (c : AcceptState) (w : World) : Type 0 where
  pub fds : w.fds ≡ base.fds + 1
  pub accepts : w.accepts ≡ base.accepts + held c.accept_cookie
  pub timers : w.timers ≡ base.timers + held c.dnstimer_cookie
  pub threads : w.threads ≡ base.threads + held c.t
  pub addr_lists : w.addr_lists ≡ base.addr_lists + 1
  pub nodes : w.nodes ≡ base.nodes + length c.conn_cookies
  pub states : w.states ≡ base.states + 1
  pub conns : w.conns ≡ base.conns + length c.conn_cookies

abbrev pub Keeps : World → Outcome → Type 0
Keeps base (returns ok c w) = IsAccepting c × IsBalanced base c w × (ok ≡ true → IsReady c)
Keeps base aborted = ⊥

-- Accepting more keeps what holds, and leaves the server ready if it succeeds.
pub then_accept-Keeps :
    (a : Answers) (base : World) (c : AcceptState) (w : World)
    → IsAccepting c
    → IsBalanced base c w
    → Keeps base (then_accept a c w)
unfolding then_accept
then_accept-Keeps a base c w i b = ground arith

-- What the event loop reports to a server, a connection that has ended, or a request to shut down.
pub data Event : Type 0 where
  got_conn : ℤ → ℕ → Event
  conn_died : ℕ → Event
  resolved : Bool → Event
  resolve_again : Event
  request_shutdown : Event

-- An event happens when what it reports on is pending. A new connection has a name of its own.
abbrev pub Enabled : Event → AcceptState → Type 0
Enabled (got_conn s i) c = (c.accept_cookie ≡ true) × (has i c.conn_cookies ≡ false)
Enabled (conn_died i) c = has i c.conn_cookies ≡ true
Enabled (resolved sas) c = c.resolving ≡ true
Enabled resolve_again c = c.dnstimer_cookie ≡ true
Enabled request_shutdown c = Unit

-- What is reported has changed what there is: an accept that is done is pending no more and opened
-- a descriptor, a connection has released what was its own, an answer of the resolver may bring a
-- list of addresses, and a timer that fires is gone.
unfoldable pub handle : Answers → Event → AcceptState → World → Outcome
unfolding callback_gotconn callback_conndied callback_resolve callback_resolveagain
    dispatch_request_shutdown
handle a (got_conn s i) c w =
    callback_gotconn a s i c
      (record w { accepts = w.accepts - 1; fds = w.fds + held (not (is_minus_one s)) })
handle a (conn_died i) c w = callback_conndied a i c (record w { conns = w.conns - 1 })
handle a (resolved sas) c w =
    callback_resolve a sas (record c { resolving = false })
      (record w { addr_lists = w.addr_lists + held sas })
handle a resolve_again c w = callback_resolveagain a c (record w { timers = w.timers - 1 })
handle a request_shutdown c w =
    returns true (dispatch_request_shutdown c w).0 (dispatch_request_shutdown c w).1

module _ (a : Answers) (base : World) (c : AcceptState) (w : World) (i : IsAccepting c)
    (b : IsBalanced base c w) where
  -- Losing a connection.
  pub conndied-Keeps :
      (k : ℕ)
      → has k c.conn_cookies ≡ true
      → Keeps base (callback_conndied a k c (record w { conns = w.conns - 1 }))
  unfolding callback_conndied
  conndied-Keeps k e =
      let fewer = length-list_remove k c.conn_cookies e in
      let distinct = AreDistinct-list_remove k c.conn_cookies i.distinct in
      rw (is_empty-has k c.conn_cookies e) (ground arith)

  gotconn-Keeps :
      (s : ℤ) (k : ℕ) → Enabled (got_conn s k) c → Keeps base (handle a (got_conn s k) c w)
  unfolding handle
  gotconn-Keeps s k e = ground arith

  -- On every event that can happen, whatever its calls report, no assertion fails and the server
  -- goes on counting its connections and holding what it has opened and no more; when the callback
  -- succeeds, an accept is pending if another connection may be had.
  pub event-Keeps : (e : Event) → IsReady c → Enabled e c → Keeps base (handle a e c w)
  unfolding handle
  event-Keeps (got_conn s k) ready e = gotconn-Keeps s k e
  event-Keeps (conn_died k) ready e = conndied-Keeps k e
  event-Keeps (resolved sas) ready e = ground arith
  event-Keeps resolve_again ready e = ground arith
  event-Keeps request_shutdown ready e = ground arith

-- What starting a server leaves: nothing has changed, or there is a server.
abbrev pub Starts : World → World → Option AcceptState × World → Type 0
Starts base w (none, w') = w' ≡ w
Starts base w (some c, w') =
    IsAccepting c
    × IsBalanced base c w'
    × IsReady c
    × (c.conn_cookies ≡ [])
    × (c.shutdown_requested ≡ false)

-- A server that starts takes over the socket and the addresses and is ready, with no connection and
-- no shutdown requested; when any call fails, the world is as it was, the socket and the addresses
-- included.
pub dispatch_accept-Starts :
    (a : Answers) (rtime : Bool) (nconn_max : ℕ) (base w : World)
    → nconn_max < 2 ^ 64
    → w ≡ record base { fds = base.fds + 1; addr_lists = base.addr_lists + 1 }
    → Starts base w (dispatch_accept a rtime nconn_max w)
unfolding dispatch_accept accept_first doaccept
dispatch_accept-Starts a rtime nconn_max base w size e = ground arith
