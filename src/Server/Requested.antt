-- ===== src/Server/Requested.antt =====
-- spiped/dispatch.c with lib/proto/proto_conn.c: no event asks a server to shut down but the one
-- that does.
use spiped.Base.{ℕ, ◌≡◌, refl, Bool, true, Option, none, some, ℤ, arith}
use spiped.Primitives.{Primitives}
use spiped.Conn.{ConnState, Status, upstream}
use spiped.Conn
use spiped.Conn.Ledger as ConnLedger
use spiped.Dispatch.{AcceptState}
use spiped.Dispatch
use spiped.Dispatch.Ledger as DispatchLedger
use spiped.Server.{
  Server, find, Outcome, runs, aborted, died, after_conn, on_conn, create, with_conn, on_accept,
  Event, accepts, resolved, resolve_again, request_shutdown, conn_event, handle,
}

abbrev Keeps : Bool → Dispatch.Outcome → Type 0
Keeps r (Dispatch.Outcome.returns ok c w) = c.shutdown_requested ≡ r
Keeps r Dispatch.Outcome.aborted = Unit

abbrev asked : DispatchLedger.Event → Bool → Bool
asked DispatchLedger.Event.request_shutdown r = true
asked e r = r

dispatch-Keeps :
    (b : Dispatch.Answers) (e : DispatchLedger.Event) (c : AcceptState) (w : Dispatch.World)
    → Keeps (asked e c.shutdown_requested) (DispatchLedger.handle b e c w)
unfolding DispatchLedger.handle
dispatch-Keeps b (DispatchLedger.Event.got_conn fd i) c w = ground arith
dispatch-Keeps b (DispatchLedger.Event.conn_died i) c w = ground arith
dispatch-Keeps b (DispatchLedger.Event.resolved sas) c w = ground arith
dispatch-Keeps b DispatchLedger.Event.resolve_again c w = ground arith
dispatch-Keeps b DispatchLedger.Event.request_shutdown c w = ground arith

module _ (p : Primitives) where
  abbrev pub Requested : Bool → Outcome p → Type 0
  Requested r (runs ok s) = s.accept.shutdown_requested ≡ r
  Requested r aborted = Unit

  died-Requested :
      (r : Bool) (rc : Status) (s : Server p) (o : Dispatch.Outcome)
      → Keeps r o
      → Requested r (died p rc s o)
  unfolding died
  died-Requested r rc s (Dispatch.Outcome.returns ok c w) k = k
  died-Requested r rc s Dispatch.Outcome.aborted k = tt

  after_conn-Requested :
      (b : Dispatch.Answers) (i : ℕ) (s : Server p) (o : Conn.Outcome p)
      → Requested s.accept.shutdown_requested (after_conn p b i s o)
  unfolding after_conn
  after_conn-Requested b i s (Conn.Outcome.lives c w) = refl
  after_conn-Requested b i s (Conn.Outcome.dropped reason rc w) =
      died-Requested s.accept.shutdown_requested rc _ _
        (dispatch-Keeps b (DispatchLedger.Event.conn_died i) s.accept s.held_by_server)
  after_conn-Requested b i s Conn.Outcome.aborted = tt

  on_conn-Requested :
      (a : Conn.Answers) (b : Dispatch.Answers) (i : ℕ) (e : ConnLedger.Event p) (s : Server p)
      (o : Option (ConnState p))
      → Requested s.accept.shutdown_requested (on_conn p a b i e s o)
  unfolding on_conn
  on_conn-Requested a b i e s none = tt
  on_conn-Requested a b i e s (some c) =
      after_conn-Requested b i s (ConnLedger.handle p a e c s.held_by_conns)

  with_conn-Requested :
      (b : Dispatch.Answers) (fd : ℤ) (i : ℕ) (s : Server p)
      (made : Option (ConnState p) × Conn.World)
      → Requested s.accept.shutdown_requested (
          died p upstream (with_conn p i s made) (
            DispatchLedger.handle b (DispatchLedger.Event.got_conn fd i) s.accept s.held_by_server))
  with_conn-Requested b fd i s made =
      died-Requested s.accept.shutdown_requested upstream (with_conn p i s made) _
        (dispatch-Keeps b (DispatchLedger.Event.got_conn fd i) s.accept s.held_by_server)

  abbrev pub asks : Event p → Bool → Bool
  asks request_shutdown r = true
  asks e r = r

  pub handle-Requested :
      (a : Conn.Answers) (b : Dispatch.Answers) (e : Event p) (s : Server p)
      → Requested (asks e s.accept.shutdown_requested) (handle p a b e s)
  unfolding handle on_accept
  handle-Requested a b (accepts fd i) s = with_conn-Requested _ fd i s (create p a b fd s)
  handle-Requested a b (resolved sas) s =
      died-Requested s.accept.shutdown_requested upstream s _
        (dispatch-Keeps b (DispatchLedger.Event.resolved sas) s.accept s.held_by_server)
  handle-Requested a b resolve_again s =
      died-Requested s.accept.shutdown_requested upstream s _
        (dispatch-Keeps b DispatchLedger.Event.resolve_again s.accept s.held_by_server)
  handle-Requested a b request_shutdown s =
      died-Requested true upstream s _
        (dispatch-Keeps b DispatchLedger.Event.request_shutdown s.accept s.held_by_server)
  handle-Requested a b (conn_event i e) s = on_conn-Requested a b i e s (find p i s.conns)

  abbrev pub Succeeds : Outcome p → Type 0
  Succeeds (runs ok s) = ok ≡ true
  Succeeds aborted = Unit

  pub request-Succeeds :
      (a : Conn.Answers) (b : Dispatch.Answers) (s : Server p)
      → Succeeds (handle p a b request_shutdown s)
  unfolding handle died DispatchLedger.handle
  request-Succeeds a b s = refl
