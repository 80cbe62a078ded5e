-- ===== src/ServerProgram/Ledger.antt =====
-- spiped/main.c: what the server keeps on every event of its event loop.
use spiped.Base.{
  ◌+◌, ◌≡◌, refl, sym, ◌∙◌, subst, ◌==◌, Bool, true, false, not, none, some, Bool-cases, inl, inr,
  if◌then◌else◌, arith,
}
use spiped.Primitives.{Primitives}
use spiped.Conn
use spiped.Conn.{ConnState}
use spiped.Dispatch.{AcceptState}
use spiped.Dispatch
use spiped.Dispatch.Ledger.{IsReady}
use spiped.GracefulShutdown
use spiped.GracefulShutdown.{
  IsWatching, Watches, begins, event-Watches, graceful_shutdown_initialize, initialize-IsWatching,
}
use spiped.Server.{Server, names}
use spiped.Server
use spiped.Server.Keeps.{Serves}
use spiped.Server.Keeps as ServerKeeps
use spiped.Server.Serves as ServerEvents
use spiped.Server.Serves.{serves}
use spiped.Server.Requested.{Requested, asks, handle-Requested, Succeeds, request-Succeeds}
use spiped.ServerProgram.Events.{
  Program, Outcome, runs, aborted, settle, callback_graceful_shutdown, on_timer, with_server, Event,
  sigterm, timer, server_event, handle,
}

module _ (p : Primitives) where
  -- The server and its connections keep what they keep together, and a shutdown is requested exactly
  -- when `graceful_shutdown` has begun it.
  pub record IsProgram (base_d : Dispatch.World) (base_c : Conn.World) (c : Program p)
      : Type 0 where
    pub serving : Serves p base_d base_c c.server
    pub requested : c.server.accept.shutdown_requested ≡ not (c.signals.begun == 0)

  abbrev pub Keeps : Dispatch.World → Conn.World → Outcome p → Type 0
  Keeps base_d base_c (runs ok c) =
      IsProgram base_d base_c c × (ok ≡ true → IsReady c.server.accept × IsWatching c.signals)
  Keeps base_d base_c aborted = ⊥

  -- An event happens when what it reports on is pending; only a timer requests a shutdown.
  abbrev pub Enabled : Event p → Program p → Type 0
  Enabled sigterm c = GracefulShutdown.Enabled GracefulShutdown.Event.sigterm c.signals
  Enabled timer c = GracefulShutdown.Enabled GracefulShutdown.Event.timer c.signals
  Enabled (server_event Server.Event.request_shutdown) c = ⊥
  Enabled (server_event e) c = ServerEvents.Enabled p e c.server

  settle-Keeps :
      (g : GracefulShutdown.Answers) (e : GracefulShutdown.Event) (signals : GracefulShutdown.State)
      (base_d : Dispatch.World) (base_c : Conn.World) (r : Bool) (o : Server.Outcome p)
      → IsWatching signals
      → GracefulShutdown.Enabled e signals
      → ServerKeeps.Keeps p base_d base_c o
      → Requested p r o
      → Succeeds p o
      → r ≡ not (signals.begun + begins e signals == 0)
      → Keeps base_d base_c (settle p g e signals o)
  unfolding settle
  settle-Keeps g e signals base_d base_c r (Server.Outcome.runs rc s) w on k q zero_returned same =
      elim (GracefulShutdown.handle (record g { begin_ok = rc }) e signals)
          as (λ o.
            Watches (signals.begun + begins e signals) o
            → Keeps base_d base_c (elim o [
              | none ↦ aborted
              | some (ok, signals') ↦ runs ok (record { server = s; signals = signals' })
            ])) [
              | none ↦ λ h. h
              | some (true, signals') ↦ λ h. (
                record { serving = k.0; requested = q ∙ (same ∙ ground (arith, h.1)) },
                λ t. (k.1 zero_returned, h.0),
              )
              | some (false, signals') ↦ λ h. (
                record { serving = k.0; requested = q ∙ (same ∙ ground (arith, h.1)) },
                λ f. absurd (ground arith),
              )
            ]
        (event-Watches (record g { begin_ok = rc }) e signals w on)
  settle-Keeps g e signals base_d base_c r Server.Outcome.aborted w on k q z same = k

  with_server-Keeps :
      (signals : GracefulShutdown.State) (base_d : Dispatch.World) (base_c : Conn.World)
      (o : Server.Outcome p)
      → IsWatching signals
      → ServerKeeps.Keeps p base_d base_c o
      → Requested p (not (signals.begun == 0)) o
      → Keeps base_d base_c (with_server p signals o)
  with_server-Keeps signals base_d base_c (Server.Outcome.runs rc s) w k q =
      (record { serving = k.0; requested = q }, λ e. (k.1 e, w))
  with_server-Keeps signals base_d base_c Server.Outcome.aborted w k q = k

  server_event-Keeps :
      (a : Conn.Answers) (b : Dispatch.Answers) (e : Server.Event p) (base_d : Dispatch.World)
      (base_c : Conn.World) (c : Program p)
      → IsProgram base_d base_c c
      → IsReady c.server.accept
      → IsWatching c.signals
      → ServerEvents.Enabled p e c.server
      → asks p e c.server.accept.shutdown_requested ≡ c.server.accept.shutdown_requested
      → Keeps base_d base_c (with_server p c.signals (Server.handle p a b e c.server))
  server_event-Keeps a b e base_d base_c c i ready w on same =
      with_server-Keeps c.signals base_d base_c (Server.handle p a b e c.server) w
        (serves p a b e base_d base_c c.server i.serving ready on)
        (subst (λ (r : Bool). Requested p r (Server.handle p a b e c.server)) (same ∙ i.requested)
          (handle-Requested p a b e c.server))

  timer-Keeps :
      (a : Conn.Answers) (b : Dispatch.Answers) (g : GracefulShutdown.Answers)
      (base_d : Dispatch.World) (base_c : Conn.World) (c : Program p)
      → IsProgram base_d base_c c
      → IsReady c.server.accept
      → IsWatching c.signals
      → GracefulShutdown.Enabled GracefulShutdown.Event.timer c.signals
      → Keeps base_d base_c (on_timer p a b g c)
  unfolding on_timer
  timer-Keeps a b g base_d base_c c i ready w on = elim (Bool-cases c.signals.should_shutdown) [
    | inl should ↦
        subst
          (λ (x : Bool).
            Keeps base_d base_c
              (settle p g GracefulShutdown.Event.timer c.signals (if x then begins_now else waits)))
          (sym should)
          (settle-Keeps g GracefulShutdown.Event.timer c.signals base_d base_c true begins_now w on
            (serves p a b Server.Event.request_shutdown base_d base_c c.server i.serving ready tt)
            (handle-Requested p a b Server.Event.request_shutdown c.server)
            (request-Succeeds p a b c.server) (ground arith))
    | inr not_yet ↦
        subst
          (λ (x : Bool).
            Keeps base_d base_c
              (settle p g GracefulShutdown.Event.timer c.signals (if x then begins_now else waits)))
          (sym not_yet)
          (settle-Keeps g GracefulShutdown.Event.timer c.signals base_d base_c
            c.server.accept.shutdown_requested waits w on (i.serving, λ e. ready) refl refl
            (i.requested ∙ ground arith))
  ]
    where
      begins_now : Server.Outcome p
      begins_now = callback_graceful_shutdown p a b c.server

      waits : Server.Outcome p
      waits = Server.Outcome.runs true c.server

  -- On every event that can happen, whatever its calls report, no assertion fails.
  pub program-Keeps :
      (a : Conn.Answers) (b : Dispatch.Answers) (g : GracefulShutdown.Answers) (e : Event p)
      (base_d : Dispatch.World) (base_c : Conn.World) (c : Program p)
      → IsProgram base_d base_c c
      → IsReady c.server.accept
      → IsWatching c.signals
      → Enabled e c
      → Keeps base_d base_c (handle p a b g e c)
  unfolding handle
  program-Keeps a b g sigterm base_d base_c c i ready w on =
      settle-Keeps g GracefulShutdown.Event.sigterm c.signals base_d base_c
        c.server.accept.shutdown_requested (Server.Outcome.runs true c.server) w on
        (i.serving, λ e. ready) refl refl (i.requested ∙ ground arith)
  program-Keeps a b g timer base_d base_c c i ready w on =
      timer-Keeps a b g base_d base_c c i ready w on
  program-Keeps a b g (server_event (Server.Event.accepts fd k)) base_d base_c c i ready w on =
      server_event-Keeps a b (Server.Event.accepts fd k) base_d base_c c i ready w on refl
  program-Keeps a b g (server_event (Server.Event.resolved sas)) base_d base_c c i ready w on =
      server_event-Keeps a b (Server.Event.resolved sas) base_d base_c c i ready w on refl
  program-Keeps a b g (server_event Server.Event.resolve_again) base_d base_c c i ready w on =
      server_event-Keeps a b Server.Event.resolve_again base_d base_c c i ready w on refl
  program-Keeps a b g (server_event Server.Event.request_shutdown) base_d base_c c i ready w on =
      absurd on
  program-Keeps a b g (server_event (Server.Event.conn_event k e)) base_d base_c c i ready w on =
      server_event-Keeps a b (Server.Event.conn_event k e) base_d base_c c i ready w on refl
