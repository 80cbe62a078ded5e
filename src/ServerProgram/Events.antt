-- ===== src/ServerProgram/Events.antt =====
-- spiped/main.c: the server while its event loop runs, composed with the dispatcher and its
-- connections (Server) and with lib/util/graceful_shutdown.c, whose callback it is; and its exit.
use spiped.Base.{ℕ, ◌-◌, Bool, true, false, none, some, [], if◌then◌else◌}
use spiped.Primitives.{Primitives}
use spiped.Conn
use spiped.Dispatch.{AcceptState, held}
use spiped.Dispatch
use spiped.GracefulShutdown
use spiped.Server.{Server}
use spiped.Server
use spiped.Server.Shutdown.{Left, server_shutdown}
use spiped.ServerProgram.SetUp.{Resources, err6}

module _ (p : Primitives) where
  pub record Program : Type 0 where
    pub server : Server p
    pub signals : GracefulShutdown.State

  -- What the event loop starts from; `decr` is `opt_d`, and the connections hold nothing yet.
  abbrev pub program_of :
      Bool → AcceptState → Resources → GracefulShutdown.State → Conn.World → Program
  program_of decr c w signals v = record {
    server = record {
      decr = decr;
      accept = c;
      held_by_server = w.of_dispatch;
      conns = [];
      held_by_conns = v;
    };
    signals = signals;
  }

  -- After a callback: whether it returned 0; or a failed assertion.
  pub data Outcome : Type 0 where
    runs : Bool → Program → Outcome
    aborted : Outcome

  -- The rest of a callback of `graceful_shutdown`, once `begin_shutdown` has returned, if it was
  -- called.
  unfoldable pub settle :
      GracefulShutdown.Answers
      → GracefulShutdown.Event
      → GracefulShutdown.State
      → Server.Outcome p
      → Outcome
  settle g e signals Server.Outcome.aborted = aborted
  settle g e signals (Server.Outcome.runs rc s) =
      elim (GracefulShutdown.handle (record g { begin_ok = rc }) e signals) [
        | none ↦ aborted
        | some (ok, signals') ↦ runs ok (record { server = s; signals = signals' })
      ]

  unfoldable pub callback_graceful_shutdown :
      Conn.Answers → Dispatch.Answers → Server p → Server.Outcome p
  callback_graceful_shutdown a b s = Server.handle p a b Server.Event.request_shutdown s

  unfoldable pub on_timer :
      Conn.Answers → Dispatch.Answers → GracefulShutdown.Answers → Program → Outcome
  unfolding settle callback_graceful_shutdown
  on_timer a b g c = settle g GracefulShutdown.Event.timer c.signals (
      if c.signals.should_shutdown
      then callback_graceful_shutdown a b c.server
      else Server.Outcome.runs true c.server)

  abbrev pub with_server : GracefulShutdown.State → Server.Outcome p → Outcome
  with_server signals (Server.Outcome.runs rc s) =
      runs rc (record { server = s; signals = signals })
  with_server signals Server.Outcome.aborted = aborted

  pub data Event : Type 0 where
    sigterm : Event
    timer : Event
    server_event : Server.Event p → Event

  unfoldable pub handle :
      Conn.Answers → Dispatch.Answers → GracefulShutdown.Answers → Event → Program → Outcome
  unfolding settle on_timer
  handle a b g sigterm c =
      settle g GracefulShutdown.Event.sigterm c.signals (Server.Outcome.runs true c.server)
  handle a b g timer c = on_timer a b g c
  handle a b g (server_event e) c = with_server c.signals (Server.handle p a b e c.server)

  -- The program exits with a status, and leaves what `main` and the server held, and what the
  -- connections did.
  pub data Exit : Type 0 where
    exits : ℕ → Resources → Conn.World → Exit
    failed_assertion : Exit

  unfoldable pub release_all : Bool → Bool → Resources → Left p → Exit
  unfolding err6
  release_all bound ok w none = failed_assertion
  release_all bound true w (some (d, v)) =
      exits 0
        (record w {
          of_dispatch = d;
          secrets = w.secrets - 1;
          addrs = w.addrs - 1 - held bound;
          heap = w.heap - 1;
        })
        v
  release_all bound false w (some (d, v)) =
      exits 1 (err6 bound false (record w { of_dispatch = d })) v

  -- What follows `events_spin`, which reports `ok`, as `w` is but for the dispatcher.
  unfoldable pub finish :
      (ℕ → Dispatch.Answers) → Conn.Answers → Bool → Bool → Resources → Program → Exit
  unfolding release_all
  finish b a bound ok w c = release_all bound ok w (server_shutdown p b a c.server)
