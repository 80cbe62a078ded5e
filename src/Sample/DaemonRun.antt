-- ===== src/Sample/DaemonRun.antt =====
-- Each theorem applied at concrete inputs: a run of the server.
use spiped.Base.{refl, true, false, [], ◌≡◌, arith, not, ◌&&◌, ◌==◌}
use spiped.Sample.{toy}
use spiped.Sample.Client.{numbers}
use spiped.Sample.Daemon.{base, dispatch_ok, all_ok, settings}
use spiped.Conn
use spiped.Dispatch.{AcceptState, dispatch_accept, doaccept}
use spiped.Dispatch.Ledger as DispatchLedger
use spiped.Server
use spiped.GracefulShutdown
use spiped.ServerProgram.SetUp.{
  Resources, set_up, with_source, resolve, with_target, with_addrs, with_dispatch, spins,
}
use spiped.ServerProgram.Events.{Program, program_of, sigterm, timer, exits, finish, handle}
use spiped.ServerProgram.Run.{Run, here, next, is_idle, server_program}

abbrev conns_base : Conn.World
conns_base = record {
  fds = 3;
  timers = 0;
  connects = 0;
  addr_lists = 0;
  handshakes = 0;
  keys = 0;
  pipes = 0;
  conns = 0;
}

abbrev conn_ok : Conn.Answers
conn_ok = record {
  alloc_ok = true;
  connect_timer_ok = true;
  connect_ok = true;
  handshake_timer_ok = true;
  handshake_ok = true;
  pipe_f_ok = true;
  pipe_r_ok = true;
}

abbrev signals_ok : GracefulShutdown.Answers
signals_ok = record { begin_ok = true; signal_ok = true; atexit_ok = true; timer_ok = true }

abbrev no_signals : GracefulShutdown.State
no_signals = record {
  initialized = false;
  timer_cookie = false;
  should_shutdown = false;
  handler = false;
  begun = 0;
  timers = 0;
}

abbrev watching : GracefulShutdown.State
watching = record no_signals { initialized = true; timer_cookie = true; handler = true; timers = 1 }

-- No address is resolved again.
abbrev ready : AcceptState
ready = record {
  conndone = false;
  shutdown_requested = false;
  nconn = 0;
  nconn_max = 100;
  accept_cookie = true;
  dnstimer_cookie = false;
  t = false;
  resolving = false;
  conn_cookies = [];
}

abbrev listening : Resources
listening = record {
  of_dispatch = record base.of_dispatch { fds = 4; accepts = 1; addr_lists = 1; states = 1 };
  heap = 1;
  addrs = 1;
  secrets = 1;
}

-- The source is resolved at the second attempt.
sets : set_up numbers all_ok (record settings { opt_R = true }) base ≡ spins ready listening
unfolding set_up with_source resolve with_target with_addrs with_dispatch dispatch_accept doaccept
sets = refl

abbrev started : Program toy
started =
    program_of toy settings.opt_d ready listening
      (GracefulShutdown.graceful_shutdown_initialize signals_ok no_signals).1 conns_base

abbrev stopped : Program toy
stopped = record started {
  server = record started.server {
    accept = record ready { conndone = true; shutdown_requested = true; accept_cookie = false };
    held_by_server = record listening.of_dispatch { accepts = 0 };
  };
  signals = record watching {
    should_shutdown = true;
    timer_cookie = false;
    handler = false;
    begun = 1;
    timers = 0;
  };
}

-- SIGTERM comes, and then the timer.
run : Run toy started true stopped
unfolding GracefulShutdown.graceful_shutdown_initialize handle Server.handle DispatchLedger.handle
    GracefulShutdown.handle
run =
    next (next here conn_ok dispatch_ok signals_ok sigterm refl refl) conn_ok dispatch_ok signals_ok
      timer refl refl

initializes : (GracefulShutdown.graceful_shutdown_initialize signals_ok no_signals).0 ≡ true
unfolding GracefulShutdown.graceful_shutdown_initialize
initializes = refl

server_program_example :
    (stopped.server.accept.conndone
      ≡ not (stopped.signals.begun == 0) && is_idle toy stopped.server.conns)
    × (finish toy (λ n. dispatch_ok) conn_ok false true listening stopped ≡ exits 0 base conns_base)
server_program_example =
    server_program toy numbers all_ok (record settings { opt_R = true }) base conns_base signals_ok
      no_signals (omega arith) refl refl refl initializes sets (λ n. dispatch_ok) conn_ok true run
