-- ===== src/Sample/Client.antt =====
-- Each theorem applied at concrete inputs: the client's command line and its runs. In three
-- runs more, what the client does is undefined.
use spiped.Base.{
  ℕ, ◌≡◌, refl, subst, true, false, none, some, [], ◌∷◌, ltb, pos, minus_one, if◌then◌else◌,
}
use spiped.Sample.{toy}
use spiped.Options.{Arguments, accepted}
use spiped.Spipe.{dash_k, dash_t, dash_f, command_line}
use spiped.Spipe.CommandLine.{command_line_lem, asked_for}
use spiped.Conn
use spiped.Conn.{ConnState, proto_conn_create}
use spiped.Conn.Ledger as ConnLedger
use spiped.GracefulShutdown
use spiped.GracefulShutdown.{graceful_shutdown_initialize}
use spiped.Spipe.Events.{
  Resources, StopAnswers, cancelled, conn_event, timer, Client, Outcome, runs, handle,
}
use spiped.Spipe.Program.{
  SetUpAnswers, spins, set_up, set_up_conn, set_up_threads, undefined, finish,
}
use spiped.Spipe.Invariant.{Keeps}
use spiped.Spipe.Ledger.{client-Keeps}
use spiped.Spipe.SetUp.{Starts, set_up-Starts}
use spiped.Spipe.Outcome.{goes_on, set_up_lem}
use spiped.Spipe.Run.{Run, here, next, Leaves, Run-Leaves}

-- Texts are numbers: 0 is no number, and an address is at least 10.
abbrev pub numbers : Arguments
numbers = record {
  Text = ℕ;
  Number = ℕ;
  number = λ n. n;
  parsenum_size = λ n. some n;
  parsenum = λ n. if ltb 0 n then some n else none;
  is_positive = λ n. ltb 0 n;
  is_moderate = λ n. ltb n 1000;
  sock_addr_validate = λ n. ltb 9 n;
}

command_line_lem_example :
    accepted (command_line numbers (dash_t 10 ∷ dash_k 3 ∷ dash_f ∷ []) 0)
    ≡ some (asked_for numbers (dash_t 10 ∷ dash_k 3 ∷ dash_f ∷ []))
command_line_lem_example = command_line_lem numbers (dash_t 10 ∷ dash_k 3 ∷ dash_f ∷ []) 0

-- An option that is given twice.
twice : accepted (command_line numbers (dash_t 10 ∷ dash_k 3 ∷ dash_t 11 ∷ []) 0) ≡ none
twice = command_line_lem numbers (dash_t 10 ∷ dash_k 3 ∷ dash_t 11 ∷ []) 0

abbrev base : Resources
base = record {
  of_conns = record {
    fds = 3;
    timers = 0;
    connects = 0;
    addr_lists = 0;
    handshakes = 0;
    keys = 0;
    pipes = 0;
    conns = 0;
  };
  addrs = 0;
  secrets = 0;
  threads = 1;
}

abbrev conn_ok : Conn.Answers
conn_ok = record {
  alloc_ok = true;
  connect_timer_ok = true;
  connect_ok = true;
  handshake_timer_ok = true;
  handshake_ok = true;
  pipe_f_ok = true;
  pipe_r_ok = true;
}

abbrev signals_ok : GracefulShutdown.Answers
signals_ok = record { begin_ok = true; signal_ok = true; atexit_ok = true; timer_ok = true }

abbrev all_ok : SetUpAnswers
all_ok = record {
  resolve = some 2;
  bind_ok = true;
  secret_ok = true;
  pair_ok = true;
  s_1 = pos 4;
  conn = conn_ok;
  push_1 = true;
  push_0 = true;
  signals = signals_ok;
  join_0 = true;
  join_1 = true;
}

abbrev at_start : GracefulShutdown.State
at_start = record {
  initialized = false;
  timer_cookie = false;
  should_shutdown = false;
  handler = false;
  begun = 0;
  timers = 0;
}

-- The second thread cannot be started.
set_up_lem_example :
    (goes_on toy (set_up toy true (record all_ok { push_0 = false }) at_start base) ≡ false)
    × Starts toy true base (set_up toy true (record all_ok { push_0 = false }) at_start base)
set_up_lem_example =
    set_up_lem toy true (record all_ok { push_0 = false }) at_start base refl refl refl refl refl

abbrev conn : ConnState toy
conn = record {
  decr = false;
  s = pos 4;
  t = minus_one;
  sas = true;
  connecting = true;
  connect_timeout = true;
  handshaking = false;
  handshake_timeout = false;
  k_f = none;
  k_r = none;
  pipe_f = false;
  pipe_r = false;
  stat_f = pos 1;
  stat_r = pos 1;
}

abbrev ready : Client toy
ready = record {
  joined_0 = false;
  joined_1 = false;
  conndone = false;
  connection_error = false;
  stopped = false;
  signals = record at_start { initialized = true; timer_cookie = true; handler = true; timers = 1 };
  conn = some conn;
  holds = record {
    of_conns = record {
      fds = 5;
      timers = 1;
      connects = 1;
      addr_lists = 1;
      handshakes = 0;
      keys = 0;
      pipes = 0;
      conns = 1;
    };
    addrs = 0;
    secrets = 1;
    threads = 3;
  };
}

is_ready : set_up toy false all_ok at_start base ≡ spins ready
unfolding set_up set_up_conn set_up_threads proto_conn_create graceful_shutdown_initialize
is_ready = refl

abbrev stops : StopAnswers
stops = record { cancel_0 = cancelled; cancel_1 = cancelled; join_0 = true; join_1 = true }

-- The connection cannot be made: the shutdown begins at once.
abbrev unconnected : Client toy
unconnected = record {
  joined_0 = true;
  joined_1 = true;
  conndone = true;
  connection_error = true;
  stopped = true;
  signals = record ready.signals {
    timer_cookie = false;
    should_shutdown = true;
    handler = false;
    begun = 1;
    timers = 0;
  };
  conn = none;
  holds = record base { of_conns = record base.of_conns { fds = 4 }; secrets = 1 };
}

to_unconnected : Run toy ready true unconnected
unfolding handle ConnLedger.handle GracefulShutdown.handle
to_unconnected =
    next here refl conn_ok stops signals_ok (conn_event (ConnLedger.Event.connect_done minus_one))
      (conn, refl, refl) refl

Run-Leaves_example :
    Leaves toy false true true true base unconnected (finish toy false true true true unconnected)
Run-Leaves_example =
    Run-Leaves toy false all_ok at_start base refl refl refl refl refl is_ready true true true
      to_unconnected

starts : Starts toy false base (spins ready)
starts =
    subst (Starts toy false base) is_ready
      (set_up-Starts toy false all_ok at_start base refl refl refl refl refl)

client-Keeps_example : Keeps toy false base (
    handle toy conn_ok stops signals_ok
      (conn_event (ConnLedger.Event.connect_done minus_one))
      ready)
client-Keeps_example =
    client-Keeps toy conn_ok stops signals_ok (conn_event (ConnLedger.Event.connect_done minus_one))
      false base ready starts.0 starts.1 refl (conn, refl, refl)

-- The target is reached, and the handshake cannot be started: `callback_connect_done` drops the
-- connection and returns -1, and the client drops it again.
dropped_twice :
    (c : Client toy) × (handle toy
        (record conn_ok { handshake_ok = false })
        stops
        signals_ok
        (conn_event (ConnLedger.Event.connect_done (pos 6)))
        ready
      ≡ runs false c)
    × (finish toy false false true true c ≡ undefined)
unfolding handle ConnLedger.handle GracefulShutdown.handle finish
dropped_twice = (unconnected, refl, refl)

-- The connection cannot be made, and the second thread cannot be joined, which is not reported: the
-- first thread is joined again.
joined_twice :
    (c : Client toy) × (handle toy conn_ok
        (record stops { join_1 = false })
        signals_ok
        (conn_event (ConnLedger.Event.connect_done minus_one))
        ready
      ≡ runs true c)
    × (finish toy false true true true c ≡ undefined)
unfolding handle ConnLedger.handle GracefulShutdown.handle finish
joined_twice = (
  record unconnected {
    joined_1 = false;
    stopped = false;
    signals = record unconnected.signals { handler = true };
    holds = record unconnected.holds { threads = 2 };
  },
  refl,
  refl,
)

-- After the shutdown has begun, the event loop may run more events before it ends. If the connection
-- then ends with an error, the threads that have been joined are cancelled.
cancelled_twice :
    (c : Client toy) × (handle toy conn_ok stops signals_ok timer
        (record ready { signals = record ready.signals { should_shutdown = true } })
      ≡ runs true c)
    × (handle toy conn_ok stops signals_ok (conn_event (ConnLedger.Event.connect_done minus_one)) c
        ≡ Outcome.undefined)
unfolding handle ConnLedger.handle GracefulShutdown.handle
cancelled_twice = (
  record ready {
    joined_0 = true;
    joined_1 = true;
    conndone = true;
    stopped = true;
    signals = record ready.signals {
      timer_cookie = false;
      should_shutdown = true;
      handler = false;
      begun = 1;
      timers = 0;
    };
    holds = record ready.holds { threads = 1 };
  },
  refl,
  refl,
)
