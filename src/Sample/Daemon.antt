-- ===== src/Sample/Daemon.antt =====
-- Each theorem applied at concrete inputs: the server's command line, its set-up and its
-- exit.
use spiped.Base.{true, false, arith, ◌≡◌, none, some, [], ◌∷◌}
use spiped.Options.{accepted}
use spiped.Sample.Client.{numbers}
use spiped.Dispatch
use spiped.Dispatch.{AcceptState}
use spiped.ServerProgram.{
  Settings, dash_e, dash_d, dash_k, dash_n, dash_s, dash_t, cap_limit, command_line,
}
use spiped.ServerProgram.Table.{asked_for}
use spiped.ServerProgram.SetUp.{Resources, SetUpAnswers, set_up, exits, finish}
use spiped.ServerProgram.Exit.{Starts, server_exits}
use spiped.ServerProgram.Outcome.{goes, server_set_up_lem}
use spiped.ServerProgram.CommandLine.{server_command_line}

server_command_line_example :
    accepted (command_line numbers (dash_e ∷ dash_s 10 ∷ dash_t 11 ∷ dash_k 3 ∷ dash_n 0 ∷ []) 0)
    ≡ some (
        cap_limit numbers
          (asked_for numbers (dash_e ∷ dash_s 10 ∷ dash_t 11 ∷ dash_k 3 ∷ dash_n 0 ∷ [])))
server_command_line_example =
    server_command_line numbers (dash_e ∷ dash_s 10 ∷ dash_t 11 ∷ dash_k 3 ∷ dash_n 0 ∷ []) 0

-- Both directions at once.
both_ways :
    accepted (command_line numbers (dash_e ∷ dash_s 10 ∷ dash_t 11 ∷ dash_k 3 ∷ dash_d ∷ []) 0)
    ≡ none
both_ways = server_command_line numbers (dash_e ∷ dash_s 10 ∷ dash_t 11 ∷ dash_k 3 ∷ dash_d ∷ []) 0

abbrev pub base : Resources
base = record {
  of_dispatch = record {
    fds = 3;
    accepts = 0;
    timers = 0;
    threads = 0;
    addr_lists = 0;
    nodes = 0;
    states = 0;
    conns = 0;
  };
  heap = 0;
  addrs = 0;
  secrets = 0;
}

abbrev pub dispatch_ok : Dispatch.Answers
dispatch_ok = record {
  alloc_ok = true;
  spawn_ok = true;
  duplist_ok = true;
  timer_ok = true;
  resolve_ok = true;
  create_ok = true;
  accept_ok = true;
}

-- The source is resolved at the second attempt.
abbrev pub all_ok : SetUpAnswers
all_ok = record {
  asprintf_ok = true;
  daemonize_ok = true;
  source = none ∷ some 1 ∷ [];
  target = some 2 ∷ [];
  bind = [];
  secret_ok = true;
  listener_ok = true;
  setuidgid_ok = true;
  dispatch = dispatch_ok;
  signals_ok = true;
  shutdown = λ n. dispatch_ok;
}

abbrev pub settings : Settings numbers
settings = record (asked_for numbers (dash_e ∷ dash_s 10 ∷ dash_t 11 ∷ dash_k 3 ∷ [])) {
  opt_D = true;
}

server_set_up_lem_example :
    (goes (set_up numbers (record all_ok { signals_ok = false }) settings base) ≡ (false, false))
    × Starts false base (set_up numbers (record all_ok { signals_ok = false }) settings base)
server_set_up_lem_example =
    server_set_up_lem numbers (record all_ok { signals_ok = false }) settings base (omega arith)

abbrev accepting : AcceptState
accepting = record {
  conndone = false;
  shutdown_requested = false;
  nconn = 1;
  nconn_max = 100;
  accept_cookie = true;
  dnstimer_cookie = false;
  t = false;
  resolving = false;
  conn_cookies = 7 ∷ [];
}

abbrev serving : Resources
serving = record {
  of_dispatch = record base.of_dispatch {
    fds = 4;
    accepts = 1;
    addr_lists = 1;
    nodes = 1;
    states = 1;
    conns = 1;
  };
  heap = 1;
  addrs = 1;
  secrets = 1;
}

exits_in_order : finish (λ n. dispatch_ok) false true accepting serving ≡ exits 0 base
exits_in_order =
    server_exits (λ n. dispatch_ok) false true base serving accepting (omega arith) (ground arith)
      (ground arith)
