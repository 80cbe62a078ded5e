-- ===== src/Sample/Together.antt =====
-- Each theorem applied at concrete inputs: a server with a connection.
use spiped.Base.{refl, true, false, none, [], ◌∷◌, pos, minus_one, arith}
use spiped.Sample.{toy}
use spiped.Conn
use spiped.Conn.{ConnState}
use spiped.Conn.Ledger as ConnLedger
use spiped.Conn.Ledger.{IsConn}
use spiped.Dispatch
use spiped.Dispatch.{AcceptState}
use spiped.Server.{Server, conn_event, handle}
use spiped.Server.Keeps.{Serves, Keeps}
use spiped.Server.Serves.{serves}

abbrev conn : ConnState toy
conn = record {
  decr = true;
  s = pos 5;
  t = minus_one;
  sas = true;
  connecting = true;
  connect_timeout = true;
  handshaking = true;
  handshake_timeout = true;
  k_f = none;
  k_r = none;
  pipe_f = false;
  pipe_r = false;
  stat_f = pos 1;
  stat_r = pos 1;
}

abbrev accept : AcceptState
accept = record {
  conndone = false;
  shutdown_requested = false;
  nconn = 1;
  nconn_max = 1;
  accept_cookie = false;
  dnstimer_cookie = false;
  t = false;
  resolving = false;
  conn_cookies = 7 ∷ [];
}

abbrev server_base : Dispatch.World
server_base = record {
  fds = 0;
  accepts = 0;
  timers = 0;
  threads = 0;
  addr_lists = 0;
  nodes = 0;
  states = 0;
  conns = 0;
}

abbrev conns_base : Conn.World
conns_base = record {
  fds = 3;
  timers = 0;
  connects = 0;
  addr_lists = 0;
  handshakes = 0;
  keys = 0;
  pipes = 0;
  conns = 0;
}

abbrev server : Server toy
server = record {
  decr = true;
  accept = accept;
  held_by_server = record server_base { fds = 1; addr_lists = 1; nodes = 1; states = 1; conns = 1 };
  conns = (7, conn) ∷ [];
  held_by_conns = record conns_base {
    fds = 4;
    timers = 2;
    connects = 1;
    addr_lists = 1;
    handshakes = 1;
    conns = 1;
  };
}

server-Serves : Serves toy server_base conns_base server
server-Serves = record {
  accepting = record {
    counted = refl;
    at_most = omega arith;
    is_size = omega arith;
    has_room = λ e. absurd (ground arith);
    stopped = λ e. refl;
    done = refl;
    either = refl;
    distinct = (refl, tt);
  };
  server_holds = record {
    fds = refl;
    accepts = refl;
    timers = refl;
    threads = refl;
    addr_lists = refl;
    nodes = refl;
    states = refl;
    conns = refl;
  };
  named = refl;
  are_conns = (
    record {
      connect_timed = refl;
      connect_addressed = refl;
      connect_pending = refl;
      handshake_timed = refl;
      keyed = refl;
      handshake_pending = refl;
      handshake_begun = refl;
      pipes_run = refl;
      pipes_both = refl;
      statuses = λ e. (refl, refl);
    },
    tt,
  );
  conns_hold = refl;
}

abbrev conn_calls : Conn.Answers
conn_calls = record {
  alloc_ok = true;
  connect_timer_ok = true;
  connect_ok = true;
  handshake_timer_ok = true;
  handshake_ok = true;
  pipe_f_ok = true;
  pipe_r_ok = true;
}

abbrev server_calls : Dispatch.Answers
server_calls = record {
  alloc_ok = true;
  spawn_ok = true;
  duplist_ok = true;
  timer_ok = true;
  resolve_ok = true;
  create_ok = true;
  accept_ok = true;
}

-- The connect of the only connection fails.
serves_example : Keeps toy server_base conns_base (
    handle toy conn_calls server_calls
      (conn_event 7 (ConnLedger.Event.connect_done minus_one))
      server)
serves_example =
    serves toy conn_calls server_calls (conn_event 7 (ConnLedger.Event.connect_done minus_one))
      server_base conns_base server server-Serves refl (conn, refl, refl)
