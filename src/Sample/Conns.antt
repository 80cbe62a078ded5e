-- ===== src/Sample/Conns.antt =====
-- Each theorem applied at concrete inputs: connections.
use spiped.Base.{refl, ◌≡◌, true, false, none, pos, minus_one}
use spiped.Sample.{toy}
use spiped.Conn.{World, Answers, ConnState, proto_conn_create}
use spiped.Conn.Ledger.{
  IsConn, IsBalanced, Creates, Keeps, handle, connect_done, handle-Keeps, is_created,
  proto_conn_create_lem,
}
use spiped.Conn.Reasons.{Reports, handle-Reports}
use spiped.Conn.Phases.{Nearer, conn_refines, move, phase, phase_after, signal, starts}

abbrev base : World
base = record {
  fds = 3;
  timers = 0;
  connects = 0;
  addr_lists = 1;
  handshakes = 0;
  keys = 0;
  pipes = 0;
  conns = 0;
}

abbrev accepted : World
accepted = record base { fds = 4; addr_lists = 2 }

-- No call fails but `network_connect_bind`.
abbrev no_connect : Answers
no_connect = record {
  alloc_ok = true;
  connect_timer_ok = true;
  connect_ok = false;
  handshake_timer_ok = true;
  handshake_ok = true;
  pipe_f_ok = true;
  pipe_r_ok = true;
}

proto_conn_create_lem_example :
    (is_created toy (proto_conn_create toy no_connect true (pos 5) accepted).0 ≡ false)
    × Creates toy base accepted (proto_conn_create toy no_connect true (pos 5) accepted)
proto_conn_create_lem_example = proto_conn_create_lem toy no_connect true (pos 5) base accepted refl

-- A decrypting connection that has just been made.
abbrev new_conn : ConnState toy
new_conn = record {
  decr = true;
  s = pos 5;
  t = minus_one;
  sas = true;
  connecting = true;
  connect_timeout = true;
  handshaking = true;
  handshake_timeout = true;
  k_f = none;
  k_r = none;
  pipe_f = false;
  pipe_r = false;
  stat_f = pos 1;
  stat_r = pos 1;
}

abbrev busy : World
busy = record {
  fds = 4;
  timers = 2;
  connects = 1;
  addr_lists = 2;
  handshakes = 1;
  keys = 0;
  pipes = 0;
  conns = 1;
}

new_conn-IsConn : IsConn toy new_conn
new_conn-IsConn = record {
  connect_timed = refl;
  connect_addressed = refl;
  connect_pending = refl;
  handshake_timed = refl;
  keyed = refl;
  handshake_pending = refl;
  handshake_begun = refl;
  pipes_run = refl;
  pipes_both = refl;
  statuses = λ e. (refl, refl);
}

new_conn-IsBalanced : IsBalanced toy base new_conn busy
new_conn-IsBalanced = record {
  fds = refl;
  timers = refl;
  connects = refl;
  addr_lists = refl;
  handshakes = refl;
  keys = refl;
  pipes = refl;
  conns = refl;
}

handle-Keeps_example : Keeps toy base (handle toy no_connect (connect_done (pos 9)) new_conn busy)
handle-Keeps_example =
    handle-Keeps toy no_connect (connect_done (pos 9)) base new_conn busy new_conn-IsConn
      new_conn-IsBalanced refl

handle-Reports_example :
    Reports toy no_connect
      (connect_done minus_one)
      new_conn
      (handle toy no_connect (connect_done minus_one) new_conn busy)
handle-Reports_example = handle-Reports toy no_connect (connect_done minus_one) new_conn busy

conn_refines_example :
    (phase_after toy (handle toy no_connect (connect_done (pos 9)) new_conn busy)
      ≡ move
          (starts toy no_connect new_conn)
          (signal toy (connect_done (pos 9)) new_conn)
          (phase toy new_conn))
    × Nearer
        (phase toy new_conn)
        (phase_after toy (handle toy no_connect (connect_done (pos 9)) new_conn busy))
conn_refines_example =
    conn_refines toy no_connect (connect_done (pos 9)) new_conn busy new_conn-IsConn refl
