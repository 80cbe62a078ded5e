-- ===== src/Sample/Server.antt =====
-- Each theorem applied at concrete inputs: the server.
use spiped.Base.{◌≡◌, refl, true, false, some, [], ◌∷◌, arith}
use spiped.Dispatch.{World, AcceptState, Answers, dispatch_accept}
use spiped.Dispatch.Ledger.{
  IsAccepting, IsBalanced, Keeps, Starts, conn_died, handle, event-Keeps, dispatch_accept-Starts,
}
use spiped.Dispatch.Stop.{dispatch_shutdown}
use spiped.Dispatch.Shutdown.{dispatch_shutdown_lem}

abbrev base : World
base = record {
  fds = 2;
  accepts = 0;
  timers = 0;
  threads = 0;
  addr_lists = 0;
  nodes = 0;
  states = 0;
  conns = 0;
}

-- No call fails.
abbrev all_ok : Answers
all_ok = record {
  alloc_ok = true;
  spawn_ok = true;
  duplist_ok = true;
  timer_ok = true;
  resolve_ok = true;
  create_ok = true;
  accept_ok = true;
}

starts_accepting :
    Starts base
      (record base { fds = 3; addr_lists = 1 })
      (dispatch_accept all_ok true 2 (record base { fds = 3; addr_lists = 1 }))
starts_accepting =
    dispatch_accept-Starts all_ok true 2 base (record base { fds = 3; addr_lists = 1 })
      (omega arith) refl

-- A server with two connections of at most two, so that no accept is pending.
abbrev full : AcceptState
full = record {
  conndone = false;
  shutdown_requested = false;
  nconn = 2;
  nconn_max = 2;
  accept_cookie = false;
  dnstimer_cookie = true;
  t = true;
  resolving = false;
  conn_cookies = 7 ∷ 8 ∷ [];
}

abbrev holding : World
holding = record {
  fds = 3;
  accepts = 0;
  timers = 1;
  threads = 1;
  addr_lists = 1;
  nodes = 2;
  states = 1;
  conns = 2;
}

full-IsAccepting : IsAccepting full
full-IsAccepting = record {
  counted = refl;
  at_most = omega arith;
  is_size = omega arith;
  has_room = λ e. absurd (ground arith);
  stopped = λ e. refl;
  done = refl;
  either = refl;
  distinct = (refl, (refl, tt));
}

full-IsBalanced : IsBalanced base full holding
full-IsBalanced = record {
  fds = refl;
  accepts = refl;
  timers = refl;
  threads = refl;
  addr_lists = refl;
  nodes = refl;
  states = refl;
  conns = refl;
}

gets_conn : Keeps base (handle all_ok (conn_died 8) full holding)
gets_conn =
    event-Keeps all_ok base full holding full-IsAccepting full-IsBalanced (conn_died 8) refl refl

shuts_down : dispatch_shutdown (λ n. all_ok) full holding ≡ some base
shuts_down = dispatch_shutdown_lem (λ n. all_ok) base full holding full-IsAccepting full-IsBalanced
