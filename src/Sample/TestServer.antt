-- ===== src/Sample/TestServer.antt =====
-- Each theorem applied at concrete inputs: the server of the tests.
use spiped.Base.{true, false, refl, arith, ◌≡◌, some, [], ◌∷◌, pos}
use spiped.SimpleServer.{World, AcceptState, Answers, returns, doaccept, set_cookie, list_remove}
use spiped.SimpleServer.Ledger.{IsAccepting, Tallies, IsReady}
use spiped.SimpleServer.Events.{got_conn, read, handle}
use spiped.SimpleServer.Stop.{start, accept_first, spins, finish}
use spiped.SimpleServer.Run.{Run, here, next, simple_server_counts, simple_server_lem}

abbrev all_ok : Answers
all_ok = record {
  alloc_ok = true;
  accept_ok = true;
  read_ok = true;
  close_ok = true;
  message_ok = true;
}

abbrev before : World
before = record { fds = 3; addrs = 0; accepts = 0; reads = 0; nodes = 0; states = 0 }

-- Up to two connections at once, and one in all.
abbrev accepting : AcceptState
accepting = record {
  conndone = false;
  shutdown_requested = false;
  shutdown_after = 1;
  shutdown_current = 0;
  nconn = 0;
  nconn_max = 2;
  accept_cookie = true;
  conn_cookies = [];
}

abbrev listening : World
listening = record before { fds = 4; addrs = 1; accepts = 1; states = 1 }

starts : start all_ok true true (λ n. all_ok) 2 1 before ≡ spins accepting listening
unfolding start accept_first doaccept
starts = refl

-- The second accept is still pending.
abbrev stopping : AcceptState
stopping = record accepting { conndone = true; shutdown_requested = true; shutdown_current = 1 }

-- A connection comes, sends a message, and ends.
run : Run accepting listening 1 true true stopping listening
unfolding handle set_cookie list_remove
run =
    next
      (next (next here all_ok (got_conn (pos 9) 7) (refl, refl) refl) all_ok (read 7 (pos 3)) refl
        refl)
      all_ok (read 7 (pos 0)) refl refl

simple_server_counts_example :
    IsAccepting stopping × Tallies 1 stopping × (true ≡ true → IsReady stopping)
simple_server_counts_example =
    simple_server_counts all_ok true true (λ n. all_ok) 2 1 before (omega arith) (omega arith)
      starts run

simple_server_lem_example : finish (λ n. all_ok) true stopping listening ≡ some (true, before)
simple_server_lem_example =
    simple_server_lem all_ok true true (λ n. all_ok) 2 1 before (omega arith) (omega arith) starts
      run true

-- One connection at once, and two in all: the first has come.
abbrev one : AcceptState
one = record accepting {
  shutdown_after = 2;
  nconn = 1;
  nconn_max = 1;
  accept_cookie = false;
  conn_cookies = (7, true) ∷ [];
}

abbrev serving : World
serving = record before { fds = 5; addrs = 1; reads = 1; nodes = 1; states = 1 }

-- It ends, and the next accept fails: the callback returns 0, nothing is pending, and the loop is
-- not told to end.
stuck :
    handle (record all_ok { accept_ok = false }) (read 7 (pos 0)) one serving
    ≡ returns true
        (record one { nconn = 0; shutdown_current = 1; conn_cookies = [] })
        (record before { fds = 4; addrs = 1; states = 1 })
unfolding handle set_cookie list_remove
stuck = refl
