-- ===== src/Sample/TestClient.antt =====
-- Each theorem applied at concrete inputs: the client of the tests.
use spiped.Base.{true, false, refl, inr, ◌≡◌, ◌++◌, none, some, [], ◌∷◌, pos, negsuc, List}
use spiped.Primitives.{Bytes}
use spiped.Pipe.Stream.{bytes_of}
use spiped.NcClient.{Held, World, Senddata, Answers, start, spins, finish}
use spiped.NcClient.Ledger.{connected, wrote, stopping, handle, pending}
use spiped.NcClient.Run.{Run, here, next, nc_client_sends, nc_client_done}

abbrev all_ok : Answers
all_ok = record { getline_ok = true; write_ok = true; shutdown_ok = true; read_ok = true }

abbrev before : Held
before = record { fds = 3; lists = 0; buffers = 0; connects = 0; writes = 0; reads = 0 }

abbrev one_line : List Bytes
one_line = (104 ∷ 105 ∷ 10 ∷ []) ∷ []

abbrev connecting : Senddata
connecting = record {
  buffer = none;
  nchars = pos 0;
  socket = false;
  conndone = false;
  connect_cookie = true;
  write_cookie = false;
  read_cookie = false;
}

abbrev unsent : World
unsent = record {
  holds = record before { lists = 1; connects = 1 };
  lines = one_line;
  sent = [];
  shut = false;
}

starts : start (some 1) true one_line before ≡ spins connecting unsent
unfolding start
starts = refl

abbrev writing : Senddata
writing = record connecting {
  buffer = some (104 ∷ 105 ∷ 10 ∷ []);
  nchars = pos 3;
  socket = true;
  connect_cookie = false;
  write_cookie = true;
}

abbrev in_flight : World
in_flight = record unsent {
  holds = record before { fds = 4; lists = 1; buffers = 1; writes = 1 };
  lines = [];
}

to_writing : Run connecting unsent true writing in_flight
unfolding handle
to_writing = next here all_ok (connected (pos 9)) refl refl

sends_in_order :
    (in_flight.sent ++ (pending writing ++ bytes_of in_flight.lines) ≡ bytes_of one_line)
    × (finish false writing in_flight.holds ≡ (1, record before { fds = 4 }))
sends_in_order = nc_client_sends (some 1) true one_line before starts to_writing

abbrev stopped : Senddata
stopped = record connecting {
  buffer = some [];
  nchars = negsuc 0;
  socket = true;
  conndone = true;
  connect_cookie = false;
}

abbrev all_sent : World
all_sent = record unsent {
  holds = record before { fds = 4; lists = 1; buffers = 1 };
  lines = [];
  sent = 104 ∷ 105 ∷ 10 ∷ [];
  shut = true;
}

-- The line is written, and then the server closes the connection.
to_stopped : Run connecting unsent true stopped all_sent
unfolding handle
to_stopped =
    next (next to_writing all_ok (wrote (pos 3)) (refl, inr refl) refl) all_ok (stopping (pos 0))
      refl refl

nc_client_done_example :
    (all_sent.sent ≡ bytes_of one_line)
    × (all_sent.shut ≡ true)
    × (finish true stopped all_sent.holds ≡ (0, record before { fds = 4 }))
nc_client_done_example = nc_client_done (some 1) true one_line before starts to_stopped refl
