-- ===== src/Sample/Zeros.antt =====
-- Zeros that are sent and received.
use spiped.Base.{true, refl, ◌≡◌, ◌==◌, if◌then◌else◌, none, some, [], ◌∷◌}
use spiped.SendZeros
use spiped.SendZeros.{send_zeros, connect, transfer, send_data}
use spiped.RecvZeros
use spiped.RecvZeros.{recv_zeros, exits, receive, after_loop}

abbrev sends_all : SendZeros.Answers
sends_all = record {
  buflen = some 3;
  count = some 2;
  alloc_ok = true;
  addresses = some 1;
  connect_ok = true;
  fcntl_ok = true;
  begin_ok = true;
  writes = λ n. some 3;
  shutdown_ok = true;
  read = some 0;
  end_ok = true;
  close_ok = true;
}

abbrev sender : SendZeros.World
sender = record { buffers = 0; lists = 0; fds = 3; sent = 0 }

six_sent : send_zeros sends_all sender ≡ (0, record sender { sent = 6 })
unfolding send_zeros connect transfer send_data
six_sent = refl

-- The second write fails.
three_sent :
    send_zeros (record sends_all { writes = λ n. if n == 0 then none else some 3 }) sender
    ≡ (1, record sender { sent = 3 })
unfolding send_zeros connect transfer send_data
three_sent = refl

abbrev receives_all : RecvZeros.Answers
receives_all = record {
  buflen = some 4;
  alloc_ok = true;
  resolve_ok = true;
  listener_ok = true;
  fcntl_ok = true;
  accept_ok = true;
  recvs = some 4 ∷ some 2 ∷ [];
  close_recv_ok = true;
  close_ok = true;
}

abbrev receiver : RecvZeros.World
receiver = record { buffers = 0; addrs = 0; fds = 3; received = 0 }

six_received : recv_zeros receives_all receiver ≡ exits 0 (record receiver { received = 6 })
unfolding recv_zeros receive after_loop
six_received = refl
