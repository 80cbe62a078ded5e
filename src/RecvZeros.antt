-- ===== src/RecvZeros.antt =====
-- perftests/recv-zeros/main.c: the server that receives what one client sends, and drops it.
--
-- What the calls report is an argument; `PARSENUM` gives a number that is not 0. `World` counts the
-- buffers, addresses and descriptors that the process holds, and the bytes that have been received.
use spiped.Base.{
  ℕ, ◌+◌, ◌-◌, ◌≡◌, Bool, not, Option, none, some, List, [], ◌∷◌, ◌==◌, if◌then◌else◌, arith,
}

pub record World : Type 0 where
  pub buffers : ℕ
  pub addrs : ℕ
  pub fds : ℕ
  pub received : ℕ

-- `recvs` is what each `recv` returns, if it is not -1; `close_recv_ok` and `close_ok` are about the
-- connection and the listening socket.
pub record Answers : Type 0 where
  pub buflen : Option ℕ
  pub alloc_ok : Bool
  pub resolve_ok : Bool
  pub listener_ok : Bool
  pub fcntl_ok : Bool
  pub accept_ok : Bool
  pub recvs : List (Option ℕ)
  pub close_recv_ok : Bool
  pub close_ok : Bool

-- How the loop ends: without an error, or with -1, after so many bytes; or it still waits.
pub data Received : Type 0 where
  ends fails : ℕ → Received
  waits : Received

unfoldable pub receive : List (Option ℕ) → ℕ → ℕ → Received
receive [] buflen total = waits
receive (none ∷ rs) buflen total = fails total
receive (some r ∷ rs) buflen total =
    let again = receive rs buflen (total + r) in if r == buflen then again else ends (total + r)

-- How the program exits: with a status, or it still waits for its client.
pub data Exit : Type 0 where
  exits : ℕ → World → Exit
  receiving : Exit

abbrev pub err1 : World → Exit
err1 w = exits 1 (record w { buffers = w.buffers - 1 })

abbrev pub err2 : World → Exit
err2 w = err1 (record w { addrs = w.addrs - 1 })

-- `close` is called whatever it reports.
abbrev pub err3 : World → Exit
err3 w = err2 (record w { fds = w.fds - 1 })

abbrev pub err4 : World → Exit
err4 w = err3 (record w { fds = w.fds - 1 })

-- What follows the loop; the world holds the buffer, the address and both sockets.
unfoldable pub after_loop : Answers → World → Received → Exit
after_loop a w waits = receiving
after_loop a w (fails n) = err4 (record w { received = w.received + n })
after_loop a w (ends n) =
    let w' : World = record w { received = w.received + n } in
    let closed : World = record w' { fds = w.fds - 1 } in
    if not a.close_recv_ok
    then err3 closed
    else if not a.close_ok
    then err2 (record closed { fds = w.fds - 1 - 1 })
    else exits 0
        (record closed { fds = w.fds - 1 - 1; addrs = w.addrs - 1; buffers = w.buffers - 1 })

unfoldable pub recv_zeros : Answers → World → Exit
unfolding receive after_loop
recv_zeros a w = elim a.buflen [
  | none ↦ exits 1 w
  | some buflen ↦
      let allocated : World = record w { buffers = w.buffers + 1 } in
      let resolved : World = record allocated { addrs = w.addrs + 1 } in
      let listening : World = record resolved { fds = w.fds + 1 } in
      if not a.alloc_ok
      then exits 1 w
      else if not a.resolve_ok
      then err1 allocated
      else if not a.listener_ok
      then err2 resolved
      else if not a.fcntl_ok
      then err3 listening
      else if not a.accept_ok
      then err3 listening
      else after_loop a (record listening { fds = w.fds + 1 + 1 }) (receive a.recvs buflen 0)
]

-- Nothing of the program's is left.
abbrev pub Leaves : World → Exit → Type 0
Leaves base (exits status w) =
    (w.buffers ≡ base.buffers) × (w.addrs ≡ base.addrs) × (w.fds ≡ base.fds)
Leaves base receiving = Unit

after_loop-Leaves :
    (a : Answers) (w : World) (r : Received)
    → Leaves w (
        after_loop a
          (record w { buffers = w.buffers + 1; addrs = w.addrs + 1; fds = w.fds + 1 + 1 })
          r)
unfolding after_loop
after_loop-Leaves a w waits = tt
after_loop-Leaves a w (fails n) = ground arith
after_loop-Leaves a w (ends n) = ground arith

-- Whatever the calls report, a program that exits leaves no buffer, address or descriptor behind.
pub recv_zeros-Leaves : (a : Answers) (w : World) → Leaves w (recv_zeros a w)
unfolding recv_zeros
recv_zeros-Leaves a w = elim a.buflen as (λ l. Leaves w (recv_zeros (record a { buflen = l }) w)) [
  | none ↦ ground arith
  | some buflen ↦
      let ended =
        after_loop-Leaves (record a { buflen = some buflen }) w (receive a.recvs buflen 0) in
      ground arith
]
