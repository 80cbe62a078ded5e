-- ===== src/Spipe/Program.antt =====
-- spipe/main.c: what the client sets up before its event loop, and what it releases after it.
--
-- What the calls report is an argument; `sock_addr_free` and `sock_addr_freelist` do nothing when
-- they are given NULL. A failing `close` and `pthread_cancel` are reported and have no effect.
use spiped.Base.{
  ℕ, ◌+◌, ◌-◌, ◌==◌, Bool, true, false, not, ◌&&◌, Option, none, some, if◌then◌else◌, ℤ,
}
use spiped.Primitives.{Primitives}
use spiped.Conn.{ConnState, held, conn_cancelled, upstream, proto_conn_create, proto_conn_drop}
use spiped.Conn
use spiped.GracefulShutdown
use spiped.GracefulShutdown.{graceful_shutdown_initialize}
use spiped.Spipe.Events.{Resources, Client}

-- `resolve` is how many addresses the target has, or `none` for NULL. `push_1` and `push_0` are
-- the threads that write to the standard output and read the standard input.
pub record SetUpAnswers : Type 0 where
  pub resolve : Option ℕ
  pub bind_ok : Bool
  pub secret_ok : Bool
  pub pair_ok : Bool
  pub s_1 : ℤ
  pub conn : Conn.Answers
  pub push_1 : Bool
  pub push_0 : Bool
  pub signals : GracefulShutdown.Answers
  pub join_0 : Bool
  pub join_1 : Bool

module _ (p : Primitives) where
  -- The world of the connections, changed.
  abbrev pub with_conns : (Conn.World → Conn.World) → Resources → Resources
  with_conns f w = record w { of_conns = f w.of_conns }

  -- The labels of `main`. `bound` says whether `sa_b` is not NULL, and `owned` whether `sas_t` and
  -- `s[1]` are still the main function's.
  unfoldable pub err1 : Bool → Resources → Resources
  err1 owned w = with_conns (λ v. record v { addr_lists = v.addr_lists - held owned }) w

  unfoldable pub err2 : Bool → Bool → Resources → Resources
  unfolding err1
  err2 bound owned w = err1 owned (record w { addrs = w.addrs - held bound })

  unfoldable pub err3 : Bool → Bool → Resources → Resources
  unfolding err2
  err3 bound owned w = err2 bound owned (record w { secrets = w.secrets - 1 })

  unfoldable pub err4 : Bool → Bool → Resources → Resources
  unfolding err3
  err4 bound owned w =
      err3 bound owned (with_conns (λ v. record v { fds = v.fds - held owned - 1 }) w)

  -- The world once `proto_conn_drop` has returned.
  abbrev pub world_of : Conn.World → Conn.Outcome p → Conn.World
  world_of w (Conn.Outcome.lives c v) = v
  world_of w (Conn.Outcome.dropped reason rc v) = v
  world_of w Conn.Outcome.aborted = w

  unfoldable pub err5 : Bool → ConnState p → Resources → Resources
  unfolding err4 proto_conn_drop
  err5 bound c w =
      err4 bound false
        (with_conns (λ v. world_of v (proto_conn_drop p conn_cancelled upstream c v)) w)

  unfoldable pub err6 : Bool → Bool → ConnState p → Resources → Resources
  unfolding err5
  err6 bound join_1 c w = err5 bound c (record w { threads = w.threads - held join_1 })

  unfoldable pub err7 : Bool → Bool → Bool → ConnState p → Resources → Resources
  unfolding err6
  err7 bound join_0 join_1 c w =
      err6 bound join_1 c (record w { threads = w.threads - held join_0 })

  -- The program exits with 1 and leaves this, or goes on to its event loop.
  pub data SetUp : Type 0 where
    failed : Resources → SetUp
    spins : Client p → SetUp

  unfoldable pub set_up_threads :
      Bool → SetUpAnswers → GracefulShutdown.State → ConnState p → Resources → SetUp
  set_up_threads bound a signals c w =
      let with_1 : Resources = record w { threads = w.threads + 1 } in
      let with_0 : Resources = record with_1 { threads = w.threads + 1 + 1 } in
      let (ok, signals') = graceful_shutdown_initialize a.signals signals in
      if not a.push_1
      then failed (err5 bound c w)
      else if not a.push_0
      then failed (err6 bound a.join_1 c with_1)
      else if not ok
      then failed (err7 bound a.join_0 a.join_1 c with_0)
      else spins (record {
        joined_0 = false;
        joined_1 = false;
        conndone = false;
        connection_error = false;
        stopped = false;
        signals = signals';
        conn = some c;
        holds = with_0;
      })

  unfoldable pub set_up_conn :
      Bool
      → SetUpAnswers
      → GracefulShutdown.State
      → Resources
      → Option (ConnState p) × Conn.World
      → SetUp
  unfolding err4 set_up_threads
  set_up_conn bound a signals w (none, v) = failed (err4 bound true (record w { of_conns = v }))
  set_up_conn bound a signals w (some c, v) =
      set_up_threads bound a signals c (record w { of_conns = v })

  -- `some n` for the addresses; `bound` says whether `-b` is given.
  unfoldable pub set_up_addrs :
      Bool → SetUpAnswers → GracefulShutdown.State → Resources → Option ℕ → SetUp
  unfolding err1 err2 err3
  set_up_addrs bound a signals w none = failed w
  set_up_addrs bound a signals w (some n) =
      let listed : Resources = with_conns (λ v. record v { addr_lists = v.addr_lists + 1 }) w in
      let with_addr : Resources = record listed { addrs = w.addrs + held bound } in
      let keyed : Resources = record with_addr { secrets = w.secrets + 1 } in
      let paired : Resources = with_conns (λ v. record v { fds = v.fds + 2 }) keyed in
      if n == 0
      then failed (err1 true listed)
      else if bound && not a.bind_ok
      then failed (err1 true listed)
      else if not a.secret_ok
      then failed (err2 bound true with_addr)
      else if not a.pair_ok
      then failed (err3 bound true keyed)
      else set_up_conn bound a signals paired
          (proto_conn_create p a.conn false a.s_1 paired.of_conns)

  unfoldable pub set_up : Bool → SetUpAnswers → GracefulShutdown.State → Resources → SetUp
  unfolding set_up_addrs
  set_up bound a signals w = set_up_addrs bound a signals w a.resolve

  -- The program exits with a status and leaves this, or what C leaves undefined.
  pub data Finish : Type 0 where
    exits : ℕ → Resources → Finish
    undefined : Finish

  -- `events_spin` fails: the connection is dropped.
  unfoldable pub spin_fails : Bool → Client p → Option (ConnState p) → Finish
  spin_fails bound c none = undefined
  spin_fails bound c (some k) = exits 1 (err5 bound k c.holds)

  unfoldable pub clean_up : Bool → Client p → Resources → Finish
  clean_up bound c w = exits (if c.connection_error then 1 else 0) (record w {
    of_conns = record w.of_conns { fds = w.of_conns.fds - 1 };
    secrets = w.secrets - 1;
    addrs = w.addrs - held bound;
  })

  -- What follows `events_spin`, which reports `ok`; the threads are joined, which is undefined for
  -- one that has been joined.
  unfoldable pub finish : Bool → Bool → Bool → Bool → Client p → Finish
  unfolding spin_fails clean_up err4
  finish bound ok join_0 join_1 c =
      let w = c.holds in
      if not ok
      then spin_fails bound c c.conn
      else if c.stopped
      then clean_up bound c w
      else if c.joined_0
      then undefined
      else if not join_0
      then exits 1 (err4 bound false w)
      else if c.joined_1
      then undefined
      else if not join_1
      then exits 1 (err4 bound false (record w { threads = w.threads - 1 }))
      else clean_up bound c (record w { threads = w.threads - 2 })
