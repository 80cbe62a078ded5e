-- ===== src/Spipe/SetUp.antt =====
-- spipe/main.c: what the client holds when its set-up has failed or succeeded.
use spiped.Base.{ℕ, ◌+◌, ◌-◌, ◌≡◌, refl, Bool, true, false, Option, none, some, arith}
use spiped.Primitives.{Primitives}
use spiped.Conn.{ConnState, held, proto_conn_create}
use spiped.Conn
use spiped.Conn.Ledger as ConnLedger
use spiped.Conn.Ledger.{IsConn, creates, is_created, proto_conn_create-Keeps, is_created-create}
use spiped.GracefulShutdown
use spiped.GracefulShutdown.{IsWatching, graceful_shutdown_initialize, initialize-IsWatching}
use spiped.Spipe.Events.{Resources}
use spiped.Spipe.Program.{
  SetUpAnswers, SetUp, failed, err5, err6, err7, set_up_threads, spins, set_up, set_up_conn,
  set_up_addrs,
}
use spiped.Spipe.Invariant.{with_socket, IsClient}

pub begun-initialize :
    (a : GracefulShutdown.Answers) (s : GracefulShutdown.State)
    → (graceful_shutdown_initialize a s).1.begun ≡ s.begun
unfolding graceful_shutdown_initialize
begun-initialize a s = ground arith

module _ (p : Primitives) where
  abbrev pub Starts : Bool → Resources → SetUp p → Type 0
  Starts bound base (failed w) = w ≡ base
  Starts bound base (spins c) =
      IsClient p bound base c × IsWatching c.signals × (c.signals.begun ≡ 0)

  -- `err5` leaves all but the threads as it was before.
  pub err5-Releases :
      (bound : Bool) (base w : Resources) (c : ConnState p)
      → IsConn p c
      → ConnLedger.IsBalanced p (with_socket p base.of_conns) c w.of_conns
      → w.addrs ≡ base.addrs + held bound
      → w.secrets ≡ base.secrets + 1
      → err5 p bound c w ≡ record base { threads = w.threads }
  unfolding err5
  err5-Releases bound base w c i b a s = ground arith

  err6-Releases :
      (bound join_1 : Bool) (base w : Resources) (c : ConnState p)
      → IsConn p c
      → ConnLedger.IsBalanced p (with_socket p base.of_conns) c w.of_conns
      → w.addrs ≡ base.addrs + held bound
      → w.secrets ≡ base.secrets + 1
      → err6 p bound join_1 c w ≡ record base { threads = w.threads - held join_1 }
  unfolding err6
  err6-Releases bound join_1 base w c i b a s =
      err5-Releases bound base (record w { threads = w.threads - held join_1 }) c i b a s

  err7-Releases :
      (bound join_0 join_1 : Bool) (base w : Resources) (c : ConnState p)
      → IsConn p c
      → ConnLedger.IsBalanced p (with_socket p base.of_conns) c w.of_conns
      → w.addrs ≡ base.addrs + held bound
      → w.secrets ≡ base.secrets + 1
      → err7 p bound join_0 join_1 c w
        ≡ record base { threads = w.threads - held join_0 - held join_1 }
  unfolding err7
  err7-Releases bound join_0 join_1 base w c i b a s =
      err6-Releases bound join_1 base (record w { threads = w.threads - held join_0 }) c i b a s

  set_up_threads-Starts :
      (bound : Bool) (a : SetUpAnswers) (signals : GracefulShutdown.State) (base w : Resources)
      (c : ConnState p)
      → a.join_0 ≡ true
      → a.join_1 ≡ true
      → signals.timers ≡ 0
      → signals.timer_cookie ≡ false
      → signals.begun ≡ 0
      → IsConn p c
      → ConnLedger.IsBalanced p (with_socket p base.of_conns) c w.of_conns
      → w.addrs ≡ base.addrs + held bound
      → w.secrets ≡ base.secrets + 1
      → w.threads ≡ base.threads
      → Starts bound base (set_up_threads p bound a signals c w)
  unfolding set_up_threads
  set_up_threads-Starts bound a signals base w c j k t u b i h e f g = ground (
    arith,
    err5-Releases bound base w c,
    err6-Releases bound a.join_1 base (record w { threads = w.threads + 1 }) c,
    err7-Releases bound a.join_0 a.join_1 base (record w { threads = w.threads + 1 + 1 }) c,
    initialize-IsWatching a.signals signals,
    begun-initialize a.signals signals,
  )

  set_up_conn-Starts :
      (bound : Bool) (a : SetUpAnswers) (signals : GracefulShutdown.State) (base w : Resources)
      (made : Option (ConnState p) × Conn.World)
      → a.join_0 ≡ true
      → a.join_1 ≡ true
      → signals.timers ≡ 0
      → signals.timer_cookie ≡ false
      → signals.begun ≡ 0
      → w ≡ record base {
        of_conns = record base.of_conns {
          fds = base.of_conns.fds + 2;
          addr_lists = base.of_conns.addr_lists + 1;
        };
        addrs = base.addrs + held bound;
        secrets = base.secrets + 1;
      }
      → ConnLedger.Creates p (with_socket p base.of_conns) w.of_conns made
      → Starts bound base (set_up_conn p bound a signals w made)
  unfolding set_up_conn
  set_up_conn-Starts bound a signals base w (none, v) j k t u b e h = ground arith
  set_up_conn-Starts bound a signals base w (some c, v) j k t u b e h =
      set_up_threads-Starts bound a signals base (record w { of_conns = v }) c j k t u b h.0 h.1
        (ground arith) (ground arith) (ground arith)

  set_up_addrs-Starts :
      (bound : Bool) (a : SetUpAnswers) (signals : GracefulShutdown.State) (base : Resources)
      (r : Option ℕ)
      → a.join_0 ≡ true
      → a.join_1 ≡ true
      → signals.timers ≡ 0
      → signals.timer_cookie ≡ false
      → signals.begun ≡ 0
      → Starts bound base (set_up_addrs p bound a signals base r)
  unfolding set_up_addrs
  set_up_addrs-Starts bound a signals base none j k t u b = refl
  set_up_addrs-Starts bound a signals base (some n) j k t u b = ground (
    arith,
    set_up_conn-Starts bound a signals base
        (record base {
          of_conns = record base.of_conns {
            fds = base.of_conns.fds + 2;
            addr_lists = base.of_conns.addr_lists + 1;
          };
          addrs = base.addrs + held bound;
          secrets = base.secrets + 1;
        })
        (proto_conn_create p a.conn false a.s_1 (record base.of_conns {
          fds = base.of_conns.fds + 2;
          addr_lists = base.of_conns.addr_lists + 1;
        }))
        j k t u b refl
        (proto_conn_create-Keeps p a.conn false a.s_1 (with_socket p base.of_conns)
          (record base.of_conns {
            fds = base.of_conns.fds + 2;
            addr_lists = base.of_conns.addr_lists + 1;
          })
          (ground arith)),
  )

  -- A set-up leaves nothing behind, or a client that keeps its invariant.
  pub set_up-Starts :
      (bound : Bool) (a : SetUpAnswers) (signals : GracefulShutdown.State) (base : Resources)
      → a.join_0 ≡ true
      → a.join_1 ≡ true
      → signals.timers ≡ 0
      → signals.timer_cookie ≡ false
      → signals.begun ≡ 0
      → Starts bound base (set_up p bound a signals base)
  unfolding set_up
  set_up-Starts bound a signals base j k t u b =
      set_up_addrs-Starts bound a signals base a.resolve j k t u b
