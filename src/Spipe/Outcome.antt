-- ===== src/Spipe/Outcome.antt =====
-- spipe/main.c: which calls decide how the client's set-up ends.
use spiped.Base.{
  ℕ, ◌+◌, ◌≡◌, refl, ◌==◌, Bool, true, false, not, ◌&&◌, ◌||◌, Option, none, some, arith,
}
use spiped.Primitives.{Primitives}
use spiped.Conn.{ConnState, held, proto_conn_create}
use spiped.Conn
use spiped.Conn.Ledger.{creates, is_created, is_created-create}
use spiped.GracefulShutdown
use spiped.GracefulShutdown.{graceful_shutdown_initialize}
use spiped.Spipe.Events.{Resources}
use spiped.Spipe.Program.{
  SetUpAnswers, SetUp, failed, set_up_threads, spins, set_up, set_up_conn, set_up_addrs,
}
use spiped.Spipe.SetUp.{Starts, set_up-Starts}

-- Whether there is an address.
abbrev pub has_addresses : Option ℕ → Bool
has_addresses none = false
has_addresses (some n) = not (n == 0)

abbrev pub watches : GracefulShutdown.Answers → Bool
watches a = a.signal_ok && (a.atexit_ok && a.timer_ok)

module _ (p : Primitives) where
  -- Whether every call succeeds that the set-up makes; a bind address is resolved if one is given.
  abbrev pub succeeds : Bool → SetUpAnswers → Bool
  succeeds bound a =
      has_addresses a.resolve
      && ((not bound || a.bind_ok)
          && (a.secret_ok
              && (a.pair_ok
                  && (creates p a.conn false && (a.push_1 && (a.push_0 && watches a.signals))))))

  abbrev pub goes_on : SetUp p → Bool
  goes_on (failed w) = false
  goes_on (spins c) = true

  goes_on-threads :
      (bound : Bool) (a : SetUpAnswers) (signals : GracefulShutdown.State) (c : ConnState p)
      (w : Resources)
      → goes_on (set_up_threads p bound a signals c w) ≡ a.push_1 && (a.push_0 && watches a.signals)
  unfolding set_up_threads graceful_shutdown_initialize
  goes_on-threads bound a signals c w = ground arith

  goes_on-conn :
      (bound : Bool) (a : SetUpAnswers) (signals : GracefulShutdown.State) (w : Resources)
      (made : Option (ConnState p) × Conn.World)
      → goes_on (set_up_conn p bound a signals w made)
        ≡ is_created p made.0 && (a.push_1 && (a.push_0 && watches a.signals))
  unfolding set_up_conn
  goes_on-conn bound a signals w (none, v) = refl
  goes_on-conn bound a signals w (some c, v) =
      goes_on-threads bound a signals c (record w { of_conns = v })

  goes_on-addrs :
      (bound : Bool) (a : SetUpAnswers) (signals : GracefulShutdown.State) (w : Resources)
      (r : Option ℕ)
      → goes_on (set_up_addrs p bound a signals w r) ≡ succeeds bound (record a { resolve = r })
  unfolding set_up_addrs
  goes_on-addrs bound a signals w none = refl
  goes_on-addrs bound a signals w (some n) =
      let paired : Resources = record w {
        of_conns = record w.of_conns {
          addr_lists = w.of_conns.addr_lists + 1;
          fds = w.of_conns.fds + 2;
        };
        addrs = w.addrs + held bound;
        secrets = w.secrets + 1;
      } in
      let made = proto_conn_create p a.conn false a.s_1 paired.of_conns in
      let created = is_created-create p a.conn false a.s_1 paired.of_conns in
      let step = goes_on-conn bound a signals paired made in ground arith

  goes_on-set_up :
      (bound : Bool) (a : SetUpAnswers) (signals : GracefulShutdown.State) (base : Resources)
      → goes_on (set_up p bound a signals base) ≡ succeeds bound a
  unfolding set_up
  goes_on-set_up bound a signals base = goes_on-addrs bound a signals base a.resolve

  -- The client goes on to its event loop exactly when every call of its set-up succeeds: the target
  -- has an address, the bind address is resolved if one is given, and the secret, the socket pair,
  -- the connection, the two threads, the handler of SIGTERM, that of the exit and the timer are had.
  -- Then its invariant holds, its timer is pending, and no shutdown has begun; otherwise it holds
  -- nothing when it exits that it did not hold at its start. The threads that it cancels on the way
  -- can be joined, and at the start no timer is set and no shutdown begun.
  pub set_up_lem :
      (bound : Bool) (a : SetUpAnswers) (signals : GracefulShutdown.State) (base : Resources)
      → a.join_0 ≡ true
      → a.join_1 ≡ true
      → signals.timers ≡ 0
      → signals.timer_cookie ≡ false
      → signals.begun ≡ 0
      → (goes_on (set_up p bound a signals base) ≡ succeeds bound a)
        × Starts p bound base (set_up p bound a signals base)
  set_up_lem bound a signals base j k t u b =
      (goes_on-set_up bound a signals base, set_up-Starts p bound a signals base j k t u b)
