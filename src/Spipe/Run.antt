-- ===== src/Spipe/Run.antt =====
-- spipe/main.c: runs of the client, from what it sets up to what it leaves.
use spiped.Base.{
  ◌-◌, ◌≡◌, ◌⊎◌, ◌↔◌, refl, subst, inl, Bool, true, false, not, ◌&&◌, ◌||◌, Option, none, some,
  arith,
}
use spiped.Primitives.{Primitives}
use spiped.Conn.{ConnState, held, proto_conn_create}
use spiped.Conn
use spiped.GracefulShutdown
use spiped.GracefulShutdown.{IsWatching, graceful_shutdown_initialize, initialize-IsWatching}
use spiped.Spipe.Events.{Resources, StopAnswers, Client, runs, Event, handle}
use spiped.Spipe.Program.{SetUpAnswers, spins, set_up, Finish, exits, undefined, finish, spin_fails}
use spiped.Spipe.Invariant.{with_socket, ConnHolds, is_gone, IsHolding, IsClient, Enabled, Keeps}
use spiped.Spipe.Ledger.{client-Keeps}
use spiped.Spipe.SetUp.{Starts, err5-Releases, set_up-Starts}

module _ (p : Primitives) where
  -- Events one after the other, none of which follows a callback that failed or the beginning of
  -- the shutdown; the last callback reports `ok`.
  pub data Run : Client p → Bool → Client p → Type 0 where
    here : {c : Client p} → Run c true c
    next :
        {c c' c'' : Client p} {ok : Bool}
        → Run c true c'
        → c'.signals.begun ≡ 0
        → (k : Conn.Answers) (a : StopAnswers) (g : GracefulShutdown.Answers) (e : Event p)
        → Enabled p e c'
        → handle p k a g e c' ≡ runs ok c''
        → Run c ok c''

  Run-Keeps :
      (bound : Bool) (base : Resources) {c c' : Client p} {ok : Bool}
      → IsClient p bound base c
      → IsWatching c.signals
      → Run c ok c'
      → IsClient p bound base c' × (ok ≡ true → IsWatching c'.signals)
  Run-Keeps bound base i w here = (i, λ h. w)
  Run-Keeps bound base i w (next r z k a g e on ran) =
      let before = Run-Keeps bound base i w r in
      subst (Keeps p bound base) ran
        (client-Keeps p k a g e bound base _ before.0 (before.1 refl) z on)

  -- What is left of the connection when the client exits: it is only dropped when the loop fails.
  abbrev pub left : Bool → Option (ConnState p) → Option (ConnState p)
  left true conn = conn
  left false conn = none

  abbrev pub Leaves : Bool → Bool → Bool → Bool → Resources → Client p → Finish p → Type 0
  Leaves bound ok join_0 join_1 base c (exits status w) =
      (w.addrs ≡ base.addrs)
      × (w.secrets ≡ base.secrets)
      × ConnHolds p base.of_conns (left ok c.conn) w.of_conns
      × ((status ≡ 0) ↔ (ok && (not c.connection_error && (c.stopped || join_0 && join_1)) ≡ true))
      × (status ≡ 0 → w.threads ≡ base.threads)
  Leaves bound ok join_0 join_1 base c undefined =
      ((ok ≡ false) × (is_gone p c.conn ≡ true))
      ⊎ ((ok ≡ true) × (c.joined_0 ≡ true) × (c.stopped ≡ false))

  drop_socket :
      (base w : Conn.World) (o : Option (ConnState p))
      → ConnHolds p (with_socket p base) o w
      → ConnHolds p base o (record w { fds = w.fds - 1 })
  drop_socket base w none h = ground arith
  drop_socket base w (some c) h = (h.0, ground arith)

  spin_fails-Leaves :
      (bound join_0 join_1 : Bool) (base : Resources) (c : Client p) (o : Option (ConnState p))
      → IsHolding p bound base c
      → ConnHolds p (with_socket p base.of_conns) o c.holds.of_conns
      → c.conn ≡ o
      → Leaves bound false join_0 join_1 base c (spin_fails p bound c o)
  unfolding spin_fails
  spin_fails-Leaves bound join_0 join_1 base c none i h e = inl (refl, rw e)
  spin_fails-Leaves bound join_0 join_1 base c (some k) i h e =
      rw (err5-Releases p bound base c.holds k h.0 h.1 i.addrs i.secrets) (ground arith)

  finish-Leaves :
      (bound ok join_0 join_1 : Bool) (base : Resources) (c : Client p)
      → IsClient p bound base c
      → Leaves bound ok join_0 join_1 base c (finish p bound ok join_0 join_1 c)
  unfolding finish
  finish-Leaves bound false join_0 join_1 base c i =
      spin_fails-Leaves bound join_0 join_1 base c c.conn i.holding i.conn_holds refl
  finish-Leaves bound true join_0 join_1 base c i =
      ground (arith, drop_socket base.of_conns c.holds.of_conns c.conn i.conn_holds)

  -- A client that is set up and runs in any way in which no event follows the beginning of its
  -- shutdown exits, with its address, its secret and its socket released, and its connection too if
  -- the event loop failed; else the connection holds what it held. The status is 0 exactly when the
  -- loop and the joining of the threads do not fail and no connection ended with an error, and then
  -- both threads are joined. What follows is undefined in two cases at most: the loop has failed
  -- when the connection had ended, which is dropped again; or a shutdown has joined the first thread
  -- and not the second, and the first is joined again. At the start no timer is set and no shutdown
  -- begun, and threads that the set-up cancels can be joined.
  pub Run-Leaves :
      (bound : Bool) (a : SetUpAnswers) (signals : GracefulShutdown.State) (base : Resources)
      → a.join_0 ≡ true
      → a.join_1 ≡ true
      → signals.timers ≡ 0
      → signals.timer_cookie ≡ false
      → signals.begun ≡ 0
      → {c c' : Client p} → set_up p bound a signals base ≡ spins c
      → (ok join_0 join_1 : Bool) → Run c ok c'
      → Leaves bound ok join_0 join_1 base c' (finish p bound ok join_0 join_1 c')
  Run-Leaves bound a signals base j k t u b sets ok join_0 join_1 r =
      let start =
        subst (Starts p bound base) sets (set_up-Starts p bound a signals base j k t u b) in
      finish-Leaves bound ok join_0 join_1 base _ (Run-Keeps bound base start.0 start.1 r).0
