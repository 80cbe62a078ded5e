-- ===== src/Spipe/Invariant.antt =====
-- spipe/main.c: what the client holds while its event loop runs.
use spiped.Base.{◌+◌, ◌≡◌, Bool, true, false, not, Option, none, some}
use spiped.Primitives.{Primitives}
use spiped.Conn.{ConnState, held}
use spiped.Conn
use spiped.Conn.Ledger as ConnLedger
use spiped.Conn.Ledger.{IsConn, handle-Keeps}
use spiped.GracefulShutdown
use spiped.GracefulShutdown.{IsWatching, event-Watches}
use spiped.Spipe.Events.{
  Resources, Client, Outcome, runs, undefined, Event, sigterm, timer, conn_event,
}

module _ (p : Primitives) where
  -- The world of the connections without the client's: it has its own end of the socket pair.
  abbrev pub with_socket : Conn.World → Conn.World
  with_socket w = record w { fds = w.fds + 1 }

  abbrev pub ConnHolds : Conn.World → Option (ConnState p) → Conn.World → Type 0
  ConnHolds base none w = w ≡ base
  ConnHolds base (some c) w = IsConn p c × ConnLedger.IsBalanced p base c w

  abbrev pub is_gone : Option (ConnState p) → Bool
  is_gone none = true
  is_gone (some c) = false

  -- What the client holds beside its connection: its address, if it has one, its secret, and the
  -- threads that are not joined. When the client says that it is stopped they both are, and the
  -- event loop is to end; else the second is not.
  pub record IsHolding (bound : Bool) (base : Resources) (c : Client p) : Type 0 where
    pub addrs : c.holds.addrs ≡ base.addrs + held bound
    pub secrets : c.holds.secrets ≡ base.secrets + 1
    pub threads : c.holds.threads ≡ base.threads + held (not c.joined_0) + held (not c.joined_1)
    pub first_joined : c.stopped ≡ true → c.joined_0 ≡ true
    pub second_joined : c.joined_1 ≡ c.stopped
    pub stopped_done : c.stopped ≡ true → c.conndone ≡ true

  -- The threads are joined only when the shutdown has begun, the connection keeps its invariant,
  -- and the event loop is to end when it has ended.
  pub record IsClient (bound : Bool) (base : Resources) (c : Client p) : Type 0 where
    pub holding : IsHolding bound base c
    pub conn_holds : ConnHolds (with_socket base.of_conns) c.conn c.holds.of_conns
    pub gone_done : is_gone c.conn ≡ true → c.conndone ≡ true
    pub unless_begun : c.signals.begun ≡ 0 → (c.joined_0 ≡ false) × (c.joined_1 ≡ false)

  abbrev pub Enabled : Event p → Client p → Type 0
  Enabled sigterm c = GracefulShutdown.Enabled GracefulShutdown.Event.sigterm c.signals
  Enabled timer c = GracefulShutdown.Enabled GracefulShutdown.Event.timer c.signals
  Enabled (conn_event e) c = (k : ConnState p) × (c.conn ≡ some k) × ConnLedger.Enabled p e k

  abbrev pub Keeps : Bool → Resources → Outcome p → Type 0
  Keeps bound base (runs rc c) = IsClient bound base c × (rc ≡ true → IsWatching c.signals)
  Keeps bound base undefined = ⊥
