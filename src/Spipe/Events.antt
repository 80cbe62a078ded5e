-- ===== src/Spipe/Events.antt =====
-- spipe/main.c: the client while its event loop runs, composed with its connection
-- (lib/proto/proto_conn.c) and with lib/util/graceful_shutdown.c, whose callback it is.
--
-- `Resources` counts what the process holds, with the world of the connections in it.
use spiped.Base.{ℕ, ◌-◌, Bool, true, false, not, ◌||◌, Option, none, some, if◌then◌else◌}
use spiped.Primitives.{Primitives}
use spiped.Conn.{
  ConnState, Reason, conn_closed, conn_cancelled, conn_connect_failed, conn_handshake_failed,
  conn_error,
}
use spiped.Conn
use spiped.Conn.Ledger as ConnLedger
use spiped.GracefulShutdown
use spiped.Server.{returned}

pub record Resources : Type 0 where
  pub of_conns : Conn.World
  pub addrs : ℕ
  pub secrets : ℕ
  pub threads : ℕ

-- What `pthread_cancel` reports: 0, `ESRCH`, or another error.
pub data CancelResult : Type 0 where
  cancelled esrch cancel_fails : CancelResult

-- What the calls of `callback_graceful_shutdown` report for either thread.
pub record StopAnswers : Type 0 where
  pub cancel_0 : CancelResult
  pub cancel_1 : CancelResult
  pub join_0 : Bool
  pub join_1 : Bool

abbrev pub is_failure : CancelResult → Bool
is_failure cancelled = false
is_failure esrch = false
is_failure cancel_fails = true

-- Whether a connection ended as it should.
abbrev pub is_error : Reason → Bool
is_error conn_closed = false
is_error conn_cancelled = false
is_error conn_connect_failed = true
is_error conn_handshake_failed = true
is_error conn_error = true

module _ (p : Primitives) where
  -- `joined_0` and `joined_1` say whether the identifier of a thread has been joined; then it must
  -- not be used again.
  pub record Client : Type 0 where
    pub joined_0 : Bool
    pub joined_1 : Bool
    pub conndone : Bool
    pub connection_error : Bool
    pub stopped : Bool
    pub signals : GracefulShutdown.State
    pub conn : Option (ConnState p)
    pub holds : Resources

  abbrev pub without_threads : ℕ → Client → Resources
  without_threads n c = record c.holds { threads = c.holds.threads - n }

  -- Whether it succeeds, and the client; or `none`, if it uses a thread that has been joined.
  unfoldable pub callback_graceful_shutdown : StopAnswers → Client → Option (Bool × Client)
  callback_graceful_shutdown a c =
      if c.joined_0
      then none
      else if is_failure a.cancel_0
      then some (false, c)
      else if c.joined_1
      then none
      else if is_failure a.cancel_1 || not a.join_0
      then some (false, c)
      else if not a.join_1
      then some (false, record c { joined_0 = true; holds = without_threads 1 c })
      else some (
        true,
        record c {
          joined_0 = true;
          joined_1 = true;
          stopped = true;
          conndone = true;
          holds = without_threads 2 c;
        },
      )

  -- After a callback: its result, and the client; or what C leaves undefined, or a failed assertion.
  pub data Outcome : Type 0 where
    runs : Bool → Client → Outcome
    undefined : Outcome

  -- Once `begin_shutdown` has returned, the rest of `graceful_shutdown_manual` or of the timer's
  -- callback, as `event` says.
  unfoldable pub begun :
      GracefulShutdown.Answers → GracefulShutdown.Event → Option (Bool × Client) → Outcome
  begun a e none = undefined
  begun a e (some (rc, c)) =
      elim (GracefulShutdown.handle (record a { begin_ok = rc }) e c.signals) [
        | none ↦ undefined
        | some (ok, s) ↦ runs ok (record c { signals = s })
      ]

  abbrev pub finish_conndied : Outcome → Outcome
  finish_conndied (runs rc c) = runs true (record c { conndone = true })
  finish_conndied undefined = undefined

  unfoldable pub callback_conndied :
      StopAnswers → GracefulShutdown.Answers → Reason → Client → Outcome
  unfolding begun callback_graceful_shutdown
  callback_conndied a g reason c =
      let c' : Client = record c { connection_error = c.connection_error || is_error reason } in
      if c'.connection_error
      then finish_conndied (begun g GracefulShutdown.Event.manual (callback_graceful_shutdown a c'))
      else runs true (record c' { conndone = true })

  abbrev pub pass_on : Conn.Status → Outcome → Outcome
  pass_on rc (runs r c) = runs (returned rc r) c
  pass_on rc undefined = undefined

  -- A connection's callback, and `callback_conndied` when it drops the connection.
  unfoldable pub after_conn :
      StopAnswers → GracefulShutdown.Answers → Client → Conn.Outcome p → Outcome
  unfolding callback_conndied
  after_conn a g c (Conn.Outcome.lives k w) =
      runs true (record c { conn = some k; holds = record c.holds { of_conns = w } })
  after_conn a g c (Conn.Outcome.dropped reason rc w) = pass_on rc (
      callback_conndied a g reason
        (record c { conn = none; holds = record c.holds { of_conns = w } }))
  after_conn a g c Conn.Outcome.aborted = undefined

  pub data Event : Type 0 where
    sigterm : Event
    timer : Event
    conn_event : ConnLedger.Event p → Event

  unfoldable pub on_timer : StopAnswers → GracefulShutdown.Answers → Client → Outcome
  unfolding begun callback_graceful_shutdown
  on_timer a g c =
      if c.signals.should_shutdown
      then begun g GracefulShutdown.Event.timer (callback_graceful_shutdown a c)
      else begun g GracefulShutdown.Event.timer (some (true, c))

  unfoldable pub handle :
      Conn.Answers → StopAnswers → GracefulShutdown.Answers → Event → Client → Outcome
  unfolding begun on_timer after_conn
  handle k a g sigterm c = begun g GracefulShutdown.Event.sigterm (some (true, c))
  handle k a g timer c = on_timer a g c
  handle k a g (conn_event e) c = elim c.conn [
    | none ↦ undefined
    | some conn ↦ after_conn a g c (ConnLedger.handle p k e conn c.holds.of_conns)
  ]
