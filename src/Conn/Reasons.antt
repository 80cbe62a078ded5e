-- ===== src/Conn/Reasons.antt =====
-- lib/proto/proto_conn.c: what a connection reports to its owner, event by event.
use spiped.Base.{
  ◌≡◌, ◌⊎◌, Bool, true, false, not, ◌&&◌, ◌||◌, none, some, ℤ, is_zero, is_minus_one, arith,
}
use spiped.Primitives.{Primitives}
use spiped.Conn.{
  World, conn_closed, conn_cancelled, conn_connect_failed, conn_handshake_failed, conn_error,
  Answers, upstream, failure, ConnState, Outcome, lives, dropped, is_some,
}
use spiped.Conn.Ledger.{
  Event, connect_done, connect_timeout, handshake_done, handshake_timeout, pipe_f_status,
  pipe_r_status, drop, handle,
}

module _ (p : Primitives) where
  -- The pipes' statuses once an event has reported one: 1 while a pipe is open, 0 at its end, and
  -- -1 when it failed.
  abbrev Both : (ℤ → Bool) → ℤ → ℤ → Type 0
  Both test f r = (test f ≡ true) × (test r ≡ true)

  abbrev Either : (ℤ → Bool) → ℤ → ℤ → Type 0
  Either test f r = (test f ≡ true) ⊎ (test r ≡ true)

  abbrev OfPipes : ℤ → ℤ → Outcome p → Type 0
  OfPipes f r (lives c w) = ¬ Either is_minus_one f r × ¬ Both is_zero f r
  OfPipes f r (dropped conn_error upstream w) = Either is_minus_one f r
  OfPipes f r (dropped conn_closed upstream w) = Both is_zero f r
  OfPipes f r _ = ⊥

  -- Whether the two calls of `launchpipes` succeed; and whether all do that a connect makes which
  -- succeeds: the handshake is started at the encrypting end, and the pipes when the keys are there.
  abbrev pub launches : Answers → Bool
  launches a = a.pipe_f_ok && a.pipe_r_ok

  abbrev pub goes_on : Answers → ConnState p → Bool
  goes_on a c =
      (c.decr || (a.handshake_timer_ok && a.handshake_ok))
      && (not (is_some c.k_f && is_some c.k_r) || launches a)

  -- A connect that yields no descriptor, and a handshake that yields no keys, have their own
  -- reasons; past them, only a failed call drops the connection. A timer always does.
  abbrev pub Reports : Answers → Event p → ConnState p → Outcome p → Type 0
  Reports a (connect_done t) c (lives c' w) =
      (is_minus_one t ≡ false) × (goes_on a c ≡ true) × (c'.t ≡ t)
  Reports a (connect_done t) c (dropped conn_connect_failed upstream w) = is_minus_one t ≡ true
  Reports a (connect_done t) c (dropped conn_error failure w) =
      (is_minus_one t ≡ false) × (goes_on a c ≡ false)
  Reports a (handshake_done keys) c (lives c' w) =
      (is_some keys ≡ true) × (is_minus_one c.t || launches a ≡ true) × (is_some c'.k_f ≡ true)
  Reports a (handshake_done keys) c (dropped conn_handshake_failed upstream w) =
      is_some keys ≡ false
  Reports a (handshake_done keys) c (dropped conn_error failure w) =
      (is_some keys ≡ true) × (is_minus_one c.t || launches a ≡ false)
  Reports a connect_timeout c (dropped conn_error upstream w) = Unit
  Reports a handshake_timeout c (dropped conn_error upstream w) = Unit
  Reports a (pipe_f_status n) c o = OfPipes n c.stat_r o
  Reports a (pipe_r_status n) c o = OfPipes c.stat_f n o
  Reports a drop c (dropped conn_cancelled upstream w) = Unit
  Reports a _ c o = ⊥

  -- What every event of a connection leads to, whatever its calls report: a connect or a handshake
  -- that fails, a timer that fires and the owner's drop each end it with their own reason and the
  -- owner's return value; a connect or handshake that succeeds keeps it exactly when the calls
  -- succeed that it makes, to start the handshake or the pipes, and ends it with an error and -1
  -- otherwise; and a pipe's status ends it with an error exactly when a direction failed, and as
  -- closed exactly when both directions are at their end.
  pub handle-Reports :
      (a : Answers) (e : Event p) (c : ConnState p) (w : World) → Reports a e c (handle p a e c w)
  unfolding handle
  handle-Reports a (connect_done t) c w = ground arith
  handle-Reports a connect_timeout c w = ground arith
  handle-Reports a (handshake_done none) c w = ground arith
  handle-Reports a (handshake_done (some (f, r))) c w = ground arith
  handle-Reports a handshake_timeout c w = ground arith
  handle-Reports a (pipe_f_status n) c w = ground arith
  handle-Reports a (pipe_r_status n) c w = ground arith
  handle-Reports a drop c w = ground arith
