-- ===== src/Conn/Phases.antt =====
-- lib/proto/proto_conn.c: a connection as the machine of its phases.
use spiped.Base.{
  ◌≡◌, ℕ, ◌<◌, Bool, not, ◌&&◌, ◌||◌, Option, none, some, is_zero, is_minus_one, if◌then◌else◌,
  arith,
}
use spiped.Primitives.{Primitives}
use spiped.Conn.{World, Answers, ConnState, Outcome, lives, dropped, aborted}
use spiped.Conn.Ledger.{
  IsConn, Event, connect_done, connect_timeout, handshake_done, handshake_timeout, pipe_f_status,
  pipe_r_status, drop, Enabled, handle,
}

-- The connect is pending, with the handshake not begun, pending or done; or it is done, with the
-- handshake pending or done.
pub data Phase : Type 0 where
  connecting connecting_shaking connecting_keyed connected_shaking piping : Phase

-- What happens to a connection.
pub data Signal : Type 0 where
  connects agrees goes_on ends : Signal

-- The machine; `ok` says whether what a move starts can be started. `none` is the end.
unfoldable pub move : Bool → Signal → Phase → Option Phase
move ok connects connecting = if ok then some connected_shaking else none
move ok connects connecting_shaking = some connected_shaking
move ok connects connecting_keyed = if ok then some piping else none
move ok agrees connecting_shaking = some connecting_keyed
move ok agrees connected_shaking = if ok then some piping else none
move ok goes_on piping = some piping
move ok s x = none

-- How many moves are left until the pipes run.
abbrev pub moves_left : Phase → ℕ
moves_left connecting = 2
moves_left connecting_shaking = 2
moves_left connecting_keyed = 1
moves_left connected_shaking = 1
moves_left piping = 0

abbrev pub Nearer : Phase → Option Phase → Type 0
Nearer piping (some y) = y ≡ piping
Nearer x (some y) = moves_left y < moves_left x
Nearer x none = Unit

move-Nearer : (ok : Bool) (s : Signal) (x : Phase) → Nearer x (move ok s x)
unfolding move
move-Nearer ok connects connecting = ground arith
move-Nearer ok connects connecting_shaking = ground arith
move-Nearer ok connects connecting_keyed = ground arith
move-Nearer ok s x = ground arith

module _ (p : Primitives) where
  abbrev pub phase : ConnState p → Phase
  phase c =
      if c.connecting
      then (if not c.decr
          then connecting
          else if c.handshaking
          then connecting_shaking
          else connecting_keyed)
      else if c.handshaking
      then connected_shaking
      else piping

  abbrev pub signal : Event p → ConnState p → Signal
  signal (connect_done t) c = if is_minus_one t then ends else connects
  signal (handshake_done (some keys)) c = agrees
  signal (pipe_f_status n) c =
      if is_minus_one n || is_minus_one c.stat_r || is_zero n && is_zero c.stat_r
      then ends
      else goes_on
  signal (pipe_r_status n) c =
      if is_minus_one c.stat_f || is_minus_one n || is_zero c.stat_f && is_zero n
      then ends
      else goes_on
  signal e c = ends

  -- Whether what the connection starts next can be started: the handshake, or the pipes.
  abbrev pub starts : Answers → ConnState p → Bool
  starts a c =
      if c.connecting && not c.decr
      then a.handshake_timer_ok && a.handshake_ok
      else a.pipe_f_ok && a.pipe_r_ok

  abbrev pub phase_after : Outcome p → Option Phase
  phase_after (lives c w) = some (phase c)
  phase_after (dropped reason rc w) = none
  phase_after aborted = none

  handle-move :
      (a : Answers) (e : Event p) (c : ConnState p) (w : World)
      → IsConn p c
      → Enabled p e c
      → phase_after (handle p a e c w) ≡ move (starts a c) (signal e c) (phase c)
  unfolding handle move
  handle-move a (connect_done t) c w i on = ground arith
  handle-move a connect_timeout c w i on = ground arith
  handle-move a (handshake_done none) c w i on = ground arith
  handle-move a (handshake_done (some (f, r))) c w i on = ground arith
  handle-move a handshake_timeout c w i on = ground arith
  handle-move a (pipe_f_status n) c w i on = ground arith
  handle-move a (pipe_r_status n) c w i on = ground arith
  handle-move a drop c w i on = ground arith

  -- On every event that can happen to a connection that keeps its invariant, whatever its calls
  -- report, its phase moves as the machine does by the event's signal, and it is dropped exactly when
  -- the machine ends; what is left of the way to the pipes gets shorter with each move, of which
  -- there are two at most, and the pipes then run until the end.
  pub conn_refines :
      (a : Answers) (e : Event p) (c : ConnState p) (w : World)
      → IsConn p c
      → Enabled p e c
      → (phase_after (handle p a e c w) ≡ move (starts a c) (signal e c) (phase c))
        × Nearer (phase c) (phase_after (handle p a e c w))
  conn_refines a e c w i on =
      let moves = handle-move a e c w i on in
      (moves, rw moves (move-Nearer (starts a c) (signal e c) (phase c)))
