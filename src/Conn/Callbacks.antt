-- ===== src/Conn/Callbacks.antt =====
-- lib/proto/proto_conn.c: the callbacks of a connection.
use spiped.Base.{◌-◌, true, false, not, ◌&&◌, ◌||◌, Option, if◌then◌else◌, ℤ, is_zero, is_minus_one}
use spiped.Primitives.{Primitives}
use spiped.Crypt.Keys.{ProtoKeys}
use spiped.Conn.{
  World, conn_closed, conn_connect_failed, conn_handshake_failed, conn_error, Answers, upstream,
  failure, held, is_some, ConnState, Outcome, lives, aborted, Attempt, starthandshake, launchpipes,
  proto_conn_drop,
}

module _ (p : Primitives) where
  -- `goto err1`, or go on.
  launched : Attempt p → Outcome p
  launched (true, c, w) = lives c w
  launched (false, c, w) = proto_conn_drop p conn_error failure c w

  -- Start shuttling data when both the connection and the handshake are there.
  maybe_launch : Answers → ConnState p → World → Outcome p
  unfolding launched
  maybe_launch a c w =
      if not (is_minus_one c.t) && (is_some c.k_f && is_some c.k_r)
      then launched (launchpipes p a c w)
      else lives c w

  then_launch : Answers → Attempt p → Outcome p
  unfolding maybe_launch
  then_launch a (true, c, w) = maybe_launch a c w
  then_launch a (false, c, w) = proto_conn_drop p conn_error failure c w

  unfoldable pub callback_connect_done : Answers → ℤ → ConnState p → World → Outcome p
  unfolding then_launch starthandshake launchpipes proto_conn_drop
  callback_connect_done a t c w =
      let c' : ConnState p = record c {
        connecting = false;
        sas = false;
        connect_timeout = false;
        t = t;
      } in
      let w' : World = record w { addr_lists = w.addr_lists - held c.sas; timers = w.timers - 1 } in
      if is_minus_one t
      then proto_conn_drop p conn_connect_failed upstream c' w'
      else then_launch a (if not c.decr then starthandshake p a c' w' else (true, c', w'))

  unfoldable pub callback_connect_timeout : ConnState p → World → Outcome p
  unfolding proto_conn_drop
  callback_connect_timeout c w =
      proto_conn_drop p conn_error upstream (record c { connect_timeout = false }) w

  unfoldable pub callback_handshake_done :
      Answers → Option (ProtoKeys p) → Option (ProtoKeys p) → ConnState p → World → Outcome p
  unfolding maybe_launch launchpipes proto_conn_drop
  callback_handshake_done a f r c w =
      let c' : ConnState p = record c { handshaking = false; handshake_timeout = false } in
      let w' : World = record w { timers = w.timers - 1 } in
      if not (is_some f) && not (is_some r)
      then proto_conn_drop p conn_handshake_failed upstream c' w'
      else if is_some f && is_some r
      then maybe_launch a (record c' { k_f = f; k_r = r }) w'
      else aborted

  unfoldable pub callback_handshake_timeout : ConnState p → World → Outcome p
  unfolding proto_conn_drop
  callback_handshake_timeout c w =
      proto_conn_drop p conn_error upstream (record c { handshake_timeout = false }) w

  unfoldable pub callback_pipestatus : ConnState p → World → Outcome p
  unfolding proto_conn_drop
  callback_pipestatus c w =
      if is_minus_one c.stat_f || is_minus_one c.stat_r
      then proto_conn_drop p conn_error upstream c w
      else if is_zero c.stat_f && is_zero c.stat_r
      then proto_conn_drop p conn_closed upstream c w
      else lives c w
