-- ===== src/Conn/Ledger.antt =====
-- lib/proto/proto_conn.c: what a connection holds, event by event.
use spiped.Base.{
  ◌+◌, ◌-◌, ◌≡◌, Bool, true, false, not, ◌&&◌, ◌||◌, Option, none, some, ℤ, pos, is_minus_one,
  arith,
}
use spiped.Primitives.{Primitives}
use spiped.Crypt.Keys.{ProtoKeys}
use spiped.Conn.{
  World, conn_cancelled, Answers, upstream, held, is_some, ConnState, Outcome, lives, dropped,
  aborted, create_end, starthandshake, proto_conn_create, proto_conn_drop,
}
use spiped.Conn.Callbacks.{
  callback_connect_done, callback_connect_timeout, callback_handshake_done,
  callback_handshake_timeout, callback_pipestatus,
}

module _ (p : Primitives) where
  -- Between two callbacks: the connect, its timer and the addresses go together, and end when `t`
  -- is set; the handshake and its timer go together, and come before the keys; the decrypting end
  -- starts the handshake at once, the other when it is connected; and the pipes run exactly when
  -- both the connection and the keys are there.
  pub record IsConn (c : ConnState p) : Type 0 where
    pub connect_timed : c.connect_timeout ≡ c.connecting
    pub connect_addressed : c.sas ≡ c.connecting
    pub connect_pending : is_minus_one c.t ≡ c.connecting
    pub handshake_timed : c.handshake_timeout ≡ c.handshaking
    pub keyed : is_some c.k_f ≡ is_some c.k_r
    pub handshake_pending : c.handshaking && is_some c.k_f ≡ false
    pub handshake_begun : c.handshaking || is_some c.k_f ≡ c.decr || not c.connecting
    pub pipes_run : c.pipe_f ≡ not c.connecting && is_some c.k_f
    pub pipes_both : c.pipe_r ≡ c.pipe_f
    pub statuses : c.pipe_f ≡ false → (c.stat_f ≡ pos 1) × (c.stat_r ≡ pos 1)

  -- The world is `base` and what the connection holds: its descriptors, its address list, and the
  -- rest.
  pub record IsBalanced (base : World) (c : ConnState p) (w : World) : Type 0 where
    pub fds : w.fds ≡ base.fds + 1 + held (not (is_minus_one c.t))
    pub timers : w.timers ≡ base.timers + held c.connect_timeout + held c.handshake_timeout
    pub connects : w.connects ≡ base.connects + held c.connecting
    pub addr_lists : w.addr_lists ≡ base.addr_lists + held c.sas
    pub handshakes : w.handshakes ≡ base.handshakes + held c.handshaking
    pub keys : w.keys ≡ base.keys + held (is_some c.k_f) + held (is_some c.k_r)
    pub pipes : w.pipes ≡ base.pipes + held c.pipe_f + held c.pipe_r
    pub conns : w.conns ≡ base.conns + 1

  -- What the event loop reports to a connection, or its owner asks of it.
  pub data Event : Type 0 where
    connect_done : ℤ → Event
    connect_timeout : Event
    handshake_done : Option (ProtoKeys p × ProtoKeys p) → Event
    handshake_timeout : Event
    pipe_f_status : ℤ → Event
    pipe_r_status : ℤ → Event
    drop : Event

  -- An event happens when what it reports on is pending.
  abbrev pub Enabled : Event → ConnState p → Type 0
  Enabled (connect_done t) c = c.connecting ≡ true
  Enabled connect_timeout c = c.connect_timeout ≡ true
  Enabled (handshake_done keys) c = c.handshaking ≡ true
  Enabled handshake_timeout c = c.handshake_timeout ≡ true
  Enabled (pipe_f_status n) c = c.pipe_f ≡ true
  Enabled (pipe_r_status n) c = c.pipe_r ≡ true
  Enabled drop c = Unit

  -- The library ends what it reports on: a connect that is done is pending no more, and may have
  -- opened a descriptor; a timer that fires is gone; a handshake frees its cookie and may leave two
  -- key structures.
  unfoldable pub handle : Answers → Event → ConnState p → World → Outcome p
  unfolding callback_connect_done callback_connect_timeout callback_handshake_done
      callback_handshake_timeout callback_pipestatus proto_conn_drop
  handle a (connect_done t) c w =
      callback_connect_done p a t c
        (record w { connects = w.connects - 1; fds = w.fds + held (not (is_minus_one t)) })
  handle a connect_timeout c w = callback_connect_timeout p c (record w { timers = w.timers - 1 })
  handle a (handshake_done none) c w =
      callback_handshake_done p a none none c (record w { handshakes = w.handshakes - 1 })
  handle a (handshake_done (some (f, r))) c w =
      callback_handshake_done p a (some f) (some r) c
        (record w { handshakes = w.handshakes - 1; keys = w.keys + 2 })
  handle a handshake_timeout c w =
      callback_handshake_timeout p c (record w { timers = w.timers - 1 })
  handle a (pipe_f_status n) c w = callback_pipestatus p (record c { stat_f = n }) w
  handle a (pipe_r_status n) c w = callback_pipestatus p (record c { stat_r = n }) w
  handle a drop c w = proto_conn_drop p conn_cancelled upstream c w

  abbrev pub Keeps : World → Outcome p → Type 0
  Keeps base (lives c w) = IsConn c × IsBalanced base c w
  Keeps base (dropped reason rc w) = w ≡ base
  Keeps base aborted = ⊥

  abbrev pub is_created : Option (ConnState p) → Bool
  is_created none = false
  is_created (some c) = true

  -- What a creation leaves: nothing has changed, or there is a connection.
  abbrev pub Creates : World → World → Option (ConnState p) × World → Type 0
  Creates base w (none, w') = w' ≡ w
  Creates base w (some c, w') = IsConn c × IsBalanced base c w'

  -- A creation either makes a connection that holds what the invariant says, or changes nothing.
  pub proto_conn_create-Keeps :
      (a : Answers) (decr : Bool) (s : ℤ) (base w : World)
      → w ≡ record base { fds = base.fds + 1; addr_lists = base.addr_lists + 1 }
      → Creates base w (proto_conn_create p a decr s w)
  unfolding proto_conn_create create_end
  proto_conn_create-Keeps a true s base w e = ground arith
  proto_conn_create-Keeps a false s base w e = ground arith

  -- Whether all the calls succeed that a creation makes.
  abbrev pub creates : Answers → Bool → Bool
  creates a decr =
      a.alloc_ok
      && (a.connect_timer_ok
          && (a.connect_ok && (not decr || (a.handshake_timer_ok && a.handshake_ok))))

  pub is_created-create :
      (a : Answers) (decr : Bool) (s : ℤ) (w : World)
      → is_created (proto_conn_create p a decr s w).0 ≡ creates a decr
  unfolding proto_conn_create create_end starthandshake
  is_created-create a true s w = ground arith
  is_created-create a false s w = ground arith

  -- A connection is created exactly when each of the calls that are made succeeds: the allocation,
  -- the timer and the connect, and for a decrypting one the handshake's timer and the handshake. It
  -- then holds what the invariant says, with `s` and the address list taken over; otherwise the
  -- world is as it was, `s` and the list included.
  pub proto_conn_create_lem :
      (a : Answers) (decr : Bool) (s : ℤ) (base w : World)
      → w ≡ record base { fds = base.fds + 1; addr_lists = base.addr_lists + 1 }
      → (is_created (proto_conn_create p a decr s w).0 ≡ creates a decr)
        × Creates base w (proto_conn_create p a decr s w)
  proto_conn_create_lem a decr s base w e =
      (is_created-create a decr s w, proto_conn_create-Keeps a decr s base w e)

  -- Every event that can happen, whatever its calls report, leaves a connection that holds what the
  -- invariant says, or drops it with everything that it held released once; no assertion fails.
  pub handle-Keeps :
      (a : Answers) (e : Event) (base : World) (c : ConnState p) (w : World)
      → IsConn c
      → IsBalanced base c w
      → Enabled e c
      → Keeps base (handle a e c w)
  unfolding handle
  handle-Keeps a (connect_done t) base c w i b e = ground arith
  handle-Keeps a connect_timeout base c w i b e = ground arith
  handle-Keeps a (handshake_done none) base c w i b e = ground arith
  handle-Keeps a (handshake_done (some (f, r))) base c w i b e = ground arith
  handle-Keeps a handshake_timeout base c w i b e = ground arith
  handle-Keeps a (pipe_f_status n) base c w i b e = ground arith
  handle-Keeps a (pipe_r_status n) base c w i b e = ground arith
  handle-Keeps a drop base c w i b e = ground arith
