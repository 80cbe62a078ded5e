-- ===== src/Conn.antt =====
-- lib/proto/proto_conn.c: a connection, from its creation to its end.
--
-- The state is `struct conn_state`. Beside it stands what the process holds at large: `World`
-- counts the open descriptors, timers, connects, address lists, handshakes, key structures, pipes
-- and connection cookies, and each call that makes or releases one changes its count. What the
-- calls report is an argument. `setsockopt` is not modelled: its results are ignored.
pub mod Callbacks
pub mod Ledger
pub mod Reasons
pub mod Session
pub mod Phases
use spiped.Base.{
  ℕ, ◌+◌, ◌-◌, Bool, true, false, not, ◌&&◌, ◌||◌, Option, none, some, if◌then◌else◌, ℤ, pos,
  minus_one, is_zero, is_minus_one,
}
use spiped.Primitives.{Primitives}
use spiped.Crypt.Keys.{ProtoKeys}

pub record World : Type 0 where
  pub fds : ℕ
  pub timers : ℕ
  pub connects : ℕ
  pub addr_lists : ℕ
  pub handshakes : ℕ
  pub keys : ℕ
  pub pipes : ℕ
  pub conns : ℕ

-- Why a connection was dropped.
pub data Reason : Type 0 where
  conn_closed conn_cancelled conn_connect_failed conn_handshake_failed conn_error : Reason

-- What the calls of one function report: `malloc`, `events_timer_register_double` for either
-- timer, `network_connect_bind`, `proto_handshake`, and `proto_pipe` for either direction.
pub record Answers : Type 0 where
  pub alloc_ok : Bool
  pub connect_timer_ok : Bool
  pub connect_ok : Bool
  pub handshake_timer_ok : Bool
  pub handshake_ok : Bool
  pub pipe_f_ok : Bool
  pub pipe_r_ok : Bool

-- What a callback returns: 0, what the upstream callback returned, or -1.
pub data Status : Type 0 where
  ok upstream failure : Status

-- How many objects stand behind a pointer.
abbrev pub held : Bool → ℕ
held true = 1
held false = 0

abbrev pub is_some {ℓ} : {A : Type ℓ} → Option A → Bool
is_some none = false
is_some (some a) = true

module _ (p : Primitives) where
  pub record ConnState : Type 0 where
    pub decr : Bool
    pub s : ℤ
    pub t : ℤ
    -- Whether `sas`, and each of the cookies, is not NULL.
    pub sas : Bool
    pub connecting : Bool
    pub connect_timeout : Bool
    pub handshaking : Bool
    pub handshake_timeout : Bool
    pub k_f : Option (ProtoKeys p)
    pub k_r : Option (ProtoKeys p)
    pub pipe_f : Bool
    pub pipe_r : Bool
    pub stat_f : ℤ
    pub stat_r : ℤ

  -- What a call leaves behind: the connection; that it was dropped, why, and the world; or a failed
  -- assertion.
  pub data Outcome : Type 0 where
    lives : ConnState → World → Outcome
    dropped : Reason → Status → World → Outcome
    aborted : Outcome

  -- A call inside a callback: whether it succeeded, and the connection either way.
  abbrev pub Attempt : Type 0
  Attempt = Bool × ConnState × World

  unfoldable pub starthandshake : Answers → ConnState → World → Attempt
  starthandshake a c w =
      let timed : World = record w { timers = w.timers + 1 } in
      let untimed : World = record w { timers = w.timers + 1 - 1 } in
      if a.handshake_timer_ok
      then (if a.handshake_ok
          then (
            true,
            record c { handshake_timeout = true; handshaking = true },
            record timed { handshakes = w.handshakes + 1 },
          )
          else (false, record c { handshake_timeout = false; handshaking = false }, untimed))
      else (false, record c { handshake_timeout = false }, w)

  unfoldable pub launchpipes : Answers → ConnState → World → Attempt
  launchpipes a c w =
      if a.pipe_f_ok
      then (if a.pipe_r_ok
          then (
            true,
            record c { pipe_f = true; pipe_r = true },
            record w { pipes = w.pipes + 1 + 1 },
          )
          else (
            false,
            record c { pipe_f = true; pipe_r = false },
            record w { pipes = w.pipes + 1 },
          ))
      else (false, record c { pipe_f = false }, w)

  unfoldable pub proto_conn_drop : Reason → Status → ConnState → World → Outcome
  proto_conn_drop reason rc c w = dropped reason rc (record {
    fds = w.fds - 1 - held (not (is_minus_one c.t));
    connects = w.connects - held c.connecting;
    addr_lists = w.addr_lists - held c.sas;
    handshakes = w.handshakes - held c.handshaking;
    timers = w.timers - held c.connect_timeout - held c.handshake_timeout;
    keys = w.keys - held (is_some c.k_f) - held (is_some c.k_r);
    pipes = w.pipes - held c.pipe_f - held c.pipe_r;
    conns = w.conns - 1;
  })

  -- A new connection, or `none`: then `s` and the address list are still the caller's.
  unfoldable pub create_end : Answers → World → Attempt → Option ConnState × World
  create_end a w (true, c, w') = (some c, w')
  create_end a w (false, c, w') =
      (none, record w' { connects = w'.connects - 1; timers = w'.timers - 1; conns = w'.conns - 1 })

  unfoldable pub proto_conn_create : Answers → Bool → ℤ → World → Option ConnState × World
  unfolding starthandshake create_end
  proto_conn_create a decr s w =
      let c : ConnState = record {
        decr = decr;
        s = s;
        t = minus_one;
        sas = true;
        connecting = true;
        connect_timeout = true;
        handshaking = false;
        handshake_timeout = false;
        k_f = none;
        k_r = none;
        pipe_f = false;
        pipe_r = false;
        stat_f = pos 1;
        stat_r = pos 1;
      } in
      let baked : World = record w { conns = w.conns + 1 } in
      let timed : World = record baked { timers = w.timers + 1 } in
      let begun : World = record timed { connects = w.connects + 1 } in
      if not a.alloc_ok
      then (none, w)
      else if not a.connect_timer_ok
      then (none, record baked { conns = w.conns + 1 - 1 })
      else if not a.connect_ok
      then (none, record timed { timers = w.timers + 1 - 1; conns = w.conns + 1 - 1 })
      else if decr
      then create_end a w (starthandshake a c begun)
      else (some c, begun)
