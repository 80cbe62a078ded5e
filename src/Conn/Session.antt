-- ===== src/Conn/Session.antt =====
-- lib/proto/proto_conn.c with proto_handshake.c and proto_pipe.c: two connections that have made
-- their handshake with each other, and the pipes between them.
use spiped.Base.{
  ◌≡◌, ◌∙◌, refl, Bool, true, false, not, Option, none, some, [], ◌++◌, ℤ, pos, is_minus_one, arith,
}
use spiped.Primitives.{Bytes, Primitives, IsDocumented}
use spiped.Crypt.{ProtoSecret}
use spiped.Crypt.Keys.{ProtoKeys}
use spiped.Pipe.Loop.{minread_of, full_buflen_of}
use spiped.Pipe.Callbacks.{PipeCookie, proto_pipe}
use spiped.Pipe.Callbacks.Link.{Link, Reach}
use spiped.Pipe.Callbacks.Link.Delivery.{link_of, delivers_prefix}
use spiped.Handshake.Steps.{Session}
use spiped.Conn.{World, Answers, ConnState, lives}
use spiped.Conn.Callbacks.{callback_connect_done, callback_handshake_done}

module _ (p : Primitives) where
  -- The two calls of `proto_pipe`, when they succeed: the forward pipe, from `s` to `t`, decrypts
  -- if the connection does, and the reverse pipe does the opposite.
  make_pipes :
      Bool
      → Option (ProtoKeys p)
      → Option (ProtoKeys p)
      → Option (PipeCookie p) × Option (PipeCookie p)
  make_pipes decr (some f) (some r) =
      (proto_pipe p true true true decr f (pos 1), proto_pipe p true true true (not decr) r (pos 1))
  make_pipes decr k_f k_r = (none, none)

  -- A pipe that has been launched.
  launched : Bool → Option (PipeCookie p) → Option (PipeCookie p)
  launched true pipe = pipe
  launched false pipe = none

  unfoldable pub pipes_of : ConnState p → Option (PipeCookie p) × Option (PipeCookie p)
  unfolding make_pipes launched
  pipes_of c =
      let (f, r) = make_pipes c.decr c.k_f c.k_r in (launched c.pipe_f f, launched c.pipe_r r)

  -- A pipe that has just been made.
  abbrev pub new_pipe : Bool → ProtoKeys p → PipeCookie p
  new_pipe decr k = record {
    decr = decr;
    k = k;
    outbuf = [];
    buffered = [];
    waiting = true;
    writing = false;
    wlen = 0;
    minread = minread_of decr;
    full_buflen = full_buflen_of decr;
    status = pos 1;
  }

  -- How a connection that gets the keys `f` and `r` comes to its pipes, with every call that it
  -- makes successful, since it lives on: its target has been reached, or it decrypts and its target
  -- is reached later.
  pub data Launches (f r : ProtoKeys p) (c : ConnState p) : ConnState p → Type 0 where
    at_handshake :
        {c' : ConnState p} {w' : World}
        → is_minus_one c.t ≡ false
        → (a : Answers) (w : World)
        → callback_handshake_done p a (some f) (some r) c w ≡ lives c' w'
        → Launches f r c c'
    at_connect :
        {c' c'' : ConnState p} {w' w'' : World}
        → is_minus_one c.t ≡ true
        → c.decr ≡ true
        → (a : Answers) (w : World)
        → callback_handshake_done p a (some f) (some r) c w ≡ lives c' w'
        → (a' : Answers) (t : ℤ) (v : World) → callback_connect_done p a' t c' v ≡ lives c'' w''
        → Launches f r c c''

  -- Neither pipe has failed, and what was delivered is a first part of what was given.
  abbrev pub Delivers : Link p → Type 0
  Delivers l =
      (l.sender.status ≡ pos 1)
      × (l.receiver.status ≡ pos 1)
      × ((rest : Bytes) × (l.input ≡ l.output ++ rest))

  keyed :
      (a : Answers) (f r : ProtoKeys p) (c : ConnState p) (w : World) {c' : ConnState p}
      {w' : World}
      → callback_handshake_done p a (some f) (some r) c w ≡ lives c' w'
      → (c'.decr ≡ c.decr) × (c'.k_f ≡ some f) × (c'.k_r ≡ some r)
  unfolding callback_handshake_done
  keyed a f r c w e = ground arith

  launches_now :
      (a : Answers) (f r : ProtoKeys p) (c : ConnState p) (w : World) {c' : ConnState p}
      {w' : World}
      → is_minus_one c.t ≡ false
      → callback_handshake_done p a (some f) (some r) c w ≡ lives c' w'
      → (c'.pipe_f ≡ true) × (c'.pipe_r ≡ true)
  unfolding callback_handshake_done
  launches_now a f r c w there e = ground arith

  launches_later :
      (a : Answers) (t : ℤ) (f r : ProtoKeys p) (c : ConnState p) (w : World) {c' : ConnState p}
      {w' : World}
      → c.k_f ≡ some f
      → c.k_r ≡ some r
      → callback_connect_done p a t c w ≡ lives c' w'
      → (c'.decr ≡ c.decr)
        × (c'.k_f ≡ some f)
        × (c'.k_r ≡ some r)
        × (c'.pipe_f ≡ true)
        × (c'.pipe_r ≡ true)
  unfolding callback_connect_done
  launches_later a t f r c w k l e = ground arith

  pipes_of-launched :
      (c : ConnState p) (decr : Bool) (f r : ProtoKeys p)
      → c.decr ≡ decr
      → c.k_f ≡ some f
      → c.k_r ≡ some r
      → c.pipe_f ≡ true
      → c.pipe_r ≡ true
      → pipes_of c ≡ (some (new_pipe decr f), some (new_pipe (not decr) r))
  unfolding pipes_of proto_pipe
  pipes_of-launched c decr f r e k l m n = ground arith

  -- A connection that comes to its pipes has both.
  pipes_of-Launches :
      (decr : Bool) {f r : ProtoKeys p} {c c' : ConnState p}
      → c.decr ≡ decr
      → Launches f r c c'
      → pipes_of c' ≡ (some (new_pipe decr f), some (new_pipe (not decr) r))
  pipes_of-Launches decr {f} {r} {c} {c'} e (at_handshake there a w done) =
      let k = keyed a f r c w done in
      let launched = launches_now a f r c w there done in
      pipes_of-launched c' decr f r (k.0 ∙ e) k.1 k.2 launched.0 launched.1
  pipes_of-Launches decr {f} {r} {c} e (at_connect {c'} {c''} pending dec a w done a' t v opened) =
      let k = keyed a f r c w done in
      let l = launches_later a' t f r c' v k.1 k.2 opened in
      pipes_of-launched c'' decr f r (l.0 ∙ (k.0 ∙ e)) l.1 l.2 l.3 l.4

module _ (p : Primitives) (d : IsDocumented p) {s : ProtoSecret} {nonce_c nonce_s : Bytes}
    {order_c order_s nopfs_c nopfs_s requirepfs_c requirepfs_s : Bool} {priv_c priv_s : Bytes}
    (session : Session p s nonce_c nonce_s order_c order_s nopfs_c nopfs_s requirepfs_c requirepfs_s
      priv_c priv_s) where
  -- An encrypting and a decrypting connection whose handshakes have finished with each other, by
  -- the callbacks of a session, and that live on until each has also reached its target, have four
  -- pipes, each made with the keys and the direction that the peer's has to have. In both
  -- directions, in every state that the pipes of the two ends reach over their wire while their
  -- calls succeed, neither has failed, and what was delivered at the one end is a first part of what
  -- was given at the other.
  pub session-Delivers :
      {c0 s0 c_end s_end : ConnState p} {l m : Link p}
      → c0.decr ≡ false
      → s0.decr ≡ true
      → Launches p session.keys_c session.keys_s c0 c_end
      → Launches p session.keys_c session.keys_s s0 s_end
      → Reach p (link_of p (new_pipe p false session.keys_c) (new_pipe p true session.keys_c)) l
      → Reach p (link_of p (new_pipe p false session.keys_s) (new_pipe p true session.keys_s)) m
      → (pipes_of p c_end
          ≡ (some (new_pipe p false session.keys_c), some (new_pipe p true session.keys_s)))
        × (pipes_of p s_end
            ≡ (some (new_pipe p true session.keys_c), some (new_pipe p false session.keys_s)))
        × Delivers p l
        × Delivers p m
  unfolding proto_pipe
  session-Delivers enc dec made_c made_s there back = (
    pipes_of-Launches p false enc made_c,
    pipes_of-Launches p true dec made_s,
    delivers_prefix p d session.keys_c refl refl there,
    delivers_prefix p d session.keys_s refl refl back,
  )
