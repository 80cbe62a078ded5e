-- ===== src/Sample/Sessions.antt =====
-- Each theorem applied at concrete inputs: two connections that talk to each other.
use spiped.Base.{◌≡◌, refl, Bool, true, false, none, some, [], ◌∷◌, pos, minus_one, arith}
use spiped.Primitives.{Bytes}
use spiped.Sample.{toy, toy-IsDocumented}
use spiped.Pipe.Callbacks.Link.{Link, Reach, here, next, arrive}
use spiped.Pipe.Callbacks.Link.Delivery.{link_of}
use spiped.Handshake.Steps.{Session}
use spiped.Handshake.Agreement.{handshake_agrees}
use spiped.Conn.{World, Answers, ConnState, lives}
use spiped.Conn.Callbacks.{callback_connect_done, callback_handshake_done}
use spiped.Conn.Session.{pipes_of, new_pipe, at_handshake, at_connect, Delivers, session-Delivers}

-- The client does without forward secrecy.
session :
    Session toy
      (record { k = 1 ∷ 2 ∷ [] })
      (3 ∷ [])
      (4 ∷ [])
      true
      false
      true
      false
      false
      false
      (5 ∷ [])
      (6 ∷ [])
session =
    handshake_agrees toy toy-IsDocumented (record { k = 1 ∷ 2 ∷ [] }) (3 ∷ []) (4 ∷ []) true false
      true false false false (5 ∷ []) (6 ∷ []) (λ e. absurd (ground arith))
      (λ e. absurd (ground arith))

-- No call fails.
abbrev none_fails : Answers
none_fails = record {
  alloc_ok = true;
  connect_timer_ok = true;
  connect_ok = true;
  handshake_timer_ok = true;
  handshake_ok = true;
  pipe_f_ok = true;
  pipe_r_ok = true;
}

abbrev world : World
world = record {
  fds = 9;
  timers = 2;
  connects = 0;
  addr_lists = 0;
  handshakes = 0;
  keys = 2;
  pipes = 0;
  conns = 1;
}

-- A connection to its target that has its handshake before it.
abbrev connected : Bool → ConnState toy
connected decr = record {
  decr = decr;
  s = pos 5;
  t = pos 6;
  sas = false;
  connecting = false;
  connect_timeout = false;
  handshaking = true;
  handshake_timeout = true;
  k_f = none;
  k_r = none;
  pipe_f = false;
  pipe_r = false;
  stat_f = pos 1;
  stat_r = pos 1;
}

abbrev running : Bool → ConnState toy
running decr = record (connected decr) {
  handshaking = false;
  handshake_timeout = false;
  k_f = some (session.keys_c);
  k_r = some (session.keys_s);
  pipe_f = true;
  pipe_r = true;
}

finishes :
    (decr : Bool)
    → callback_handshake_done toy none_fails
        (some (session.keys_c))
        (some (session.keys_s))
        (connected decr)
        world
      ≡ lives (running decr) (record world { timers = 1; pipes = 2 })
unfolding callback_handshake_done
finishes decr = refl

-- The decrypting connection still connects when its handshake is done, and launches no pipes.
abbrev still_connecting : ConnState toy
still_connecting = record (connected true) {
  t = minus_one;
  sas = true;
  connecting = true;
  connect_timeout = true;
}

abbrev keyed : ConnState toy
keyed = record still_connecting {
  handshaking = false;
  handshake_timeout = false;
  k_f = some (session.keys_c);
  k_r = some (session.keys_s);
}

no_pipes_yet :
    (callback_handshake_done toy none_fails
        (some (session.keys_c))
        (some (session.keys_s))
        still_connecting
        world
      ≡ lives keyed (record world { timers = 1 }))
    × (pipes_of toy keyed ≡ (none, none))
unfolding callback_handshake_done pipes_of
no_pipes_yet = (refl, refl)

connects_later :
    callback_connect_done toy none_fails (pos 6) keyed (record world { timers = 1; addr_lists = 1 })
    ≡ lives (running true) (record world { timers = 0; pipes = 2 })
unfolding callback_connect_done
connects_later = refl

abbrev there : Link toy
there = link_of toy (new_pipe toy false (session.keys_c)) (new_pipe toy true (session.keys_c))

abbrev back : Link toy
back = link_of toy (new_pipe toy false (session.keys_s)) (new_pipe toy true (session.keys_s))

given :
    (bs : Bytes)
    → Reach toy there
        (record there { sender = record (there.sender) { buffered = bs }; input = bs })
given bs = next here (arrive bs)

session-Delivers_example :
    (pipes_of toy (running false)
      ≡ (some (new_pipe toy false (session.keys_c)), some (new_pipe toy true (session.keys_s))))
    × (pipes_of toy (running true)
        ≡ (some (new_pipe toy true (session.keys_c)), some (new_pipe toy false (session.keys_s))))
    × Delivers toy
        (record there { sender = record (there.sender) { buffered = 1 ∷ [] }; input = 1 ∷ [] })
    × Delivers toy back
session-Delivers_example =
    session-Delivers toy toy-IsDocumented session refl refl
      (at_handshake refl none_fails world (finishes false))
      (at_connect refl refl none_fails world (no_pipes_yet.0) none_fails (pos 6)
        (record world { timers = 1; addr_lists = 1 }) connects_later)
      (given (1 ∷ [])) here
