-- ===== src/SimpleServer/Ledger.antt =====
-- tests/nc-server/simple_server.c: what the server counts and holds, as connections are lost.
use spiped.Base.{
  ℕ, ◌+◌, ◌-◌, ◌%◌, ◌^◌, ◌≤◌, ◌<◌, ◌≡◌, Bool, true, not, ◌&&◌, some, length, ltb, leb, ◌==◌,
  if◌then◌else◌, arith,
}
use spiped.SimpleServer.{
  World, AcceptState, Answers, Outcome, returns, aborted, held, doaccept, then_accept, conndied,
  ignoring, drop, lose, network_read_cookie,
}
use spiped.SimpleServer.Nodes.{
  AreDistinct, reading, length-list_remove, reading-list_remove, AreDistinct-list_remove,
  is_empty-cookie,
}

-- `nconn` is the number of connections, at most `nconn_max`, and below it while an accept is
-- pending.
pub record IsAccepting (c : AcceptState) : Type 0 where
  pub counted : c.nconn ≡ length c.conn_cookies
  pub at_most : c.nconn ≤ c.nconn_max
  pub is_size : c.nconn_max < 2 ^ 64
  pub has_room : c.accept_cookie ≡ true → c.nconn < c.nconn_max
  pub distinct : AreDistinct c.conn_cookies

-- The world is `base` and what the server holds.
pub record IsBalanced (base : World) (c : AcceptState) (w : World) : Type 0 where
  pub fds : w.fds ≡ base.fds + 1 + length c.conn_cookies
  pub addrs : w.addrs ≡ base.addrs
  pub accepts : w.accepts ≡ base.accepts + held c.accept_cookie
  pub reads : w.reads ≡ base.reads + reading c.conn_cookies
  pub nodes : w.nodes ≡ base.nodes + length c.conn_cookies
  pub states : w.states ≡ base.states + 1

-- With `d` connections dropped, a shutdown is requested when these are enough, if any number is;
-- `conndone` is set only after that, and when no connection is left then.
pub record Tallies (d : ℕ) (c : AcceptState) : Type 0 where
  pub is_size : c.shutdown_after < 2 ^ 64
  pub current : c.shutdown_current ≡ (if ltb 0 c.shutdown_after then d % 2 ^ 64 else 0)
  pub requested : c.shutdown_requested ≡ ltb 0 c.shutdown_after && leb c.shutdown_after d
  pub done_when : c.shutdown_requested && c.nconn == 0 ≡ true → c.conndone ≡ true
  pub done_only : c.conndone ≡ true → c.shutdown_requested ≡ true

-- An accept is pending whenever another connection may be had.
abbrev pub IsReady : AcceptState → Type 0
IsReady c = ltb c.nconn c.nconn_max && not c.shutdown_requested ≡ true → c.accept_cookie ≡ true

-- `ready` tells, from whether the callback returned 0, whether the server is certainly ready.
abbrev pub Keeps : World → (Bool → Bool) → Outcome → Type 0
Keeps base ready (returns ok c w) =
    IsAccepting c × IsBalanced base c w × (ready ok ≡ true → IsReady c)
Keeps base ready aborted = ⊥

abbrev pub KeepsTally : ℕ → Outcome → Type 0
KeepsTally d (returns ok c w) = Tallies d c
KeepsTally d aborted = Unit

pub then_accept-Keeps :
    (a : Answers) (base : World) (c : AcceptState) (w : World)
    → IsAccepting c
    → IsBalanced base c w
    → Keeps base (λ ok. a.accept_ok) (then_accept a c w)
unfolding then_accept doaccept
then_accept-Keeps a base c w i b = ground arith

ignoring-Keeps :
    (base : World) (x close_ok : Bool) (o : Outcome)
    → Keeps base (λ ok. x) o
    → Keeps base (λ ok. x) (ignoring close_ok o)
unfolding ignoring
ignoring-Keeps base x close_ok (returns ok c w) k = k
ignoring-Keeps base x close_ok aborted k = k

pub weaken :
    (base : World) (before after : Bool → Bool) (o : Outcome)
    → ((ok : Bool) → after ok ≡ true → before ok ≡ true)
    → Keeps base before o
    → Keeps base after o
weaken base before after (returns ok c w) h k = (k.0, k.1, λ r. k.2 (h ok r))
weaken base before after aborted h k = k

module _ (c : AcceptState) (k : ℕ) (r : Bool) (i : IsAccepting c)
    (e : network_read_cookie k c.conn_cookies ≡ some r) where
  lose-IsAccepting : IsAccepting (lose k c)
  unfolding lose
  lose-IsAccepting =
      let fewer = length-list_remove k c.conn_cookies r e in
      let distinct = AreDistinct-list_remove k c.conn_cookies i.distinct in ground arith

  lose-IsBalanced :
      (base w : World)
      → IsBalanced base c (record w { fds = w.fds + 1; reads = w.reads + held r })
      → IsBalanced base (lose k c) (record w { nodes = w.nodes - 1 })
  unfolding lose
  lose-IsBalanced base w b =
      let fewer = length-list_remove k c.conn_cookies r e in
      let reads = reading-list_remove k c.conn_cookies r e in ground arith

  pub conndied-Keeps :
      (a : Answers) (base w : World)
      → IsBalanced base c (record w { fds = w.fds + 1; reads = w.reads + held r })
      → Keeps base (λ ok. a.accept_ok) (conndied a k c w)
  unfolding conndied
  conndied-Keeps a base w b = rw (is_empty-cookie k c.conn_cookies r e) (
      then_accept-Keeps a base (lose k c) (record w { nodes = w.nodes - 1 }) lose-IsAccepting
        (lose-IsBalanced base w b))

  pub drop-Keeps :
      (a : Answers) (base w : World)
      → IsBalanced base c w
      → Keeps base (λ ok. a.accept_ok) (drop a k r c w)
  unfolding drop
  drop-Keeps a base w b = ignoring-Keeps base a.accept_ok a.close_ok _ (
      conndied-Keeps a base (record w { reads = w.reads - held r; fds = w.fds - 1 })
        (let reads = reading-list_remove k c.conn_cookies r e in ground arith))

pub lose-Tallies : (d k : ℕ) (c : AcceptState) → Tallies d c → Tallies (d + 1) (lose k c)
unfolding lose
lose-Tallies d k c t = ground arith
