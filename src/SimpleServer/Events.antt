-- ===== src/SimpleServer/Events.antt =====
-- tests/nc-server/simple_server.c: what the server counts and holds, event by event.
use spiped.Base.{
  ℕ, ◌+◌, ◌-◌, ◌≡◌, Bool, true, false, not, ◌&&◌, some, ℤ, is_minus_one, if◌then◌else◌, arith,
  Bool-cases, inl, inr,
}
use spiped.SimpleServer.{
  World, AcceptState, Answers, Outcome, held, doaccept, then_accept, conndied, ignoring, drop,
  callback_gotconn, callback_read, lose, is_positive, network_read_cookie, set_cookie,
}
use spiped.SimpleServer.Nodes.{
  has, length-set_cookie, reading-set_cookie, cookie-set_cookie, AreDistinct-set_cookie,
}
use spiped.SimpleServer.Ledger.{
  IsAccepting, IsBalanced, Tallies, IsReady, Keeps, KeepsTally, weaken, drop-Keeps, lose-Tallies,
}

-- What the event loop reports: an accept, or a read of a connection.
pub data Event : Type 0 where
  got_conn : ℤ → ℕ → Event
  read : ℕ → ℤ → Event

-- An event happens when what it reports on is pending. A new connection has a name of its own.
abbrev pub Enabled : Event → AcceptState → Type 0
Enabled (got_conn s i) c = (c.accept_cookie ≡ true) × (has i c.conn_cookies ≡ false)
Enabled (read i len) c = network_read_cookie i c.conn_cookies ≡ some true

-- An accept that is done is pending no more and may have opened a descriptor, and a read that is
-- done is pending no more.
unfoldable pub handle : Answers → Event → AcceptState → World → Outcome
unfolding callback_gotconn callback_read
handle a (got_conn s i) c w =
    callback_gotconn a s i c
      (record w { accepts = w.accepts - 1; fds = w.fds + held (not (is_minus_one s)) })
handle a (read i len) c w = callback_read a i len c (record w { reads = w.reads - 1 })

set-IsAccepting :
    (c : AcceptState) (k : ℕ) (x : Bool)
    → IsAccepting c
    → IsAccepting (record c { conn_cookies = set_cookie k x c.conn_cookies })
set-IsAccepting c k x i =
    let same = length-set_cookie k x c.conn_cookies in
    let distinct = AreDistinct-set_cookie k x c.conn_cookies i.distinct in ground arith

module _ (a : Answers) (base : World) (c : AcceptState) (w : World) (i : IsAccepting c)
    (b : IsBalanced base c w) where
  gotconn-Keeps :
      (s : ℤ) (k : ℕ)
      → Enabled (got_conn s k) c
      → Keeps base (λ ok. ok && a.accept_ok) (handle a (got_conn s k) c w)
  unfolding handle
  gotconn-Keeps s k e = ground arith

  module _ (k : ℕ) (e : network_read_cookie k c.conn_cookies ≡ some true) where
    read-IsBalanced :
        IsBalanced base
          (record c { conn_cookies = set_cookie k false c.conn_cookies })
          (record w { reads = w.reads - 1 })
    read-IsBalanced =
        let same = length-set_cookie k false c.conn_cookies in
        let reads = reading-set_cookie k false c.conn_cookies true e in ground arith

    again-IsBalanced :
        IsBalanced base
          (record c { conn_cookies = set_cookie k true (set_cookie k false c.conn_cookies) })
          (record w { reads = w.reads - 1 + 1 })
    again-IsBalanced =
        let same = length-set_cookie k false c.conn_cookies in
        let again = length-set_cookie k true (set_cookie k false c.conn_cookies) in
        let reads = reading-set_cookie k false c.conn_cookies true e in
        let back =
          reading-set_cookie k true (set_cookie k false c.conn_cookies) false
            (cookie-set_cookie k false c.conn_cookies true e) in
        ground arith

    read-Keeps :
        (len : ℤ) (was : Bool)
        → (was ≡ true → IsReady c)
        → Keeps base (λ ok. ok && (a.accept_ok && was)) (handle a (read k len) c w)
    unfolding handle
    read-Keeps len was ready = elim (Bool-cases (is_positive len)) [
      | inl message ↦ rw message (elim (Bool-cases a.message_ok) [
        | inl taken ↦ rw taken (elim (Bool-cases a.read_ok) [
          | inl again ↦ rw again (
            set-IsAccepting (record c { conn_cookies = set_cookie k false c.conn_cookies }) k true
                (set-IsAccepting c k false i),
            again-IsBalanced,
            λ r room. ready (ground arith) room,
          )
          | inr fails ↦
              rw fails (set-IsAccepting c k false i, read-IsBalanced, λ r. absurd (ground arith))
        ])
        | inr refused ↦
            rw refused (set-IsAccepting c k false i, read-IsBalanced, λ r. absurd (ground arith))
      ])
      | inr ended ↦ rw ended (
          weaken base (λ ok. a.accept_ok) (λ ok. ok && (a.accept_ok && was)) _
            (λ ok r. ground arith)
            (drop-Keeps (record c { conn_cookies = set_cookie k false c.conn_cookies }) k false
              (set-IsAccepting c k false i) (cookie-set_cookie k false c.conn_cookies true e) a base
              (record w { reads = w.reads - 1 }) read-IsBalanced))
    ]

-- How many connections an event drops.
abbrev pub drops : Event → ℕ
drops (got_conn s i) = 0
drops (read i len) = if is_positive len then 0 else 1

drop-Tallies :
    (a : Answers) (d k : ℕ) (c : AcceptState) (w : World)
    → Tallies d (lose k c)
    → KeepsTally d (drop a k false c w)
unfolding drop conndied ignoring then_accept doaccept
drop-Tallies a d k c w t = ground arith

pub event-Tallies :
    (a : Answers) (e : Event) (d : ℕ) (c : AcceptState) (w : World)
    → IsAccepting c
    → Enabled e c
    → Tallies d c
    → KeepsTally (d + drops e) (handle a e c w)
unfolding handle then_accept doaccept
event-Tallies a (got_conn s i) d c w acc on t = ground arith
event-Tallies a (read i len) d c w acc on t =
    let lost =
      lose-Tallies d i (record c { conn_cookies = set_cookie i false c.conn_cookies })
        (record {
          is_size = t.is_size;
          current = t.current;
          requested = t.requested;
          done_when = t.done_when;
          done_only = t.done_only;
        }) in
    elim (Bool-cases (is_positive len)) [
      | inl message ↦ rw message (ground arith)
      | inr ended ↦ rw ended (
          drop-Tallies a (d + 1) i (record c { conn_cookies = set_cookie i false c.conn_cookies })
            (record w { reads = w.reads - 1 }) lost)
    ]

-- Whatever its calls report, no assertion fails.
pub event-Keeps :
    (a : Answers) (e : Event) (base : World) (c : AcceptState) (w : World) (was : Bool)
    → IsAccepting c
    → IsBalanced base c w
    → (was ≡ true → IsReady c)
    → Enabled e c
    → Keeps base (λ ok. ok && (a.accept_ok && was)) (handle a e c w)
event-Keeps a (got_conn s k) base c w was i b ready e =
    weaken base (λ ok. ok && a.accept_ok) (λ ok. ok && (a.accept_ok && was)) _
      (λ ok r. ground arith) (gotconn-Keeps a base c w i b s k e)
event-Keeps a (read k len) base c w was i b ready e = read-Keeps a base c w i b k e len was ready
