-- ===== src/Server/Keeps.antt =====
-- spiped/dispatch.c with lib/proto/proto_conn.c: what a server and its connections keep together.
use spiped.Base.{
  ℕ, ◌≡◌, ◌≢◌, refl, sym, ap, subst, ◌∙◌, Bool, true, not, ◌&&◌, none, some, List, ◌∷◌,
  is_minus_one, arith, if◌then◌else◌,
}
use spiped.Primitives.{Primitives}
use spiped.Conn.{ConnState, Status, ok, upstream, failure, is_some, proto_conn_create}
use spiped.Conn
use spiped.Conn.Ledger as ConnLedger
use spiped.Conn.Ledger.{IsConn, proto_conn_create-Keeps, handle-Keeps}
use spiped.Dispatch.{AcceptState, list_remove}
use spiped.Dispatch
use spiped.Dispatch.Ledger as DispatchLedger
use spiped.Dispatch.Ledger.{IsAccepting, IsReady, event-Keeps}
use spiped.Dispatch.Nodes.{has}
use spiped.Server.{Server, names, find, remove, Outcome, runs, aborted, returned, died, after_conn}
use spiped.Server.Total.{
  plus, total, held_by, AreConns, plus_assoc, unbalanced, total-replace, names-remove,
  names-replace, AreConns-remove, AreConns-replace,
}

-- Which connections a callback of the server leaves.
abbrev pub Cookies : List ℕ → Dispatch.Outcome → Type 0
Cookies js (Dispatch.Outcome.returns r c w) = c.conn_cookies ≡ js
Cookies js Dispatch.Outcome.aborted = Unit

abbrev pub cookies_after : Dispatch.Answers → DispatchLedger.Event → List ℕ → List ℕ
cookies_after b (DispatchLedger.Event.got_conn fd i) js =
    if not (is_minus_one fd) && (b.duplist_ok && (b.alloc_ok && b.create_ok)) then i ∷ js else js
cookies_after b (DispatchLedger.Event.conn_died i) js = list_remove i js
cookies_after b _ js = js

pub handle-Cookies :
    (b : Dispatch.Answers) (e : DispatchLedger.Event) (c : AcceptState) (w : Dispatch.World)
    → Cookies (cookies_after b e c.conn_cookies) (DispatchLedger.handle b e c w)
unfolding DispatchLedger.handle
handle-Cookies b (DispatchLedger.Event.got_conn fd i) c w = ground arith
handle-Cookies b (DispatchLedger.Event.conn_died i) c w = ground arith
handle-Cookies b (DispatchLedger.Event.resolved sas) c w = ground arith
handle-Cookies b DispatchLedger.Event.resolve_again c w = ground arith
handle-Cookies b DispatchLedger.Event.request_shutdown c w = ground arith

pub leaves :
    (b : Dispatch.Answers) (e : DispatchLedger.Event) (c : AcceptState) (w : Dispatch.World)
    {js : List ℕ}
    → cookies_after b e c.conn_cookies ≡ js
    → Cookies js (DispatchLedger.handle b e c w)
leaves b e c w same =
    subst (λ (js : List ℕ). Cookies js (DispatchLedger.handle b e c w)) same
      (handle-Cookies b e c w)

pub returned-true : (rc : Status) (r : Bool) → rc ≢ ok → returned rc r ≡ true → r ≡ true
returned-true upstream r other e = e
returned-true ok r other e = absurd (other refl)
returned-true failure r other e = absurd (ground arith)

module _ (p : Primitives) where
  -- A connection that is dropped does not return 0 of its own.
  abbrev pub NotOk : Conn.Outcome p → Type 0
  NotOk (Conn.Outcome.dropped reason ok w) = ⊥
  NotOk _ = Unit

  pub handle-NotOk :
      (a : Conn.Answers) (e : ConnLedger.Event p) (c : ConnState p) (w : Conn.World)
      → NotOk (ConnLedger.handle p a e c w)
  unfolding ConnLedger.handle
  handle-NotOk a (ConnLedger.Event.connect_done t) c w = ground arith
  handle-NotOk a ConnLedger.Event.connect_timeout c w = ground arith
  handle-NotOk a (ConnLedger.Event.handshake_done none) c w = ground arith
  handle-NotOk a (ConnLedger.Event.handshake_done (some (f, r))) c w = ground arith
  handle-NotOk a ConnLedger.Event.handshake_timeout c w = ground arith
  handle-NotOk a (ConnLedger.Event.pipe_f_status n) c w = ground arith
  handle-NotOk a (ConnLedger.Event.pipe_r_status n) c w = ground arith
  handle-NotOk a ConnLedger.Event.drop c w = ground arith

  -- The server keeps its invariant, its list names the connections, each of these keeps its own,
  -- and the process holds what they hold together, beside `base_d` and `base_c`.
  pub record Serves (base_d : Dispatch.World) (base_c : Conn.World) (s : Server p) : Type 0 where
    pub accepting : IsAccepting s.accept
    pub server_holds : DispatchLedger.IsBalanced base_d s.accept s.held_by_server
    pub named : names p s.conns ≡ s.accept.conn_cookies
    pub are_conns : AreConns p s.conns
    pub conns_hold : s.held_by_conns ≡ plus base_c (total p s.conns)

  abbrev pub Keeps : Dispatch.World → Conn.World → Outcome p → Type 0
  Keeps base_d base_c (runs r s) = Serves base_d base_c s × (r ≡ true → IsReady s.accept)
  Keeps base_d base_c aborted = ⊥

  pub died-Keeps :
      (rc : Status) (base_d : Dispatch.World) (base_c : Conn.World) (s : Server p)
      (o : Dispatch.Outcome)
      → rc ≢ ok
      → DispatchLedger.Keeps base_d o
      → Cookies (names p s.conns) o
      → AreConns p s.conns
      → s.held_by_conns ≡ plus base_c (total p s.conns)
      → Keeps base_d base_c (died p rc s o)
  unfolding died
  died-Keeps rc base_d base_c s (Dispatch.Outcome.returns r c w) other k e a h = (
    record { accepting = k.0; server_holds = k.1; named = sym e; are_conns = a; conns_hold = h },
    λ is_ok. k.2 (returned-true rc r other is_ok),
  )
  died-Keeps rc base_d base_c s Dispatch.Outcome.aborted other k e a h = absurd k

  pub settle-Keeps :
      (b : Dispatch.Answers) (i : ℕ) (base_d : Dispatch.World) (base_c : Conn.World) (s : Server p)
      (c : ConnState p) (o : Conn.Outcome p)
      → Serves base_d base_c s
      → IsReady s.accept
      → find p i s.conns ≡ some c
      → has i s.accept.conn_cookies ≡ true
      → NotOk o
      → ConnLedger.Keeps p (plus base_c (total p (remove p i s.conns))) o
      → Keeps base_d base_c (after_conn p b i s o)
  unfolding after_conn
  settle-Keeps b i base_d base_c s c (Conn.Outcome.lives c' w) v ready at_i known not_ok k = (
    record {
      accepting = v.accepting;
      server_holds = v.server_holds;
      named = names-replace p i c' s.conns ∙ v.named;
      are_conns = AreConns-replace p i c' s.conns k.0 v.are_conns;
      conns_hold =
          unbalanced p _ w c' k.1
          ∙ (plus_assoc base_c (total p (remove p i s.conns)) (held_by p c')
              ∙ ap (plus base_c) (sym (total-replace p i s.conns c c' at_i)));
    },
    λ _. ready,
  )
  settle-Keeps b i base_d base_c s c (Conn.Outcome.dropped reason rc w) v ready at_i known not_ok
        k =
      died-Keeps rc base_d base_c _ _ (other rc not_ok)
        (event-Keeps b base_d s.accept s.held_by_server v.accepting v.server_holds
          (DispatchLedger.Event.conn_died i) ready known)
        (leaves b (DispatchLedger.Event.conn_died i) s.accept s.held_by_server
          (ap (list_remove i) (sym v.named) ∙ sym (names-remove p i s.conns)))
        (AreConns-remove p i s.conns v.are_conns) k
    where
      other : (rc : Status) → NotOk (Conn.Outcome.dropped reason rc w) → rc ≢ ok
      other upstream n e = ground arith
      other ok n e = n
      other failure n e = ground arith
  settle-Keeps b i base_d base_c s c Conn.Outcome.aborted v ready at_i known not_ok k = absurd k
