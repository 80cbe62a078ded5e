-- ===== src/Server/Serves.antt =====
-- spiped/dispatch.c with lib/proto/proto_conn.c: the server and its connections, event by event.
use spiped.Base.{
  ℕ, ◌≡◌, refl, sym, ap, ◌∙◌, Bool-cases, true, false, not, ◌&&◌, inl, inr, Option, none, some,
  List, [], ◌∷◌, ◌==◌, ℤ, is_minus_one, arith,
}
use spiped.Primitives.{Primitives}
use spiped.Conn.{ConnState, Status, ok, upstream, failure, is_some, proto_conn_create}
use spiped.Conn
use spiped.Conn.Ledger as ConnLedger
use spiped.Conn.Ledger.{IsConn, proto_conn_create-Keeps, handle-Keeps}
use spiped.Dispatch.{AcceptState, list_remove}
use spiped.Dispatch
use spiped.Dispatch.Ledger as DispatchLedger
use spiped.Dispatch.Ledger.{IsAccepting, IsReady, event-Keeps}
use spiped.Dispatch.Nodes.{has}
use spiped.Server.{
  Server, names, find, remove, died, on_conn, create, with_conn, on_accept, Event, accepts,
  resolved, resolve_again, request_shutdown, conn_event, handle,
}
use spiped.Server.Total.{
  plus, total, held_by, plus_assoc, balanced, unbalanced, total-remove, AreConns-find,
}
use spiped.Server.Keeps.{
  cookies_after, leaves, handle-NotOk, Serves, Keeps, died-Keeps, settle-Keeps,
}

module _ (p : Primitives) where
  has-names :
      (i : ℕ) (cs : List (ℕ × ConnState p)) (c : ConnState p)
      → find p i cs ≡ some c
      → has i (names p cs) ≡ true
  has-names i [] c e = absurd (ground arith)
  has-names i ((j, b) ∷ cs) c e = elim (Bool-cases (i == j)) [
    | inl same ↦ rw same refl
    | inr other ↦ rw other (has-names i cs c (ground arith))
  ]

  conn_event-Keeps :
      (a : Conn.Answers) (b : Dispatch.Answers) (i : ℕ) (e : ConnLedger.Event p)
      (base_d : Dispatch.World) (base_c : Conn.World) (s : Server p) (c : ConnState p)
      → Serves p base_d base_c s
      → IsReady s.accept
      → find p i s.conns ≡ some c
      → ConnLedger.Enabled p e c
      → Keeps p base_d base_c (on_conn p a b i e s (find p i s.conns))
  unfolding on_conn
  conn_event-Keeps a b i e base_d base_c s c v ready at_i enabled =
      let rest = plus base_c (total p (remove p i s.conns)) in
      let shares : s.held_by_conns ≡ plus rest (held_by p c) =
        v.conns_hold
        ∙ (ap (plus base_c) (total-remove p i s.conns c at_i)
            ∙ sym (plus_assoc base_c (total p (remove p i s.conns)) (held_by p c))) in
      rw at_i (
        settle-Keeps p b i base_d base_c s c _ v ready at_i
          (ap (has i) (sym v.named) ∙ has-names i s.conns c at_i)
          (handle-NotOk p a e c s.held_by_conns)
          (handle-Keeps p a e rest c s.held_by_conns (AreConns-find p i s.conns c v.are_conns at_i)
            (balanced p rest s.held_by_conns c shares) enabled))

  -- A connection is there only if `callback_gotconn` got so far.
  abbrev Fits :
      Conn.Answers → Dispatch.Answers → ℤ → Server p → Option (ConnState p) × Conn.World → Type 0
  Fits a b fd s (none, w) = Unit
  Fits a b fd s (some c, w) =
      (not (is_minus_one fd) && (b.duplist_ok && b.alloc_ok) ≡ true)
      × IsConn p c
      × ConnLedger.IsBalanced p s.held_by_conns c w

  made-Fits :
      (a : Conn.Answers) (b : Dispatch.Answers) (fd : ℤ) (s : Server p) (w : Conn.World)
      (made : Option (ConnState p) × Conn.World)
      → (not (is_minus_one fd) && (b.duplist_ok && b.alloc_ok)) ≡ true
      → ConnLedger.Creates p s.held_by_conns w made
      → Fits a b fd s made
  made-Fits a b fd s w (none, w') gate made = tt
  made-Fits a b fd s w (some c, w') gate made = (gate, made.0, made.1)

  create-Fits :
      (a : Conn.Answers) (b : Dispatch.Answers) (fd : ℤ) (s : Server p)
      → Fits a b fd s (create p a b fd s)
  unfolding create
  create-Fits a b fd s = elim (Bool-cases (not (is_minus_one fd) && (b.duplist_ok && b.alloc_ok))) [
    | inl yes_created ↦ rw yes_created (
        made-Fits a b fd s _ _ yes_created
          (proto_conn_create-Keeps p a s.decr fd s.held_by_conns _ refl))
    | inr not_created ↦ rw not_created tt
  ]

  accept-Keeps :
      (a : Conn.Answers) (b : Dispatch.Answers) (fd : ℤ) (i : ℕ) (base_d : Dispatch.World)
      (base_c : Conn.World) (s : Server p) (made : Option (ConnState p) × Conn.World)
      → Serves p base_d base_c s
      → IsReady s.accept
      → DispatchLedger.Enabled (DispatchLedger.Event.got_conn fd i) s.accept
      → Fits a b fd s made
      → Keeps p base_d base_c (
          died p upstream (with_conn p i s made) (
            DispatchLedger.handle
              (record b { create_ok = is_some made.0 })
              (DispatchLedger.Event.got_conn fd i)
              s.accept
              s.held_by_server))
  unfolding with_conn
  accept-Keeps a b fd i base_d base_c s (none, w) v ready e fits =
      died-Keeps p upstream base_d base_c s _ (λ u. ground arith)
        (event-Keeps _ base_d s.accept s.held_by_server v.accepting v.server_holds _ ready e)
        (leaves _ (DispatchLedger.Event.got_conn fd i) s.accept s.held_by_server (ground arith))
        v.are_conns v.conns_hold
  accept-Keeps a b fd i base_d base_c s (some c, w) v ready e fits =
      died-Keeps p upstream base_d base_c _ _ (λ u. ground arith)
        (event-Keeps _ base_d s.accept s.held_by_server v.accepting v.server_holds _ ready e)
        (leaves _ (DispatchLedger.Event.got_conn fd i) s.accept s.held_by_server (ground arith))
        (fits.1, v.are_conns)
        (unbalanced p s.held_by_conns w c fits.2
          ∙ (ap (λ (u : Conn.World). plus u (held_by p c)) v.conns_hold
              ∙ plus_assoc base_c (total p s.conns) (held_by p c)))

  -- What must be pending for an event to happen.
  abbrev pub Enabled : Event p → Server p → Type 0
  Enabled (accepts fd i) s = (s.accept.accept_cookie ≡ true) × (has i s.accept.conn_cookies ≡ false)
  Enabled (resolved sas) s = s.accept.resolving ≡ true
  Enabled resolve_again s = s.accept.dnstimer_cookie ≡ true
  Enabled request_shutdown s = Unit
  Enabled (conn_event i e) s =
      (c : ConnState p) × (find p i s.conns ≡ some c) × ConnLedger.Enabled p e c

  server_event-Keeps :
      (b : Dispatch.Answers) (e : DispatchLedger.Event) (base_d : Dispatch.World)
      (base_c : Conn.World) (s : Server p)
      → Serves p base_d base_c s
      → IsReady s.accept
      → DispatchLedger.Enabled e s.accept
      → cookies_after b e s.accept.conn_cookies ≡ s.accept.conn_cookies
      → Keeps p base_d base_c
          (died p upstream s (DispatchLedger.handle b e s.accept s.held_by_server))
  server_event-Keeps b e base_d base_c s v ready enabled same =
      died-Keeps p upstream base_d base_c s _ (λ u. ground arith)
        (event-Keeps b base_d s.accept s.held_by_server v.accepting v.server_holds e ready enabled)
        (leaves b e s.accept s.held_by_server (same ∙ sym v.named)) v.are_conns v.conns_hold

  -- A server and its connections together, on every event that can happen to either, whatever its
  -- calls report: no assertion fails, the server's list names the connections that there are, each
  -- of these keeps its invariant, and the process holds what the server and the connections hold
  -- and nothing else; when the callback returns 0, an accept is pending if another connection may
  -- be had.
  pub serves :
      (a : Conn.Answers) (b : Dispatch.Answers) (e : Event p) (base_d : Dispatch.World)
      (base_c : Conn.World) (s : Server p)
      → Serves p base_d base_c s
      → IsReady s.accept
      → Enabled e s
      → Keeps p base_d base_c (handle p a b e s)
  unfolding handle on_accept
  serves a b (accepts fd i) base_d base_c s v ready e =
      accept-Keeps a b fd i base_d base_c s (create p a b fd s) v ready e (create-Fits a b fd s)
  serves a b (resolved sas) base_d base_c s v ready e =
      server_event-Keeps b (DispatchLedger.Event.resolved sas) base_d base_c s v ready e refl
  serves a b resolve_again base_d base_c s v ready e =
      server_event-Keeps b DispatchLedger.Event.resolve_again base_d base_c s v ready e refl
  serves a b request_shutdown base_d base_c s v ready e =
      server_event-Keeps b DispatchLedger.Event.request_shutdown base_d base_c s v ready e refl
  serves a b (conn_event i e) base_d base_c s v ready (c, at_i, enabled) =
      conn_event-Keeps a b i e base_d base_c s c v ready at_i enabled
