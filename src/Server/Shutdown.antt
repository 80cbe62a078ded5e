-- ===== src/Server/Shutdown.antt =====
-- spiped/dispatch.c with lib/proto/proto_conn.c: stopping a server with the connections that it has.
use spiped.Base.{
  ℕ, zero, suc, ◌≡◌, refl, sym, ap, ap₂, ◌∙◌, subst, true, false, Option, none, some, List, [], ◌∷◌,
  length, if◌then◌else◌, arith,
}
use spiped.Primitives.{Primitives}
use spiped.Conn.{ConnState, Reason, Status, ok, upstream, proto_conn_drop, conn_cancelled}
use spiped.Conn
use spiped.Conn.Ledger as ConnLedger
use spiped.Conn.Ledger.{IsConn, handle-Keeps}
use spiped.Dispatch.{AcceptState, list_remove}
use spiped.Dispatch
use spiped.Dispatch.Ledger as DispatchLedger
use spiped.Dispatch.Ledger.{IsAccepting, IsReady, conndied-Keeps}
use spiped.Dispatch.Nodes.{has, AreDistinct}
use spiped.Dispatch.Stop.{release, is_first}
use spiped.Dispatch.Shutdown.{release_balanced, first_distinct, remove_first, has_first}
use spiped.Server.{Server, names, find, remove, Outcome, runs, aborted, died, on_conn}
use spiped.Server.Total.{
  plus, nothing, total, held_by, plus_assoc, balanced, total-remove, names-remove, AreConns-find,
  AreConns-remove,
}
use spiped.Server.Keeps.{Cookies, leaves, Serves, Keeps, died-Keeps}

module _ (p : Primitives) where
  -- What `dispatch_shutdown` leaves: what the server held, and what its connections did.
  abbrev pub Left : Type 0
  Left = Option (Dispatch.World × Conn.World)

  unfoldable pub next_first : (Server p → Left) → ℕ → Outcome p → Left
  next_first rest i (runs rc s) = if is_first i s.accept.conn_cookies then none else rest s
  next_first rest i aborted = none

  -- The loop of `dispatch_shutdown` over the connections' own states, on fuel. `none` stands for a
  -- failed assertion, or too little fuel.
  unfoldable pub drop_each : ℕ → (ℕ → Dispatch.Answers) → Conn.Answers → Server p → Left
  unfolding next_first
  drop_each zero b a s = elim s.accept.conn_cookies [
    | [] ↦ some (release s.accept s.held_by_server, s.held_by_conns)
    | i ∷ js ↦ none
  ]
  drop_each (suc n) b a s = elim s.accept.conn_cookies [
    | [] ↦ some (release s.accept s.held_by_server, s.held_by_conns)
    | i ∷ js ↦
        next_first (λ s'. drop_each n b a s') i
          (on_conn p a (b n) i ConnLedger.Event.drop s (find p i s.conns))
  ]

  -- There are as many passes as connections.
  unfoldable pub server_shutdown : (ℕ → Dispatch.Answers) → Conn.Answers → Server p → Left
  server_shutdown b a s = drop_each (length s.accept.conn_cookies) b a s

  find-first :
      (i : ℕ) (js : List ℕ) (cs : List (ℕ × ConnState p))
      → names p cs ≡ i ∷ js
      → (c : ConnState p) × (find p i cs ≡ some c)
  find-first i js [] e = absurd (ground arith)
  find-first i js ((k, c) ∷ cs) e = (c, let same : i ≡ k = ground arith in ground arith)

  abbrev Leaves : List ℕ → Outcome p → Type 0
  Leaves js (runs rc s) = s.accept.conn_cookies ≡ js
  Leaves js aborted = Unit

  died-Leaves :
      (js : List ℕ) (rc : Status) (s : Server p) (o : Dispatch.Outcome)
      → Cookies js o
      → Leaves js (died p rc s o)
  unfolding died
  died-Leaves js rc s (Dispatch.Outcome.returns r c w) e = e
  died-Leaves js rc s Dispatch.Outcome.aborted e = tt

  handled :
      (b : Dispatch.Answers) (i : ℕ) (base : Dispatch.World) (c : AcceptState) (w : Dispatch.World)
      → IsAccepting c
      → DispatchLedger.IsBalanced base c w
      → has i c.conn_cookies ≡ true
      → DispatchLedger.Keeps base (DispatchLedger.handle b (DispatchLedger.Event.conn_died i) c w)
  unfolding DispatchLedger.handle
  handled b i base c w a h known = conndied-Keeps b base c w a h i known

  abbrev world_of : Conn.Outcome p → Conn.World → Conn.World
  world_of (Conn.Outcome.dropped reason rc w') w = w'
  world_of o w = w

  abbrev without : Conn.Answers → ℕ → Server p → ConnState p → Server p
  without a i s c = record s {
    conns = remove p i s.conns;
    held_by_conns =
        world_of (ConnLedger.handle p a ConnLedger.Event.drop c s.held_by_conns) s.held_by_conns;
  }

  drop-Keeps :
      (a : Conn.Answers) (b : Dispatch.Answers) (i : ℕ) (js : List ℕ) (base_d : Dispatch.World)
      (base_c : Conn.World) (s : Server p) (c : ConnState p)
      → Serves p base_d base_c s
      → s.accept.conn_cookies ≡ i ∷ js
      → find p i s.conns ≡ some c
      → Keeps p base_d base_c (on_conn p a b i ConnLedger.Event.drop s (some c))
        × Leaves js (on_conn p a b i ConnLedger.Event.drop s (some c))
  unfolding on_conn ConnLedger.handle
  drop-Keeps a b i js base_d base_c s c v first at_i =
      let rest = plus base_c (total p (remove p i s.conns)) in
      let shares : s.held_by_conns ≡ plus rest (held_by p c) =
        v.conns_hold
        ∙ (ap (plus base_c) (total-remove p i s.conns c at_i)
            ∙ sym (plus_assoc base_c (total p (remove p i s.conns)) (held_by p c))) in
      let known : has i s.accept.conn_cookies ≡ true = ap (has i) first ∙ has_first i js in
      let dropped =
        DispatchLedger.handle b (DispatchLedger.Event.conn_died i) s.accept s.held_by_server in
      (
        died-Keeps p upstream base_d base_c (without a i s c) dropped (λ u. ground arith)
            (handled b i base_d s.accept s.held_by_server v.accepting v.server_holds known)
            (leaves b (DispatchLedger.Event.conn_died i) s.accept s.held_by_server
              (ap (list_remove i) (sym v.named) ∙ sym (names-remove p i s.conns)))
            (AreConns-remove p i s.conns v.are_conns)
            (handle-Keeps p a ConnLedger.Event.drop rest c s.held_by_conns
              (AreConns-find p i s.conns c v.are_conns at_i)
              (balanced p rest s.held_by_conns c shares) tt),
        died-Leaves js upstream (without a i s c) dropped (
            leaves b (DispatchLedger.Event.conn_died i) s.accept s.held_by_server
              (ap (list_remove i) first ∙ remove_first i js)),
      )

  next_first-some :
      (rest : Server p → Left) (i : ℕ) (js : List ℕ) (base_d : Dispatch.World) (base_c : Conn.World)
      (o : Outcome p)
      → has i js ≡ false
      → Keeps p base_d base_c o
      → Leaves js o
      → ((s : Server p)
          → Serves p base_d base_c s
          → s.accept.conn_cookies ≡ js
          → rest s ≡ some (base_d, base_c))
      → next_first rest i o ≡ some (base_d, base_c)
  unfolding next_first
  next_first-some rest i js base_d base_c (runs rc s) fresh k e ends =
      let other : is_first i s.accept.conn_cookies ≡ false =
        ap (is_first i) e ∙ first_distinct i js fresh in
      rw other (ends s k.0 e)
  next_first-some rest i js base_d base_c aborted fresh k e ends = absurd k

  names-nil : (cs : List (ℕ × ConnState p)) → names p cs ≡ [] → total p cs ≡ nothing
  names-nil [] e = refl
  names-nil ((i, c) ∷ cs) e = absurd (ground arith)

  drop_each-some :
      (js : List ℕ) (b : ℕ → Dispatch.Answers) (a : Conn.Answers) (base_d : Dispatch.World)
      (base_c : Conn.World) (s : Server p)
      → Serves p base_d base_c s
      → s.accept.conn_cookies ≡ js
      → drop_each (length js) b a s ≡ some (base_d, base_c)
  unfolding drop_each
  drop_each-some [] b a base_d base_c s v e =
      let none_held : s.held_by_conns ≡ base_c =
        v.conns_hold ∙ (ap (plus base_c) (names-nil s.conns (v.named ∙ e)) ∙ ground arith) in
      rw e (
        ap₂ (λ (d : Dispatch.World) (c : Conn.World). some (d, c))
          (release_balanced base_d s.accept s.held_by_server v.server_holds e) none_held)
  drop_each-some (i ∷ js) b a base_d base_c s v e =
      let (c, at_i) = find-first i js s.conns (v.named ∙ e) in
      let kept = drop-Keeps a (b (length js)) i js base_d base_c s c v e at_i in
      rw (e, at_i)
        (next_first-some _ i js base_d base_c _ ((subst AreDistinct e v.accepting.distinct).0)
          kept.0 kept.1 (λ s' v' e'. drop_each-some js b a base_d base_c s' v' e'))

  -- Stopping a server with its connections ends after as many passes as it has connections; no
  -- assertion fails, and all that the server and its connections hold is released, once.
  pub server_shutdown_lem :
      (b : ℕ → Dispatch.Answers) (a : Conn.Answers) (base_d : Dispatch.World) (base_c : Conn.World)
      (s : Server p)
      → Serves p base_d base_c s
      → server_shutdown b a s ≡ some (base_d, base_c)
  unfolding server_shutdown
  server_shutdown_lem b a base_d base_c s v =
      drop_each-some s.accept.conn_cookies b a base_d base_c s v refl
