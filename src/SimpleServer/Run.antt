-- ===== src/SimpleServer/Run.antt =====
-- tests/nc-server/simple_server.c: whole runs of the server, from its start to its return.
use spiped.Base.{
  ℕ, ◌+◌, ◌-◌, ◌^◌, ◌<◌, ◌≡◌, refl, subst, Bool, true, false, not, ◌&&◌, some, [], if◌then◌else◌,
  arith,
}
use spiped.SimpleServer.{World, AcceptState, Answers, returns, doaccept}
use spiped.SimpleServer.Ledger.{IsAccepting, IsBalanced, Tallies, IsReady, Keeps, KeepsTally}
use spiped.SimpleServer.Events.{Event, Enabled, drops, handle, event-Keeps, event-Tallies}
use spiped.SimpleServer.Stop.{
  Start, fails, spins, failed_assertion, err1, err3, accept_first, start, finish,
}
use spiped.SimpleServer.Shutdown.{simple_server_shutdown_lem}

-- Events one after the other, none of which follows a callback that failed: the last callback
-- reports `ok`, `d` connections are dropped, and `fine` says that no accept fails.
pub data Run : AcceptState → World → ℕ → Bool → Bool → AcceptState → World → Type 0 where
  here : {c : AcceptState} {w : World} → Run c w 0 true true c w
  next :
      {c c' c'' : AcceptState} {w w' w'' : World} {d : ℕ} {fine ok : Bool}
      → Run c w d true fine c' w'
      → (a : Answers) (e : Event) → Enabled e c'
      → handle a e c' w' ≡ returns ok c'' w''
      → Run c w (d + drops e) ok (a.accept_ok && fine) c'' w''

Run-Keeps :
    (base : World) {c c' : AcceptState} {w w' : World} {d : ℕ} {fine ok : Bool}
    → IsAccepting c
    → IsBalanced base c w
    → IsReady c
    → Run c w d ok fine c' w'
    → Keeps base (λ ok. ok && fine) (returns ok c' w')
Run-Keeps base i b ready here = (i, b, λ r. ready)
Run-Keeps base i b ready (next {w' = w'} {fine = fine} r a e on ran) =
    let before = Run-Keeps base i b ready r in
    subst (Keeps base (λ ok. ok && (a.accept_ok && fine))) ran
      (event-Keeps a e base _ w' fine before.0 before.1 before.2 on)

Run-Tallies :
    (base : World) {c c' : AcceptState} {w w' : World} {d : ℕ} {fine ok : Bool}
    → IsAccepting c
    → IsBalanced base c w
    → IsReady c
    → Tallies 0 c
    → Run c w d ok fine c' w'
    → Tallies d c'
Run-Tallies base i b ready t here = t
Run-Tallies base i b ready t (next {w' = w'} {d = d} r a e on ran) =
    subst (KeepsTally (d + drops e)) ran
      (event-Tallies a e d _ w' (Run-Keeps base i b ready r).0 on (Run-Tallies base i b ready t r))

abbrev pub Starts : World → Start → Type 0
Starts base (fails w) = w ≡ base
Starts base (spins c w) =
    IsAccepting c
    × IsBalanced (record base { addrs = base.addrs + 1 }) c w
    × IsReady c
    × Tallies 0 c
    × (c.conn_cookies ≡ [])
Starts base failed_assertion = ⊥

accept_first-Starts :
    (a : Answers) (b : ℕ → Answers) (base : World) (c : AcceptState) (w : World)
    → IsAccepting c
    → IsBalanced (record base { addrs = base.addrs + 1 }) c w
    → Tallies 0 c
    → c.conn_cookies ≡ []
    → Starts base (accept_first b (doaccept a c w))
unfolding accept_first doaccept err3
accept_first-Starts a b base c w i h t e =
    let stops = simple_server_shutdown_lem b (record base { addrs = base.addrs + 1 }) c w i h in
    ground arith

pub start-Starts :
    (a : Answers) (resolve_ok listener_ok : Bool) (b : ℕ → Answers) (nconn_max shutdown_after : ℕ)
    (w : World)
    → nconn_max < 2 ^ 64
    → shutdown_after < 2 ^ 64
    → Starts w (start a resolve_ok listener_ok b nconn_max shutdown_after w)
unfolding start
start-Starts a true true b nconn_max shutdown_after w size after =
    elim a.alloc_ok
      as (λ x. Starts w (
        if not x
        then fails (err1 (record resolved { fds = w.fds + 1 - 1 }))
        else accept_first b (doaccept a c listening))) [
          | true ↦
              accept_first-Starts a b w c listening (ground arith) (ground arith) (ground arith)
                refl
          | false ↦ ground arith
        ]
  where
    resolved : World
    resolved = record w { addrs = w.addrs + 1 }

    listening : World
    listening = record resolved { fds = w.fds + 1; states = w.states + 1 }

    c : AcceptState
    c = record {
      conndone = false;
      shutdown_requested = false;
      shutdown_after = shutdown_after;
      shutdown_current = 0;
      nconn = 0;
      nconn_max = nconn_max;
      accept_cookie = false;
      conn_cookies = [];
    }
start-Starts a true false b nconn_max shutdown_after w size after = ground arith
start-Starts a false listener_ok b nconn_max shutdown_after w size after = refl

finish_lem :
    (b : ℕ → Answers) (ok : Bool) (base : World) (c : AcceptState) (w : World)
    → IsAccepting c
    → IsBalanced (record base { addrs = base.addrs + 1 }) c w
    → finish b ok c w ≡ some (ok, base)
unfolding finish
finish_lem b true base c w i h =
    let left = simple_server_shutdown_lem b base c (err1 w) i (ground arith) in ground arith
finish_lem b false base c w i h =
    let left = simple_server_shutdown_lem b (record base { addrs = base.addrs + 1 }) c w i h in
    ground arith

-- However the server runs, on whatever events and whatever its calls report: its count is that of
-- its connections and at most `nconn_max`; a shutdown is requested exactly when as many connections
-- as are asked for have been dropped, if any number is; the loop is told to end only then, and when
-- no connection is left then; and unless a callback or an accept has failed, an accept is pending if
-- another connection may be had. Both numbers are a `size_t`.
pub simple_server_counts :
    (a : Answers) (resolve_ok listener_ok : Bool) (b : ℕ → Answers) (nconn_max shutdown_after : ℕ)
    (w : World) {c c' : AcceptState} {v v' : World} {d : ℕ} {ok fine : Bool}
    → nconn_max < 2 ^ 64
    → shutdown_after < 2 ^ 64
    → start a resolve_ok listener_ok b nconn_max shutdown_after w ≡ spins c v
    → Run c v d ok fine c' v'
    → IsAccepting c' × Tallies d c' × (ok && fine ≡ true → IsReady c')
simple_server_counts a resolve_ok listener_ok b nconn_max shutdown_after w size after starts r =
    let first =
      subst (Starts w) starts
        (start-Starts a resolve_ok listener_ok b nconn_max shutdown_after w size after) in
    let kept = Run-Keeps (record w { addrs = w.addrs + 1 }) first.0 first.1 first.2 r in
    (
      kept.0,
      Run-Tallies (record w { addrs = w.addrs + 1 }) first.0 first.1 first.2 first.3 r,
      kept.2,
    )

-- A server that has started and runs in any way, whatever its calls report, returns: no assertion
-- fails, what there was before it started is left, with every connection, read, accept, node and
-- address of its own released, and the result is that of its event loop. Both numbers are a
-- `size_t`.
pub simple_server_lem :
    (a : Answers) (resolve_ok listener_ok : Bool) (b : ℕ → Answers) (nconn_max shutdown_after : ℕ)
    (w : World) {c c' : AcceptState} {v v' : World} {d : ℕ} {ran fine : Bool}
    → nconn_max < 2 ^ 64
    → shutdown_after < 2 ^ 64
    → start a resolve_ok listener_ok b nconn_max shutdown_after w ≡ spins c v
    → Run c v d ran fine c' v'
    → (ok : Bool) → finish b ok c' v' ≡ some (ok, w)
simple_server_lem a resolve_ok listener_ok b nconn_max shutdown_after w {c' = c'} {v' = v'} size
      after starts r ok =
    let first =
      subst (Starts w) starts
        (start-Starts a resolve_ok listener_ok b nconn_max shutdown_after w size after) in
    let kept = Run-Keeps (record w { addrs = w.addrs + 1 }) first.0 first.1 first.2 r in
    finish_lem b ok w c' v' kept.0 kept.1
