-- ===== src/ServerProgram/Exit.antt =====
-- spiped/main.c: what the server holds when its set-up has failed or succeeded, and when it exits.
use spiped.Base.{
  ℕ, ◌+◌, ◌^◌, ◌<◌, ◌≡◌, refl, ◌==◌, subst, Bool, true, false, not, ◌&&◌, Option, Bool-cases, [],
  inl, inr, none, some, if◌then◌else◌, arith,
}
use spiped.Options.{Arguments}
use spiped.Spipe.{is_some}
use spiped.Dispatch.{AcceptState, World, held, dispatch_accept}
use spiped.Dispatch
use spiped.Dispatch.Ledger as DispatchLedger
use spiped.Dispatch.Ledger.{IsAccepting, IsReady, IsBalanced, dispatch_accept-Starts}
use spiped.Dispatch.Shutdown.{dispatch_shutdown_lem}
use spiped.ServerProgram.{Settings}
use spiped.ServerProgram.SetUp.{
  Resources, SetUpAnswers, Resolved, found, fails, retries, resolve, err6, err7, SetUp, exits,
  aborted, waits, spins, with_dispatch, with_addrs, with_bind, with_target, with_source, set_up,
  finish,
}

-- The server holds its file's name, its source, its address to bind to, if there is one, its secret,
-- and what accepting takes.
pub record Holds (bound : Bool) (base w : Resources) : Type 0 where
  pub heap : w.heap ≡ base.heap + 1
  pub addrs : w.addrs ≡ base.addrs + 1 + held bound
  pub secrets : w.secrets ≡ base.secrets + 1

abbrev pub Starts : Bool → Resources → SetUp → Type 0
Starts bound base (exits status w) = (status ≡ 1) × (w ≡ base)
Starts bound base aborted = ⊥
Starts bound base waits = Unit
Starts bound base (spins c w) =
    Holds bound base w
    × IsAccepting c
    × IsBalanced base.of_dispatch c w.of_dispatch
    × IsReady c
    × (c.conn_cookies ≡ [])
    × (c.shutdown_requested ≡ false)

err7-Releases :
    (b : ℕ → Dispatch.Answers) (bound : Bool) (base w : Resources) (c : AcceptState)
    → Holds bound base w
    → IsAccepting c
    → IsBalanced base.of_dispatch c w.of_dispatch
    → err7 b bound c w ≡ some base
unfolding err7
err7-Releases b bound base w c h i k =
    rw (dispatch_shutdown_lem b base.of_dispatch c w.of_dispatch i k) (ground arith)

with_dispatch-Starts :
    (b : SetUpAnswers) (bound : Bool) (base w : Resources) (o : Option AcceptState × World)
    → Holds bound base w
    → w.of_dispatch ≡ record base.of_dispatch {
      fds = base.of_dispatch.fds + 1;
      addr_lists = base.of_dispatch.addr_lists + 1;
    }
    → DispatchLedger.Starts base.of_dispatch w.of_dispatch o
    → Starts bound base (with_dispatch b bound w o)
unfolding with_dispatch err6
with_dispatch-Starts b bound base w (none, v) h e s = (refl, ground arith)
with_dispatch-Starts b bound base w (some c, v) h e s = elim (Bool-cases b.signals_ok) [
  | inl ok ↦
      rw ok
        (record { heap = h.heap; addrs = h.addrs; secrets = h.secrets }, s.0, s.1, s.2, s.3, s.4)
  | inr err ↦
      rw
        (
          err,
          err7-Releases b.shutdown bound base (record w { of_dispatch = v }) c
              (record { heap = h.heap; addrs = h.addrs; secrets = h.secrets }) s.0 s.1,
        )
        (refl, refl)
]

module _ (a : Arguments) where
  with_addrs-Starts :
      (b : SetUpAnswers) (s : Settings a) (base w : Resources)
      → s.opt_n < 2 ^ 64
      → w ≡ record base {
        of_dispatch = record base.of_dispatch { addr_lists = base.of_dispatch.addr_lists + 1 };
        heap = base.heap + 1;
        addrs = base.addrs + 1 + held (is_some s.opt_b);
      }
      → Starts (is_some s.opt_b) base (with_addrs a b s w)
  unfolding with_addrs
  with_addrs-Starts b s base w size e = ground (
    arith,
    with_dispatch-Starts b (is_some s.opt_b) base
        (record w {
          secrets = w.secrets + 1;
          of_dispatch = record w.of_dispatch { fds = w.of_dispatch.fds + 1 };
        })
        (dispatch_accept b.dispatch (not s.opt_R && a.is_positive s.opt_r) s.opt_n
          (record w.of_dispatch { fds = w.of_dispatch.fds + 1 }))
        (ground arith) (ground arith)
        (dispatch_accept-Starts b.dispatch (not s.opt_R && a.is_positive s.opt_r) s.opt_n
          base.of_dispatch (record w.of_dispatch { fds = w.of_dispatch.fds + 1 }) size
          (ground arith)),
  )

  abbrev listed : Resources → Resources
  listed w = record w {
    of_dispatch = record w.of_dispatch { addr_lists = w.of_dispatch.addr_lists + 1 };
  }

  with_bind-Starts :
      (b : SetUpAnswers) (s : Settings a) (base w : Resources) (r : Resolved)
      → s.opt_n < 2 ^ 64
      → is_some s.opt_b ≡ true
      → w ≡ record base {
        of_dispatch = record base.of_dispatch { addr_lists = base.of_dispatch.addr_lists + 1 };
        heap = base.heap + 1;
        addrs = base.addrs + 1;
      }
      → Starts (is_some s.opt_b) base (with_bind a b s w r)
  unfolding with_bind
  with_bind-Starts b s base w retries size bound e = tt
  with_bind-Starts b s base w fails size bound e = (refl, ground arith)
  with_bind-Starts b s base w (found n) size bound e =
      with_addrs-Starts b s base (record w { addrs = w.addrs + 1 }) size (rw bound (ground arith))

  with_target-Starts :
      (b : SetUpAnswers) (s : Settings a) (base w : Resources) (r : Resolved)
      → s.opt_n < 2 ^ 64
      → w ≡ record base { heap = base.heap + 1; addrs = base.addrs + 1 }
      → Starts (is_some s.opt_b) base (with_target a b s w r)
  unfolding with_target
  with_target-Starts b s base w retries size e = tt
  with_target-Starts b s base w fails size e = (refl, ground arith)
  with_target-Starts b s base w (found n) size e = elim (Bool-cases (n == 0)) [
    | inl empty ↦ rw empty (refl, ground arith)
    | inr some_found ↦ rw some_found (elim (Bool-cases (is_some s.opt_b)) [
      | inl bound ↦ rw bound (
          subst (λ (x : Bool). Starts x base (with_bind a b s (listed w) (resolve s.opt_D b.bind)))
            bound
            (with_bind-Starts b s base (listed w) (resolve s.opt_D b.bind) size bound
              (ground arith)))
      | inr unbound ↦ rw unbound (
          subst (λ (x : Bool). Starts x base (with_addrs a b s (listed w))) unbound
            (with_addrs-Starts b s base (listed w) size (rw unbound (ground arith))))
    ])
  ]

  with_source-Starts :
      (b : SetUpAnswers) (s : Settings a) (base w : Resources) (r : Resolved)
      → s.opt_n < 2 ^ 64
      → w ≡ record base { heap = base.heap + 1 }
      → Starts (is_some s.opt_b) base (with_source a b s w r)
  unfolding with_source
  with_source-Starts b s base w retries size e = tt
  with_source-Starts b s base w fails size e = (refl, ground arith)
  with_source-Starts b s base w (found n) size e =
      with_target-Starts b s base (record w { addrs = w.addrs + 1 }) (resolve s.opt_D b.target) size
        (ground arith)

  -- A set-up that exits leaves nothing behind, and one that goes on is ready to accept.
  pub server-Starts :
      (b : SetUpAnswers) (s : Settings a) (base : Resources)
      → s.opt_n < 2 ^ 64
      → Starts (is_some s.opt_b) base (set_up a b s base)
  unfolding set_up
  server-Starts b s base size = ground (
    arith,
    with_source-Starts b s base (record base { heap = base.heap + 1 }) (resolve s.opt_D b.source)
        size refl,
  )

-- A server that holds what it needs, with whatever connections, exits when its event loop ends: no
-- assertion fails, all that it and its dispatcher hold is released once, and the status is 0 exactly
-- when the loop does not fail.
pub server_exits :
    (b : ℕ → Dispatch.Answers) (bound ok : Bool) (base w : Resources) (c : AcceptState)
    → Holds bound base w
    → IsAccepting c
    → IsBalanced base.of_dispatch c w.of_dispatch
    → finish b bound ok c w ≡ exits (if ok then 0 else 1) base
unfolding finish
server_exits b bound false base w c h i k = rw (err7-Releases b bound base w c h i k) refl
server_exits b bound true base w c h i k =
    rw (dispatch_shutdown_lem b base.of_dispatch c w.of_dispatch i k) (ground arith)
