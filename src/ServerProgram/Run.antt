-- ===== src/ServerProgram/Run.antt =====
-- spiped/main.c: whole runs of the server, from what it sets up to its exit.
use spiped.Base.{
  ℕ, ◌^◌, ◌<◌, ◌≡◌, refl, sym, ap, ap₂, ◌∙◌, subst, ◌==◌, Bool, true, false, not, ◌&&◌, [], ◌∷◌,
  List, length, if◌then◌else◌, arith,
}
use spiped.Primitives.{Primitives}
use spiped.Conn
use spiped.Conn.{ConnState}
use spiped.Options.{Arguments}
use spiped.Spipe.{is_some}
use spiped.Dispatch.{AcceptState}
use spiped.Dispatch
use spiped.Dispatch.Ledger.{IsReady}
use spiped.GracefulShutdown
use spiped.GracefulShutdown.{
  IsWatching, Watches, begins, event-Watches, graceful_shutdown_initialize, initialize-IsWatching,
}
use spiped.Spipe.SetUp.{begun-initialize}
use spiped.Server.{names}
use spiped.Server.Shutdown.{server_shutdown_lem}
use spiped.ServerProgram.{Settings}
use spiped.ServerProgram.SetUp.{Resources, SetUpAnswers, spins, set_up}
use spiped.ServerProgram.Exit.{Holds, Starts, server-Starts}
use spiped.ServerProgram.Events.{Program, program_of, runs, Event, handle, exits, finish}
use spiped.ServerProgram.Ledger.{IsProgram, Keeps, Enabled, program-Keeps}

module _ (p : Primitives) where
  -- Events one after the other, none of which follows a callback that failed; the last callback
  -- reports `ok`.
  pub data Run : Program p → Bool → Program p → Type 0 where
    here : {c : Program p} → Run c true c
    next :
        {c c' c'' : Program p} {ok : Bool}
        → Run c true c'
        → (a : Conn.Answers) (b : Dispatch.Answers) (g : GracefulShutdown.Answers) (e : Event p)
        → Enabled p e c'
        → handle p a b g e c' ≡ runs ok c''
        → Run c ok c''

  Run-Keeps :
      (base_d : Dispatch.World) (base_c : Conn.World) {c c' : Program p} {ok : Bool}
      → IsProgram p base_d base_c c
      → IsReady c.server.accept
      → IsWatching c.signals
      → Run c ok c'
      → Keeps p base_d base_c (runs ok c')
  Run-Keeps base_d base_c i ready w here = (i, λ h. (ready, w))
  Run-Keeps base_d base_c i ready w (next r a b g e on ran) =
      let before = Run-Keeps base_d base_c i ready w r in
      subst (Keeps p base_d base_c) ran
        (program-Keeps p a b g e base_d base_c _ before.0 (before.1 refl).0 (before.1 refl).1 on)

  finish-exits :
      (b : ℕ → Dispatch.Answers) (a : Conn.Answers) (bound ok : Bool) (base w : Resources)
      (base_c : Conn.World) (c : Program p)
      → Holds bound base w
      → IsProgram p base.of_dispatch base_c c
      → finish p b a bound ok w c ≡ exits (if ok then 0 else 1) base base_c
  unfolding finish
  finish-exits b a bound false base w base_c c h i =
      rw (server_shutdown_lem p b a base.of_dispatch base_c c.server i.serving) (ground arith)
  finish-exits b a bound true base w base_c c h i =
      rw (server_shutdown_lem p b a base.of_dispatch base_c c.server i.serving) (ground arith)

  abbrev pub is_idle : List (ℕ × ConnState p) → Bool
  is_idle [] = true
  is_idle (k ∷ ks) = false

  idle-names : (cs : List (ℕ × ConnState p)) → (length (names p cs) == 0) ≡ is_idle cs
  idle-names [] = refl
  idle-names ((i, c) ∷ cs) = ground arith

  done_idle :
      (base_d : Dispatch.World) (base_c : Conn.World) (c : Program p)
      → IsProgram p base_d base_c c
      → c.server.accept.conndone ≡ not (c.signals.begun == 0) && is_idle c.server.conns
  done_idle base_d base_c c i =
      let counted : (c.server.accept.nconn == 0) ≡ is_idle c.server.conns =
        ap (λ (n : ℕ). n == 0) (i.serving.accepting.counted ∙ ap length (sym i.serving.named))
        ∙ idle-names c.server.conns in
      i.serving.accepting.done ∙ ap₂ (λ (x y : Bool). x && y) i.requested counted

  watching :
      (g : GracefulShutdown.Answers) (signals : GracefulShutdown.State)
      → signals.timers ≡ 0
      → signals.timer_cookie ≡ false
      → signals.begun ≡ 0
      → (graceful_shutdown_initialize g signals).0 ≡ true
      → IsWatching (graceful_shutdown_initialize g signals).1
        × ((graceful_shutdown_initialize g signals).1.begun ≡ 0)
  watching g signals t u z ok =
      (ground (arith, initialize-IsWatching g signals), begun-initialize g signals ∙ z)

  -- A server that is set up, its signal handler too, and runs in any way, whatever its calls report:
  -- its event loop is to end exactly when a shutdown has begun and no connection is left; however it
  -- ends, no assertion fails, and the program exits with all released that it, its dispatcher and
  -- its connections hold, with 0 exactly when no callback has failed and the waiting for events,
  -- which reports `polls`, does not fail either. The limit of connections is a `size_t`, and at the
  -- start no timer is set and no shutdown begun.
  pub server_program :
      (a : Arguments) (b : SetUpAnswers) (s : Settings a) (base : Resources) (base_c : Conn.World)
      (g : GracefulShutdown.Answers) (signals : GracefulShutdown.State)
      → s.opt_n < 2 ^ 64
      → signals.timers ≡ 0
      → signals.timer_cookie ≡ false
      → signals.begun ≡ 0
      → (graceful_shutdown_initialize g signals).0 ≡ true
      → {c : AcceptState} {w : Resources} → set_up a b s base ≡ spins c w
      → (answers : ℕ → Dispatch.Answers) (conn_answers : Conn.Answers) (polls : Bool) {ok : Bool}
      → {c' : Program p}
      → Run (program_of p s.opt_d c w (graceful_shutdown_initialize g signals).1 base_c) ok c'
      → (c'.server.accept.conndone ≡ not (c'.signals.begun == 0) && is_idle c'.server.conns)
        × (finish p answers conn_answers (is_some s.opt_b) (ok && polls) w c'
            ≡ exits (if ok && polls then 0 else 1) base base_c)
  server_program a b s base base_c g signals size t u z init {c} {w} sets answers conn_answers polls
        {ok} {c'} r =
      let start = subst (Starts (is_some s.opt_b) base) sets (server-Starts a b s base size) in
      let quiet = watching g signals t u z init in
      let fresh : IsProgram p base.of_dispatch base_c
          (program_of p s.opt_d c w (graceful_shutdown_initialize g signals).1 base_c) =
        record {
          serving = record {
            accepting = start.1;
            server_holds = start.2;
            named = sym start.4;
            are_conns = tt;
            conns_hold = ground arith;
          };
          requested = start.5 ∙ ground (arith, quiet.1);
        } in
      let kept = Run-Keeps base.of_dispatch base_c fresh start.3 quiet.0 r in
      (
        done_idle base.of_dispatch base_c c' kept.0,
        finish-exits answers conn_answers (is_some s.opt_b) (ok && polls) base w base_c c' start.0
            kept.0,
      )
