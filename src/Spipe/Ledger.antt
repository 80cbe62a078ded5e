-- ===== src/Spipe/Ledger.antt =====
-- spipe/main.c: the client's invariant, event by event.
use spiped.Base.{
  ℕ, ◌+◌, ◌≡◌, ◌≢◌, ◌<◌, Bool, true, false, ◌||◌, Option, none, ◌∙◌, inr, inl, Bool-cases, some,
  arith, refl, subst, sym, if◌then◌else◌,
}
use spiped.Primitives.{Primitives}
use spiped.Conn.{ConnState, held}
use spiped.Conn
use spiped.Conn.Ledger as ConnLedger
use spiped.Conn.Ledger.{IsConn, handle-Keeps}
use spiped.GracefulShutdown
use spiped.GracefulShutdown.{IsWatching, event-Watches}
use spiped.Server.Keeps.{NotOk, handle-NotOk, returned-true}
use spiped.Spipe.Events.{
  Resources, StopAnswers, is_error, finish_conndied, pass_on, Client, Outcome, runs, undefined,
  callback_graceful_shutdown, begun, callback_conndied, after_conn, Event, sigterm, timer,
  conn_event, on_timer, handle,
}
use spiped.Spipe.Invariant.{with_socket, ConnHolds, IsHolding, IsClient, Enabled, Keeps}
use spiped.Spipe.Shutdown.{same_holding, Begins, begun-Begins, Ends, stop_begun}

module _ (p : Primitives) where
  finish-Keeps :
      (bound : Bool) (base : Resources) (c : Client p) (n : ℕ) (o : Outcome p)
      → Ends p bound true base c n o
      → c.conn ≡ none
      → c.holds.of_conns ≡ with_socket p base.of_conns
      → 0 < n
      → Keeps p bound base (finish_conndied p o)
  finish-Keeps bound base c n (runs ok c') e gone same pos = (
    record {
      holding = same_holding p bound base _ _ e.holding refl refl refl refl refl refl (λ h. refl);
      conn_holds =
          subst
            (λ (o : Option (ConnState p)).
              ConnHolds p (with_socket p base.of_conns) o c'.holds.of_conns)
            (sym (e.conn ∙ gone)) (e.of_conns ∙ same);
      gone_done = λ h. refl;
      unless_begun = λ h. absurd (omega (arith, e.begun_n));
    },
    λ h. e.watching (inr refl),
  )
  finish-Keeps bound base c n undefined e gone same pos = e

  conndied-Keeps :
      (a : StopAnswers) (g : GracefulShutdown.Answers) (reason : Conn.Reason) (bound : Bool)
      (base : Resources) (c : Client p)
      → IsHolding p bound base c
      → IsWatching c.signals
      → c.joined_0 ≡ false
      → c.joined_1 ≡ false
      → c.conn ≡ none
      → c.holds.of_conns ≡ with_socket p base.of_conns
      → Keeps p bound base (callback_conndied p a g reason c)
  unfolding callback_conndied
  conndied-Keeps a g reason bound base c i w j k gone same =
      elim (Bool-cases (c.connection_error || is_error reason)) [
        | inl err ↦ rw err (
            finish-Keeps bound base (record c { connection_error = true }) (c.signals.begun + 1)
              (begun p g GracefulShutdown.Event.manual
                (callback_graceful_shutdown p a (record c { connection_error = true })))
              (stop_begun p a g GracefulShutdown.Event.manual bound base
                (record c { connection_error = true })
                (same_holding p bound base _ _ i refl refl refl refl refl refl (λ h. h)) w tt j k)
              gone same (omega arith))
        | inr fine ↦ rw fine (
          record {
            holding = same_holding p bound base _ _ i refl refl refl refl refl refl (λ h. refl);
            conn_holds =
                subst
                  (λ (o : Option (ConnState p)).
                    ConnHolds p (with_socket p base.of_conns) o c.holds.of_conns)
                  (sym gone) same;
            gone_done = λ h. refl;
            unless_begun = λ h. (j, k);
          },
          λ h. w,
        )
      ]

  pass_on-Keeps :
      (rc : Conn.Status) (bound : Bool) (base : Resources) (o : Outcome p)
      → rc ≢ Conn.ok
      → Keeps p bound base o
      → Keeps p bound base (pass_on p rc o)
  pass_on-Keeps rc bound base (runs r c) other k =
      (k.0, λ is_ok. k.1 (returned-true rc r other is_ok))
  pass_on-Keeps rc bound base undefined other k = k

  after_conn-Keeps :
      (a : StopAnswers) (g : GracefulShutdown.Answers) (bound : Bool) (base : Resources)
      (c : Client p) (k : ConnState p) (o : Conn.Outcome p)
      → IsClient p bound base c
      → IsWatching c.signals
      → c.signals.begun ≡ 0
      → c.conn ≡ some k
      → NotOk p o
      → ConnLedger.Keeps p (with_socket p base.of_conns) o
      → Keeps p bound base (after_conn p a g c o)
  unfolding after_conn
  after_conn-Keeps a g bound base c k (Conn.Outcome.lives k' w) i watch b at_k other e = (
    record {
      holding = same_holding p bound base _ _ i.holding refl refl refl refl refl refl (λ h. h);
      conn_holds = e;
      gone_done = λ h. absurd (ground arith);
      unless_begun = i.unless_begun;
    },
    λ h. watch,
  )
  after_conn-Keeps a g bound base c k (Conn.Outcome.dropped reason rc w) i watch b at_k other e =
      pass_on-Keeps rc bound base _ (not_ok rc other) (
        conndied-Keeps a g reason bound base _
          (same_holding p bound base _ _ i.holding refl refl refl refl refl refl (λ h. h)) watch
          (i.unless_begun b).0 (i.unless_begun b).1 refl e)
    where
      not_ok : (rc : Conn.Status) → NotOk p (Conn.Outcome.dropped reason rc w) → rc ≢ Conn.ok
      not_ok Conn.Status.upstream n e = ground arith
      not_ok Conn.Status.ok n e = n
      not_ok Conn.Status.failure n e = ground arith
  after_conn-Keeps a g bound base c k Conn.Outcome.aborted i watch b at_k other e = absurd e

  signals-Keeps :
      (bound manual : Bool) (base : Resources) (c : Client p) (o : Outcome p)
      → IsClient p bound base c
      → c.signals.begun ≡ 0
      → (n : ℕ) → Begins p manual c n o
      → Keeps p bound base o
  signals-Keeps bound manual base c (runs ok c') i z n b =
      subst (λ (v : Client p). Keeps p bound base (runs ok v)) (sym b.0)
        (
          record {
            holding =
                same_holding p bound base _ _ i.holding refl refl refl refl refl refl (λ h. h);
            conn_holds = i.conn_holds;
            gone_done = i.gone_done;
            unless_begun = λ h. i.unless_begun z;
          },
          λ h. b.2 (inl h),
        )
  signals-Keeps bound manual base c undefined i z n b = b

  -- A shutdown that the timer begins leaves the connection as it is.
  stopped-Keeps :
      (bound : Bool) (base : Resources) (c : Client p) (n : ℕ) (o : Outcome p)
      → Ends p bound false base c n o
      → IsClient p bound base c
      → 0 < n
      → Keeps p bound base o
  stopped-Keeps bound base c n (runs ok c') e i pos = (
    record {
      holding = e.holding;
      conn_holds = rw (e.conn, e.of_conns) i.conn_holds;
      gone_done = λ h. e.conndone (i.gone_done (rw (← e.conn) h));
      unless_begun = λ h. absurd (omega (arith, e.begun_n));
    },
    λ h. e.watching (inl h),
  )
  stopped-Keeps bound base c n undefined e i pos = e

  timer-Keeps :
      (a : StopAnswers) (g : GracefulShutdown.Answers) (bound : Bool) (base : Resources)
      (c : Client p)
      → IsClient p bound base c
      → IsWatching c.signals
      → c.signals.begun ≡ 0
      → GracefulShutdown.Enabled GracefulShutdown.Event.timer c.signals
      → Keeps p bound base (on_timer p a g c)
  unfolding on_timer
  timer-Keeps a g bound base c i w b on = elim (Bool-cases c.signals.should_shutdown) [
    | inl should ↦
        subst (λ (x : Bool). Keeps p bound base (if x then stops else waits)) (sym should)
          (stopped-Keeps bound base c
            (c.signals.begun + GracefulShutdown.begins GracefulShutdown.Event.timer c.signals) stops
            (stop_begun p a g GracefulShutdown.Event.timer bound base c i.holding w on
              (i.unless_begun b).0 (i.unless_begun b).1)
            i (ground arith))
    | inr not_yet ↦
        subst (λ (x : Bool). Keeps p bound base (if x then stops else waits)) (sym not_yet)
          (signals-Keeps bound false base c waits i b _
            (begun-Begins p g GracefulShutdown.Event.timer true c w on))
  ]
    where
      stops : Outcome p
      stops = begun p g GracefulShutdown.Event.timer (callback_graceful_shutdown p a c)

      waits : Outcome p
      waits = begun p g GracefulShutdown.Event.timer (some (true, c))

  -- On every event that can happen before the shutdown has begun, whatever its calls report, no
  -- assertion fails, no thread is used that has been joined, and the client goes on holding what its
  -- invariant says, with its connection's invariant in it; when the callback succeeds, the timer is
  -- pending exactly until the shutdown has begun.
  pub client-Keeps :
      (k : Conn.Answers) (a : StopAnswers) (g : GracefulShutdown.Answers) (e : Event p)
      (bound : Bool) (base : Resources) (c : Client p)
      → IsClient p bound base c
      → IsWatching c.signals
      → c.signals.begun ≡ 0
      → Enabled p e c
      → Keeps p bound base (handle p k a g e c)
  unfolding handle
  client-Keeps k a g sigterm bound base c i w b on =
      signals-Keeps bound false base c (begun p g GracefulShutdown.Event.sigterm (some (true, c))) i
        b _ (begun-Begins p g GracefulShutdown.Event.sigterm true c w on)
  client-Keeps k a g timer bound base c i w b on = timer-Keeps a g bound base c i w b on
  client-Keeps k a g (conn_event e) bound base c i w b (conn, at_conn, on) = rw at_conn (
      after_conn-Keeps a g bound base c conn (ConnLedger.handle p k e conn c.holds.of_conns) i w b
        at_conn (handle-NotOk p k e conn c.holds.of_conns)
        (handle-Keeps p k e (with_socket p base.of_conns) conn c.holds.of_conns
          (holds conn at_conn).0 (holds conn at_conn).1 on))
    where
      holds :
          (conn : ConnState p)
          → c.conn ≡ some conn
          → IsConn p conn
            × ConnLedger.IsBalanced p (with_socket p base.of_conns) conn c.holds.of_conns
      holds conn at_conn =
          subst
            (λ (o : Option (ConnState p)).
              ConnHolds p (with_socket p base.of_conns) o c.holds.of_conns)
            at_conn i.conn_holds
