-- ===== src/Spipe/Shutdown.antt =====
-- spipe/main.c: what its callback for the shutdown does to the client.
use spiped.Base.{ℕ, ◌+◌, ◌≡◌, ◌⊎◌, Bool, true, false, Option, none, some, arith, refl, subst, sym}
use spiped.Primitives.{Primitives}
use spiped.GracefulShutdown
use spiped.GracefulShutdown.{IsWatching, event-Watches}
use spiped.Spipe.Events.{
  Resources, StopAnswers, Client, Outcome, runs, undefined, callback_graceful_shutdown, begun,
}
use spiped.Spipe.Invariant.{IsHolding}

module _ (p : Primitives) where
  pub same_holding :
      (bound : Bool) (base : Resources) (c c' : Client p)
      → IsHolding p bound base c
      → c'.holds.addrs ≡ c.holds.addrs
      → c'.holds.secrets ≡ c.holds.secrets
      → c'.holds.threads ≡ c.holds.threads
      → c'.joined_0 ≡ c.joined_0
      → c'.joined_1 ≡ c.joined_1
      → c'.stopped ≡ c.stopped
      → (c.conndone ≡ true → c'.conndone ≡ true)
      → IsHolding p bound base c'
  same_holding bound base c c' i a b d e f g h = ground arith

  -- `c'` is `c` but for the threads.
  record Same (c c' : Client p) : Type 0 where
    conn : c'.conn ≡ c.conn
    of_conns : c'.holds.of_conns ≡ c.holds.of_conns
    signals : c'.signals ≡ c.signals
    conndone : c.conndone ≡ true → c'.conndone ≡ true

  abbrev Stops : Bool → Resources → Client p → Option (Bool × Client p) → Type 0
  Stops bound base c none = ⊥
  Stops bound base c (some (rc, c')) = IsHolding p bound base c' × Same c c'

  callback_graceful_shutdown-Stops :
      (a : StopAnswers) (bound : Bool) (base : Resources) (c : Client p)
      → IsHolding p bound base c
      → c.joined_0 ≡ false
      → c.joined_1 ≡ false
      → Stops bound base c (callback_graceful_shutdown p a c)
  unfolding callback_graceful_shutdown
  callback_graceful_shutdown-Stops a bound base c i j k = ground arith

  abbrev pub is_manual : GracefulShutdown.Event → Bool
  is_manual GracefulShutdown.Event.manual = true
  is_manual e = false

  -- A manual shutdown reports no error.
  abbrev Reports : Bool → Option (Bool × GracefulShutdown.State) → Type 0
  Reports true (some (false, s)) = ⊥
  Reports b o = Unit

  handle-Reports :
      (g : GracefulShutdown.Answers) (e : GracefulShutdown.Event) (s : GracefulShutdown.State)
      → Reports (is_manual e) (GracefulShutdown.handle g e s)
  unfolding GracefulShutdown.handle
  handle-Reports g GracefulShutdown.Event.sigterm s = tt
  handle-Reports g GracefulShutdown.Event.timer s = tt
  handle-Reports g GracefulShutdown.Event.manual s = ground arith

  quiet :
      (b : Bool) (s : GracefulShutdown.State)
      → Reports b (some (false, s))
      → (false ≡ true) ⊎ (b ≡ true)
      → ⊥
  quiet true s r f = r
  quiet false s r f = ground arith

  -- The signals after a callback; the rest of the client is `c`.
  abbrev pub Begins : Bool → Client p → ℕ → Outcome p → Type 0
  Begins manual c n (runs ok c') =
      (c' ≡ record c { signals = c'.signals })
      × (c'.signals.begun ≡ n)
      × ((ok ≡ true) ⊎ (manual ≡ true) → IsWatching c'.signals)
  Begins manual c n undefined = ⊥

  pub begun-Begins :
      (g : GracefulShutdown.Answers) (e : GracefulShutdown.Event) (rc : Bool) (c : Client p)
      → IsWatching c.signals
      → GracefulShutdown.Enabled e c.signals
      → Begins
          (is_manual e)
          c
          (c.signals.begun + GracefulShutdown.begins e c.signals)
          (begun p g e (some (rc, c)))
  unfolding begun
  begun-Begins g e rc c w on =
      elim (GracefulShutdown.handle (record g { begin_ok = rc }) e c.signals)
          as (λ o.
            GracefulShutdown.Watches (c.signals.begun + GracefulShutdown.begins e c.signals) o
            → Reports (is_manual e) o
            → Begins (is_manual e) c (c.signals.begun + GracefulShutdown.begins e c.signals)
                (elim o [ none ↦ undefined | some (ok, s) ↦ runs ok (record c { signals = s }) ])) [
                  | none ↦ λ h r. h
                  | some (true, s) ↦ λ h r. (refl, h.1, λ t. h.0)
                  | some (false, s) ↦ λ h r. (refl, h.1, λ f. absurd (quiet (is_manual e) s r f))
                ]
        (event-Watches (record g { begin_ok = rc }) e c.signals w on)
        (handle-Reports (record g { begin_ok = rc }) e c.signals)

  -- After the callback of a shutdown, its threads and its signals.
  pub record Ended (bound manual : Bool) (base : Resources) (c : Client p) (n : ℕ) (ok : Bool)
      (c' : Client p) : Type 0 where
    pub holding : IsHolding p bound base c'
    pub conn : c'.conn ≡ c.conn
    pub of_conns : c'.holds.of_conns ≡ c.holds.of_conns
    pub conndone : c.conndone ≡ true → c'.conndone ≡ true
    pub begun_n : c'.signals.begun ≡ n
    pub watching : (ok ≡ true) ⊎ (manual ≡ true) → IsWatching c'.signals

  abbrev pub Ends : Bool → Bool → Resources → Client p → ℕ → Outcome p → Type 0
  Ends bound manual base c n (runs ok c') = Ended bound manual base c n ok c'
  Ends bound manual base c n undefined = ⊥

  Begins-Ends :
      (bound manual : Bool) (base : Resources) (c c1 : Client p) (n : ℕ) (o : Outcome p)
      → IsHolding p bound base c1
      → Same c c1
      → Begins manual c1 n o
      → Ends bound manual base c n o
  Begins-Ends bound manual base c c1 n (runs ok c') i s b =
      subst (λ (v : Client p). Ended bound manual base c n ok v) (sym b.0)
        (record {
          holding = same_holding bound base _ _ i refl refl refl refl refl refl (λ h. h);
          conn = s.conn;
          of_conns = s.of_conns;
          conndone = s.conndone;
          begun_n = b.1;
          watching = b.2;
        })
  Begins-Ends bound manual base c c1 n undefined i s b = b

  pub stop_begun :
      (a : StopAnswers) (g : GracefulShutdown.Answers) (e : GracefulShutdown.Event) (bound : Bool)
      (base : Resources) (c : Client p)
      → IsHolding p bound base c
      → IsWatching c.signals
      → GracefulShutdown.Enabled e c.signals
      → c.joined_0 ≡ false
      → c.joined_1 ≡ false
      → Ends bound
          (is_manual e)
          base
          c
          (c.signals.begun + GracefulShutdown.begins e c.signals)
          (begun p g e (callback_graceful_shutdown p a c))
  stop_begun a g e bound base c i w on j k =
      elim (callback_graceful_shutdown p a c)
          as (λ m.
            Stops bound base c m
            → Ends bound (is_manual e) base c
                (c.signals.begun + GracefulShutdown.begins e c.signals) (begun p g e m)) [
                  | none ↦ λ h. absurd h
                  | some (rc, c1) ↦ λ h.
                      Begins-Ends bound (is_manual e) base c c1
                        (c.signals.begun + GracefulShutdown.begins e c.signals)
                        (begun p g e (some (rc, c1))) h.0 h.1
                        (subst
                          (λ (s : GracefulShutdown.State).
                            Begins (is_manual e) c1 (s.begun + GracefulShutdown.begins e s)
                              (begun p g e (some (rc, c1))))
                          h.1.signals
                          (begun-Begins g e rc c1 (subst IsWatching (sym h.1.signals) w)
                            (subst (GracefulShutdown.Enabled e) (sym h.1.signals) on)))
                ]
        (callback_graceful_shutdown-Stops a bound base c i j k)
