-- ===== src/ServerProgram/Outcome.antt =====
-- spiped/main.c: which calls decide how the server's set-up ends.
use spiped.Base.{
  ℕ, ◌+◌, if◌then◌else◌, ◌^◌, ◌<◌, ◌≡◌, refl, ◌==◌, Bool, true, false, not, ◌&&◌, ◌||◌, Bool-cases,
  inl, inr, Option, none, some, List, [], ◌∷◌, arith,
}
use spiped.Options.{Arguments}
use spiped.Spipe.{is_some}
use spiped.Dispatch.{AcceptState, World, dispatch_accept, doaccept, accept_first}
use spiped.Dispatch
use spiped.ServerProgram.{Settings}
use spiped.ServerProgram.SetUp.{
  Resources, SetUpAnswers, Resolved, found, fails, retries, resolve, err7, SetUp, exits, aborted,
  waits, spins, exit_with, with_dispatch, with_addrs, with_bind, with_target, with_source, set_up,
}
use spiped.ServerProgram.Exit.{Starts, server-Starts}

abbrev pub Goes : Type 0
Goes = Bool × Bool

-- Whether the set-up goes on to the event loop, and whether it still tries to resolve an address.
abbrev pub goes : SetUp → Goes
goes (exits status w) = (false, false)
goes aborted = (false, false)
goes waits = (false, true)
goes (spins c w) = (true, false)

-- The first attempt that has a result; without DNS retries, the first attempt counts alone.
abbrev pub first_found : List (Option ℕ) → Option ℕ
first_found [] = none
first_found (some n ∷ rest) = some n
first_found (none ∷ rest) = first_found rest

abbrev pub first_attempt : List (Option ℕ) → Option ℕ
first_attempt [] = none
first_attempt (r ∷ rest) = r

abbrev pub address : Bool → List (Option ℕ) → Option ℕ
address opt_D xs = if opt_D then first_found xs else first_attempt xs

-- Whether there is to be another attempt, or none has been made.
abbrev pub is_pending : Bool → List (Option ℕ) → Bool
is_pending opt_D [] = true
is_pending opt_D (r ∷ rest) = opt_D && not (is_some (first_found (r ∷ rest)))

abbrev resolved : Resolved → Option ℕ
resolved (found n) = some n
resolved fails = none
resolved retries = none

abbrev is_retrying : Resolved → Bool
is_retrying (found n) = false
is_retrying fails = false
is_retrying retries = true

resolved-resolve :
    (opt_D : Bool) (xs : List (Option ℕ)) → resolved (resolve opt_D xs) ≡ address opt_D xs
unfolding resolve
resolved-resolve true [] = refl
resolved-resolve false [] = refl
resolved-resolve opt_D (some n ∷ rest) = ground arith
resolved-resolve true (none ∷ rest) = resolved-resolve true rest
resolved-resolve false (none ∷ rest) = refl

is_retrying-resolve :
    (opt_D : Bool) (xs : List (Option ℕ)) → is_retrying (resolve opt_D xs) ≡ is_pending opt_D xs
unfolding resolve
is_retrying-resolve opt_D [] = refl
is_retrying-resolve opt_D (some n ∷ rest) = ground arith
is_retrying-resolve true (none ∷ []) = refl
is_retrying-resolve true (none ∷ r ∷ rest) = is_retrying-resolve true (r ∷ rest)
is_retrying-resolve false (none ∷ rest) = refl

-- Whether there is an address in the list that was found.
abbrev pub has_addresses : Option ℕ → Bool
has_addresses none = false
has_addresses (some n) = not (n == 0)

-- Whether the calls of `dispatch_accept` succeed that it makes.
abbrev pub accepts : Dispatch.Answers → Bool → ℕ → Bool
accepts a rtime nconn_max =
    a.alloc_ok && ((not rtime || (a.spawn_ok && a.timer_ok)) && (nconn_max == 0 || a.accept_ok))

is_some-dispatch_accept :
    (a : Dispatch.Answers) (rtime : Bool) (nconn_max : ℕ) (w : World)
    → is_some (dispatch_accept a rtime nconn_max w).0 ≡ accepts a rtime nconn_max
unfolding dispatch_accept doaccept accept_first
is_some-dispatch_accept a rtime nconn_max w = ground arith

goes-with_dispatch :
    (b : SetUpAnswers) (bound : Bool) (w : Resources) (o : Option AcceptState × World)
    → goes (with_dispatch b bound w o) ≡ (is_some o.0 && b.signals_ok, false)
unfolding with_dispatch
goes-with_dispatch b bound w (none, v) = refl
goes-with_dispatch b bound w (some c, v) = elim (Bool-cases b.signals_ok) [
  | inl ok ↦ rw ok refl
  | inr err ↦
      rw err
        (elim (err7 b.shutdown bound c (record w { of_dispatch = v }))
          as (λ o. goes (exit_with 1 o) ≡ (false, false)) [ none ↦ refl | some w' ↦ refl ])
]

module _ (a : Arguments) where
  -- Whether all succeeds that follows the resolving of addresses.
  abbrev pub serves : SetUpAnswers → Settings a → Bool
  serves b s =
      b.secret_ok
      && (b.listener_ok
          && ((s.opt_D || (s.opt_F || b.daemonize_ok))
              && ((not (is_some s.opt_u) || b.setuidgid_ok)
                  && (accepts b.dispatch (not s.opt_R && a.is_positive s.opt_r) s.opt_n
                      && b.signals_ok))))

  goes-with_addrs :
      (b : SetUpAnswers) (s : Settings a) (w : Resources)
      → goes (with_addrs a b s w) ≡ (serves b s, false)
  unfolding with_addrs
  goes-with_addrs b s w =
      let listens : Resources = record w {
        secrets = w.secrets + 1;
        of_dispatch = record w.of_dispatch { fds = w.of_dispatch.fds + 1 };
      } in
      let rtime = not s.opt_R && a.is_positive s.opt_r in
      let first = dispatch_accept b.dispatch rtime s.opt_n listens.of_dispatch in
      let step = goes-with_dispatch b (is_some s.opt_b) listens first in
      let begun = is_some-dispatch_accept b.dispatch rtime s.opt_n listens.of_dispatch in
      ground arith

  goes-with_bind :
      (b : SetUpAnswers) (s : Settings a) (w : Resources) (r : Resolved)
      → goes (with_bind a b s w r) ≡ (is_some (resolved r) && serves b s, is_retrying r)
  unfolding with_bind
  goes-with_bind b s w retries = refl
  goes-with_bind b s w fails = refl
  goes-with_bind b s w (found n) = goes-with_addrs b s (record w { addrs = w.addrs + 1 })

  -- Whether the set-up goes on from where the target is resolved, and whether it tries again.
  abbrev pub serves_bound : SetUpAnswers → Settings a → Bool
  serves_bound b s = (not (is_some s.opt_b) || is_some (address s.opt_D b.bind)) && serves b s

  abbrev pub tries_bind : SetUpAnswers → Settings a → Bool
  tries_bind b s = is_some s.opt_b && is_pending s.opt_D b.bind

  goes-with_target :
      (b : SetUpAnswers) (s : Settings a) (w : Resources) (r : Resolved)
      → goes (with_target a b s w r) ≡ (
        has_addresses (resolved r) && serves_bound b s,
        is_retrying r || (has_addresses (resolved r) && tries_bind b s),
      )
  unfolding with_target
  goes-with_target b s w retries = refl
  goes-with_target b s w fails = refl
  goes-with_target b s w (found n) =
      let listed : Resources = record w {
        of_dispatch = record w.of_dispatch { addr_lists = w.of_dispatch.addr_lists + 1 };
      } in
      let free = goes-with_addrs b s listed in
      let tied = goes-with_bind b s listed (resolve s.opt_D b.bind) in
      let has = resolved-resolve s.opt_D b.bind in
      let again = is_retrying-resolve s.opt_D b.bind in ground arith

  goes-with_source :
      (b : SetUpAnswers) (s : Settings a) (w : Resources) (r : Resolved)
      → goes (with_source a b s w r) ≡ (
        is_some (resolved r) && (has_addresses (address s.opt_D b.target) && serves_bound b s),
        is_retrying r
            || (is_some (resolved r)
                && (is_pending s.opt_D b.target
                    || (has_addresses (address s.opt_D b.target) && tries_bind b s))),
      )
  unfolding with_source
  goes-with_source b s w retries = refl
  goes-with_source b s w fails = refl
  goes-with_source b s w (found n) =
      let step =
        goes-with_target b s (record w { addrs = w.addrs + 1 }) (resolve s.opt_D b.target) in
      let has = resolved-resolve s.opt_D b.target in
      let again = is_retrying-resolve s.opt_D b.target in ground arith

  -- What `main` comes to before it resolves addresses: the file's name, and the daemon where it
  -- retries them.
  abbrev pub begins : SetUpAnswers → Settings a → Bool
  begins b s = b.asprintf_ok && (not s.opt_D || (s.opt_F || b.daemonize_ok))

  abbrev pub succeeds : SetUpAnswers → Settings a → Bool
  succeeds b s =
      begins b s
      && (is_some (address s.opt_D b.source)
          && (has_addresses (address s.opt_D b.target) && serves_bound b s))

  abbrev pub still_tries : SetUpAnswers → Settings a → Bool
  still_tries b s =
      begins b s
      && (is_pending s.opt_D b.source
          || (is_some (address s.opt_D b.source)
              && (is_pending s.opt_D b.target
                  || (has_addresses (address s.opt_D b.target) && tries_bind b s))))

  goes-set_up :
      (b : SetUpAnswers) (s : Settings a) (base : Resources)
      → goes (set_up a b s base) ≡ (succeeds b s, still_tries b s)
  unfolding set_up
  goes-set_up b s base =
      let step =
        goes-with_source b s (record base { heap = base.heap + 1 }) (resolve s.opt_D b.source) in
      let has = resolved-resolve s.opt_D b.source in
      let again = is_retrying-resolve s.opt_D b.source in ground arith

  -- The server goes on to its event loop exactly when every call of its set-up succeeds: the file's
  -- name, the daemon where it is to be one, the addresses, with a target that has one, the secret, the
  -- listening socket, the change of the user where it is asked for, the calls of the dispatcher and
  -- the signal handler; with DNS retries an address is the first that an attempt finds, and it still
  -- tries exactly when one that it comes to has not been found. When it goes on, it is ready to
  -- accept and has no connection, its file's name, its addresses, its secret and what accepting
  -- takes. When it neither goes on nor tries, it exits with 1 and holds nothing that it did not hold
  -- at its start, and no assertion fails. The limit of connections is a `size_t`.
  pub server_set_up_lem :
      (b : SetUpAnswers) (s : Settings a) (base : Resources)
      → s.opt_n < 2 ^ 64
      → (goes (set_up a b s base) ≡ (succeeds b s, still_tries b s))
        × Starts (is_some s.opt_b) base (set_up a b s base)
  server_set_up_lem b s base size = (goes-set_up b s base, server-Starts a b s base size)
