-- ===== src/ServerProgram/SetUp.antt =====
-- spiped/main.c: what the server sets up before its event loop, and what it releases after it.
--
-- What the calls report is an argument. An address that is resolved again and again has the list of
-- what each attempt reports; the pause between them has no result.
use spiped.Base.{
  ℕ, ◌+◌, ◌-◌, ◌==◌, Bool, true, false, not, ◌&&◌, Option, none, some, List, [], ◌∷◌, if◌then◌else◌,
}
use spiped.Options.{Arguments}
use spiped.Spipe.{is_some}
use spiped.Dispatch.{AcceptState, World, held, dispatch_accept}
use spiped.Dispatch
use spiped.Dispatch.Stop.{dispatch_shutdown}
use spiped.ServerProgram.{Settings}

-- `heap` counts the name of the file for the process's number.
pub record Resources : Type 0 where
  pub of_dispatch : World
  pub heap : ℕ
  pub addrs : ℕ
  pub secrets : ℕ

-- An attempt at the target gives how many addresses it has.
pub record SetUpAnswers : Type 0 where
  pub asprintf_ok : Bool
  pub daemonize_ok : Bool
  pub source : List (Option ℕ)
  pub target : List (Option ℕ)
  pub bind : List (Option ℕ)
  pub secret_ok : Bool
  pub listener_ok : Bool
  pub setuidgid_ok : Bool
  pub dispatch : Dispatch.Answers
  pub signals_ok : Bool
  pub shutdown : ℕ → Dispatch.Answers

-- How a loop over attempts ends; it may not have ended yet.
pub data Resolved : Type 0 where
  found : ℕ → Resolved
  fails : Resolved
  retries : Resolved

unfoldable pub resolve : Bool → List (Option ℕ) → Resolved
resolve opt_D [] = retries
resolve opt_D (some n ∷ rest) = found n
resolve opt_D (none ∷ rest) = let again = resolve opt_D rest in if opt_D then again else fails

-- The labels of `main` from the last but one; `owned` says whether `sas_t` and `s` are still the
-- main function's.
unfoldable pub err2 : Resources → Resources
err2 w = record w { addrs = w.addrs - 1; heap = w.heap - 1 }

unfoldable pub err3 : Bool → Resources → Resources
unfolding err2
err3 owned w = err2 (record w {
  of_dispatch = record w.of_dispatch { addr_lists = w.of_dispatch.addr_lists - held owned };
})

unfoldable pub err4 : Bool → Bool → Resources → Resources
unfolding err3
err4 bound owned w = err3 owned (record w { addrs = w.addrs - held bound })

unfoldable pub err5 : Bool → Bool → Resources → Resources
unfolding err4
err5 bound owned w = err4 bound owned (record w { secrets = w.secrets - 1 })

unfoldable pub err6 : Bool → Bool → Resources → Resources
unfolding err5
err6 bound owned w =
    err5 bound owned
      (record w { of_dispatch = record w.of_dispatch { fds = w.of_dispatch.fds - held owned } })

-- `none` stands for a failed assertion.
unfoldable pub err7_after : Bool → Resources → Option World → Option Resources
unfolding err6
err7_after bound w none = none
err7_after bound w (some v) = some (err6 bound false (record w { of_dispatch = v }))

unfoldable pub err7 : (ℕ → Dispatch.Answers) → Bool → AcceptState → Resources → Option Resources
unfolding err7_after
err7 b bound c w = err7_after bound w (dispatch_shutdown b c w.of_dispatch)

-- The program exits with a status, an assertion fails, it still tries to resolve an address, or it
-- goes on to its event loop.
pub data SetUp : Type 0 where
  exits : ℕ → Resources → SetUp
  aborted : SetUp
  waits : SetUp
  spins : AcceptState → Resources → SetUp

abbrev pub exit_with : ℕ → Option Resources → SetUp
exit_with status none = aborted
exit_with status (some w) = exits status w

unfoldable pub with_dispatch : SetUpAnswers → Bool → Resources → Option AcceptState × World → SetUp
with_dispatch b bound w (none, v) = exits 1 (err6 bound true (record w { of_dispatch = v }))
with_dispatch b bound w (some c, v) =
    let w' : Resources = record w { of_dispatch = v } in
    if b.signals_ok then spins c w' else exit_with 1 (err7 b.shutdown bound c w')

-- The clean-up, once the dispatcher is shut down.
unfoldable pub clean_up : Bool → Resources → Option World → SetUp
clean_up bound w none = aborted
clean_up bound w (some v) = exits 0 (record w {
  of_dispatch = v;
  secrets = w.secrets - 1;
  addrs = w.addrs - 1 - held bound;
  heap = w.heap - 1;
})

-- What follows `events_spin`, which reports `ok`.
unfoldable pub finish : (ℕ → Dispatch.Answers) → Bool → Bool → AcceptState → Resources → SetUp
unfolding clean_up
finish b bound ok c w =
    if not ok
    then exit_with 1 (err7 b bound c w)
    else clean_up bound w (dispatch_shutdown b c w.of_dispatch)

module _ (a : Arguments) where
  unfoldable pub with_addrs : SetUpAnswers → Settings a → Resources → SetUp
  unfolding err4 err5 err6
  with_addrs b s w =
      let bound = is_some s.opt_b in
      let keyed : Resources = record w { secrets = w.secrets + 1 } in
      let listens : Resources = record keyed {
        of_dispatch = record w.of_dispatch { fds = w.of_dispatch.fds + 1 };
      } in
      if not b.secret_ok
      then exits 1 (err4 bound true w)
      else if not b.listener_ok
      then exits 1 (err5 bound true keyed)
      else if not s.opt_D && not s.opt_F && not b.daemonize_ok
      then exits 1 (err6 bound true listens)
      else if is_some s.opt_u && not b.setuidgid_ok
      then exits 1 (err6 bound true listens)
      else with_dispatch b bound listens (
          dispatch_accept b.dispatch (not s.opt_R && a.is_positive s.opt_r) s.opt_n
            listens.of_dispatch)

  unfoldable pub with_bind : SetUpAnswers → Settings a → Resources → Resolved → SetUp
  unfolding err2 err3
  with_bind b s w retries = waits
  with_bind b s w fails = exits 1 (err3 true w)
  with_bind b s w (found n) = with_addrs b s (record w { addrs = w.addrs + 1 })

  unfoldable pub with_target : SetUpAnswers → Settings a → Resources → Resolved → SetUp
  unfolding err2 err3
  with_target b s w retries = waits
  with_target b s w fails = exits 1 (err2 w)
  with_target b s w (found n) =
      let listed : Resources = record w {
        of_dispatch = record w.of_dispatch { addr_lists = w.of_dispatch.addr_lists + 1 };
      } in
      if n == 0
      then exits 1 (err3 true listed)
      else if not (is_some s.opt_b)
      then with_addrs b s listed
      else with_bind b s listed (resolve s.opt_D b.bind)

  unfoldable pub with_source : SetUpAnswers → Settings a → Resources → Resolved → SetUp
  with_source b s w retries = waits
  with_source b s w fails = exits 1 (record w { heap = w.heap - 1 })
  with_source b s w (found n) =
      with_target b s (record w { addrs = w.addrs + 1 }) (resolve s.opt_D b.target)

  unfoldable pub set_up : SetUpAnswers → Settings a → Resources → SetUp
  set_up b s w =
      let named : Resources = record w { heap = w.heap + 1 } in
      if not b.asprintf_ok
      then exits 1 w
      else if s.opt_D && not s.opt_F && not b.daemonize_ok
      then exits 1 (record named { heap = w.heap + 1 - 1 })
      else with_source b s named (resolve s.opt_D b.source)
