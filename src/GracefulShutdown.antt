-- ===== src/GracefulShutdown.antt =====
-- lib/util/graceful_shutdown.c: on SIGTERM, or when it is asked to, the program begins to shut down.
--
-- The state is the file's variables, with how often `begin_shutdown` has been called, whether the
-- signal handler is installed, and how many timers are pending. What the calls report is an
-- argument.
use spiped.Base.{
  ℕ, ◌+◌, ◌-◌, ◌<◌, ◌≡◌, ◌⊎◌, Bool, true, false, not, ◌==◌, Option, none, some, if◌then◌else◌,
  arith,
}

pub record State : Type 0 where
  -- Whether `begin_shutdown` and `caller_cookie` are set.
  pub initialized : Bool
  pub timer_cookie : Bool
  pub should_shutdown : Bool
  pub handler : Bool
  pub begun : ℕ
  pub timers : ℕ

-- What `begin_shutdown`, `signal`, `atexit` and `events_timer_register_double` report.
pub record Answers : Type 0 where
  pub begin_ok : Bool
  pub signal_ok : Bool
  pub atexit_ok : Bool
  pub timer_ok : Bool

abbrev pub held : Bool → ℕ
held true = 1
held false = 0

unfoldable pub graceful_shutdown_handler : State → State
graceful_shutdown_handler s = record s { should_shutdown = true }

unfoldable pub graceful_shutdown_atexit : State → State
graceful_shutdown_atexit s = record s {
  timers = s.timers - held s.timer_cookie;
  timer_cookie = false;
}

-- Whether it succeeds, and the state either way.
unfoldable pub graceful_shutdown : Answers → State → Bool × State
graceful_shutdown a s =
    if s.should_shutdown
    then (let s' : State = record s { timer_cookie = false; begun = s.begun + 1 } in
        if a.begin_ok
        then (true, record s' { handler = if a.signal_ok then false else s.handler })
        else (false, s'))
    else (if a.timer_ok
        then (true, record s { timer_cookie = true; timers = s.timers + 1 })
        else (false, record s { timer_cookie = false }))

unfoldable pub graceful_shutdown_initialize : Answers → State → Bool × State
graceful_shutdown_initialize a s =
    let s' : State = record s { initialized = true } in
    if not a.signal_ok
    then (false, s')
    else if not a.atexit_ok
    then (false, record s' { handler = true })
    else if a.timer_ok
    then (true, record s' { handler = true; timer_cookie = true; timers = s.timers + 1 })
    else (false, record s' { handler = true; timer_cookie = false })

-- `none` stands for a failed assertion. The result of `graceful_shutdown` is ignored.
unfoldable pub graceful_shutdown_manual : Answers → State → Option State
unfolding graceful_shutdown
graceful_shutdown_manual a s =
    let quiet : State = record s {
      timers = s.timers - held s.timer_cookie;
      timer_cookie = false;
      should_shutdown = true;
    } in
    if s.initialized then some (graceful_shutdown a quiet).1 else none

-- A program that has been initialized waits for its timer until it begins to shut down; it begins
-- only when it should.
pub record IsWatching (s : State) : Type 0 where
  pub is_initialized : s.initialized ≡ true
  pub pending : s.timers ≡ held s.timer_cookie
  pub watches : s.timer_cookie ≡ (s.begun == 0)
  pub asked : 0 < s.begun → s.should_shutdown ≡ true

pub data Event : Type 0 where
  sigterm timer manual : Event

abbrev pub Enabled : Event → State → Type 0
Enabled sigterm s = s.handler ≡ true
Enabled timer s = s.timer_cookie ≡ true
Enabled manual s = Unit

unfoldable pub handle : Answers → Event → State → Option (Bool × State)
unfolding graceful_shutdown_handler graceful_shutdown graceful_shutdown_manual
handle a sigterm s = some (true, graceful_shutdown_handler s)
handle a timer s = some (graceful_shutdown a (record s { timers = s.timers - 1 }))
handle a manual s = elim (graceful_shutdown_manual a s) [ none ↦ none | some s' ↦ some (true, s') ]

-- How often an event of a state begins the shutdown.
abbrev pub begins : Event → State → ℕ
begins sigterm s = 0
begins timer s = held s.should_shutdown
begins manual s = 1

abbrev pub Watches : ℕ → Option (Bool × State) → Type 0
Watches n none = ⊥
Watches n (some (true, s)) = IsWatching s × (s.begun ≡ n)
Watches n (some (false, s)) = (s.timers ≡ 0) × (s.begun ≡ n)

-- On every event that can happen, whatever its calls report, no assertion fails; a timer begins
-- the shutdown exactly when SIGTERM has come, a manual shutdown begins it at once, and SIGTERM by
-- itself does not. If the event succeeds, the timer is pending exactly until the shutdown has
-- begun; if it fails, no timer is left.
pub event-Watches :
    (a : Answers) (e : Event) (s : State)
    → IsWatching s
    → Enabled e s
    → Watches (s.begun + begins e s) (handle a e s)
unfolding handle
event-Watches a sigterm s w e = ground arith
event-Watches a timer s w e = ground arith
event-Watches a manual s w e = ground arith

-- Initialized at the start, with no timer and no shutdown begun, the program watches, or it has
-- failed and no timer is left.
pub initialize-IsWatching :
    (a : Answers) (s : State)
    → s.timers ≡ 0
    → s.timer_cookie ≡ false
    → s.begun ≡ 0
    → let (ok, s') = graceful_shutdown_initialize a s in
      (((ok ≡ true) × IsWatching s') ⊎ ((ok ≡ false) × (s'.timers ≡ 0)))
unfolding graceful_shutdown_initialize
initialize-IsWatching a s t c b = ground arith

-- At exit, no timer is left of a program that watches.
atexit_quiet : (s : State) → IsWatching s → (graceful_shutdown_atexit s).timers ≡ 0
unfolding graceful_shutdown_atexit
atexit_quiet s w = ground arith
