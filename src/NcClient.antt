-- ===== src/NcClient.antt =====
-- tests/nc-client/main.c: the client of the tests, which sends the lines of its input.
--
-- What the calls report is an argument. `getline` leaves a buffer to be freed whatever it reports.
pub mod Ledger
pub mod Run
use spiped.Base.{
  ℕ, ◌+◌, ◌-◌, Bool, true, false, not, Option, none, some, List, [], ◌∷◌, ◌++◌, length, ◌==◌,
  if◌then◌else◌, ℤ, pos, negsuc, minus_one, is_zero, is_minus_one,
}
use spiped.Primitives.{Bytes}

-- What the process holds: open descriptors, address lists, buffers of lines, and pending connects, writes and reads.
pub record Held : Type 0 where
  pub fds : ℕ
  pub lists : ℕ
  pub buffers : ℕ
  pub connects : ℕ
  pub writes : ℕ
  pub reads : ℕ

-- The lines that are still to be read, what has been sent, and whether no more can be.
pub record World : Type 0 where
  pub holds : Held
  pub lines : List Bytes
  pub sent : Bytes
  pub shut : Bool

pub record Senddata : Type 0 where
  -- The line, if the buffer is not NULL.
  pub buffer : Option Bytes
  pub nchars : ℤ
  -- Whether `socket` is set.
  pub socket : Bool
  pub conndone : Bool
  -- Whether each cookie is not NULL.
  pub connect_cookie : Bool
  pub write_cookie : Bool
  pub read_cookie : Bool

-- What the calls report: `getline`, unless it is at the end of the input, `network_write`,
-- `shutdown`, and `network_read`.
pub record Answers : Type 0 where
  pub getline_ok : Bool
  pub write_ok : Bool
  pub shutdown_ok : Bool
  pub read_ok : Bool

-- A callback returns 0 (`true`) or -1, or an assertion fails.
pub data Outcome : Type 0 where
  returns : Bool → Senddata → World → Outcome
  aborted : Outcome

abbrev pub held : Bool → ℕ
held true = 1
held false = 0

abbrev pub is_some : Option Bytes → Bool
is_some none = false
is_some (some b) = true

-- `lenwrit == send->nchars`
abbrev pub same_len : ℤ → ℤ → Bool
same_len (pos m) (pos n) = m == n
same_len (pos m) (negsuc n) = false
same_len (negsuc m) (pos n) = false
same_len (negsuc m) (negsuc n) = m == n

unfoldable pub send_line : Answers → Bytes → Senddata → World → Outcome
send_line a line c w =
    let c' : Senddata = record c { buffer = some line; nchars = pos (length line) } in
    if a.write_ok
    then returns true (record c' { write_cookie = true })
        (record w { holds = record w.holds { writes = w.holds.writes + 1 } })
    else returns false (record c' { write_cookie = false }) w

unfoldable pub stop_sending : Answers → Senddata → World → Outcome
stop_sending a cookie w =
    let c : Senddata = record cookie { buffer = some []; nchars = minus_one } in
    let w' : World = record w { shut = true } in
    if not a.getline_ok
    then returns false c w
    else if not a.shutdown_ok
    then returns false c w
    else if a.read_ok
    then returns true (record c { read_cookie = true })
        (record w' { holds = record w.holds { reads = w.holds.reads + 1 } })
    else returns false (record c { read_cookie = false }) w'

unfoldable pub send_input : Answers → Senddata → World → Outcome
unfolding send_line stop_sending
send_input a c w =
    let w' : World = record w { holds = record w.holds { buffers = w.holds.buffers + 1 } } in
    elim w.lines [
      | [] ↦ stop_sending a c w'
      | line ∷ rest ↦
          if a.getline_ok
          then send_line a line c (record w' { lines = rest })
          else returns false (record c { buffer = some []; nchars = minus_one }) w'
    ]

unfoldable pub callback_stopping : ℤ → Senddata → World → Outcome
callback_stopping lenread cookie w =
    let c : Senddata = record cookie { read_cookie = false } in
    if is_minus_one lenread
    then returns false c w
    else if not (is_zero lenread)
    then returns false c w
    else returns true (record c { conndone = true }) w

unfoldable pub callback_wrote : Answers → ℤ → Senddata → World → Outcome
unfolding send_input
callback_wrote a lenwrit cookie w =
    let c : Senddata = record cookie { write_cookie = false } in
    let freed : World = record w {
      holds = record w.holds { buffers = w.holds.buffers - held (is_some c.buffer) };
    } in
    let sends = send_input a (record c { buffer = none }) freed in
    if is_minus_one lenwrit
    then returns false c w
    else if same_len lenwrit c.nchars
    then sends
    else aborted

unfoldable pub callback_connected : Answers → ℤ → Senddata → World → Outcome
unfolding send_input
callback_connected a socket cookie w =
    let c : Senddata = record cookie { connect_cookie = false } in
    let sends = send_input a (record c { socket = true }) w in
    if is_minus_one socket then returns false c w else sends

-- What `main` comes to before its event loop: it exits with 1, or goes on to the loop.
pub data Start : Type 0 where
  exits : Held → Start
  spins : Senddata → World → Start

-- `sas_t` has so many addresses, if there is one; `connect_ok` is what `network_connect` reports.
unfoldable pub start : Option ℕ → Bool → List Bytes → Held → Start
start none connect_ok lines h = exits h
start (some n) connect_ok lines h =
    let listed : Held = record h { lists = h.lists + 1 } in
    let c : Senddata = record {
      buffer = none;
      nchars = pos 0;
      socket = false;
      conndone = false;
      connect_cookie = true;
      write_cookie = false;
      read_cookie = false;
    } in
    if n == 0
    then exits (record listed { lists = h.lists + 1 - 1 })
    else if connect_ok
    then spins c (record {
      holds = record listed { connects = h.connects + 1 };
      lines = lines;
      sent = [];
      shut = false;
    })
    else exits (record listed { lists = h.lists + 1 - 1 })

-- What follows `events_spin`, which reports `ok`: the status, and what the process then holds.
unfoldable pub finish : Bool → Senddata → Held → ℕ × Held
finish true c h =
    (0, record h { lists = h.lists - 1; buffers = h.buffers - held (is_some c.buffer) })
finish false c h = (
  1,
  record h {
    connects = h.connects - held c.connect_cookie;
    writes = h.writes - held c.write_cookie;
    reads = h.reads - held c.read_cookie;
    lists = h.lists - 1;
    buffers = h.buffers - held (is_some c.buffer);
  },
)
