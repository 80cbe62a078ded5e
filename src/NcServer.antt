-- ===== src/NcServer.antt =====
-- tests/nc-server/main.c: what the server of the tests does with a message, and its exit.
--
-- A pass of the loop of `write_bps` is given what the clock allows to have been sent by then, if it
-- works, and what `write` does.
pub mod Rate
use spiped.Base.{
  ℕ, ◌+◌, ◌-◌, ◌*◌, ◌%◌, ◌≡◌, Bool, true, false, not, ◌&&◌, Option, none, some, List, [], ◌∷◌, ◌++◌,
  length, take, drop, ltb, leb, ◌==◌, if◌then◌else◌,
}
use spiped.Primitives.{Bytes}

-- `write` reports -1, all of the bytes, or so many of them at most.
pub data Write : Type 0 where
  broken whole : Write
  short : ℕ → Write

pub record Tick : Type 0 where
  pub goal_send : Option ℕ
  pub write : Write

-- What has been written when `write_bps` returns 0 or -1, or still waits.
pub data Sent : Type 0 where
  succeeds fails waits : Bytes → Sent

abbrev pub smaller : ℕ → ℕ → ℕ
smaller a b = if ltb b a then b else a

-- `remaining` is the length of what is left of `buf`; `out` has been written.
abbrev pub written : Write → Bytes → Option Bytes
written broken bs = none
written whole bs = some bs
written (short n) bs = some (take n bs)

-- What follows `write`, which has written `wrote` and moves on by `to_send`.
unfoldable pub burst : (Bytes → ℕ → Bytes → Sent) → Option Bytes → ℕ → Bytes → ℕ → Bytes → Sent
burst rest none to_send buf actual_sent out = fails out
burst rest (some wrote) to_send buf actual_sent out =
    let left = drop to_send buf in
    let again = rest left (actual_sent + to_send) (out ++ wrote) in
    if ltb 0 (length left) then again else succeeds (out ++ wrote)

unfoldable pub pass : (Bytes → ℕ → Bytes → Sent) → Tick → Bytes → ℕ → Bytes → Sent
unfolding burst
pass rest t buf actual_sent out = elim t.goal_send [
  | none ↦ fails out
  | some goal ↦
      let again = rest buf actual_sent out in
      let to_send = smaller (goal - actual_sent) (length buf) in
      let sends = burst rest (written t.write (take to_send buf)) to_send buf actual_sent out in
      if leb goal actual_sent then (if ltb 0 (length buf) then again else succeeds out) else sends
]

-- The loop, over the passes that there are.
unfoldable pub send_bursts : List Tick → Bytes → ℕ → Bytes → Sent
unfolding pass
send_bursts [] buf actual_sent out = waits out
send_bursts (t ∷ ts) buf actual_sent out =
    pass (λ b n o. send_bursts ts b n o) t buf actual_sent out

-- `clock_ok` is what the first call of `monoclock_get` reports.
unfoldable pub write_bps : Bool → List Tick → Bytes → Sent
unfolding send_bursts
write_bps clock_ok ticks buf =
    let sends = send_bursts ticks buf 0 [] in if clock_ok then sends else fails []

-- Whether a message is dealt with, what is then in the file, and what has been sent back.
unfoldable pub callback_snc_response :
    Bool → ℕ → Bool → List Tick → Bytes → Bytes → Option Sent × Bytes
unfolding write_bps
callback_snc_response fwrite_ok bps clock_ok ticks buf file =
    if not fwrite_ok
    then (none, file)
    else if ltb 0 bps
    then (some (write_bps clock_ok ticks buf), file ++ buf)
    else (some (succeeds []), file ++ buf)

-- The exit status of `main`, and how many files are open. `bps` is what `PARSENUM` gives for the
-- third argument, if there is one.
unfoldable pub main : ℕ → Option ℕ → Bool → Bool → Bool → ℕ → ℕ × ℕ
main argc bps fopen_ok server_ok fclose_ok files =
    let runs : ℕ × ℕ =
      if not fopen_ok
      then (1, files)
      else if not server_ok
      then (1, files + 1 - 1)
      else (if fclose_ok then 0 else 1, files + 1 - 1) in
    if ltb argc 3
    then (1, files)
    else if ltb 3 argc
    then elim bps [ none ↦ (1, files) | some n ↦ if n % 100 == 0 then runs else (1, files) ]
    else runs
