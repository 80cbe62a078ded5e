-- ===== src/Pushbits.antt =====
-- spipe/pushbits.c: a thread that copies what it reads from one descriptor to another.
--
-- The loop runs over what its calls report in turn. `live` counts the structures `struct push`
-- that are allocated; starting a thread may fail, and is lib/util/pthread_create_blocking_np.c's.
use spiped.Base.{
  ℕ, ◌+◌, ◌-◌, ◌≡◌, refl, ap, sym, ◌∙◌, Bool, true, false, List, [], ◌∷◌, ◌++◌, length, take, drop,
  take-append-drop, append_assoc, append-nil, ◌==◌, if◌then◌else◌, Bool-cases, inl, inr, subst,
}
use spiped.Primitives.{Bytes}

-- What `read` reports, with how much of it `noeintr_write` then writes: bytes, or none of them at
-- the end of the file; that it was interrupted; or another error.
pub data Call : Type 0 where
  bytes : Bytes → ℕ → Call
  interrupted : Call
  fails : Call

-- What `shutdown` reports: it works, `ENOTSOCK`, or another error.
pub data ShutdownResult : Type 0 where
  shut not_socket shutdown_fails : ShutdownResult

-- What has been written, and how the thread stands: it still reads, it has ended and freed its
-- structure, or it has ended the program.
pub data Outcome : Type 0 where
  reading : Bytes → Outcome
  ended : Bytes → ℕ → Outcome
  exited : Bytes → Outcome

unfoldable pub workthread_cleanup : ShutdownResult → Bytes → ℕ → Outcome
workthread_cleanup shut out live = ended out (live - 1)
workthread_cleanup not_socket out live = ended out (live - 1)
workthread_cleanup shutdown_fails out live = exited out

-- The loop, with `out` written so far.
unfoldable pub workthread : ShutdownResult → ℕ → Bytes → List Call → Outcome
unfolding workthread_cleanup
workthread r live out [] = reading out
workthread r live out (interrupted ∷ calls) = workthread r live out calls
workthread r live out (fails ∷ calls) = exited out
workthread r live out (bytes m n ∷ calls) =
    let rest = workthread r live (out ++ m) calls in
    if length m == 0
    then workthread_cleanup r out live
    else if n == length m
    then rest
    else exited (out ++ take n m)

-- Whether it succeeds, and how many structures there are then.
unfoldable pub pushbits : Bool → Bool → ℕ → Bool × ℕ
pushbits alloc_ok create_ok live =
    if alloc_ok
    then (if create_ok then (true, live + 1) else (false, live + 1 - 1))
    else (false, live)

-- All that is read, up to the end of the file or an error.
abbrev pub input_of : List Call → Bytes
input_of [] = []
input_of (interrupted ∷ calls) = input_of calls
input_of (fails ∷ calls) = []
input_of (bytes m n ∷ calls) = let rest = input_of calls in if length m == 0 then [] else m ++ rest

-- All of it is written while the thread reads and when it has ended, with its structure freed; a
-- first part of it when the program has ended.
abbrev pub Copies : ℕ → Bytes → Outcome → Type 0
Copies live input (reading out) = out ≡ input
Copies live input (ended out live') = (out ≡ input) × (live' ≡ live - 1)
Copies live input (exited out) = (rest : Bytes) × (input ≡ out ++ rest)

Copies-loop :
    (r : ShutdownResult) (live : ℕ) (out : Bytes) (calls : List Call)
    → Copies live (out ++ input_of calls) (workthread r live out calls)
unfolding workthread
Copies-loop r live out [] = sym (append-nil out)
Copies-loop r live out (interrupted ∷ calls) = Copies-loop r live out calls
Copies-loop r live out (fails ∷ calls) = ([], refl)
Copies-loop r live out (bytes m n ∷ calls) = elim (Bool-cases (length m == 0)) [
  | inl e ↦ rw e (at_end r)
  | inr e ↦ rw e (elim (Bool-cases (n == length m)) [
    | inl all ↦ rw all (
        subst (λ (v : Bytes). Copies live v (workthread r live (out ++ m) calls))
          (append_assoc out m (input_of calls)) (Copies-loop r live (out ++ m) calls))
    | inr part ↦ rw part (drop n m ++ input_of calls, cut)
  ])
]
  where
    at_end : (r : ShutdownResult) → Copies live (out ++ []) (workthread_cleanup r out live)
    at_end shut = (sym (append-nil out), refl)
    at_end not_socket = (sym (append-nil out), refl)
    at_end shutdown_fails = ([], refl)

    cut : out ++ (m ++ input_of calls) ≡ (out ++ take n m) ++ (drop n m ++ input_of calls)
    cut = sym (
        append_assoc out (take n m) (drop n m ++ input_of calls)
        ∙ ap (λ (v : Bytes). out ++ v)
            (sym (append_assoc (take n m) (drop n m) (input_of calls))
              ∙ ap (λ (v : Bytes). v ++ input_of calls) (take-append-drop n m)))

-- Whatever its calls report, the thread has written all that it has read, in order, with the reads
-- that were interrupted left out, as long as it reads and when it has ended at the end of the file,
-- where its structure is freed; when it ends the program, it has written a first part of it.
pub workthread-Copies :
    (r : ShutdownResult) (live : ℕ) (calls : List Call)
    → Copies live (input_of calls) (workthread r live [] calls)
workthread-Copies r live calls = Copies-loop r live [] calls
