-- ===== src/NcClient/Run.antt =====
-- tests/nc-client/main.c: whole runs of the client.
use spiped.Base.{
  ℕ, ◌+◌, ◌≡◌, ◌∙◌, refl, ap₂, sym, subst, Bool, true, false, Option, none, some, List, [], ◌++◌,
  append-nil, arith,
}
use spiped.Primitives.{Bytes}
use spiped.Pipe.Stream.{bytes_of}
use spiped.NcClient.{
  Held, World, Senddata, Answers, held, returns, Start, exits, spins, start, finish,
}
use spiped.NcClient.Ledger.{
  IsBalanced, pending, IsSending, Keeps, Event, Enabled, handle, event-Keeps,
}

-- Events one after the other, none of which follows a callback that failed; the last callback
-- reports `ok`.
pub data Run : Senddata → World → Bool → Senddata → World → Type 0 where
  here : {c : Senddata} {w : World} → Run c w true c w
  next :
      {c c' c'' : Senddata} {w w' w'' : World} {ok : Bool}
      → Run c w true c' w'
      → (a : Answers) (e : Event) → Enabled e c'
      → handle a e c' w' ≡ returns ok c'' w''
      → Run c w ok c'' w''

Run-Keeps :
    (base : Held) (input : Bytes) {c c' : Senddata} {w w' : World} {ok : Bool}
    → IsBalanced base c w.holds
    → IsSending input c w
    → Run c w ok c' w'
    → Keeps base input (returns ok c' w')
Run-Keeps base input b i here = (b, λ e. i)
Run-Keeps base input b i (next {w' = w'} r a e on ran) =
    let before = Run-Keeps base input b i r in
    subst (Keeps base input) ran (event-Keeps a e base input _ w' before.0 (before.1 refl) on)

not_writing : (c : Senddata) → c.write_cookie ≡ false → pending c ≡ []
not_writing c e = ground arith

abbrev Starts : List Bytes → Held → Start → Type 0
Starts lines base (exits h) = h ≡ base
Starts lines base (spins c w) = IsBalanced base c w.holds × IsSending (bytes_of lines) c w

-- A client that does not start leaves nothing behind.
pub start-Starts :
    (addresses : Option ℕ) (connect_ok : Bool) (lines : List Bytes) (base : Held)
    → Starts lines base (start addresses connect_ok lines base)
unfolding start
start-Starts none connect_ok lines base = refl
start-Starts (some n) connect_ok lines base = ground arith

module _ (addresses : Option ℕ) (connect_ok : Bool) (lines : List Bytes) (base : Held)
    {c c' : Senddata} {w w' : World}
    (starts : start addresses connect_ok lines base ≡ spins c w) where
  start-Keeps : {ok : Bool} → Run c w ok c' w' → Keeps base (bytes_of lines) (returns ok c' w')
  start-Keeps r =
      let first = subst (Starts lines base) starts (start-Starts addresses connect_ok lines base) in
      Run-Keeps base (bytes_of lines) first.0 first.1 r

  -- However a client runs that has started, its calls reporting what they may, what has been sent,
  -- the line that is being written and what has not been read make up the input, in order, as long
  -- as no callback has failed; and if one or the event loop fails then, the program exits with 1,
  -- with all that it holds released but its socket, if it is connected.
  pub nc_client_sends :
      Run c w true c' w'
      → (w'.sent ++ (pending c' ++ bytes_of w'.lines) ≡ bytes_of lines)
        × (finish false c' w'.holds ≡ (1, record base { fds = base.fds + held c'.socket }))
  unfolding finish
  nc_client_sends r =
      let kept = start-Keeps r in
      let sending = kept.1 refl in let balanced = kept.0 in (sending.in_order, ground arith)

  -- When the loop of a client that has started is told to end and no callback has failed, whatever
  -- the calls reported, all of the input has been sent, and no more can be; the program exits with
  -- 0, with all that it holds released but its socket, which is never closed.
  pub nc_client_done :
      Run c w true c' w'
      → c'.conndone ≡ true
      → (w'.sent ≡ bytes_of lines)
        × (w'.shut ≡ true)
        × (finish true c' w'.holds ≡ (0, record base { fds = base.fds + 1 }))
  unfolding finish
  nc_client_done r done =
      let kept = start-Keeps r in
      let sending = kept.1 refl in
      let balanced = kept.0 in
      let all_read : w'.lines ≡ [] = ground arith in
      let quiet : c'.write_cookie ≡ false = ground arith in
      (
        sym (append-nil w'.sent)
            ∙ (ap₂ (λ (x : Bytes) (ls : List Bytes). w'.sent ++ (x ++ bytes_of ls))
                  (sym (not_writing c' quiet)) (sym all_read)
                ∙ sending.in_order),
        ground arith,
        ground arith,
      )
