-- ===== src/NcServer/Rate.antt =====
-- tests/nc-server/main.c, write_bps: what is sent, and how fast.
use spiped.Base.{
  ℕ, ◌+◌, ◌-◌, ◌≤◌, ◌≡◌, refl, ap, sym, ◌∙◌, Bool, true, false, Option, none, some, List, [], ◌∷◌,
  ◌++◌, length, take, drop, length-append, length-take_le, take-append-drop, append_assoc,
  append-nil, Bool-cases, inl, inr, ltb, leb, arith,
}
use spiped.Primitives.{Bytes}
use spiped.NcServer.{
  Write, broken, whole, short, Tick, Sent, succeeds, fails, waits, smaller, written, burst, pass,
  send_bursts, write_bps,
}

abbrev pub AtMost : ℕ → Option ℕ → Type 0
AtMost limit none = Unit
AtMost limit (some goal) = goal ≤ limit

abbrev pub IsWhole : Write → Type 0
IsWhole broken = Unit
IsWhole whole = Unit
IsWhole (short n) = ⊥

-- The clock never allows more than `limit` in all, and no write is a short one.
abbrev pub Within : ℕ → List Tick → Type 0
Within limit [] = Unit
Within limit (t ∷ ts) = (AtMost limit t.goal_send × IsWhole t.write) × Within limit ts

-- A first part of `all`, of at most `limit` bytes.
pub record IsPart (all : Bytes) (limit : ℕ) (out : Bytes) : Type 0 where
  pub rest : Bytes
  pub first_part : out ++ rest ≡ all
  pub at_most : length out ≤ limit

abbrev pub Sends : Bytes → ℕ → Sent → Type 0
Sends all limit (succeeds out) = (out ≡ all) × (length out ≤ limit)
Sends all limit (fails out) = IsPart all limit out
Sends all limit (waits out) = IsPart all limit out

is_nothing : (bs : Bytes) → ltb 0 (length bs) ≡ false → bs ≡ []
is_nothing [] e = refl
is_nothing (b ∷ bs) e = absurd (ground arith)

module _ (all : Bytes) (limit : ℕ) (loop : Bytes → ℕ → Bytes → Sent)
    (loops : (buf : Bytes) (n : ℕ) (out : Bytes)
      → out ++ buf ≡ all
      → length out ≡ n
      → n ≤ limit
      → Sends all limit (loop buf n out)) where
  burst-Sends :
      (w : Write) (to_send n : ℕ) (buf out : Bytes)
      → IsWhole w
      → out ++ buf ≡ all
      → length out ≡ n
      → n + to_send ≤ limit
      → to_send ≤ length buf
      → Sends all limit (burst loop (written w (take to_send buf)) to_send buf n out)
  unfolding burst
  burst-Sends broken to_send n buf out v e size room fits = record {
    rest = buf;
    first_part = e;
    at_most = omega arith;
  }
  burst-Sends whole to_send n buf out v e size room fits =
      let left = drop to_send buf in
      let moves : (out ++ take to_send buf) ++ left ≡ all =
        append_assoc out (take to_send buf) left
        ∙ (ap (λ (x : Bytes). out ++ x) (take-append-drop to_send buf) ∙ e) in
      let sizes : length (out ++ take to_send buf) ≡ n + to_send =
        omega (arith, length-append out (take to_send buf), length-take_le to_send buf fits) in
      elim (Bool-cases (ltb 0 (length left))) [
        | inl more ↦ rw more (loops left (n + to_send) (out ++ take to_send buf) moves sizes room)
        | inr over ↦ rw over (
          sym (append-nil (out ++ take to_send buf))
              ∙ (ap (λ (x : Bytes). (out ++ take to_send buf) ++ x) (sym (is_nothing left over))
                  ∙ moves),
          omega arith,
        )
      ]
  burst-Sends (short m) to_send n buf out v e size room fits = absurd v

  pass-Sends :
      (t : Tick) (n : ℕ) (buf out : Bytes)
      → AtMost limit t.goal_send × IsWhole t.write
      → out ++ buf ≡ all
      → length out ≡ n
      → n ≤ limit
      → Sends all limit (pass loop t buf n out)
  unfolding pass
  pass-Sends t n buf out v e size room =
      elim t.goal_send
          as (λ g.
            AtMost limit g → Sends all limit (pass loop (record t { goal_send = g }) buf n out)) [
              | none ↦ λ h. record { rest = buf; first_part = e; at_most = omega arith }
              | some goal ↦ λ h. elim (Bool-cases (leb goal n)) [
                | inl early ↦ rw early (elim (Bool-cases (ltb 0 (length buf))) [
                  | inl more ↦ rw more (loops buf n out e size room)
                  | inr over ↦ rw over (
                    sym (append-nil out)
                        ∙ (ap (λ (x : Bytes). out ++ x) (sym (is_nothing buf over)) ∙ e),
                    omega arith,
                  )
                ])
                | inr due ↦ rw due (
                    burst-Sends t.write (smaller (goal - n) (length buf)) n buf out v.1 e size
                      (ground arith) (ground arith))
              ]
            ]
        v.0

loop-Sends :
    (all : Bytes) (limit : ℕ) (ts : List Tick) (buf : Bytes) (n : ℕ) (out : Bytes)
    → Within limit ts
    → out ++ buf ≡ all
    → length out ≡ n
    → n ≤ limit
    → Sends all limit (send_bursts ts buf n out)
unfolding send_bursts
loop-Sends all limit [] buf n out v e size room = record {
  rest = buf;
  first_part = e;
  at_most = omega arith;
}
loop-Sends all limit (t ∷ ts) buf n out v e size room =
    pass-Sends all limit (λ b m o. send_bursts ts b m o)
      (λ b m o e' size' room'. loop-Sends all limit ts b m o v.1 e' size' room') t n buf out v.0 e
      size room

-- When the clock never allows more than `limit` bytes and no write is a short one, what has been
-- sent is a first part of the buffer and at most `limit` bytes long, however often the clock is
-- asked, and whether the loop has ended, failed, or goes on; and it is all of the buffer when 0 is
-- returned.
pub write_bps-Sends :
    (clock_ok : Bool) (limit : ℕ) (ticks : List Tick) (buf : Bytes)
    → Within limit ticks
    → Sends buf limit (write_bps clock_ok ticks buf)
unfolding write_bps
write_bps-Sends true limit ticks buf v =
    loop-Sends buf limit ticks buf 0 [] v refl refl (omega arith)
write_bps-Sends false limit ticks buf v = record {
  rest = buf;
  first_part = refl;
  at_most = omega arith;
}
