-- ===== src/NcClient/Ledger.antt =====
-- tests/nc-client/main.c: what the client sends and holds, event by event.
use spiped.Base.{
  ◌+◌, ◌-◌, ◌≡◌, ◌⊎◌, ◌∙◌, refl, ap, sym, Bool, true, false, not, ◌||◌, none, some, [], ◌∷◌, ◌++◌,
  length, if◌then◌else◌, ℤ, pos, negsuc, is_minus_one, append_assoc, arith, Bool-cases, inl, inr,
}
use spiped.Primitives.{Bytes}
use spiped.Pipe.Stream.{bytes_of}
use spiped.NcClient.{
  Held, World, Senddata, Answers, Outcome, returns, aborted, held, is_some, same_len, send_line,
  stop_sending, send_input, callback_stopping, callback_wrote, callback_connected,
}

-- The process holds `base` and what the client does.
pub record IsBalanced (base : Held) (c : Senddata) (h : Held) : Type 0 where
  pub fds : h.fds ≡ base.fds + held c.socket
  pub lists : h.lists ≡ base.lists + 1
  pub buffers : h.buffers ≡ base.buffers + held (is_some c.buffer)
  pub connects : h.connects ≡ base.connects + held c.connect_cookie
  pub writes : h.writes ≡ base.writes + held c.write_cookie
  pub reads : h.reads ≡ base.reads + held c.read_cookie

-- What is being written.
abbrev pub pending : Senddata → Bytes
pending c = elim c.buffer [ none ↦ [] | some line ↦ if c.write_cookie then line else [] ]

-- Of `input`, some has been sent, then comes what is being written, and then what has not been read;
-- when nothing is left, no more can be sent.
pub record IsSending (input : Bytes) (c : Senddata) (w : World) : Type 0 where
  pub in_order : w.sent ++ (pending c ++ bytes_of w.lines) ≡ input
  pub one_at_a_time :
      (held c.connect_cookie + held c.write_cookie) + (held c.read_cookie + held c.conndone) ≡ 1
  pub has_socket : c.socket ≡ not c.connect_cookie
  pub connects_first : c.connect_cookie ≡ true → c.buffer ≡ none
  pub writes_line : c.write_cookie ≡ true → c.nchars ≡ pos (length (pending c))
  pub all_read : c.read_cookie || c.conndone ≡ true → (w.lines ≡ []) × (w.shut ≡ true)

abbrev pub Keeps : Held → Bytes → Outcome → Type 0
Keeps base input (returns ok c w) = IsBalanced base c w.holds × (ok ≡ true → IsSending input c w)
Keeps base input aborted = ⊥

-- What the event loop reports.
pub data Event : Type 0 where
  connected wrote stopping : ℤ → Event

-- A connect that succeeds has opened a descriptor. An event happens when what it reports on is pending. A write is reported when all of the line has
-- been written, or with an error.
abbrev pub Enabled : Event → Senddata → Type 0
Enabled (connected s) c = c.connect_cookie ≡ true
Enabled (wrote len) c = (c.write_cookie ≡ true) × ((is_minus_one len ≡ true) ⊎ (len ≡ c.nchars))
Enabled (stopping len) c = c.read_cookie ≡ true

unfoldable pub handle : Answers → Event → Senddata → World → Outcome
unfolding callback_connected callback_wrote callback_stopping
handle a (connected s) c w = callback_connected a s c (record w {
  holds = record w.holds {
    connects = w.holds.connects - 1;
    fds = w.holds.fds + held (not (is_minus_one s));
  };
})
handle a (wrote len) c w = callback_wrote a len c (record w {
  holds = record w.holds { writes = w.holds.writes - 1 };
  sent = if is_minus_one len then w.sent else w.sent ++ pending c;
})
handle a (stopping len) c w =
    callback_stopping len c (record w { holds = record w.holds { reads = w.holds.reads - 1 } })

send_input-Keeps :
    (a : Answers) (base : Held) (input : Bytes) (c : Senddata) (w : World)
    → IsBalanced base c w.holds
    → c.buffer ≡ none
    → c.connect_cookie ≡ false
    → c.write_cookie ≡ false
    → c.read_cookie ≡ false
    → c.conndone ≡ false
    → c.socket ≡ true
    → w.sent ++ bytes_of w.lines ≡ input
    → Keeps base input (send_input a c w)
unfolding send_input send_line stop_sending
send_input-Keeps a base input c w b none_left f g h i k e =
    elim w.lines
        as (λ ls.
          w.sent ++ bytes_of ls ≡ input
          → Keeps base input (send_input a c (record w { lines = ls }))) [
            | [] ↦ λ e'. ground arith
            | line ∷ rest ↦ λ e'. ground arith
          ]
      e

same_len_refl : (n : ℤ) → same_len n n ≡ true
same_len_refl (pos n) = ground arith
same_len_refl (negsuc n) = ground arith

module _ (a : Answers) (base : Held) (input : Bytes) (c : Senddata) (w : World)
    (b : IsBalanced base c w.holds) (i : IsSending input c w) where
  connected-Keeps :
      (s : ℤ) → c.connect_cookie ≡ true → Keeps base input (handle a (connected s) c w)
  unfolding handle
  connected-Keeps s e = elim (Bool-cases (is_minus_one s)) [
    | inl fails ↦ rw fails (ground arith)
    | inr opened ↦ rw opened (
        send_input-Keeps a base input (record c { connect_cookie = false; socket = true })
          (record w {
            holds = record w.holds {
              connects = w.holds.connects - 1;
              fds = w.holds.fds + held (not (is_minus_one s));
            };
          })
          (ground arith) (ground arith) refl (ground arith) (ground arith) (ground arith) refl
          (let none_yet : pending c ≡ [] = ground arith in
            ap (λ (x : Bytes). w.sent ++ (x ++ bytes_of w.lines)) (sym none_yet) ∙ i.in_order))
  ]

  wrote-Keeps : (len : ℤ) → Enabled (wrote len) c → Keeps base input (handle a (wrote len) c w)
  unfolding handle
  wrote-Keeps len on = elim (Bool-cases (is_minus_one len)) [
    | inl fails ↦ rw fails (ground arith)
    | inr done ↦
        let whole : same_len len c.nchars ≡ true = elim on.1 [
          | inl fails ↦ absurd (ground arith)
          | inr e ↦ ap (λ (n : ℤ). same_len n c.nchars) e ∙ same_len_refl c.nchars
        ] in
        rw done (
          rw whole (
            send_input-Keeps a base input (record c { write_cookie = false; buffer = none })
              (record w {
                holds = record w.holds {
                  writes = w.holds.writes - 1;
                  buffers = w.holds.buffers - held (is_some c.buffer);
                };
                sent = if is_minus_one len then w.sent else w.sent ++ pending c;
              })
              (ground arith) refl (ground arith) refl (ground arith) (ground arith) (ground arith)
              (ap (λ (x : Bool). (if x then w.sent else w.sent ++ pending c) ++ bytes_of w.lines)
                  done
                ∙ (append_assoc w.sent (pending c) (bytes_of w.lines) ∙ i.in_order))))
  ]

  stopping-Keeps : (len : ℤ) → c.read_cookie ≡ true → Keeps base input (handle a (stopping len) c w)
  unfolding handle
  stopping-Keeps len on = ground arith

-- On every event that can happen, whatever its calls report, no assertion fails.
pub event-Keeps :
    (a : Answers) (e : Event) (base : Held) (input : Bytes) (c : Senddata) (w : World)
    → IsBalanced base c w.holds
    → IsSending input c w
    → Enabled e c
    → Keeps base input (handle a e c w)
event-Keeps a (connected s) base input c w b i on = connected-Keeps a base input c w b i s on
event-Keeps a (wrote len) base input c w b i on = wrote-Keeps a base input c w b i len on
event-Keeps a (stopping len) base input c w b i on = stopping-Keeps a base input c w b i len on
