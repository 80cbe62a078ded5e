-- ===== src/EofCase/Ends.antt =====
-- pipe_decr_eof_case: how the pipe ends.
use spiped.Base.{
  ℕ, suc, ◌-◌, ◌<◌, ◌≡◌, ap, sym, ◌∙◌, Bool, true, some, [], ◌∷◌, ◌++◌, List, length, append-nil,
  append_cut, length-append, pos, minus_one, arith, if◌then◌else◌, ◌==◌, Bool-cases, inl, inr,
  ==_iff,
}
use spiped.Primitives.{Bytes, Primitives, IsDocumented}
use spiped.Crypt.Keys.{ProtoKeys}
use spiped.Pipe.Stream.{bytes_of}
use spiped.Pipe.Callbacks.{PipeCookie, proto_pipe, callback_pipe_read}
use spiped.Pipe.Callbacks.Link.Keeps.{pending_waiting}
use spiped.EofCase.{Test, Run, AtEof, inbuf, send, started, info_status, expected_status}
use spiped.EofCase.Keeps.{Receives, Receives-Run}
use spiped.EofCase.Sent.{
  frames, frames-suc, unsent, begun, length-packets, length-unsent, Receives-started,
}

module _ (p : Primitives) (d : IsDocumented p) where
  eof_status :
      (t : Test p)
      → t.pipe.decr ≡ true
      → info_status p t ≡ (if length t.pipe.buffered == 0 then pos 0 else minus_one)
  unfolding info_status callback_pipe_read
  eof_status t e = ground arith

  -- What is left at the end: nothing after whole frames, and one frame after a part of it.
  left_over :
      (n tail_len : ℕ) (k : ProtoKeys p) (t : Test p)
      → tail_len < 1060
      → (f : Receives p d (begun p d n tail_len) (unsent p d n tail_len k) t) → AtEof p t
      → (length t.pipe.buffered ≡ tail_len) × (length f.unopened ≡ (if tail_len == 0 then 0 else 1))
  left_over n tail_len k t short f eof =
      let total = ap length f.stream ∙ length-packets p d t.pipe.k f.unopened f.are_unopened in
      let parts = length-append t.pipe.buffered (t.wire ++ unsent p d n tail_len k) in
      let rest = ap (λ (w : Bytes). length (w ++ unsent p d n tail_len k)) eof.read_all in
      let some_left = length-unsent p d n tail_len k in
      let few = eof.too_little in
      elim (Bool-cases (tail_len == 0)) [
        | inl whole ↦ rw whole (
            let none_left = some_left ∙ ap (λ (b : Bool). if b then 0 else 1060 - tail_len) whole in
            (omega (arith, (==_iff tail_len 0).0 whole), omega arith))
        | inr cut ↦ rw cut (
            let part_left = some_left ∙ ap (λ (b : Bool). if b then 0 else 1060 - tail_len) cut in
            let positive : 0 < tail_len = ground arith in (omega arith, omega arith))
      ]

  opened_lem :
      (n tail_len : ℕ) (opened unopened : List Bytes)
      → begun p d n tail_len ≡ opened ++ unopened
      → length unopened ≡ (if tail_len == 0 then 0 else 1)
      → opened ≡ frames n
  opened_lem n tail_len opened [] e size = elim (Bool-cases (tail_len == 0)) [
    | inl whole ↦
        sym (append-nil opened)
        ∙ (sym e ∙ ap (λ (b : Bool). if b then frames n else frames (suc n)) whole)
    | inr cut ↦ absurd (ground (arith, size ∙ ap (λ (b : Bool). if b then 0 else 1) cut))
  ]
  opened_lem n tail_len opened (m ∷ []) e size = elim (Bool-cases (tail_len == 0)) [
    | inl whole ↦ absurd (ground (arith, size ∙ ap (λ (b : Bool). if b then 0 else 1) whole))
    | inr cut ↦
        let same : frames n ++ inbuf ∷ [] ≡ opened ++ m ∷ [] =
          sym (frames-suc n)
          ∙ (ap (λ (b : Bool). if b then frames n else frames (suc n)) (sym cut) ∙ e) in
        let sizes : length (frames n) ≡ length opened = omega (
          arith,
          ap length same,
          length-append (frames n) (inbuf ∷ []),
          length-append opened (m ∷ []),
        ) in
        sym (append_cut (frames n) (inbuf ∷ []) opened (m ∷ []) sizes same).0
  ]
  opened_lem n tail_len opened (m ∷ m' ∷ ms) e size = elim (Bool-cases (tail_len == 0)) [
    | inl whole ↦ absurd (omega (arith, size ∙ ap (λ (b : Bool). if b then 0 else 1) whole))
    | inr cut ↦ absurd (omega (arith, size ∙ ap (λ (b : Bool). if b then 0 else 1) cut))
  ]

  -- A decrypting pipe with the sender's keys that is sent any number of whole frames and less than
  -- one more, however the reads are cut and its callbacks interleave, ends at the end of its input
  -- with the status that the test expects: 0 after whole frames, -1 after a part of one. By then it
  -- has written the messages of the whole frames, and nothing else. The calls that the callbacks
  -- make succeed.
  pub eof_case :
      (k : ProtoKeys p) (n tail_len : ℕ) {c : PipeCookie p} {sent : Bytes} {t : Test p}
      → tail_len < 1060
      → proto_pipe p true true true true k (pos 1) ≡ some c
      → send p n tail_len k ≡ some sent
      → Run p (started p sent c) t
      → AtEof p t
      → (info_status p t ≡ expected_status tail_len) × (t.output ≡ bytes_of (frames n))
  eof_case k n tail_len {c} {sent} {t} short made sends r eof =
      let f =
        Receives-Run p d (begun p d n tail_len) (unsent p d n tail_len k) r
          (Receives-started p d n tail_len k c sent made sends) in
      let left = left_over n tail_len k t short f eof in
      (
        eof_status t f.runs.direction ∙ ap (λ (m : ℕ). if m == 0 then pos 0 else minus_one) left.0,
        sym (append-nil t.output)
            ∙ (ap (λ (x : Bytes). t.output ++ x) (sym (pending_waiting p t.pipe f.runs eof.waits))
                ∙ (f.plain
                    ∙ ap bytes_of (opened_lem n tail_len f.opened f.unopened f.split left.1))),
      )
