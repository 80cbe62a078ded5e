-- ===== src/EofCase/Finishes.antt =====
-- pipe_decr_eof_case: that the end of the input is reached.
use spiped.Base.{
  ℕ, zero, suc, ◌≤◌, ◌≡◌, refl, ap, sym, ◌∙◌, subst, Bool, true, false, some, [], ◌++◌, List,
  length, take, drop, drop-append, append-nil, pos, arith, Bool-cases, inl, inr, leb, not,
}
use spiped.Primitives.{Bytes, Primitives, IsDocumented}
use spiped.Crypt.Keys.{ProtoKeys}
use spiped.Pipe.Callbacks.{PipeCookie, Ending, proto_pipe}
use spiped.Pipe.Callbacks.Data.{opens}
use spiped.Pipe.Callbacks.Link.Keeps.{written}
use spiped.EofCase
use spiped.EofCase.{Test, Run, AtEof, send, started}
use spiped.EofCase.Keeps.{Receives, Receives-Run, Receives-arrive, Receives-opens, Receives-written}
use spiped.EofCase.Sent.{begun, unsent, Receives-started}

module _ (p : Primitives) where
  abbrev pub Finishes : Test p → Type 0
  Finishes s = (u : Test p) × Run p s u × AtEof p u

  write_whole :
      {s : Test p} (t : Test p)
      → t.pipe.writing ≡ true
      → Run p s t
      → Run p s (record t {
        pipe = record (t.pipe) { writing = false; waiting = true };
        output = t.output ++ t.pipe.outbuf;
      })
  write_whole {s} t w r =
      subst
        (λ (c : PipeCookie p). Run p s (record t { pipe = c; output = t.output ++ t.pipe.outbuf }))
        (written p t.pipe) (EofCase.next r (EofCase.written w))

module _ (p : Primitives) (d : IsDocumented p) (ms : List Bytes) (later : Bytes) where
  -- With all of the input at hand, the pipe reads and writes until less than a packet is left.
  reads :
      (n : ℕ) {s : Test p} (t : Test p)
      → Run p s t
      → Receives p d ms later t
      → t.wire ≡ []
      → t.pipe.waiting ≡ true
      → length t.pipe.buffered ≤ n
      → Finishes p s
  reads zero t r f e w size = (t, r, record { waits = w; read_all = e; too_little = omega arith })
  reads (suc n) {s} t r f e w size = elim (Bool-cases (leb 1060 (length t.pipe.buffered))) [
    | inl big ↦
        let o =
          opens p d t.pipe f.unopened (t.wire ++ later) f.runs.direction f.runs.full_size
            (ground arith) f.are_unopened f.stream in
        let opened =
          subst (λ (c : PipeCookie p). Run p s (record t { pipe = c }))
            (ap (λ (x : PipeCookie p × Ending). x.0) o.ends)
            (EofCase.next r (EofCase.read w (ground arith))) in
        reads n _ (write_whole p _ refl opened)
          (Receives-written p d ms later _ (Receives-opens p d ms later t f w o) refl) e refl
          (omega (arith, o.shorter))
    | inr few ↦ (t, r, record { waits = w; read_all = e; too_little = ground arith })
  ]

  waits : {writing waiting : Bool} → writing ≡ false → writing ≡ not waiting → waiting ≡ true
  waits e f = ground arith

  finishes : {s : Test p} (t : Test p) → Run p s t → Receives p d ms later t → Finishes p s
  finishes {s} t r f =
      let n = length t.wire in
      let t' : Test p = record t {
        wire = drop n t.wire;
        pipe = record (t.pipe) { buffered = t.pipe.buffered ++ take n t.wire };
      } in
      let r' : Run p s t' = EofCase.next r (EofCase.arrive n) in
      let f' = Receives-arrive p d ms later t n f in
      let e : drop n t.wire ≡ [] =
        ap (drop n) (sym (append-nil t.wire)) ∙ drop-append n t.wire [] refl in
      elim (Bool-cases t.pipe.writing) [
        | inl busy ↦
            reads (length t'.pipe.buffered) _ (write_whole p t' busy r')
              (Receives-written p d ms later t' f' busy) e refl (omega arith)
        | inr idle ↦
            reads (length t'.pipe.buffered) t' r' f' e (waits idle f.runs.one_at_a_time)
              (omega arith)
      ]

module _ (p : Primitives) (d : IsDocumented p) where
  -- From every state of a decrypting pipe that is sent whole frames and a part of one, some steps
  -- lead to the end of its input. The calls that the callbacks make succeed.
  pub eof_case_finishes :
      (k : ProtoKeys p) (n tail_len : ℕ) {c : PipeCookie p} {sent : Bytes} {t : Test p}
      → proto_pipe p true true true true k (pos 1) ≡ some c
      → send p n tail_len k ≡ some sent
      → Run p (started p sent c) t
      → (u : Test p) × Run p t u × AtEof p u
  eof_case_finishes k n tail_len {c} {sent} {t} made sends r =
      finishes p d (begun p d n tail_len) (unsent p d n tail_len k) t EofCase.here (
        Receives-Run p d (begun p d n tail_len) (unsent p d n tail_len k) r
          (Receives-started p d n tail_len k c sent made sends))
