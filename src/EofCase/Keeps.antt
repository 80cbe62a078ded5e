-- ===== src/EofCase/Keeps.antt =====
-- pipe_decr_eof_case: what the pipe keeps while it is sent packets.
use spiped.Base.{
  ℕ, ◌≡◌, refl, ap, sym, ◌∙◌, subst, Bool, true, false, [], ◌++◌, List, take, drop, append_assoc,
  append-nil, take-append-drop, arith, if◌then◌else◌,
}
use spiped.Primitives.{Bytes, Primitives, IsDocumented}
use spiped.Crypt.{pcrypt_esz}
use spiped.Pipe.Stream.{AreMessages, bytes_of, bytes_of-append, advance, packets}
use spiped.Pipe.Callbacks.{PipeCookie, Ending}
use spiped.Pipe.Callbacks.Data.{writes, Opens, opens}
use spiped.Pipe.Callbacks.Link.{Runs, pending}
use spiped.Pipe.Callbacks.Link.Keeps.{written, pending_waiting}
use spiped.EofCase.{Test, Step, Run}
use spiped.EofCase

module _ (p : Primitives) (d : IsDocumented p) (ms : List Bytes) (later : Bytes) where
  -- The pipe has opened some of the messages `ms`, and what it holds and the wire has are the
  -- packets of the others, but for `later`, which is not sent.
  pub record Receives (t : Test p) : Type 0 where
    pub opened : List Bytes
    pub unopened : List Bytes
    pub split : ms ≡ opened ++ unopened
    pub are_unopened : AreMessages unopened
    pub runs : Runs p true pcrypt_esz t.pipe
    pub stream : t.pipe.buffered ++ (t.wire ++ later) ≡ packets p t.pipe.k unopened
    pub plain : t.output ++ pending p t.pipe ≡ bytes_of opened

  pub Receives-arrive :
      (t : Test p) (n : ℕ)
      → Receives t
      → Receives (record t {
        wire = drop n t.wire;
        pipe = record (t.pipe) { buffered = t.pipe.buffered ++ take n t.wire };
      })
  Receives-arrive t n f = record {
    opened = f.opened;
    unopened = f.unopened;
    split = f.split;
    are_unopened = f.are_unopened;
    runs =
        let r = f.runs in
        record {
          direction = r.direction;
          full_size = r.full_size;
          one_at_a_time = r.one_at_a_time;
          whole = r.whole;
          is_open = r.is_open;
        };
    stream =
        append_assoc t.pipe.buffered (take n t.wire) (drop n t.wire ++ later)
        ∙ (ap (λ (x : Bytes). t.pipe.buffered ++ x)
              (sym (append_assoc (take n t.wire) (drop n t.wire) later)
                ∙ ap (λ (x : Bytes). x ++ later) (take-append-drop n t.wire))
            ∙ f.stream);
    plain = f.plain;
  }

  pub Receives-opens :
      (t : Test p) (f : Receives t)
      → t.pipe.waiting ≡ true
      → (o : Opens p d t.pipe f.unopened (t.wire ++ later))
      → Receives (record t {
        pipe = writes p t.pipe (advance p t.pipe.k o.opened) (bytes_of o.opened) o.left;
      })
  Receives-opens t f w o = record {
    opened = f.opened ++ o.opened;
    unopened = o.unopened;
    split =
        f.split
        ∙ (ap (λ (x : List Bytes). f.opened ++ x) o.split
            ∙ sym (append_assoc f.opened o.opened o.unopened));
    are_unopened = o.are_unopened;
    runs =
        let r = f.runs in
        record {
          direction = r.direction;
          full_size = r.full_size;
          one_at_a_time = refl;
          whole = refl;
          is_open = r.is_open;
        };
    stream = o.stream;
    plain =
        ap (λ (x : Bytes). x ++ bytes_of o.opened)
          (sym (append-nil t.output)
            ∙ (ap (λ (x : Bytes). t.output ++ x) (sym (pending_waiting p t.pipe f.runs w))
                ∙ f.plain))
        ∙ sym (bytes_of-append f.opened o.opened);
  }

  pub Receives-written :
      (t : Test p)
      → Receives t
      → t.pipe.writing ≡ true
      → Receives (record t {
        pipe = record (t.pipe) { writing = false; waiting = true };
        output = t.output ++ t.pipe.outbuf;
      })
  Receives-written t f w = record {
    opened = f.opened;
    unopened = f.unopened;
    split = f.split;
    are_unopened = f.are_unopened;
    runs =
        let r = f.runs in
        record {
          direction = r.direction;
          full_size = r.full_size;
          one_at_a_time = refl;
          whole = r.whole;
          is_open = r.is_open;
        };
    stream = f.stream;
    plain =
        append-nil (t.output ++ t.pipe.outbuf)
        ∙ (ap (λ (b : Bool). t.output ++ (if b then t.pipe.outbuf else [])) (sym w) ∙ f.plain);
  }

  Receives-Step : {t u : Test p} → Step p t u → Receives t → Receives u
  Receives-Step {t} (EofCase.arrive n) f = Receives-arrive t n f
  Receives-Step {t} (EofCase.read w h) f =
      let o =
        opens p d t.pipe f.unopened (t.wire ++ later) f.runs.direction f.runs.full_size
          (omega (arith, h)) f.are_unopened f.stream in
      subst (λ (c : PipeCookie p). Receives (record t { pipe = c }))
        (sym (ap (λ (r : PipeCookie p × Ending). r.0) o.ends)) (Receives-opens t f w o)
  Receives-Step {t} (EofCase.written w) f =
      subst
        (λ (c : PipeCookie p). Receives (record t { pipe = c; output = t.output ++ t.pipe.outbuf }))
        (sym (written p t.pipe)) (Receives-written t f w)

  pub Receives-Run : {t u : Test p} → Run p t u → Receives t → Receives u
  Receives-Run EofCase.here f = f
  Receives-Run (EofCase.next r s) f = Receives-Step s (Receives-Run r f)
