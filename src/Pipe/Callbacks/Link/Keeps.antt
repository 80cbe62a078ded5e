-- ===== src/Pipe/Callbacks/Link/Keeps.antt =====
-- lib/proto/proto_pipe.c: what each step of two pipes keeps.
use spiped.Base.{
  ℕ, ◌≡◌, refl, ap, sym, ◌∙◌, Bool, true, false, [], ◌++◌, take, drop, append_assoc, append-nil,
  take-append-drop, pos, arith,
}
use spiped.Primitives.{Bytes, Primitives}
use spiped.Pipe.Stream.{bytes_of}
use spiped.Pipe.Callbacks.{PipeCookie, callback_pipe_write}
use spiped.Pipe.Callbacks.Data.{all_ok}
use spiped.Pipe.Callbacks.Link.{Link, pending, Runs, Flows}

module _ (p : Primitives) where
  -- After a whole write the pipe waits again.
  pub written :
      (c : PipeCookie p)
      → (callback_pipe_write p all_ok (pos c.wlen) c).0
        ≡ record c { writing = false; waiting = true }
  unfolding callback_pipe_write
  written c = ground arith

  pub pending_waiting :
      {decr : Bool} {full : ℕ} (c : PipeCookie p)
      → Runs p decr full c
      → c.waiting ≡ true
      → pending p c ≡ []
  pending_waiting c r w = ground arith

  pending_writing : (c : PipeCookie p) → c.writing ≡ true → pending p c ≡ c.outbuf
  pending_writing c w = ground arith

  pub Flows-arrive :
      (l : Link p) (bs : Bytes)
      → Flows p l
      → Flows p (record l {
        sender = record (l.sender) { buffered = l.sender.buffered ++ bs };
        input = l.input ++ bs;
      })
  Flows-arrive l bs f = record {
    messages = f.messages;
    are_messages = f.are_messages;
    sends =
        let r = f.sends in
        record {
          direction = r.direction;
          full_size = r.full_size;
          one_at_a_time = r.one_at_a_time;
          whole = r.whole;
          is_open = r.is_open;
        };
    receives = f.receives;
    keys = f.keys;
    stream = f.stream;
    plain = ap (λ (t : Bytes). t ++ bs) f.plain ∙ simp append_assoc;
  }

  pub Flows-written_sender :
      (l : Link p)
      → Flows p l
      → l.sender.writing ≡ true
      → Flows p (record l {
        sender = record (l.sender) { writing = false; waiting = true };
        wire = l.wire ++ l.sender.outbuf;
      })
  Flows-written_sender l f w = record {
    messages = f.messages;
    are_messages = f.are_messages;
    sends =
        let r = f.sends in
        record {
          direction = r.direction;
          full_size = r.full_size;
          one_at_a_time = refl;
          whole = r.whole;
          is_open = r.is_open;
        };
    receives = f.receives;
    keys = f.keys;
    stream =
        ap (λ (t : Bytes). l.receiver.buffered ++ t)
          (append-nil (l.wire ++ l.sender.outbuf)
            ∙ ap (λ (t : Bytes). l.wire ++ t) (sym (pending_writing l.sender w)))
        ∙ f.stream;
    plain = f.plain;
  }

  pub Flows-carry :
      (l : Link p) (n : ℕ)
      → Flows p l
      → Flows p (record l {
        wire = drop n l.wire;
        receiver = record (l.receiver) { buffered = l.receiver.buffered ++ take n l.wire };
      })
  Flows-carry l n f = record {
    messages = f.messages;
    are_messages = f.are_messages;
    sends = f.sends;
    receives =
        let r = f.receives in
        record {
          direction = r.direction;
          full_size = r.full_size;
          one_at_a_time = r.one_at_a_time;
          whole = r.whole;
          is_open = r.is_open;
        };
    keys = f.keys;
    stream =
        append_assoc l.receiver.buffered (take n l.wire) (drop n l.wire ++ pending p l.sender)
        ∙ (ap (λ (t : Bytes). l.receiver.buffered ++ t)
              (sym (append_assoc (take n l.wire) (drop n l.wire) (pending p l.sender))
                ∙ ap (λ (t : Bytes). t ++ pending p l.sender) (take-append-drop n l.wire))
            ∙ f.stream);
    plain = f.plain;
  }

  pub Flows-written_receiver :
      (l : Link p)
      → Flows p l
      → l.receiver.writing ≡ true
      → Flows p (record l {
        receiver = record (l.receiver) { writing = false; waiting = true };
        output = l.output ++ l.receiver.outbuf;
      })
  Flows-written_receiver l f w = record {
    messages = f.messages;
    are_messages = f.are_messages;
    sends = f.sends;
    receives =
        let r = f.receives in
        record {
          direction = r.direction;
          full_size = r.full_size;
          one_at_a_time = refl;
          whole = r.whole;
          is_open = r.is_open;
        };
    keys = f.keys;
    stream = f.stream;
    plain =
        f.plain
        ∙ (ap (λ (t : Bytes). l.output ++ (t ++ (bytes_of f.messages ++ l.sender.buffered)))
              (pending_writing l.receiver w)
            ∙ sym (
                append_assoc l.output l.receiver.outbuf
                  (bytes_of f.messages ++ l.sender.buffered)));
  }
