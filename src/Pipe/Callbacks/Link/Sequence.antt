-- ===== src/Pipe/Callbacks/Link/Sequence.antt =====
-- lib/proto/proto_pipe.c: what any sequence of steps of two pipes keeps.
use spiped.Base.{◌≡◌, refl, ap, ap₂, sym, ◌∙◌, subst, true, ◌++◌, append_assoc, append-nil}
use spiped.Primitives.{Bytes, Primitives, IsDocumented}
use spiped.Crypt.Keys.{ProtoKeys}
use spiped.Pipe.Stream.{
  AreMessages-append, bytes_of, bytes_of-append, advance, advance-append, packets, packets-append,
}
use spiped.Pipe.Callbacks.{PipeCookie, Ending}
use spiped.Pipe.Callbacks.Data.{writes, Seals, seals, Opens, opens}
use spiped.Pipe.Callbacks.Link.{
  Link, Step, arrive, read_sender, written_sender, carry, read_receiver, written_receiver, Reach,
  here, next, pending, Flows,
}
use spiped.Pipe.Callbacks.Link.Keeps.{
  written, pending_waiting, Flows-arrive, Flows-written_sender, Flows-carry, Flows-written_receiver,
}

module _ (p : Primitives) (d : IsDocumented p) where
  Flows-Seals :
      (l : Link p)
      → Flows p l
      → l.sender.waiting ≡ true
      → (s : Seals p d l.sender)
      → Flows p (record l {
        sender =
            writes p l.sender
              (advance p l.sender.k s.messages)
              (packets p l.sender.k s.messages)
              s.left;
      })
  Flows-Seals l f w s =
      let new = s.messages in
      let k = l.receiver.k in
      let idle = pending_waiting p l.sender f.sends w in
      record {
        messages = f.messages ++ new;
        are_messages = AreMessages-append f.messages new f.are_messages s.are_messages;
        sends =
            let r = f.sends in
            record {
              direction = r.direction;
              full_size = r.full_size;
              one_at_a_time = refl;
              whole = refl;
              is_open = r.is_open;
            };
        receives = f.receives;
        keys =
            ap (λ (j : ProtoKeys p). advance p j new) f.keys
            ∙ sym (advance-append p k f.messages new);
        stream =
            sym (append_assoc l.receiver.buffered l.wire (packets p l.sender.k new))
            ∙ (ap₂ (λ (t : Bytes) (j : ProtoKeys p). t ++ packets p j new)
                  (ap (λ (t : Bytes). l.receiver.buffered ++ t)
                      (sym (append-nil l.wire) ∙ ap (λ (t : Bytes). l.wire ++ t) (sym idle))
                    ∙ f.stream)
                  f.keys
                ∙ sym (packets-append p k f.messages new));
        plain =
            f.plain
            ∙ ap (λ (t : Bytes). l.output ++ (pending p l.receiver ++ t))
                (ap (λ (t : Bytes). bytes_of f.messages ++ t) s.input
                  ∙ (sym (append_assoc (bytes_of f.messages) (bytes_of new) s.left)
                      ∙ ap (λ (t : Bytes). t ++ s.left) (sym (bytes_of-append f.messages new))));
      }

  -- What the receiver holds is the first part of the packets that it has not opened.
  Flows-opens :
      (l : Link p) (f : Flows p l)
      → l.receiver.waiting ≡ true
      → (o : Opens p d l.receiver f.messages (l.wire ++ pending p l.sender))
      → Flows p (record l {
        receiver = writes p l.receiver (advance p l.receiver.k o.opened) (bytes_of o.opened) o.left;
      })
  Flows-opens l f w o =
      let k = l.receiver.k in
      let idle = pending_waiting p l.receiver f.receives w in
      record {
        messages = o.unopened;
        are_messages = o.are_unopened;
        sends = f.sends;
        receives =
            let r = f.receives in
            record {
              direction = r.direction;
              full_size = r.full_size;
              one_at_a_time = refl;
              whole = refl;
              is_open = r.is_open;
            };
        keys = f.keys ∙ (ap (advance p k) o.split ∙ advance-append p k o.opened o.unopened);
        stream = o.stream;
        plain =
            f.plain
            ∙ ap (λ (t : Bytes). l.output ++ t)
                (ap₂ (λ (s t : Bytes). s ++ (t ++ l.sender.buffered)) idle
                    (ap bytes_of o.split ∙ bytes_of-append o.opened o.unopened)
                  ∙ append_assoc (bytes_of o.opened) (bytes_of o.unopened) l.sender.buffered);
      }

  Flows-Step : {l m : Link p} → Step p l m → Flows p l → Flows p m
  Flows-Step {l} (arrive bs) f = Flows-arrive p l bs f
  Flows-Step {l} (read_sender w h) f =
      let s = seals p d l.sender f.sends.direction f.sends.full_size h in
      subst (λ (c : PipeCookie p). Flows p (record l { sender = c }))
        (sym (ap (λ (r : PipeCookie p × Ending). r.0) s.ends)) (Flows-Seals l f w s)
  Flows-Step {l} (written_sender w) f =
      subst
        (λ (c : PipeCookie p). Flows p (record l { sender = c; wire = l.wire ++ l.sender.outbuf }))
        (sym (written p l.sender)) (Flows-written_sender p l f w)
  Flows-Step {l} (carry n) f = Flows-carry p l n f
  Flows-Step {l} (read_receiver w h) f =
      let o =
        opens p d l.receiver f.messages (l.wire ++ pending p l.sender) f.receives.direction
          f.receives.full_size h f.are_messages f.stream in
      subst (λ (c : PipeCookie p). Flows p (record l { receiver = c }))
        (sym (ap (λ (r : PipeCookie p × Ending). r.0) o.ends)) (Flows-opens l f w o)
  Flows-Step {l} (written_receiver w) f =
      subst
        (λ (c : PipeCookie p).
          Flows p (record l { receiver = c; output = l.output ++ l.receiver.outbuf }))
        (sym (written p l.receiver)) (Flows-written_receiver p l f w)

  pub Flows-Reach : {l m : Link p} → Flows p l → Reach p l m → Flows p m
  Flows-Reach f here = f
  Flows-Reach f (next r s) = Flows-Step s (Flows-Reach f r)
