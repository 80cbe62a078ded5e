-- ===== src/Pipe/Callbacks/Link/Delivery.antt =====
-- lib/proto/proto_pipe.c: what two pipes deliver, over any sequence of steps.
use spiped.Base.{
  ◌<◌, ◌≡◌, refl, ap, ap₂, sym, ◌∙◌, subst, Bool, true, false, some, [], ◌∷◌, ◌++◌, List, length,
  append-nil, pos, arith, length-append,
}
use mathlib.Core.Option.{some-injective}
use spiped.Pipe.Loop.{minread_of, full_buflen_of}
use spiped.Primitives.{Bytes, Primitives, IsDocumented}
use spiped.Crypt.Keys.{ProtoKeys}
use spiped.Crypt.Packet.{next_pnum}
use spiped.Crypt.Packet.Shape.{packet, length-packet}
use spiped.Pipe.Stream.{AreMessages, bytes_of, packets}
use spiped.Pipe.Callbacks.{PipeCookie, proto_pipe}
use spiped.Pipe.Callbacks.Link.{Link, Reach, Flows}
use spiped.Pipe.Callbacks.Link.Keeps.{pending_waiting}
use spiped.Pipe.Callbacks.Link.Sequence.{Flows-Reach}

module _ (p : Primitives) where
  -- Two pipes that have just been made, with nothing sent.
  abbrev pub link_of : PipeCookie p → PipeCookie p → Link p
  link_of s r = record { sender = s; wire = []; receiver = r; input = []; output = [] }

module _ (p : Primitives) (d : IsDocumented p) (k : ProtoKeys p) {s r : PipeCookie p}
    (made_s : proto_pipe p true true true false k (pos 1) ≡ some s)
    (made_r : proto_pipe p true true true true k (pos 1) ≡ some r) where
  -- The cookie that `proto_pipe` makes.
  abbrev new_pipe : Bool → PipeCookie p
  new_pipe decr = record {
    decr = decr;
    k = k;
    outbuf = [];
    buffered = [];
    waiting = true;
    writing = false;
    wlen = 0;
    minread = minread_of decr;
    full_buflen = full_buflen_of decr;
    status = pos 1;
  }

  Flows-new : Flows p (link_of p (new_pipe false) (new_pipe true))
  Flows-new = record {
    messages = [];
    are_messages = tt;
    sends = record {
      direction = refl;
      full_size = refl;
      one_at_a_time = refl;
      whole = refl;
      is_open = refl;
    };
    receives = record {
      direction = refl;
      full_size = refl;
      one_at_a_time = refl;
      whole = refl;
      is_open = refl;
    };
    keys = refl;
    stream = refl;
    plain = refl;
  }

  pub Flows-link_of : Flows p (link_of p s r)
  unfolding proto_pipe
  Flows-link_of =
      let is_s : new_pipe false ≡ s = some-injective _ s made_s in
      let is_r : new_pipe true ≡ r = some-injective _ r made_r in
      subst (λ (c : PipeCookie p). Flows p (link_of p c r)) is_s
        (subst (λ (c : PipeCookie p). Flows p (link_of p (new_pipe false) c)) is_r Flows-new)

  -- In every state that an encrypting pipe and a decrypting one with the same keys reach, however
  -- the input is cut, the wire splits the packets and the callbacks interleave, neither pipe has
  -- failed, and what was delivered is a first part of what was given. The calls that the callbacks
  -- make succeed.
  pub delivers_prefix :
      {l : Link p}
      → Reach p (link_of p s r) l
      → (l.sender.status ≡ pos 1)
        × (l.receiver.status ≡ pos 1)
        × ((rest : Bytes) × (l.input ≡ l.output ++ rest))
  delivers_prefix reached =
      let f = Flows-Reach p d Flows-link_of reached in
      (f.sends.is_open, f.receives.is_open, (_, f.plain))

  drained :
      (j : ProtoKeys p) (ms : List Bytes) (b : Bytes)
      → AreMessages ms
      → b ≡ packets p j ms
      → length b < 1060
      → bytes_of ms ≡ []
  drained j [] b valid e short = refl
  drained j (m ∷ ms) b valid e short = absurd (
      omega (
        arith,
        ap length e,
        length-append (packet p j m) (packets p (next_pnum p j) ms),
        length-packet p d j m valid.0.1,
      ))

  -- Once both pipes wait, the wire is empty, the sender has no input left and the receiver has
  -- less than a packet, everything that was given has been delivered. The calls that the callbacks
  -- make on the way succeed.
  pub delivers_all :
      {l : Link p}
      → Reach p (link_of p s r) l
      → l.sender.waiting ≡ true
      → l.receiver.waiting ≡ true
      → l.wire ≡ []
      → l.sender.buffered ≡ []
      → length l.receiver.buffered < 1060
      → l.output ≡ l.input
  delivers_all {l} reached ws wr empty no_input short =
      let f = Flows-Reach p d Flows-link_of reached in
      let idle_s = pending_waiting p l.sender f.sends ws in
      let idle_r = pending_waiting p l.receiver f.receives wr in
      let all : l.receiver.buffered ≡ packets p l.receiver.k f.messages =
        sym (append-nil l.receiver.buffered)
        ∙ (ap₂ (λ (v w : Bytes). l.receiver.buffered ++ (v ++ w)) (sym empty) (sym idle_s)
            ∙ f.stream) in
      let none_left =
        drained l.receiver.k f.messages l.receiver.buffered f.are_messages all short in
      sym (
        f.plain
        ∙ (ap₂ (λ (v w : Bytes). l.output ++ (v ++ (w ++ l.sender.buffered))) idle_r none_left
            ∙ (ap (λ (v : Bytes). l.output ++ v) no_input ∙ append-nil l.output)))
