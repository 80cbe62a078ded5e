-- ===== src/Pipe/Callbacks/Link/Liveness.antt =====
-- lib/proto/proto_pipe.c: what two pipes can still deliver.
use spiped.Base.{◌≡◌, ap, ◌∙◌, true, false, some, length, length-drop, drop, pos, arith}
use spiped.Primitives.{Primitives, IsDocumented}
use spiped.Crypt.Keys.{ProtoKeys}
use spiped.Pipe.Callbacks.{PipeCookie, proto_pipe}
use spiped.Pipe.Callbacks.Link.{Link, carry, Reach, next, Flows}
use spiped.Pipe.Callbacks.Link.Sequence.{Flows-Reach}
use spiped.Pipe.Callbacks.Link.Delivery.{link_of, Flows-link_of, delivers_all}
use spiped.Pipe.Callbacks.Link.Progress.{
  empty_of, Reach-Reach, Sent, Received, sender_waits, receiver_waits, sender_drains,
  receiver_drains,
}

module _ (p : Primitives) (d : IsDocumented p) where
  -- From any state, the sender gets rid of its input, and the receiver of whole packets.
  sends_all : (l : Link p) → Flows p l → Sent p l 0
  sends_all l f =
      let a = sender_waits p l f in
      let b =
        sender_drains p d (length a.last.sender.buffered) a.last (Flows-Reach p d f a.reach) a.waits
          (omega arith) in
      record {
        last = b.last;
        reach = Reach-Reach p a.reach b.reach;
        same_input = b.same_input ∙ a.same_input;
        same_receiver = b.same_receiver ∙ a.same_receiver;
        waits = b.waits;
        left = b.left;
      }

  receives_all : (l : Link p) → Flows p l → Received p l 1059
  receives_all l f =
      let a = receiver_waits p l f in
      let b =
        receiver_drains p d (length a.last.receiver.buffered) a.last (Flows-Reach p d f a.reach)
          a.waits (omega arith) in
      record {
        last = b.last;
        reach = Reach-Reach p a.reach b.reach;
        same_input = b.same_input ∙ a.same_input;
        same_sender = b.same_sender ∙ a.same_sender;
        same_wire = b.same_wire ∙ a.same_wire;
        waits = b.waits;
        left = b.left;
      }

module _ (p : Primitives) (d : IsDocumented p) (k : ProtoKeys p) {s r : PipeCookie p}
    (made_s : proto_pipe p true true true false k (pos 1) ≡ some s)
    (made_r : proto_pipe p true true true true k (pos 1) ≡ some r) where
  -- From every state that an encrypting pipe and a decrypting one with the same keys reach, some
  -- steps of the two and of the wire lead to a state in which the peer has been given everything
  -- that the sender had been given, and nothing else was given to it on the way. The calls that the
  -- callbacks make succeed.
  pub can_deliver :
      {l : Link p}
      → Reach p (link_of p s r) l
      → (m : Link p) × Reach p l m × (m.input ≡ l.input) × (m.output ≡ l.input)
  can_deliver {l} reached =
      let f = Flows-Reach p d (Flows-link_of p d k made_s made_r) reached in
      let sent = sends_all p d l f in
      let n = length sent.last.wire in
      let carried = next sent.reach (carry n) in
      let got = receives_all p d _ (Flows-Reach p d f carried) in
      let reach = Reach-Reach p carried got.reach in
      let given =
        delivers_all p d k made_s made_r (Reach-Reach p reached reach)
          (ap (λ (c : PipeCookie p). c.waiting) got.same_sender ∙ sent.waits) got.waits
          (got.same_wire
            ∙ empty_of (drop n sent.last.wire) (omega (arith, length-drop n sent.last.wire)))
          (ap (λ (c : PipeCookie p). c.buffered) got.same_sender
            ∙ empty_of sent.last.sender.buffered (omega (arith, sent.left)))
          (omega (arith, got.left)) in
      let input = got.same_input ∙ sent.same_input in (got.last, reach, input, given ∙ input)
