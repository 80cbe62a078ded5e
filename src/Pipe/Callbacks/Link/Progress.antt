-- ===== src/Pipe/Callbacks/Link/Progress.antt =====
-- lib/proto/proto_pipe.c: how two pipes go on, once nothing more is given to them.
use spiped.Base.{
  ℕ, zero, suc, ◌≤◌, ◌<◌, ◌≡◌, refl, ap, ◌∙◌, inl, inr, Bool-cases, true, not, [], ◌∷◌, ◌++◌,
  length, ltb, ◌==◌, pos, arith,
}
use spiped.Primitives.{Bytes, Primitives, IsDocumented}
use spiped.Pipe.Callbacks.{PipeCookie, Ending, callback_pipe_read}
use spiped.Pipe.Callbacks.Data.{all_ok, seals, opens}
use spiped.Pipe.Callbacks.Link.{
  Link, read_sender, written_sender, read_receiver, written_receiver, Reach, here, next, pending,
  Flows,
}
use spiped.Pipe.Callbacks.Link.Keeps.{written}
use spiped.Pipe.Callbacks.Link.Sequence.{Flows-Reach}

pub empty_of : (b : Bytes) → length b ≡ 0 → b ≡ []
empty_of [] e = refl
empty_of (x ∷ b) e = absurd (omega arith)

module _ (p : Primitives) where
  pub Reach-Reach : {l m n : Link p} → Reach p l m → Reach p m n → Reach p l n
  Reach-Reach r here = r
  Reach-Reach r (next s st) = next (Reach-Reach r s) st

  -- The link goes on to one where the sender waits with nothing left, and nothing has changed for
  -- the receiver.
  pub record Sent (l : Link p) (n : ℕ) : Type 0 where
    pub last : Link p
    pub reach : Reach p l last
    pub same_input : last.input ≡ l.input
    pub same_receiver : last.receiver ≡ l.receiver
    pub waits : last.sender.waiting ≡ true
    pub left : length last.sender.buffered ≤ n

  -- The link goes on to one where the receiver waits, and nothing has changed for the sender.
  pub record Received (l : Link p) (n : ℕ) : Type 0 where
    pub last : Link p
    pub reach : Reach p l last
    pub same_input : last.input ≡ l.input
    pub same_sender : last.sender ≡ l.sender
    pub same_wire : last.wire ≡ l.wire
    pub waits : last.receiver.waiting ≡ true
    pub left : length last.receiver.buffered ≤ n

  -- A write that is going on is finished.
  pub sender_waits : (l : Link p) → Flows p l → Sent l (length l.sender.buffered)
  sender_waits l f = elim (Bool-cases l.sender.waiting) [
    | inl w ↦ record {
      last = l;
      reach = here;
      same_input = refl;
      same_receiver = refl;
      waits = w;
      left = omega arith;
    }
    | inr w ↦
        let writing : l.sender.writing ≡ true = f.sends.one_at_a_time ∙ ap not w in
        let e = written p l.sender in
        record {
          last = _;
          reach = next here (written_sender writing);
          same_input = refl;
          same_receiver = refl;
          waits = ap (λ (c : PipeCookie p). c.waiting) e;
          left = omega (arith, ap (λ (c : PipeCookie p). length c.buffered) e);
        }
  ]

  pub receiver_waits : (l : Link p) → Flows p l → Received l (length l.receiver.buffered)
  receiver_waits l f = elim (Bool-cases l.receiver.waiting) [
    | inl w ↦ record {
      last = l;
      reach = here;
      same_input = refl;
      same_sender = refl;
      same_wire = refl;
      waits = w;
      left = omega arith;
    }
    | inr w ↦
        let writing : l.receiver.writing ≡ true = f.receives.one_at_a_time ∙ ap not w in
        let e = written p l.receiver in
        record {
          last = _;
          reach = next here (written_receiver writing);
          same_input = refl;
          same_sender = refl;
          same_wire = refl;
          waits = ap (λ (c : PipeCookie p). c.waiting) e;
          left = omega (arith, ap (λ (c : PipeCookie p). length c.buffered) e);
        }
  ]

module _ (p : Primitives) (d : IsDocumented p) where
  -- One read and the write that it starts, at the sender, and then at the receiver.
  sender_round :
      (n : ℕ) (l : Link p)
      → Flows p l
      → l.sender.waiting ≡ true
      → 0 < length l.sender.buffered
      → length l.sender.buffered ≤ suc n
      → Sent p l n
  sender_round n l f w h few =
      let s = seals p d l.sender f.sends.direction f.sends.full_size h in
      let c1 = (callback_pipe_read p all_ok (pos 0) l.sender).0 in
      let e1 = ap (λ (r : PipeCookie p × Ending). r.0) s.ends in
      let e2 = written p c1 in
      record {
        last = _;
        reach =
            next (next here (read_sender w h))
              (written_sender (ap (λ (c : PipeCookie p). c.writing) e1));
        same_input = refl;
        same_receiver = refl;
        waits = ap (λ (c : PipeCookie p). c.waiting) e2;
        left = omega (
          arith,
          ap (λ (c : PipeCookie p). length c.buffered) e2,
          ap (λ (c : PipeCookie p). length c.buffered) e1,
          s.shorter,
        );
      }

  receiver_round :
      (n : ℕ) (l : Link p)
      → Flows p l
      → l.receiver.waiting ≡ true
      → 1060 ≤ length l.receiver.buffered
      → length l.receiver.buffered ≤ suc n
      → Received p l n
  receiver_round n l f w h few =
      let o =
        opens p d l.receiver f.messages (l.wire ++ pending p l.sender) f.receives.direction
          f.receives.full_size h f.are_messages f.stream in
      let c1 = (callback_pipe_read p all_ok (pos 0) l.receiver).0 in
      let e1 = ap (λ (r : PipeCookie p × Ending). r.0) o.ends in
      let e2 = written p c1 in
      record {
        last = _;
        reach =
            next (next here (read_receiver w h))
              (written_receiver (ap (λ (c : PipeCookie p). c.writing) e1));
        same_input = refl;
        same_sender = refl;
        same_wire = refl;
        waits = ap (λ (c : PipeCookie p). c.waiting) e2;
        left = omega (
          arith,
          ap (λ (c : PipeCookie p). length c.buffered) e2,
          ap (λ (c : PipeCookie p). length c.buffered) e1,
          o.shorter,
        );
      }

  pub sender_drains :
      (n : ℕ) (l : Link p)
      → Flows p l
      → l.sender.waiting ≡ true
      → length l.sender.buffered ≤ n
      → Sent p l 0
  sender_drains zero l f w few = record {
    last = l;
    reach = here;
    same_input = refl;
    same_receiver = refl;
    waits = w;
    left = few;
  }
  sender_drains (suc n) l f w few = elim (Bool-cases (length l.sender.buffered == 0)) [
    | inl e ↦ record {
      last = l;
      reach = here;
      same_input = refl;
      same_receiver = refl;
      waits = w;
      left = ground arith;
    }
    | inr e ↦
        let r = sender_round n l f w (ground arith) few in
        let t = sender_drains n r.last (Flows-Reach p d f r.reach) r.waits r.left in
        record {
          last = t.last;
          reach = Reach-Reach p r.reach t.reach;
          same_input = t.same_input ∙ r.same_input;
          same_receiver = t.same_receiver ∙ r.same_receiver;
          waits = t.waits;
          left = t.left;
        }
  ]

  pub receiver_drains :
      (n : ℕ) (l : Link p)
      → Flows p l
      → l.receiver.waiting ≡ true
      → length l.receiver.buffered ≤ n
      → Received p l 1059
  receiver_drains zero l f w few = record {
    last = l;
    reach = here;
    same_input = refl;
    same_sender = refl;
    same_wire = refl;
    waits = w;
    left = omega arith;
  }
  receiver_drains (suc n) l f w few = elim (Bool-cases (ltb (length l.receiver.buffered) 1060)) [
    | inl e ↦ record {
      last = l;
      reach = here;
      same_input = refl;
      same_sender = refl;
      same_wire = refl;
      waits = w;
      left = ground arith;
    }
    | inr e ↦
        let r = receiver_round n l f w (ground arith) few in
        let t = receiver_drains n r.last (Flows-Reach p d f r.reach) r.waits r.left in
        record {
          last = t.last;
          reach = Reach-Reach p r.reach t.reach;
          same_input = t.same_input ∙ r.same_input;
          same_sender = t.same_sender ∙ r.same_sender;
          same_wire = t.same_wire ∙ r.same_wire;
          waits = t.waits;
          left = t.left;
        }
  ]
