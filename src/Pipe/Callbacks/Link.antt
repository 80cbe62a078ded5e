-- ===== src/Pipe/Callbacks/Link.antt =====
-- One direction of a connection from end to end: an encrypting pipe, the wire, and the decrypting
-- pipe of the peer.
pub mod Keeps
pub mod Sequence
pub mod Delivery
pub mod Progress
pub mod Liveness
use spiped.Base.{
  ℕ, ◌+◌, ◌≤◌, ◌<◌, ◌≡◌, refl, ap, ap₂, sym, ◌∙◌, subst, Bool, true, false, not, [], ◌∷◌, ◌++◌,
  List, length, take, drop, append_assoc, append-nil, take-append-drop, if◌then◌else◌, ℤ, pos,
  arith,
}
use spiped.Primitives.{Bytes, Primitives, IsDocumented}
use spiped.Crypt.{pcrypt_maxdsz, pcrypt_esz}
use spiped.Crypt.Keys.{ProtoKeys}
use spiped.Pipe.Stream.{
  AreMessages, AreMessages-append, bytes_of, bytes_of-append, advance, advance-append, packets,
  packets-append,
}
use spiped.Pipe.Callbacks.{PipeCookie, callback_pipe_read, callback_pipe_write, zero_status}
use spiped.Pipe.Callbacks.Data.{all_ok, writes, Seals, seals, Opens, opens}

module _ (p : Primitives) where
  -- What was given to the encrypting end, and what the decrypting end has delivered, stand beside
  -- the state of the pipes and the bytes on the wire.
  pub record Link : Type 0 where
    pub sender : PipeCookie p
    pub wire : Bytes
    pub receiver : PipeCookie p
    pub input : Bytes
    pub output : Bytes

  -- Input arrives at the sender; its callbacks run; the wire hands over any number of bytes; the
  -- receiver's callbacks run. A read callback runs when there is as much as the pipe waits for.
  pub data Step (l : Link) : Link → Type 0 where
    arrive :
        (bs : Bytes)
        → Step l (record l {
          sender = record (l.sender) { buffered = l.sender.buffered ++ bs };
          input = l.input ++ bs;
        })
    read_sender :
        l.sender.waiting ≡ true
        → 0 < length l.sender.buffered
        → Step l (record l { sender = (callback_pipe_read p all_ok (pos 0) l.sender).0 })
    written_sender :
        l.sender.writing ≡ true
        → Step l (record l {
          sender = (callback_pipe_write p all_ok (pos l.sender.wlen) l.sender).0;
          wire = l.wire ++ l.sender.outbuf;
        })
    carry :
        (n : ℕ)
        → Step l (record l {
          wire = drop n l.wire;
          receiver = record (l.receiver) { buffered = l.receiver.buffered ++ take n l.wire };
        })
    read_receiver :
        l.receiver.waiting ≡ true
        → 1060 ≤ length l.receiver.buffered
        → Step l (record l { receiver = (callback_pipe_read p all_ok (pos 0) l.receiver).0 })
    written_receiver :
        l.receiver.writing ≡ true
        → Step l (record l {
          receiver = (callback_pipe_write p all_ok (pos l.receiver.wlen) l.receiver).0;
          output = l.output ++ l.receiver.outbuf;
        })

  pub data Reach (l : Link) : Link → Type 0 where
    here : Reach l l
    next : {m n : Link} → Reach l m → Step m n → Reach l n

  -- What is being written.
  abbrev pub pending : PipeCookie p → Bytes
  pending c = if c.writing then c.outbuf else []

  -- What a pipe of a link keeps: its direction, and that it waits or writes all of `outbuf`.
  pub record Runs (decr : Bool) (full : ℕ) (c : PipeCookie p) : Type 0 where
    pub direction : c.decr ≡ decr
    pub full_size : c.full_buflen ≡ full
    pub one_at_a_time : c.writing ≡ not c.waiting
    pub whole : c.wlen ≡ length c.outbuf
    pub is_open : c.status ≡ pos 1

  -- `messages` are those that the receiver has not opened.
  pub record Flows (l : Link) : Type 0 where
    pub messages : List Bytes
    pub are_messages : AreMessages messages
    pub sends : Runs false pcrypt_maxdsz l.sender
    pub receives : Runs true pcrypt_esz l.receiver
    pub keys : l.sender.k ≡ advance p l.receiver.k messages
    pub stream :
        l.receiver.buffered ++ (l.wire ++ pending l.sender) ≡ packets p l.receiver.k messages
    pub plain :
        l.input ≡ l.output ++ (pending l.receiver ++ (bytes_of messages ++ l.sender.buffered))
