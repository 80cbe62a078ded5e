-- ===== src/Pipe/Callbacks/Data.antt =====
-- lib/proto/proto_pipe.c: callback_pipe_read on data to encrypt, and on packets of the peer.
use spiped.Base.{
  ℕ, suc, ◌+◌, ◌≤◌, ◌<◌, ◌≡◌, ◌⊎◌, refl, ap, ap₂, ◌∙◌, Bool, true, false, none, [], ◌∷◌, ◌++◌, List,
  length, drop, drop-append, length-append, pos, arith,
}
use spiped.Primitives.{Bytes, Primitives, IsDocumented}
use spiped.Crypt.{pcrypt_maxdsz, pcrypt_esz}
use spiped.Crypt.Keys.{ProtoKeys}
use spiped.Crypt.Packet.{next_pnum}
use spiped.Crypt.Packet.Shape.{packet, length-packet}
use spiped.Pipe.{finished}
use spiped.Pipe.Stream.{AreMessages, bytes_of, advance, packets}
use spiped.Pipe.Loop.{process}
use spiped.Pipe.Loop.Encrypt.{Encrypts, encrypts}
use spiped.Pipe.Loop.Decrypt.{Decrypts, decrypts}
use spiped.Pipe.Callbacks.{zero_status, Answers, PipeCookie, after_loop, callback_pipe_read}

-- Every call succeeds.
abbrev pub all_ok : Answers
all_ok = record { shutdown = none; wait_ok = true; write_ok = true }

module _ (p : Primitives) where
  -- The pipe after it has started to write `out`.
  abbrev pub writes : PipeCookie p → ProtoKeys p → Bytes → Bytes → PipeCookie p
  writes c k out left = record c {
    k = k;
    outbuf = out;
    buffered = left;
    waiting = false;
    writing = true;
    wlen = length out;
  }

  read_data :
      (c : PipeCookie p) (decr : Bool) (full : ℕ)
      → c.decr ≡ decr
      → c.full_buflen ≡ full
      → callback_pipe_read p all_ok (pos 0) c
        ≡ after_loop p all_ok
            (record c { waiting = false })
            (process p (suc (length c.buffered)) decr full c.k c.buffered 0 [])
  unfolding callback_pipe_read
  read_data c decr full e f =
      ap₂
        (λ (b : Bool) (n : ℕ).
          after_loop p all_ok (record c { waiting = false })
            (process p (suc (length c.buffered)) b n c.k c.buffered 0 []))
        e f

  start_write :
      (c : PipeCookie p) (k : ProtoKeys p) (used out left : Bytes)
      → c.buffered ≡ used ++ left
      → 0 < length out
      → after_loop p all_ok (record c { waiting = false }) (finished (0 + length used) out k)
        ≡ (writes c k out left, zero_status)
  unfolding after_loop
  start_write c k used out left e nonempty =
      let rest : drop (0 + length used) c.buffered ≡ left =
        ap₂ drop (omega arith) e ∙ drop-append (length used) used left refl in
      ground arith

module _ (p : Primitives) (d : IsDocumented p) where
  -- The encrypting pipe, with some input, writes the packets of messages that it took from the
  -- front of it.
  pub record Seals (c : PipeCookie p) : Type 0 where
    pub messages : List Bytes
    pub left : Bytes
    pub are_messages : AreMessages messages
    pub input : c.buffered ≡ bytes_of messages ++ left
    pub shorter : length left < length c.buffered
    pub ends :
        callback_pipe_read p all_ok (pos 0) c
        ≡ (writes p c (advance p c.k messages) (packets p c.k messages) left, zero_status)

  packets_pos :
      (k : ProtoKeys p) (ms : List Bytes) (rest left : Bytes)
      → AreMessages ms
      → rest ≡ bytes_of ms ++ left
      → 0 < length rest
      → (length left ≡ 0) ⊎ (8480 < length (packets p k ms) + 1024)
      → 0 < length (packets p k ms)
  packets_pos k [] rest left valid e some_input why = omega (arith, ap length e)
  packets_pos k (m ∷ ms) rest left valid e some_input why = omega (
    arith,
    length-append (packet p k m) (packets p (next_pnum p k) ms),
    length-packet p d k m valid.0.1,
  )

  bytes_pos :
      (k : ProtoKeys p) (ms : List Bytes)
      → AreMessages ms
      → 0 < length (packets p k ms)
      → 0 < length (bytes_of ms)
  bytes_pos k [] valid some_output = absurd (omega arith)
  bytes_pos k (m ∷ ms) valid some_output = omega (arith, valid.0.0, length-append m (bytes_of ms))

  Seals-of :
      (c : PipeCookie p)
      → c.decr ≡ false
      → c.full_buflen ≡ pcrypt_maxdsz
      → 0 < length c.buffered
      → Encrypts p d (suc (length c.buffered)) c.k c.buffered 0 []
      → Seals c
  Seals-of c decr full some_input r =
      let ms = r.messages in
      let sealed = packets_pos c.k ms c.buffered r.left r.are_messages r.input some_input r.why in
      record {
        messages = ms;
        left = r.left;
        are_messages = r.are_messages;
        input = r.input;
        shorter =
            let some_bytes = bytes_pos c.k ms r.are_messages sealed in
            omega (arith, ap length r.input, length-append (bytes_of ms) r.left);
        ends =
            read_data p c false pcrypt_maxdsz decr full
            ∙ (ap (after_loop p all_ok (record c { waiting = false })) r.ends
                ∙ start_write p c (advance p c.k ms) (bytes_of ms) (packets p c.k ms) r.left r.input
                    sealed);
      }

  pub seals :
      (c : PipeCookie p)
      → c.decr ≡ false
      → c.full_buflen ≡ pcrypt_maxdsz
      → 0 < length c.buffered
      → Seals c
  seals c decr full some_input = Seals-of c decr full some_input (
      encrypts p d (suc (length c.buffered)) c.k c.buffered 0 [] 0 (omega arith) (omega arith)
        (omega arith))

  -- The decrypting pipe, with at least a packet of the peer, writes the messages of packets that
  -- it took from the front.
  pub record Opens (c : PipeCookie p) (ms : List Bytes) (later : Bytes) : Type 0 where
    pub opened : List Bytes
    pub unopened : List Bytes
    pub left : Bytes
    pub split : ms ≡ opened ++ unopened
    pub are_unopened : AreMessages unopened
    pub stream : left ++ later ≡ packets p (advance p c.k opened) unopened
    pub shorter : length left < length c.buffered
    pub ends :
        callback_pipe_read p all_ok (pos 0) c
        ≡ (writes p c (advance p c.k opened) (bytes_of opened) left, zero_status)

  opened_pos :
      (k : ProtoKeys p) (ms : List Bytes) (rest left : Bytes)
      → AreMessages ms
      → rest ≡ packets p k ms ++ left
      → 1060 ≤ length rest
      → (length left < 1060) ⊎ (8480 < length (bytes_of ms) + 1060)
      → 0 < length (bytes_of ms)
  opened_pos k [] rest left valid e big why = omega (arith, ap length e)
  opened_pos k (m ∷ ms) rest left valid e big why =
      omega (arith, valid.0.0, length-append m (bytes_of ms))

  packets_some :
      (k : ProtoKeys p) (ms : List Bytes)
      → AreMessages ms
      → 0 < length (bytes_of ms)
      → 0 < length (packets p k ms)
  packets_some k [] valid some_bytes = absurd (omega arith)
  packets_some k (m ∷ ms) valid some_bytes = omega (
    arith,
    length-append (packet p k m) (packets p (next_pnum p k) ms),
    length-packet p d k m valid.0.1,
  )

  opens_of :
      (c : PipeCookie p) (ms : List Bytes) (later : Bytes)
      → c.decr ≡ true
      → c.full_buflen ≡ pcrypt_esz
      → 1060 ≤ length c.buffered
      → Decrypts p d (suc (length c.buffered)) c.k c.buffered 0 [] ms later
      → Opens c ms later
  opens_of c ms later decr full big r =
      let given = opened_pos c.k r.opened c.buffered r.left r.are_opened r.input big r.why in
      record {
        opened = r.opened;
        unopened = r.unopened;
        left = r.left;
        split = r.split;
        are_unopened = r.are_unopened;
        stream = r.stream;
        shorter =
            let taken = packets_some c.k r.opened r.are_opened given in
            omega (arith, ap length r.input, length-append (packets p c.k r.opened) r.left);
        ends =
            read_data p c true pcrypt_esz decr full
            ∙ (ap (after_loop p all_ok (record c { waiting = false })) r.ends
                ∙ start_write p c (advance p c.k r.opened) (packets p c.k r.opened)
                    (bytes_of r.opened) r.left r.input given);
      }

  pub opens :
      (c : PipeCookie p) (ms : List Bytes) (later : Bytes)
      → c.decr ≡ true
      → c.full_buflen ≡ pcrypt_esz
      → 1060 ≤ length c.buffered
      → AreMessages ms
      → c.buffered ++ later ≡ packets p c.k ms
      → Opens c ms later
  opens c ms later decr full big valid stream = opens_of c ms later decr full big (
      decrypts p d (suc (length c.buffered)) c.k c.buffered 0 [] ms later (omega arith) valid stream
        (omega arith))
