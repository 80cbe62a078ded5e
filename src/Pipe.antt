-- ===== src/Pipe.antt =====
-- lib/proto/proto_pipe.c: one direction of a connection, which encrypts or decrypts.
--
-- The state is `struct pipe_cookie`, with what the buffered reader holds and whether a wait or a
-- write is in progress. What the calls report is an argument: whether a wait or a write can be
-- started, and what `shutdown` says. A callback returns the new state and how it ends.
pub mod Loop
pub mod Stream
pub mod Callbacks
use spiped.Base.{
  ℕ, ◌+◌, ◌*◌, Bool, true, false, not, ◌&&◌, Option, none, some, [], length, ltb, ◌==◌,
  if◌then◌else◌, ℤ, pos,
}
use spiped.Primitives.{Bytes, Primitives}
use spiped.Crypt.{pcrypt_maxdsz, pcrypt_esz}
use spiped.Crypt.Keys.{ProtoKeys}
use spiped.Crypt.Packet.{proto_crypt_enc, proto_crypt_dec}

-- `8 * PCRYPT_ESZ`.
abbrev pub outbufsize : ℕ
outbufsize = 8480

module _ (p : Primitives) where
  -- What one round of the loop does: `break`, a packet that is refused, a failed assertion, or
  -- the new keys, the output and the number of bytes used.
  pub data Round : Type 0 where
    stop : Round
    bad : ProtoKeys p → Round
    abort : Round
    go : ProtoKeys p → Bytes → ℕ → Round

  -- How the loop ends: with `inpos`, the bytes in `outbuf` and the keys; at a bad packet; at a
  -- failed assertion; or, with too little fuel, not at all.
  pub data LoopEnd : Type 0 where
    finished : ℕ → Bytes → ProtoKeys p → LoopEnd
    refused : ProtoKeys p → LoopEnd
    aborted : LoopEnd
    unfinished : LoopEnd

  encrypted : Option (Bytes × ProtoKeys p) → ℕ → Round
  encrypted none n = abort
  encrypted (some (o, k)) n = go k o n

  unfoldable pub decrypted : Option Bytes → ProtoKeys p → ℕ → Round
  decrypted none k n = bad k
  decrypted (some o) k n = go k o n

  -- One pass of the loop: `rest` is the input from `inpos` on, `inlen` bytes of it.
  unfoldable pub round : Bool → ℕ → ProtoKeys p → Bytes → ℕ → Round
  unfolding encrypted decrypted
  round decr full_buflen k rest outpos =
      let inlen = length rest in
      let loop_inlen = if ltb full_buflen inlen then full_buflen else inlen in
      if inlen == 0
      then stop
      else if ltb outbufsize (outpos + full_buflen)
      then stop
      else if decr && ltb loop_inlen pcrypt_esz
      then stop
      else if decr
      then decrypted (proto_crypt_dec p rest k).0 (proto_crypt_dec p rest k).1 loop_inlen
      else encrypted (proto_crypt_enc p rest loop_inlen k) loop_inlen
