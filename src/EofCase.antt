-- ===== src/EofCase.antt =====
-- perftests/standalone-enc/standalone_pipe_socketpair_one.c, pipe_decr_eof_case: a decrypting pipe
-- that is sent whole packets and a part of one more, and then the end of its input.
--
-- The keys are given, and the calls that set the test up succeed.
pub mod Keeps
pub mod Sent
pub mod Ends
pub mod Finishes
use spiped.Base.{
  ℕ, zero, suc, ◌+◌, ◌<◌, ◌≡◌, Bool, true, false, Option, none, some, [], ◌++◌, length, take, drop,
  replicate, ◌==◌, if◌then◌else◌, ℤ, pos, minus_one,
}
use spiped.Primitives.{Bytes, Primitives}
use spiped.Crypt.{pcrypt_maxdsz, pcrypt_esz}
use spiped.Crypt.Keys.{ProtoKeys}
use spiped.Crypt.Packet.{proto_crypt_enc}
use spiped.Pipe.Callbacks.{PipeCookie, Answers, callback_pipe_read, callback_pipe_write}
use spiped.Pipe.Callbacks.Data.{all_ok}

infixl 5 ◌>>=◌
abbrev pub ◌>>=◌ {ℓ κ} : {A : Type ℓ} {B : Type κ} → Option A → (A → Option B) → Option B
none >>= f = none
some a >>= f = f a

-- `inbuf`, which `memset` clears.
abbrev pub inbuf : Bytes
inbuf = replicate pcrypt_maxdsz 0

module _ (p : Primitives) where
  -- `proto_crypt_enc` into `encbuf`. `none` stands for its failed assertion.
  abbrev pub encbuf : ProtoKeys p → Option (Bytes × ProtoKeys p)
  encbuf enc = proto_crypt_enc p inbuf pcrypt_maxdsz enc

  -- What the loop over the complete frames writes, and the keys after it.
  unfoldable pub send_frames : ℕ → ProtoKeys p → Option (Bytes × ProtoKeys p)
  send_frames zero enc = some ([], enc)
  send_frames (suc n) enc = do
    (frame, enc') ← encbuf enc
    (rest, last) ← send_frames n enc'
    some (frame ++ rest, last)

  -- The part of one more frame.
  unfoldable pub send_tail : ℕ → Bytes → ProtoKeys p → Option Bytes
  send_tail tail_len sent enc = do (frame, enc') ← encbuf enc; some (sent ++ take tail_len frame)

  -- All that is written before `shutdown`.
  unfoldable pub send : ℕ → ℕ → ProtoKeys p → Option Bytes
  unfolding send_frames send_tail
  send complete_frames tail_len enc = do
    (sent, enc') ← send_frames complete_frames enc
    if tail_len == 0 then some sent else send_tail tail_len sent enc'

  -- What has been written and not been read yet, the pipe, and what it has written.
  pub record Test : Type 0 where
    pub wire : Bytes
    pub pipe : PipeCookie p
    pub output : Bytes

  -- The reader is handed any number of bytes; the pipe's callbacks run, the read callback when there
  -- is as much as it waits for.
  pub data Step (t : Test) : Test → Type 0 where
    arrive :
        (n : ℕ)
        → Step t (record t {
          wire = drop n t.wire;
          pipe = record (t.pipe) { buffered = t.pipe.buffered ++ take n t.wire };
        })
    read :
        t.pipe.waiting ≡ true
        → pcrypt_esz < length t.pipe.buffered + 1
        → Step t (record t { pipe = (callback_pipe_read p all_ok (pos 0) t.pipe).0 })
    written :
        t.pipe.writing ≡ true
        → Step t (record t {
          pipe = (callback_pipe_write p all_ok (pos t.pipe.wlen) t.pipe).0;
          output = t.output ++ t.pipe.outbuf;
        })

  pub data Run (t : Test) : Test → Type 0 where
    here : Run t t
    next : {u v : Test} → Run t u → Step u v → Run t v

  -- The reader reports the end of its input: all of it has been read, and there is less than the
  -- pipe waits for.
  pub record AtEof (t : Test) : Type 0 where
    pub waits : t.pipe.waiting ≡ true
    pub read_all : t.wire ≡ []
    pub too_little : length t.pipe.buffered < pcrypt_esz

  -- `info.status` after that callback.
  unfoldable pub info_status : Test → ℤ
  info_status t = ((callback_pipe_read p all_ok (pos 1) t.pipe).0).status

  abbrev pub started : Bytes → PipeCookie p → Test
  started sent c = record { wire = sent; pipe = c; output = [] }

-- Where the test expects 0, and where -1.
abbrev pub expected_status : ℕ → ℤ
expected_status tail_len = if tail_len == 0 then pos 0 else minus_one
