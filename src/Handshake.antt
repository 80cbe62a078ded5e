-- ===== src/Handshake.antt =====
-- lib/proto/proto_handshake.c: the state machine that one end of a handshake is.
--
-- The state is `struct handshake_cookie`. `network_read` and `network_write` put their data into
-- the cookie's buffers before their callbacks run. What the calls report is an argument.
pub mod Progress
pub mod Steps
pub mod Agreement
use spiped.Base.{Bool, true, false, ◌&&◌, Option, none, some, [], if◌then◌else◌, ℤ, lt_len}
use spiped.Primitives.{Bytes, Primitives}
use spiped.Crypt.{ProtoSecret, pcrypt_yh_len}
use spiped.Crypt.Keys.{KeyAlloc, ProtoKeys}
use spiped.Crypt.Exchange.{
  proto_crypt_dhmac, proto_crypt_dh_validate, proto_crypt_dh_generate, proto_crypt_mkkeys,
}

-- Which callback a pending read or write was started with.
pub data Transfer : Type 0 where
  nonce dh : Transfer

pub record HandshakeCookie : Type 0 where
  pub decr : Bool
  pub nopfs : Bool
  pub requirepfs : Bool
  pub secret : ProtoSecret
  pub nonce_local : Bytes
  pub nonce_remote : Bytes
  pub dhmac_local : Bytes
  pub dhmac_remote : Bytes
  pub x : Bytes
  pub yh_local : Bytes
  pub yh_remote : Bytes
  -- `read_cookie` and `write_cookie`, where `none` is NULL.
  pub reading : Option Transfer
  pub writing : Option Transfer

-- What the calls of one callback report: `network_read`, `network_write`, `crypto_dh_generate`,
-- `crypto_dh_compute`, and the allocations of the two key pairs.
pub record Answers : Type 0 where
  pub read_ok : Bool
  pub write_ok : Bool
  pub picked : Option Bytes
  pub dh_ok : Bool
  pub alloc_c : KeyAlloc
  pub alloc_s : KeyAlloc

-- What a callback returns: what the upstream callback returned, or -1.
pub data Status : Type 0 where
  upstream minus_one : Status

module _ (p : Primitives) where
  -- How a callback ends: it returns 0, and the handshake goes on; the upstream callback was made
  -- with no keys, after these transfers were cancelled, and the cookie is freed; it was made with
  -- the keys of both directions, and the cookie is freed; or an assertion failed.
  pub data Outcome : Type 0 where
    continues : HandshakeCookie → Outcome
    failed : Option Transfer → Option Transfer → Status → Outcome
    finished : ProtoKeys p → ProtoKeys p → Outcome
    aborted : Outcome

  unfoldable pub handshakefail : HandshakeCookie → Status → Outcome
  handshakefail h rc = failed h.reading h.writing rc

  -- `proto_handshake`, by whether the allocation succeeds, the nonce that `crypto_entropy_read`
  -- gives, and whether the write and the read can be started.
  unfoldable pub proto_handshake :
      Bool → Option Bytes → Bool → Bool → Bool → Bool → Bool → ProtoSecret → Option HandshakeCookie
  proto_handshake alloc_ok none write_ok read_ok decr nopfs requirepfs s = none
  proto_handshake alloc_ok (some entropy) write_ok read_ok decr nopfs requirepfs s =
      let h : HandshakeCookie = record {
        decr = decr;
        nopfs = nopfs;
        requirepfs = requirepfs;
        secret = s;
        nonce_local = entropy;
        nonce_remote = [];
        dhmac_local = [];
        dhmac_remote = [];
        x = [];
        yh_local = [];
        yh_remote = [];
        reading = some nonce;
        writing = some nonce;
      } in
      if alloc_ok && (write_ok && read_ok) then some h else none

  is_null : Option Transfer → Bool
  is_null none = true
  is_null (some t) = false

  with_keys : HandshakeCookie → Option (ProtoKeys p × ProtoKeys p) → Outcome
  unfolding handshakefail
  with_keys h none = handshakefail h minus_one
  with_keys h (some (c, s)) = finished c s

  unfoldable pub handshakedone : Answers → HandshakeCookie → Outcome
  unfolding with_keys is_null
  handshakedone a h =
      if is_null h.reading && is_null h.writing
      then with_keys h
          (proto_crypt_mkkeys p a.dh_ok a.alloc_c a.alloc_s h.secret h.nonce_local h.nonce_remote
            h.yh_remote h.x h.nopfs h.decr 0).0
      else aborted

  unfoldable pub dhread : Answers → HandshakeCookie → Outcome
  unfolding handshakefail
  dhread a h =
      if a.read_ok
      then continues (record h { reading = some dh })
      else handshakefail (record h { reading = none }) minus_one

  send_parameter : Answers → HandshakeCookie → Option (Bytes × Bytes) → Outcome
  unfolding handshakefail
  send_parameter a h none = handshakefail h minus_one
  send_parameter a h (some (yh, x)) =
      let made : HandshakeCookie = record h { yh_local = yh; x = x } in
      if a.write_ok
      then continues (record made { writing = some dh })
      else handshakefail (record made { writing = none }) minus_one

  unfoldable pub dhwrite : Answers → HandshakeCookie → Outcome
  unfolding send_parameter
  dhwrite a h = send_parameter a h (proto_crypt_dh_generate p a.picked h.x h.dhmac_local h.nopfs)

  unfoldable pub gotnonces : Answers → HandshakeCookie → Outcome
  unfolding dhread dhwrite
  gotnonces a h =
      let macs = proto_crypt_dhmac p h.secret h.nonce_local h.nonce_remote h.decr in
      let h' : HandshakeCookie = record h { dhmac_local = macs.0; dhmac_remote = macs.1 } in
      if h.decr then dhread a h' else dhwrite a h'

  unfoldable pub callback_nonce_write : Answers → ℤ → HandshakeCookie → Outcome
  unfolding gotnonces is_null handshakefail
  callback_nonce_write a len cookie =
      let h : HandshakeCookie = record cookie { writing = none } in
      if lt_len len 32
      then handshakefail h upstream
      else if is_null h.reading
      then gotnonces a h
      else continues h

  unfoldable pub callback_nonce_read : Answers → ℤ → HandshakeCookie → Outcome
  unfolding gotnonces is_null handshakefail
  callback_nonce_read a len cookie =
      let h : HandshakeCookie = record cookie { reading = none } in
      if lt_len len 32
      then handshakefail h upstream
      else if is_null h.writing
      then gotnonces a h
      else continues h

  unfoldable pub callback_dh_read : Answers → ℤ → HandshakeCookie → Outcome
  unfolding handshakedone dhwrite handshakefail
  callback_dh_read a len cookie =
      let h : HandshakeCookie = record cookie { reading = none } in
      if lt_len len pcrypt_yh_len
      then handshakefail h upstream
      else if proto_crypt_dh_validate p h.yh_remote h.dhmac_remote h.requirepfs
      then handshakefail h upstream
      else if h.decr
      then dhwrite a h
      else handshakedone a h

  unfoldable pub callback_dh_write : Answers → ℤ → HandshakeCookie → Outcome
  unfolding handshakedone dhread handshakefail
  callback_dh_write a len cookie =
      let h : HandshakeCookie = record cookie { writing = none } in
      if lt_len len pcrypt_yh_len
      then handshakefail h upstream
      else if h.decr
      then handshakedone a h
      else dhread a h

  -- The transfers that are cancelled before the cookie is freed.
  unfoldable pub proto_handshake_cancel : HandshakeCookie → Option Transfer × Option Transfer
  proto_handshake_cancel h = (h.reading, h.writing)
