-- ===== src/Handshake/Steps.antt =====
-- lib/proto/proto_handshake.c: the callbacks of a handshake in which nothing fails.
use spiped.Base.{◌≡◌, refl, Bool, true, false, none, some, [], if◌then◌else◌, pos}
use spiped.Primitives.{Bytes, Primitives}
use spiped.Crypt.{ProtoSecret}
use spiped.Crypt.Keys.{ProtoKeys, granted}
use spiped.Crypt.Exchange.{
  proto_crypt_dhmac, proto_crypt_dh_validate, proto_crypt_dh_generate, proto_crypt_mkkeys,
}
use spiped.Handshake.{
  nonce, dh, HandshakeCookie, Answers, Outcome, continues, failed, finished, aborted,
  callback_nonce_write, callback_nonce_read, callback_dh_read, callback_dh_write,
}

module _ (p : Primitives) where
  -- Both nonce callbacks, the read first or the write first.
  abbrev pub and_then : Outcome p → (HandshakeCookie → Outcome p) → Outcome p
  and_then (continues h) f = f h
  and_then (failed r w rc) f = failed r w rc
  and_then (finished c s) f = finished c s
  and_then aborted f = aborted

  abbrev pub nonces : Bool → Answers → Bytes → HandshakeCookie → Outcome p
  nonces read_first a n h =
      if read_first
      then and_then (callback_nonce_read p a (pos 32) (record h { nonce_remote = n }))
          (λ h. callback_nonce_write p a (pos 32) h)
      else and_then (callback_nonce_write p a (pos 32) h)
          (λ h. callback_nonce_read p a (pos 32) (record h { nonce_remote = n }))

-- No call fails, and `crypto_dh_generate` picks this private value.
abbrev pub all_ok : Bytes → Answers
all_ok priv = record {
  read_ok = true;
  write_ok = true;
  picked = some priv;
  dh_ok = true;
  alloc_c = granted;
  alloc_s = granted;
}

-- A new handshake.
abbrev pub new_handshake : Bool → Bool → Bool → ProtoSecret → Bytes → HandshakeCookie
new_handshake decr nopfs requirepfs s n = record {
  decr = decr;
  nopfs = nopfs;
  requirepfs = requirepfs;
  secret = s;
  nonce_local = n;
  nonce_remote = [];
  dhmac_local = [];
  dhmac_remote = [];
  x = [];
  yh_local = [];
  yh_remote = [];
  reading = some nonce;
  writing = some nonce;
}

module _ (p : Primitives) (s : ProtoSecret) (nonce_c nonce_s : Bytes) where
  -- The MAC keys of the client's and of the server's parameter.
  abbrev pub mac_c : Bytes
  mac_c = (proto_crypt_dhmac p s nonce_c nonce_s false).0

  abbrev pub mac_s : Bytes
  mac_s = (proto_crypt_dhmac p s nonce_c nonce_s false).1

  -- The client once both nonces are through: it sends its parameter.
  abbrev pub client_sends : Bool → Bool → Bytes → Bytes → HandshakeCookie
  client_sends nopfs requirepfs yh x = record (new_handshake false nopfs requirepfs s nonce_c) {
    nonce_remote = nonce_s;
    dhmac_local = mac_c;
    dhmac_remote = mac_s;
    yh_local = yh;
    x = x;
    reading = none;
    writing = some dh;
  }

  pub client_nonces :
      (order nopfs requirepfs : Bool) (priv : Bytes) {yh x : Bytes}
      → proto_crypt_dh_generate p (some priv) [] mac_c nopfs ≡ some (yh, x)
      → nonces p order (all_ok priv) nonce_s (new_handshake false nopfs requirepfs s nonce_c)
        ≡ continues (client_sends nopfs requirepfs yh x)
  unfolding callback_nonce_read callback_nonce_write
  client_nonces true nopfs requirepfs priv g = rw g refl
  client_nonces false nopfs requirepfs priv g = rw g refl

  -- The server once both nonces are through: it reads the client's parameter.
  abbrev pub server_reads : Bool → Bool → HandshakeCookie
  server_reads nopfs requirepfs = record (new_handshake true nopfs requirepfs s nonce_s) {
    nonce_remote = nonce_c;
    dhmac_local = mac_s;
    dhmac_remote = mac_c;
    reading = some dh;
    writing = none;
  }

  pub server_nonces :
      (order nopfs requirepfs : Bool) (priv : Bytes)
      → nonces p order (all_ok priv) nonce_c (new_handshake true nopfs requirepfs s nonce_s)
        ≡ continues (server_reads nopfs requirepfs)
  unfolding callback_nonce_read callback_nonce_write proto_crypt_dhmac
  server_nonces true nopfs requirepfs priv = refl
  server_nonces false nopfs requirepfs priv = refl

  -- The server sends its parameter when it accepts the client's.
  abbrev pub server_sends : Bool → Bool → Bytes → Bytes → Bytes → HandshakeCookie
  server_sends nopfs requirepfs yh_c yh x = record (server_reads nopfs requirepfs) {
    yh_remote = yh_c;
    yh_local = yh;
    x = x;
    reading = none;
    writing = some dh;
  }

  pub server_accepts :
      (nopfs requirepfs : Bool) (priv yh_c : Bytes) {yh x : Bytes}
      → proto_crypt_dh_validate p yh_c mac_c requirepfs ≡ false
      → proto_crypt_dh_generate p (some priv) [] mac_s nopfs ≡ some (yh, x)
      → callback_dh_read p
          (all_ok priv)
          (pos 288)
          (record (server_reads nopfs requirepfs) { yh_remote = yh_c })
        ≡ continues (server_sends nopfs requirepfs yh_c yh x)
  unfolding callback_dh_read
  server_accepts nopfs requirepfs priv yh_c v g = rw (v, g) refl

  pub server_finishes :
      (nopfs requirepfs : Bool) (priv yh_c yh x : Bytes) {c k : ProtoKeys p}
      → (proto_crypt_mkkeys p true granted granted s nonce_s nonce_c yh_c x nopfs true 0).0
        ≡ some (c, k)
      → callback_dh_write p (all_ok priv) (pos 288) (server_sends nopfs requirepfs yh_c yh x)
        ≡ finished c k
  unfolding callback_dh_write
  server_finishes nopfs requirepfs priv yh_c yh x m = rw m refl

  -- The client, once its parameter is sent, reads the server's.
  abbrev pub client_reads : Bool → Bool → Bytes → Bytes → HandshakeCookie
  client_reads nopfs requirepfs yh x = record (client_sends nopfs requirepfs yh x) {
    writing = none;
    reading = some dh;
  }

  pub client_written :
      (nopfs requirepfs : Bool) (priv yh x : Bytes)
      → callback_dh_write p (all_ok priv) (pos 288) (client_sends nopfs requirepfs yh x)
        ≡ continues (client_reads nopfs requirepfs yh x)
  unfolding callback_dh_write
  client_written nopfs requirepfs priv yh x = refl

  pub client_finishes :
      (nopfs requirepfs : Bool) (priv yh x yh_s : Bytes) {c k : ProtoKeys p}
      → proto_crypt_dh_validate p yh_s mac_s requirepfs ≡ false
      → (proto_crypt_mkkeys p true granted granted s nonce_c nonce_s yh_s x nopfs false 0).0
        ≡ some (c, k)
      → callback_dh_read p
          (all_ok priv)
          (pos 288)
          (record (client_reads nopfs requirepfs yh x) { yh_remote = yh_s })
        ≡ finished c k
  unfolding callback_dh_read
  client_finishes nopfs requirepfs priv yh x yh_s v m = rw (v, m) refl

  -- The six callbacks of two ends that hear what the other sent. Each end sees its nonce sent and
  -- the other's arrive in the order that it is given.
  pub record Session (order_c order_s nopfs_c nopfs_s requirepfs_c requirepfs_s : Bool)
      (priv_c priv_s : Bytes) : Type 0 where
    pub client : HandshakeCookie
    pub server : HandshakeCookie
    pub client' : HandshakeCookie
    pub server' : HandshakeCookie
    pub keys_c : ProtoKeys p
    pub keys_s : ProtoKeys p
    pub nonces_c :
        nonces p order_c
          (all_ok priv_c)
          nonce_s
          (new_handshake false nopfs_c requirepfs_c s nonce_c)
        ≡ continues client
    pub nonces_s :
        nonces p order_s (all_ok priv_s) nonce_c (new_handshake true nopfs_s requirepfs_s s nonce_s)
        ≡ continues server
    pub parameter_sent : callback_dh_write p (all_ok priv_c) (pos 288) client ≡ continues client'
    pub parameter_read :
        callback_dh_read p (all_ok priv_s) (pos 288) (record server { yh_remote = client.yh_local })
        ≡ continues server'
    pub server_done : callback_dh_write p (all_ok priv_s) (pos 288) server' ≡ finished keys_c keys_s
    pub client_done :
        callback_dh_read p
          (all_ok priv_c)
          (pos 288)
          (record client' { yh_remote = server'.yh_local })
        ≡ finished keys_c keys_s
