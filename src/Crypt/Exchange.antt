-- ===== src/Crypt/Exchange.antt =====
-- lib/proto/proto_crypt.c: the computations of the handshake.
--
-- `decr` tells whether the local end is the server. What `crypto_dh_generate` picks, and whether
-- `crypto_dh_compute` succeeds, are arguments.
pub mod Sent
pub mod Validate
pub mod Agreement
use spiped.Base.{
  ℕ, Bool, true, false, not, Option, none, some, [], ◌∷◌, ◌++◌, take, drop, replicate, ◌==◌,
  if◌then◌else◌,
}
use spiped.Primitives.{Bytes, Primitives, crypto_dh_publen}
use spiped.Crypt.{ProtoSecret, pcrypt_dhmac_len, is_not_one_buf}
use spiped.Crypt.Keys.{KeyAlloc, ProtoKeys, mkkeypair, proto_crypt_free}

module _ (p : Primitives) where
  open p use {
    hmac_sha256_buf, pbkdf2_sha256, crypto_verify_bytes, crypto_dh_generate_pub, crypto_dh_compute,
    crypto_dh_sanitycheck,
  }

  -- The nonces in the order client, server.
  abbrev pub nonce_cs : Bytes → Bytes → Bool → Bytes
  nonce_cs nonce_l nonce_r decr =
      (if decr then nonce_r else nonce_l) ++ (if decr then nonce_l else nonce_r)

  -- The local and the remote MAC key.
  unfoldable pub proto_crypt_dhmac : ProtoSecret → Bytes → Bytes → Bool → Bytes × Bytes
  proto_crypt_dhmac s nonce_l nonce_r decr =
      let dk_1 = pbkdf2_sha256 s.k (nonce_cs nonce_l nonce_r decr) 1 64 in
      let dhmac_c = take pcrypt_dhmac_len dk_1 in
      let dhmac_s = take pcrypt_dhmac_len (drop pcrypt_dhmac_len dk_1) in
      (if decr then dhmac_s else dhmac_c, if decr then dhmac_c else dhmac_s)

  -- `true` stands for a nonzero result: the value is refused.
  unfoldable pub proto_crypt_dh_validate : Bytes → Bytes → Bool → Bool
  proto_crypt_dh_validate yh_r dhmac_r requirepfs =
      let y = take crypto_dh_publen yh_r in
      let hbuf = hmac_sha256_buf dhmac_r y in
      if not (crypto_verify_bytes (take 32 (drop crypto_dh_publen yh_r)) hbuf == 0)
      then true
      else if crypto_dh_sanitycheck y
      then true
      else if requirepfs
      then (if not (is_not_one_buf y) then true else false)
      else false

  -- The MACed parameter `yh_l` and the private value `x`, which `nopfs` leaves as it was.
  unfoldable pub proto_crypt_dh_generate :
      Option Bytes → Bytes → Bytes → Bool → Option (Bytes × Bytes)
  proto_crypt_dh_generate picked x dhmac_l nopfs =
      let mac = λ (y : Bytes). y ++ hmac_sha256_buf dhmac_l y in
      if nopfs
      then some (mac (replicate 255 0 ++ 1 ∷ []), x)
      else elim picked [ none ↦ none | some priv ↦ some (mac (crypto_dh_generate_pub priv), priv) ]

  -- `y_SC`, or a failure of `crypto_dh_compute`.
  unfoldable pub exchanged : Bool → Bytes → Bytes → Bool → Option Bytes
  exchanged dh_ok yh_r x nopfs =
      if nopfs
      then some (replicate 255 0 ++ 1 ∷ [])
      else if dh_ok
      then some (crypto_dh_compute (take crypto_dh_publen yh_r) x)
      else none

  -- `dk_2`, from the nonces and `y_SC`.
  unfoldable pub derive : ProtoSecret → Bytes → Bytes → Bool → Bytes → Bytes
  derive s nonce_l nonce_r decr y_sc =
      pbkdf2_sha256 s.k (nonce_cs nonce_l nonce_r decr ++ y_sc) 1 128

  -- The keys `eh_c` and `eh_s`, and the number of live heap objects.
  mkkeys_of : KeyAlloc → KeyAlloc → Bytes → ℕ → Option (ProtoKeys p × ProtoKeys p) × ℕ
  mkkeys_of a_c a_s dk_2 live =
      let (c, live_c) = mkkeypair p a_c (take 64 dk_2) live in
      let (s, live_s) = mkkeypair p a_s (take 64 (drop 64 dk_2)) live_c in
      elim c [
        | none ↦ (none, live_c)
        | some eh_c ↦ elim s [
          | none ↦ (none, proto_crypt_free p (some eh_c) live_s)
          | some eh_s ↦ (some (eh_c, eh_s), live_s)
        ]
      ]

  unfoldable pub proto_crypt_mkkeys :
      Bool
      → KeyAlloc
      → KeyAlloc
      → ProtoSecret
      → Bytes
      → Bytes
      → Bytes
      → Bytes
      → Bool
      → Bool
      → ℕ
      → Option (ProtoKeys p × ProtoKeys p) × ℕ
  unfolding mkkeys_of exchanged derive
  proto_crypt_mkkeys dh_ok a_c a_s s nonce_l nonce_r yh_r x nopfs decr live =
      elim (exchanged dh_ok yh_r x nopfs) [
        | none ↦ (none, live)
        | some y_sc ↦ mkkeys_of a_c a_s (derive s nonce_l nonce_r decr y_sc) live
      ]
