-- ===== src/Crypt/Packet.antt =====
-- lib/proto/proto_crypt.c: one packet, encrypted and decrypted.
pub mod Shape
pub mod RoundTrip
pub mod Design
use spiped.Base.{
  ℕ, ◌+◌, ◌-◌, ◌%◌, ◌^◌, not, ◌||◌, Option, none, some, ◌++◌, take, drop, replicate, ltb, leb, ◌==◌,
  if◌then◌else◌,
}
use spiped.Primitives.{Bytes, Primitives}
use spiped.Crypt.{pcrypt_maxdsz}
use spiped.Crypt.Keys.{ProtoKeys}

module _ (p : Primitives) where
  open p use {
    crypto_aesctr_buf, hmac_sha256_update, hmac_sha256_final, crypto_verify_bytes, be32enc, be32dec,
    be64enc,
  }

  -- `k->pnum += 1`, on a `uint64_t`.
  abbrev pub next_pnum : ProtoKeys p → ProtoKeys p
  next_pnum k = record k { pnum = (k.pnum + 1) % 2 ^ 64 }

  -- The MAC of an encrypted message under the current packet number.
  unfoldable pub packet_mac : ProtoKeys p → Bytes → Bytes
  packet_mac k m =
      hmac_sha256_final (hmac_sha256_update (hmac_sha256_update k.ctx_init m) (be64enc k.pnum))

  -- The padded message and its length, as they stand in `obuf` before the encryption.
  unfoldable pub pad : Bytes → ℕ → Bytes
  pad ibuf len = take len ibuf ++ (replicate (pcrypt_maxdsz - len) 0 ++ be32enc (len % 2 ^ 32))

  -- `none` stands for the failed assertion.
  unfoldable pub proto_crypt_enc : Bytes → ℕ → ProtoKeys p → Option (Bytes × ProtoKeys p)
  unfolding pad packet_mac
  proto_crypt_enc ibuf len k =
      let msg = crypto_aesctr_buf k.k_aes k.pnum (pad ibuf len) in
      if leb len pcrypt_maxdsz then some (msg ++ packet_mac k msg, next_pnum k) else none

  -- `none` stands for the result -1; otherwise the bytes in `obuf`, whose number is returned.
  unfoldable pub proto_crypt_dec : Bytes → ProtoKeys p → Option Bytes × ProtoKeys p
  unfolding packet_mac
  proto_crypt_dec ibuf k =
      let hbuf = packet_mac k (take (pcrypt_maxdsz + 4) ibuf) in
      if not (crypto_verify_bytes hbuf (take 32 (drop (pcrypt_maxdsz + 4) ibuf)) == 0)
      then (none, k)
      else let msg = crypto_aesctr_buf k.k_aes k.pnum (take (pcrypt_maxdsz + 4) ibuf) in
        let len = be32dec (take 4 (drop pcrypt_maxdsz msg)) in
        if len == 0 || ltb pcrypt_maxdsz len
        then (none, next_pnum k)
        else (some (take len msg), next_pnum k)
