-- ===== src/Crypt/Packet/Design.antt =====
-- lib/proto/proto_crypt.c, proto_crypt_enc: the packet format that DESIGN.md gives.
use spiped.Base.{
  ℕ, ◌-◌, ◌≤◌, ◌≡◌, ap, ◌∙◌, ◌++◌, some, length, replicate, arith, take-append, take-all,
  drop-append,
}
use spiped.Primitives.{Bytes, Primitives, IsDocumented}
use spiped.Crypt.Keys.{ProtoKeys, keypair}
use spiped.Crypt.Packet.{packet_mac, proto_crypt_enc, next_pnum, pad}
use spiped.Crypt.Packet.Shape.{sealed_msg, packet, pad_lem, enc-packet}

module _ (p : Primitives) where
  -- DESIGN.md: msg_padded, msg_encrypted and P, for the keys E and H.
  abbrev pub msg_padded : Bytes → Bytes
  msg_padded m = m ++ (replicate (1024 - length m) 0 ++ p.be32enc (length m))

  abbrev pub msg_encrypted : Bytes → ℕ → Bytes → Bytes
  msg_encrypted e n m = p.crypto_aesctr_buf (p.crypto_aes_key_expand e) n (msg_padded m)

  abbrev pub packet_p : Bytes → Bytes → ℕ → Bytes → Bytes
  packet_p e h n m = msg_encrypted e n m ++ p.hmac_sha256_buf h (msg_encrypted e n m ++ p.be64enc n)

  -- The keys that `mkkeypair` makes, after `n` packets.
  abbrev pub keys_at : Bytes → ℕ → ProtoKeys p
  keys_at kbuf n = record (keypair p kbuf) { pnum = n }

module _ (p : Primitives) (d : IsDocumented p) (e h : Bytes) (he : length e ≡ 32)
    (hh : length h ≡ 32) where
  padded : (m : Bytes) → length m ≤ 1024 → pad p m (length m) ≡ msg_padded p m
  padded m fits =
      rw (pad_lem p d m)
        (ap (λ (n : ℕ). m ++ (replicate (1024 - length m) 0 ++ p.be32enc n)) (omega arith))

  sealed :
      (n : ℕ) (m : Bytes)
      → length m ≤ 1024
      → sealed_msg p (keys_at p (e ++ h) n) m ≡ msg_encrypted p e n m
  unfolding sealed_msg keypair
  sealed n m fits = rw (take-append 32 e h he, sealed_msg, padded m fits)

  mac_design :
      (n : ℕ) (c : Bytes)
      → packet_mac p (keys_at p (e ++ h) n) c ≡ p.hmac_sha256_buf h (c ++ p.be64enc n)
  unfolding packet_mac keypair
  mac_design n c =
      rw (drop-append 32 e h he, take-all 32 h hh, packet_mac, d.hmac_update, d.hmac_buf)

  -- With the keys that come of E || H, packet number n and a message M of at most 1024 bytes, the
  -- bytes are P = msg_encrypted || HMAC-SHA256(H, msg_encrypted || bigendian64(n)), where
  -- msg_encrypted = AES256-CTR(E, M || zeros || bigendian32(length M), n).
  pub enc_design :
      (n : ℕ) (m : Bytes)
      → length m ≤ 1024
      → proto_crypt_enc p m (length m) (keys_at p (e ++ h) n)
        ≡ some (packet_p p e h n m, next_pnum p (keys_at p (e ++ h) n))
  unfolding packet
  enc_design n m fits =
      enc-packet p d (keys_at p (e ++ h) n) m fits
      ∙ rw (sealed n m fits, mac_design n (msg_encrypted p e n m))
