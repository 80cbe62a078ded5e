-- ===== src/Crypt/Packet/RoundTrip.antt =====
-- lib/proto/proto_crypt.c, proto_crypt_dec: packets, empty and forged ones.
use spiped.Base.{
  ℕ, ◌-◌, ◌%◌, ◌^◌, ◌≤◌, ◌<◌, ◌≡◌, ◌≢◌, refl, ap, sym, ◌∙◌, some, none, ◌++◌, length, take, drop,
  replicate, length-append, length-replicate, length-take_le, take-all, take-append, drop-append,
  append_assoc, ◌==◌, ==_iff, [], arith, Bool-cases, inl, inr,
}
use spiped.Primitives.{Bytes, Primitives, IsDocumented}
use spiped.Crypt.Keys.{ProtoKeys}
use spiped.Crypt.Packet.{next_pnum, packet_mac, pad, proto_crypt_enc, proto_crypt_dec}
use spiped.Crypt.Packet.Shape.{
  sealed_msg, packet, pad_lem, length-sealed_msg, length-packet_mac, length-packet, enc-packet,
}

module _ (p : Primitives) (d : IsDocumented p) where
  -- The parts of a buffer that begins with a packet.
  take_msg :
      (k : ProtoKeys p) (m rest : Bytes)
      → length m ≤ 1024
      → take 1028 (packet p k m ++ rest) ≡ sealed_msg p k m
  unfolding packet
  take_msg k m rest h =
      rw (append_assoc (sealed_msg p k m))
        (take-append 1028 (sealed_msg p k m) _ (length-sealed_msg p d k m h))

  take_mac :
      (k : ProtoKeys p) (m rest : Bytes)
      → length m ≤ 1024
      → take 32 (drop 1028 (packet p k m ++ rest)) ≡ packet_mac p k (sealed_msg p k m)
  unfolding packet
  take_mac k m rest h = rw (append_assoc (sealed_msg p k m)) (
      ap (take 32) (drop-append 1028 (sealed_msg p k m) _ (length-sealed_msg p d k m h))
      ∙ take-append 32 _ rest (length-packet_mac p d k (sealed_msg p k m)))

  decrypted :
      (k : ProtoKeys p) (m : Bytes)
      → p.crypto_aesctr_buf k.k_aes k.pnum (sealed_msg p k m) ≡ pad p m (length m)
  unfolding sealed_msg
  decrypted k m = d.aesctr-aesctr k.k_aes k.pnum (pad p m (length m))

  pad-length_field :
      (m : Bytes) → length m ≤ 1024 → p.be32dec (take 4 (drop 1024 (pad p m (length m)))) ≡ length m
  pad-length_field m h =
      rw
        (
          pad_lem p d m,
          ← append_assoc m (replicate (1024 - length m) 0) (p.be32enc (length m % 2 ^ 32)),
          drop-append 1024 (m ++ replicate (1024 - length m) 0) (p.be32enc (length m % 2 ^ 32)) (
              omega (
                arith,
                length-append m (replicate (1024 - length m) 0),
                length-replicate {A = ℕ} (1024 - length m) 0,
              )),
        )
        (rw (take-all 4 (p.be32enc (length m % 2 ^ 32)) (d.be32enc_length (length m % 2 ^ 32)))
          (d.be32dec-be32enc (length m % 2 ^ 32) (omega arith) ∙ omega arith))

  pad_message : (m : Bytes) → take (length m) (pad p m (length m)) ≡ m
  pad_message m = rw (pad_lem p d m) (take-append (length m) m _ refl)

  -- Encrypting a message of 1 to 1024 bytes gives 1060 bytes, and both ends go on to the same
  -- next packet number. Decrypting them, whatever follows them, gives the message.
  pub dec-enc :
      (k : ProtoKeys p) (m rest : Bytes)
      → 0 < length m
      → length m ≤ 1024
      → (proto_crypt_enc p m (length m) k ≡ some (packet p k m, next_pnum p k))
        × (length (packet p k m) ≡ 1060)
        × (proto_crypt_dec p (packet p k m ++ rest) k ≡ (some m, next_pnum p k))
  unfolding proto_crypt_dec
  dec-enc k m rest h0 h = (
    enc-packet p d k m h,
    length-packet p d k m h,
    rw (take_msg k m rest h, take_mac k m rest h)
        (rw (decrypted k m) (
          rw (pad-length_field m h, pad_message m)
            (ground (
              arith,
              (d.verify_iff (packet_mac p k (sealed_msg p k m))
                    (packet_mac p k (sealed_msg p k m))).1
                  refl,
            )))),
  )

  -- A packet of no bytes passes its MAC, so the packet number moves on, and is then refused.
  pub dec-enc_empty :
      (k : ProtoKeys p) (rest : Bytes)
      → (proto_crypt_enc p [] 0 k ≡ some (packet p k [], next_pnum p k))
        × (proto_crypt_dec p (packet p k [] ++ rest) k ≡ (none, next_pnum p k))
  unfolding proto_crypt_dec
  dec-enc_empty k rest = (
    enc-packet p d k [] (omega arith),
    rw (take_msg k [] rest (omega arith), take_mac k [] rest (omega arith))
        (rw (decrypted k []) (
          rw (pad-length_field [] (omega arith)) (
            ground (
              arith,
              (d.verify_iff (packet_mac p k (sealed_msg p k []))
                    (packet_mac p k (sealed_msg p k []))).1
                  refl,
            )))),
  )

  -- A buffer of a packet's size whose last 32 bytes are not the MAC of the rest under the current
  -- packet number is refused, and the keys stay as they were.
  pub dec_forged :
      (k : ProtoKeys p) (ibuf : Bytes)
      → take 32 (drop 1028 ibuf) ≢ packet_mac p k (take 1028 ibuf)
      → proto_crypt_dec p ibuf k ≡ (none, k)
  unfolding proto_crypt_dec
  dec_forged k ibuf h =
      elim (Bool-cases
        (p.crypto_verify_bytes (packet_mac p k (take 1028 ibuf)) (take 32 (drop 1028 ibuf)) == 0)) [
          | inl same ↦ absurd (h (sym ((d.verify_iff _ _).0 ((==_iff _ _).0 same))))
          | inr other ↦ rw other
        ]

  -- What is accepted of a buffer of at least a packet's size carries the MAC of its first 1028
  -- bytes under the current packet number, is 1 to 1024 bytes of what they decrypt to, and moves
  -- the packet number on by one.
  pub dec_accepted :
      (k : ProtoKeys p) (ibuf : Bytes) {k' : ProtoKeys p} {out : Bytes}
      → 1060 ≤ length ibuf
      → proto_crypt_dec p ibuf k ≡ (some out, k')
      → (take 32 (drop 1028 ibuf) ≡ packet_mac p k (take 1028 ibuf))
        × (0 < length out)
        × (length out ≤ 1024)
        × (out ≡ take (length out) (p.crypto_aesctr_buf k.k_aes k.pnum (take 1028 ibuf)))
        × (k' ≡ next_pnum p k)
  unfolding proto_crypt_dec
  dec_accepted k ibuf {out} big h =
      let c = take 1028 ibuf in
      let msg = p.crypto_aesctr_buf k.k_aes k.pnum c in
      let len = p.be32dec (take 4 (drop 1024 msg)) in
      let whole : length msg ≡ 1028 =
        d.aesctr_length k.k_aes k.pnum c ∙ length-take_le 1028 ibuf (omega arith) in
      let cut = λ (h : len ≤ length msg). length-take_le len msg h in
      elim (Bool-cases (p.crypto_verify_bytes (packet_mac p k c) (take 32 (drop 1028 ibuf)) == 0)) [
        | inl same ↦ (
          sym ((d.verify_iff _ _).0 ((==_iff _ _).0 same)),
          ground (arith, cut),
          ground (arith, cut),
          ground (arith, cut),
          ground arith,
        )
        | inr other ↦ absurd (ground arith)
      ]
