-- ===== src/Crypt/Packet/Shape.antt =====
-- lib/proto/proto_crypt.c, proto_crypt_enc: what a packet is made of.
use spiped.Base.{
  ℕ, ◌-◌, ◌%◌, ◌^◌, ◌≤◌, ◌≡◌, ap, ◌∙◌, some, ◌++◌, length, replicate, length-append,
  length-replicate, take-length, length-take_le, sym, take, arith,
}
use spiped.Primitives.{Bytes, Primitives, IsDocumented}
use spiped.Crypt.Keys.{ProtoKeys}
use spiped.Crypt.Packet.{next_pnum, packet_mac, pad, proto_crypt_enc}

module _ (p : Primitives) where
  -- The encrypted message of a packet.
  unfoldable pub sealed_msg : ProtoKeys p → Bytes → Bytes
  sealed_msg k m = p.crypto_aesctr_buf k.k_aes k.pnum (pad p m (length m))

  -- The packet of a message.
  unfoldable pub packet : ProtoKeys p → Bytes → Bytes
  packet k m = sealed_msg k m ++ packet_mac p k (sealed_msg k m)

module _ (p : Primitives) (d : IsDocumented p) where
  pub pad_lem :
      (m : Bytes)
      → pad p m (length m) ≡ m ++ (replicate (1024 - length m) 0 ++ p.be32enc (length m % 2 ^ 32))
  unfolding pad
  pad_lem m =
      ap (λ l. l ++ (replicate (1024 - length m) 0 ++ p.be32enc (length m % 2 ^ 32)))
        (take-length m)

  pub length-pad : (m : Bytes) → length m ≤ 1024 → length (pad p m (length m)) ≡ 1028
  length-pad m h = rw (pad_lem m) (
      omega (
        arith,
        length-append m (replicate (1024 - length m) 0 ++ p.be32enc (length m % 2 ^ 32)),
        length-append (replicate (1024 - length m) 0) (p.be32enc (length m % 2 ^ 32)),
        length-replicate {A = ℕ} (1024 - length m) 0,
        d.be32enc_length (length m % 2 ^ 32),
      ))

  pub length-sealed_msg :
      (k : ProtoKeys p) (m : Bytes) → length m ≤ 1024 → length (sealed_msg p k m) ≡ 1028
  unfolding sealed_msg
  length-sealed_msg k m h = d.aesctr_length k.k_aes k.pnum (pad p m (length m)) ∙ length-pad m h

  pub length-packet_mac : (k : ProtoKeys p) (c : Bytes) → length (packet_mac p k c) ≡ 32
  unfolding packet_mac
  length-packet_mac k c = d.hmac_final_length _

  -- A packet of a message that fits is `PCRYPT_ESZ` bytes long.
  pub length-packet : (k : ProtoKeys p) (m : Bytes) → length m ≤ 1024 → length (packet p k m) ≡ 1060
  unfolding packet
  length-packet k m h = omega (
    arith,
    length-append (sealed_msg p k m) (packet_mac p k (sealed_msg p k m)),
    length-sealed_msg k m h,
    length-packet_mac k (sealed_msg p k m),
  )

  pub enc-packet :
      (k : ProtoKeys p) (m : Bytes)
      → length m ≤ 1024
      → proto_crypt_enc p m (length m) k ≡ some (packet p k m, next_pnum p k)
  unfolding proto_crypt_enc packet sealed_msg
  enc-packet k m h = ground arith

  pad-take :
      (ibuf : Bytes) (len : ℕ)
      → len ≤ length ibuf
      → pad p ibuf len ≡ pad p (take len ibuf) (length (take len ibuf))
  unfolding pad
  pad-take ibuf len h =
      let l = length-take_le len ibuf h in
      sym (
        ap
          (λ (t : Bytes).
            t
            ++ (replicate (1024 - length (take len ibuf)) 0
                ++ p.be32enc (length (take len ibuf) % 2 ^ 32)))
          (take-length (take len ibuf))
        ∙ ap (λ (n : ℕ). take len ibuf ++ (replicate (1024 - n) 0 ++ p.be32enc (n % 2 ^ 32))) l)

  -- Encrypting the first `len` bytes of a buffer makes the packet of them.
  pub enc-take :
      (k : ProtoKeys p) (ibuf : Bytes) (len : ℕ)
      → len ≤ length ibuf
      → len ≤ 1024
      → proto_crypt_enc p ibuf len k ≡ some (packet p k (take len ibuf), next_pnum p k)
  unfolding proto_crypt_enc packet sealed_msg
  enc-take k ibuf len h fits = ground (arith, pad-take ibuf len h)
