-- ===== src/Crypt/Exchange/Sent.antt =====
-- lib/proto/proto_crypt.c, proto_crypt_dh_generate: a group element and its MAC.
use spiped.Base.{
  ℕ, zero, suc, ◌≡◌, refl, ◌++◌, [], ◌∷◌, Option, none, some, length, replicate, Bool, true, false,
  arith, if◌then◌else◌,
}
use spiped.Primitives.{Bytes, AreBytes, Primitives, IsDocumented, dh_one}
use spiped.Crypt.Exchange.{proto_crypt_dh_generate}

length-dh_one : length dh_one ≡ 256
unfolding replicate
length-dh_one = refl

replicate_bytes : (n : ℕ) → AreBytes (replicate n 0 ++ 1 ∷ [])
unfolding replicate
replicate_bytes zero = omega arith
replicate_bytes (suc n) = (omega arith, replicate_bytes n)

dh_one_bytes : AreBytes dh_one
dh_one_bytes = replicate_bytes 255

module _ (p : Primitives) where
  -- The element that an end sends: 1 without forward secrecy, else that of its private value.
  abbrev pub sent : Bytes → Bool → Bytes
  sent x nopfs = if nopfs then dh_one else p.crypto_dh_generate_pub x

  pub dh_generate_sent :
      (picked : Option Bytes) (x0 mac_key : Bytes) (nopfs : Bool) {yh x : Bytes}
      → proto_crypt_dh_generate p picked x0 mac_key nopfs ≡ some (yh, x)
      → yh ≡ sent x nopfs ++ p.hmac_sha256_buf mac_key (sent x nopfs)
  unfolding proto_crypt_dh_generate
  dh_generate_sent picked x0 mac_key true h = ground arith
  dh_generate_sent none x0 mac_key false h = absurd (ground arith)
  dh_generate_sent (some priv) x0 mac_key false h = ground arith

module _ (p : Primitives) (d : IsDocumented p) where
  pub length-sent : (x : Bytes) (nopfs : Bool) → length (sent p x nopfs) ≡ 256
  length-sent x true = length-dh_one
  length-sent x false = d.dh_pub_length x

  pub sent_bytes : (x : Bytes) (nopfs : Bool) → AreBytes (sent p x nopfs)
  sent_bytes x true = dh_one_bytes
  sent_bytes x false = d.dh_pub_bytes x

  pub sent_sane : (x : Bytes) (nopfs : Bool) → p.crypto_dh_sanitycheck (sent p x nopfs) ≡ false
  sent_sane x true = d.dh_one_sane
  sent_sane x false = d.dh_pub_sane x
