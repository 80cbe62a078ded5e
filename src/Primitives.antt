-- ===== src/Primitives.antt =====
-- The cryptographic calls that lib/proto/proto_crypt.c makes into libcperciva (crypto_aes.h,
-- crypto_aesctr.h, crypto_dh.h, crypto_verify_bytes.h, sha256.h, sysendian.h), as a parameter.
-- `Primitives` names the calls, and `IsDocumented` states what their headers promise of them.
use spiped.Base.{ℕ, ◌^◌, ◌<◌, ◌≡◌, ◌↔◌, Bool, false, List, [], ◌∷◌, ◌++◌, length, replicate}

abbrev pub Bytes : Type 0
Bytes = List ℕ

-- Every element is a byte.
abbrev pub AreBytes : Bytes → Type 0
AreBytes [] = Unit
AreBytes (b ∷ bs) = (b < 256) × AreBytes bs

-- `CRYPTO_DH_PUBLEN`, which is also `CRYPTO_DH_KEYLEN`.
abbrev pub crypto_dh_publen : ℕ
crypto_dh_publen = 256

-- A big-endian 1 of the length of a group element.
abbrev pub dh_one : Bytes
dh_one = replicate 255 0 ++ 1 ∷ []

pub record Primitives : Type 1 where
  pub AesKey : Type 0
  pub HmacCtx : Type 0
  pub ShaCtx : Type 0
  pub sha256_init : ShaCtx
  pub sha256_update : ShaCtx → Bytes → ShaCtx
  pub sha256_final : ShaCtx → Bytes
  pub crypto_aes_key_expand : Bytes → AesKey
  pub crypto_aesctr_buf : AesKey → ℕ → Bytes → Bytes
  pub hmac_sha256_init : Bytes → HmacCtx
  pub hmac_sha256_update : HmacCtx → Bytes → HmacCtx
  pub hmac_sha256_final : HmacCtx → Bytes
  pub hmac_sha256_buf : Bytes → Bytes → Bytes
  -- Password, salt, iterations and the length of the derived key.
  pub pbkdf2_sha256 : Bytes → Bytes → ℕ → ℕ → Bytes
  -- Zero exactly when the buffers are identical.
  pub crypto_verify_bytes : Bytes → Bytes → ℕ
  -- The public value of a private one, and the exchanged key of a public and a private value.
  pub crypto_dh_generate_pub : Bytes → Bytes
  pub crypto_dh_compute : Bytes → Bytes → Bytes
  -- Whether a public value is insane: not less than the group's modulus.
  pub crypto_dh_sanitycheck : Bytes → Bool
  pub be32enc : ℕ → Bytes
  pub be32dec : Bytes → ℕ
  pub be64enc : ℕ → Bytes

pub record IsDocumented (p : Primitives) : Type 0 where
  -- A message may be hashed in pieces.
  pub sha256_update :
      (c : p.ShaCtx) (m n : Bytes)
      → p.sha256_update (p.sha256_update c m) n ≡ p.sha256_update c (m ++ n)
  pub sha256_update_nil : (c : p.ShaCtx) → p.sha256_update c [] ≡ c
  pub hmac_final_length : (c : p.HmacCtx) → length (p.hmac_sha256_final c) ≡ 32
  pub hmac_buf_length : (k m : Bytes) → length (p.hmac_sha256_buf k m) ≡ 32
  -- `HMAC_SHA256_Buf` is the three calls in turn, and a message may be absorbed in pieces.
  pub hmac_buf :
      (k m : Bytes)
      → p.hmac_sha256_buf k m ≡ p.hmac_sha256_final (p.hmac_sha256_update (p.hmac_sha256_init k) m)
  pub hmac_update :
      (c : p.HmacCtx) (m n : Bytes)
      → p.hmac_sha256_update (p.hmac_sha256_update c m) n ≡ p.hmac_sha256_update c (m ++ n)
  pub verify_iff : (a b : Bytes) → (p.crypto_verify_bytes a b ≡ 0) ↔ (a ≡ b)
  -- The keystream of a key and a nonce is applied by exclusive or.
  pub aesctr_length :
      (k : p.AesKey) (n : ℕ) (m : Bytes) → length (p.crypto_aesctr_buf k n m) ≡ length m
  pub aesctr-aesctr :
      (k : p.AesKey) (n : ℕ) (m : Bytes) → p.crypto_aesctr_buf k n (p.crypto_aesctr_buf k n m) ≡ m
  pub pbkdf2_length : (k s : Bytes) (c n : ℕ) → length (p.pbkdf2_sha256 k s c n) ≡ n
  pub be32enc_length : (n : ℕ) → length (p.be32enc n) ≡ 4
  pub be32dec-be32enc : (n : ℕ) → n < 2 ^ 32 → p.be32dec (p.be32enc n) ≡ n
  -- Both orders of exponentiation agree, and every power of 1 is 1.
  pub dh_commute :
      (x y : Bytes)
      → p.crypto_dh_compute (p.crypto_dh_generate_pub x) y
        ≡ p.crypto_dh_compute (p.crypto_dh_generate_pub y) x
  pub dh_compute_one : (x : Bytes) → p.crypto_dh_compute dh_one x ≡ dh_one
  pub dh_pub_length : (x : Bytes) → length (p.crypto_dh_generate_pub x) ≡ crypto_dh_publen
  pub dh_pub_bytes : (x : Bytes) → AreBytes (p.crypto_dh_generate_pub x)
  pub dh_pub_sane : (x : Bytes) → p.crypto_dh_sanitycheck (p.crypto_dh_generate_pub x) ≡ false
  pub dh_one_sane : p.crypto_dh_sanitycheck dh_one ≡ false
