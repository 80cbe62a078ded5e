-- ===== src/Crypt/Exchange/Validate.antt =====
-- lib/proto/proto_crypt.c, proto_crypt_dh_validate: which parameters are accepted.
use spiped.Base.{
  subst, ◌≡◌, ◌≢◌, ◌↔◌, refl, sym, ◌++◌, Option, some, length, take, drop, take-append, drop-append,
  take-all, length-take_le, length-append, Bool, Bool-cases, inl, inr, true, false, arith,
}
use spiped.Primitives.{Bytes, AreBytes, Primitives, IsDocumented, dh_one}
use spiped.Crypt.{is_not_one_buf}
use spiped.Crypt.One.{is_not_one_buf_lem}
use spiped.Crypt.Exchange.Sent.{sent, length-sent, sent_bytes, sent_sane, dh_generate_sent}
use spiped.Crypt.Exchange.{proto_crypt_dh_validate, proto_crypt_dh_generate}

module _ (p : Primitives) (d : IsDocumented p) where
  -- A received value of 288 bytes is accepted exactly when its last 32 bytes are the MAC of the
  -- first 256, these are a sane group element, and, if forward secrecy is required, not 1.
  pub dh_validate_iff :
      (yh mac_key : Bytes) (requirepfs : Bool)
      → length yh ≡ 288
      → AreBytes (take 256 yh)
      → (proto_crypt_dh_validate p yh mac_key requirepfs ≡ false) ↔ (
          (take 32 (drop 256 yh) ≡ p.hmac_sha256_buf mac_key (take 256 yh))
          × (p.crypto_dh_sanitycheck (take 256 yh) ≡ false)
          × (requirepfs ≡ true → take 256 yh ≢ dh_one))
  unfolding proto_crypt_dh_validate
  dh_validate_iff yh mac_key requirepfs l bytes =
      let y = take 256 yh in
      let one = is_not_one_buf_lem y (length-take_le 256 yh (omega arith)) bytes in
      let same = d.verify_iff (take 32 (drop 256 yh)) (p.hmac_sha256_buf mac_key y) in
      (
        λ e. (same.0 (ground arith), ground arith, λ r eq. ground (arith, one.1 eq)),
        λ (m, s, r). elim (Bool-cases (is_not_one_buf y)) [
          | inl other ↦ ground (arith, same.1 m)
          | inr is_one ↦ elim (Bool-cases requirepfs) [
            | inl required ↦ absurd (r required (one.0 is_one))
            | inr not_required ↦ ground (arith, same.1 m)
          ]
        ],
      )

  -- A sane group element with its MAC is refused for one reason only.
  validate_maced :
      (y mac_key : Bytes) (requirepfs : Bool)
      → length y ≡ 256
      → AreBytes y
      → p.crypto_dh_sanitycheck y ≡ false
      → (proto_crypt_dh_validate p (y ++ p.hmac_sha256_buf mac_key y) mac_key requirepfs ≡ true)
        ↔ ((requirepfs ≡ true) × (y ≡ dh_one))
  unfolding proto_crypt_dh_validate
  validate_maced y mac_key requirepfs l bytes sane =
      let mac = p.hmac_sha256_buf mac_key y in
      let one = is_not_one_buf_lem y l bytes in
      let same = (d.verify_iff mac mac).1 refl in
      rw
        (
          take-append 256 y mac l,
          drop-append 256 y mac l,
          take-all 32 mac (d.hmac_buf_length mac_key y),
        )
        (λ e. (ground arith, one.0 (ground arith)), λ (r, e). let z = one.1 e in ground arith)

  length-maced :
      (y mac_key : Bytes) → length y ≡ 256 → length (y ++ p.hmac_sha256_buf mac_key y) ≡ 288
  length-maced y mac_key l =
      omega (arith, length-append y (p.hmac_sha256_buf mac_key y), d.hmac_buf_length mac_key y)

  -- What one end generates is 288 bytes long, and the other end, with the same MAC key, refuses it
  -- exactly when it requires forward secrecy and the group element sent is 1: the one that an end
  -- without forward secrecy sends, or that of its private value.
  pub dh_validate-dh_generate :
      (picked : Option Bytes) (x mac_key : Bytes) (nopfs requirepfs : Bool) {yh x' : Bytes}
      → proto_crypt_dh_generate p picked x mac_key nopfs ≡ some (yh, x')
      → (length yh ≡ 288)
        × ((proto_crypt_dh_validate p yh mac_key requirepfs ≡ true)
            ↔ ((requirepfs ≡ true) × (sent p x' nopfs ≡ dh_one)))
  dh_validate-dh_generate picked x mac_key nopfs requirepfs {yh} {x'} h =
      let y = sent p x' nopfs in
      let l = length-sent p d x' nopfs in
      subst
        (λ (v : Bytes).
          (length v ≡ 288)
          × ((proto_crypt_dh_validate p v mac_key requirepfs ≡ true)
              ↔ ((requirepfs ≡ true) × (y ≡ dh_one))))
        (sym (dh_generate_sent p picked x mac_key nopfs h))
        (
          length-maced y mac_key l,
          validate_maced y mac_key requirepfs l (sent_bytes p d x' nopfs) (sent_sane p d x' nopfs),
        )
