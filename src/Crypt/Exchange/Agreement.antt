-- ===== src/Crypt/Exchange/Agreement.antt =====
-- lib/proto/proto_crypt.c, proto_crypt_mkkeys: the two ends' keys, and the heap.
use spiped.Base.{
  ℕ, ◌+◌, ◌≡◌, refl, ap, ◌++◌, Bool, true, false, Option, none, some, ◌&&◌, ◌||◌, ◌⊎◌, ◌≢◌, length,
  take, drop, take-append, arith,
}
use spiped.Primitives.{Bytes, Primitives, IsDocumented, dh_one}
use spiped.Crypt.{ProtoSecret}
use spiped.Crypt.Keys.{KeyAlloc, granted, keypair, mkkeypair, proto_crypt_free}
use spiped.Crypt.Exchange.{
  proto_crypt_dhmac, proto_crypt_dh_generate, proto_crypt_mkkeys, exchanged, derive,
}
use spiped.Crypt.Exchange.Sent.{sent, length-sent, dh_generate_sent}

module _ (p : Primitives) (d : IsDocumented p) where
  -- The server's local and remote MAC keys are the client's remote and local ones.
  pub dhmac_agree :
      (s : ProtoSecret) (nonce_c nonce_s : Bytes)
      → proto_crypt_dhmac p s nonce_s nonce_c true ≡ (
        (proto_crypt_dhmac p s nonce_c nonce_s false).1,
        (proto_crypt_dhmac p s nonce_c nonce_s false).0,
      )
  unfolding proto_crypt_dhmac
  dhmac_agree s nonce_c nonce_s = refl

  -- Whatever the two ends do about forward secrecy, they compute the same `y_SC`.
  exchanged_agree :
      (x_c x_s yh_c yh_s mac_c mac_s : Bytes) (nopfs_c nopfs_s : Bool)
      → yh_c ≡ sent p x_c nopfs_c ++ mac_c
      → yh_s ≡ sent p x_s nopfs_s ++ mac_s
      → (y : Bytes) × (exchanged p true yh_s x_c nopfs_c ≡ some y)
        × (exchanged p true yh_c x_s nopfs_s ≡ some y)
  unfolding exchanged
  exchanged_agree x_c x_s yh_c yh_s mac_c mac_s true true e_c e_s = (dh_one, refl, refl)
  exchanged_agree x_c x_s yh_c yh_s mac_c mac_s true false e_c e_s = (
    dh_one,
    refl,
    rw (e_c, take-append 256 dh_one mac_c (length-sent p d x_c true), d.dh_compute_one) refl,
  )
  exchanged_agree x_c x_s yh_c yh_s mac_c mac_s false true e_c e_s = (
    dh_one,
    rw (e_s, take-append 256 dh_one mac_s (length-sent p d x_s true), d.dh_compute_one) refl,
    refl,
  )
  exchanged_agree x_c x_s yh_c yh_s mac_c mac_s false false e_c e_s = (
    p.crypto_dh_compute (p.crypto_dh_generate_pub x_s) x_c,
    rw (e_s, take-append 256 (p.crypto_dh_generate_pub x_s) mac_s (d.dh_pub_length x_s)) refl,
    rw (e_c, take-append 256 (p.crypto_dh_generate_pub x_c) mac_c (d.dh_pub_length x_c))
        (ap some (d.dh_commute x_c x_s)),
  )

  -- The keys that are made of a computed `y_SC`.
  mkkeys_exchanged :
      (s : ProtoSecret) (nonce_l nonce_r yh_r x y : Bytes) (nopfs decr : Bool) (live : ℕ)
      → exchanged p true yh_r x nopfs ≡ some y
      → let dk_2 = derive p s nonce_l nonce_r decr y in
        (proto_crypt_mkkeys p true granted granted s nonce_l nonce_r yh_r x nopfs decr live).0
        ≡ some (keypair p (take 64 dk_2), keypair p (take 64 (drop 64 dk_2)))
  unfolding proto_crypt_mkkeys mkkeypair
  mkkeys_exchanged s nonce_l nonce_r yh_r x y nopfs decr live e = rw (proto_crypt_mkkeys, e) refl

  -- When each end has the other's parameter as the other generated it, and nothing fails, both
  -- ends make the same two key structures, from one 128-byte value. Each end may or may not use
  -- forward secrecy.
  pub mkkeys_agree :
      (s : ProtoSecret) (nonce_c nonce_s : Bytes) (nopfs_c nopfs_s : Bool)
      (picked_c picked_s : Option Bytes) (x0_c x0_s mac_c mac_s : Bytes) (live_c live_s : ℕ)
      {yh_c yh_s x_c x_s : Bytes}
      → proto_crypt_dh_generate p picked_c x0_c mac_c nopfs_c ≡ some (yh_c, x_c)
      → proto_crypt_dh_generate p picked_s x0_s mac_s nopfs_s ≡ some (yh_s, x_s)
      → (dk_2 : Bytes) × (length dk_2 ≡ 128)
        × ((proto_crypt_mkkeys p true granted granted s nonce_c nonce_s yh_s x_c nopfs_c false
              live_c).0
            ≡ some (keypair p (take 64 dk_2), keypair p (take 64 (drop 64 dk_2))))
        × ((proto_crypt_mkkeys p true granted granted s nonce_s nonce_c yh_c x_s nopfs_s true
              live_s).0
            ≡ some (keypair p (take 64 dk_2), keypair p (take 64 (drop 64 dk_2))))
  unfolding derive
  mkkeys_agree s nonce_c nonce_s nopfs_c nopfs_s picked_c picked_s x0_c x0_s mac_c mac_s live_c
        live_s {yh_c} {yh_s} {x_c} {x_s} g_c g_s =
      let agreed =
        exchanged_agree x_c x_s yh_c yh_s _ _ nopfs_c nopfs_s
          (dh_generate_sent p picked_c x0_c mac_c nopfs_c g_c)
          (dh_generate_sent p picked_s x0_s mac_s nopfs_s g_s) in
      (
        derive p s nonce_c nonce_s false agreed.0,
        d.pbkdf2_length _ _ _ _,
        mkkeys_exchanged s nonce_c nonce_s yh_s x_c agreed.0 nopfs_c false live_c agreed.1,
        mkkeys_exchanged s nonce_s nonce_c yh_c x_s agreed.0 nopfs_s true live_s agreed.2,
      )

module _ (p : Primitives) where
  -- A failure of `proto_crypt_mkkeys`, at any of its calls, leaves as many heap objects as there
  -- were; a success adds the four of two key pairs. It fails exactly when one of its calls does.
  pub mkkeys_heap :
      (dh_ok : Bool) (a_c a_s : KeyAlloc) (s : ProtoSecret) (nonce_l nonce_r yh_r x : Bytes)
      (nopfs decr : Bool) (live : ℕ)
      → let (r, live') =
          proto_crypt_mkkeys p dh_ok a_c a_s s nonce_l nonce_r yh_r x nopfs decr live in
        ((r ≡ none)
          × (live' ≡ live)
          × ((nopfs || dh_ok) && (a_c.struct_ok && a_c.aes_ok) && (a_s.struct_ok && a_s.aes_ok)
              ≡ false))
        ⊎ ((r ≢ none)
            × (live' ≡ live + 4)
            × ((nopfs || dh_ok) && (a_c.struct_ok && a_c.aes_ok) && (a_s.struct_ok && a_s.aes_ok)
                ≡ true))
  unfolding proto_crypt_mkkeys mkkeypair proto_crypt_free
  mkkeys_heap dh_ok a_c a_s s nonce_l nonce_r yh_r x nopfs decr live = ground arith
