-- ===== src/Sample/Witnesses.antt =====
-- Each theorem applied at concrete inputs: packets, keys and parameters.
use spiped.Base.{
  ◌≡◌, ◌≢◌, ◌↔◌, ◌⊎◌, refl, ap, true, false, none, some, [], ◌∷◌, ◌++◌, length, replicate, arith,
  take, drop, ◌&&◌, ◌<◌, ◌≤◌, get_or, length-append, length-replicate, take-append, subst, sym,
}
use mathlib.Core.List.{flatten}
use spiped.Primitives.{Bytes, AreBytes, dh_one}
use spiped.Crypt.Exchange.Sent.{length-sent, sent_bytes}
use spiped.Sample.{toy, toy-IsDocumented, checksum, enc32, sum}
use spiped.Crypt.{ProtoSecret, is_not_one_buf}
use spiped.Crypt.Keys.{ProtoKeys, KeyFile, granted, keypair, proto_crypt_secret}
use spiped.Crypt.Keys.Secret.{proto_crypt_secret_lem}
use spiped.Crypt.Exchange.{proto_crypt_dh_validate, proto_crypt_dh_generate, proto_crypt_mkkeys}
use spiped.Crypt.Exchange.Validate.{dh_validate_iff, dh_validate-dh_generate}
use spiped.Crypt.Exchange.Agreement.{mkkeys_agree, mkkeys_heap}
use spiped.Crypt.Packet.{next_pnum, proto_crypt_enc, proto_crypt_dec, packet_mac}
use spiped.Crypt.Packet.Shape.{packet}
use spiped.Crypt.Packet.RoundTrip.{dec-enc, dec_forged, dec_accepted}
use spiped.Crypt.Packet.Design.{enc_design, keys_at, packet_p}
use spiped.Crypt.One.{is_not_one_buf_lem}

abbrev some_keys : ProtoKeys toy
some_keys = record { k_aes = 7 ∷ []; ctx_init = 9 ∷ []; pnum = 3 }

abbrev hello : Bytes
hello = 104 ∷ 101 ∷ 108 ∷ 108 ∷ 111 ∷ []

dec-enc_example :
    (proto_crypt_enc toy hello 5 some_keys
      ≡ some (packet toy some_keys hello, next_pnum toy some_keys))
    × (length (packet toy some_keys hello) ≡ 1060)
    × (proto_crypt_dec toy (packet toy some_keys hello ++ 1 ∷ []) some_keys
        ≡ (some hello, next_pnum toy some_keys))
dec-enc_example = dec-enc toy toy-IsDocumented some_keys hello (1 ∷ []) (omega arith) (omega arith)

abbrev zeros : Bytes
zeros = replicate 1060 0

zeros_refused : proto_crypt_dec toy zeros some_keys ≡ (none, some_keys)
unfolding packet_mac take drop replicate checksum sum enc32
zeros_refused =
    dec_forged toy toy-IsDocumented some_keys zeros
      (λ e. let z : 0 ≡ 12 = ap (λ (b : Bytes). get_or b 0 0) e in absurd (omega (arith, z)))

abbrev received : Bytes
received = packet toy some_keys hello ++ 1 ∷ []

dec_accepted_example :
    (take 32 (drop 1028 received) ≡ packet_mac toy some_keys (take 1028 received))
    × (0 < 5)
    × (5 ≤ 1024)
    × (hello ≡ take 5 (toy.crypto_aesctr_buf (7 ∷ []) 3 (take 1028 received)))
    × (next_pnum toy some_keys ≡ next_pnum toy some_keys)
dec_accepted_example =
    dec_accepted toy toy-IsDocumented some_keys received
      (omega (arith, length-append (packet toy some_keys hello) (1 ∷ []), dec-enc_example.1))
      (dec-enc_example.2)

abbrev raw_keys : Bytes
raw_keys = replicate 32 5 ++ replicate 32 6

enc_design_example :
    proto_crypt_enc toy hello 5 (keys_at toy raw_keys 2)
    ≡ some (
      packet_p toy (replicate 32 5) (replicate 32 6) 2 hello,
      next_pnum toy (keys_at toy raw_keys 2),
    )
enc_design_example =
    enc_design toy toy-IsDocumented (replicate 32 5) (replicate 32 6) (length-replicate 32 5)
      (length-replicate 32 6) 2 hello (omega arith)

is_not_one_buf_lem_example : (is_not_one_buf dh_one ≡ false) ↔ (dh_one ≡ dh_one)
is_not_one_buf_lem_example =
    is_not_one_buf_lem dh_one (length-sent toy toy-IsDocumented [] true)
      (sent_bytes toy toy-IsDocumented [] true)

abbrev mac_key : Bytes
mac_key = 4 ∷ []

abbrev parameter : Bytes
parameter = dh_one ++ toy.hmac_sha256_buf mac_key dh_one

made_parameter : proto_crypt_dh_generate toy none [] mac_key true ≡ some (parameter, [])
unfolding proto_crypt_dh_generate
made_parameter = refl

dh_validate-dh_generate_example :
    (length parameter ≡ 288)
    × ((proto_crypt_dh_validate toy parameter mac_key true ≡ true)
        ↔ ((true ≡ true) × (dh_one ≡ dh_one)))
dh_validate-dh_generate_example =
    dh_validate-dh_generate toy toy-IsDocumented none [] mac_key true true made_parameter

first_part : take 256 parameter ≡ dh_one
first_part =
    take-append 256 dh_one (toy.hmac_sha256_buf mac_key dh_one)
      (length-sent toy toy-IsDocumented [] true)

dh_validate_iff_example : (proto_crypt_dh_validate toy parameter mac_key true ≡ false) ↔ (
    (take 32 (drop 256 parameter) ≡ toy.hmac_sha256_buf mac_key (take 256 parameter))
    × (toy.crypto_dh_sanitycheck (take 256 parameter) ≡ false)
    × (true ≡ true → take 256 parameter ≢ dh_one))
dh_validate_iff_example =
    dh_validate_iff toy toy-IsDocumented parameter mac_key true dh_validate-dh_generate_example.0
      (subst AreBytes (sym first_part) (sent_bytes toy toy-IsDocumented [] true))

abbrev secret : ProtoSecret
secret = record { k = 1 ∷ 2 ∷ [] }

mkkeys_agree_example :
    (dk_2 : Bytes) × (length dk_2 ≡ 128)
    × ((proto_crypt_mkkeys toy true granted granted secret
          (3 ∷ [])
          (4 ∷ [])
          parameter
          []
          true
          false
          0).0
        ≡ some (keypair toy (take 64 dk_2), keypair toy (take 64 (drop 64 dk_2))))
    × ((proto_crypt_mkkeys toy true granted granted secret
          (4 ∷ [])
          (3 ∷ [])
          parameter
          []
          true
          true
          0).0
        ≡ some (keypair toy (take 64 dk_2), keypair toy (take 64 (drop 64 dk_2))))
mkkeys_agree_example =
    mkkeys_agree toy toy-IsDocumented secret (3 ∷ []) (4 ∷ []) true true none none [] [] mac_key
      mac_key 0 0 made_parameter made_parameter

heap_balanced :
    let (r, live') =
      proto_crypt_mkkeys toy true granted
        (record { struct_ok = true; aes_ok = false })
        secret
        []
        []
        parameter
        []
        true
        true
        7 in
    ((r ≡ none) × (live' ≡ 7) × (true && (true && true) && (true && false) ≡ false))
    ⊎ ((r ≢ none) × (live' ≡ 11) × (true && (true && true) && (true && false) ≡ true))
heap_balanced =
    mkkeys_heap toy true granted (record { struct_ok = true; aes_ok = false }) secret [] []
      parameter [] true true 7

abbrev key_file : KeyFile
key_file = record {
  alloc_ok = true;
  is_stdin = false;
  opens = true;
  reads = (1 ∷ []) ∷ (2 ∷ 3 ∷ []) ∷ [] ∷ [];
  at_eof = true;
}

proto_crypt_secret_lem_example :
    let (key, r') = proto_crypt_secret toy key_file (record { live = 2; files = 1 }) in
    ((true ≡ false) × (key ≡ none) × (r'.live ≡ 2) × (r'.files ≡ 1))
    ⊎ ((true ≡ true)
        × (key ≡ some (record { k = checksum (1 ∷ 2 ∷ 3 ∷ []) }))
        × (r'.live ≡ 3)
        × (r'.files ≡ 1))
unfolding flatten
proto_crypt_secret_lem_example =
    proto_crypt_secret_lem toy toy-IsDocumented key_file (record { live = 2; files = 1 })
      ((1 ∷ []) ∷ (2 ∷ 3 ∷ []) ∷ []) [] (omega arith, (omega arith, tt)) refl
