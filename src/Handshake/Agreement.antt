-- ===== src/Handshake/Agreement.antt =====
-- lib/proto/proto_handshake.c: two ends that talk to each other.
use spiped.Base.{
  ℕ, ◌≡◌, ◌≢◌, refl, sym, ◌∙◌, inl, inr, Bool, Bool-cases, true, false, none, some, [], pos, arith,
}
use spiped.Primitives.{Bytes, Primitives, IsDocumented, dh_one}
use spiped.Crypt.{ProtoSecret}
use spiped.Crypt.Exchange.{proto_crypt_dh_validate, proto_crypt_dh_generate}
use spiped.Crypt.Exchange.Sent.{sent}
use spiped.Crypt.Exchange.Validate.{dh_validate-dh_generate}
use spiped.Crypt.Exchange.Agreement.{mkkeys_agree}
use spiped.Handshake.{Answers, upstream, failed, callback_dh_read}
use spiped.Handshake.Steps.{
  mac_c, mac_s, client_sends, server_reads, server_sends, client_reads, client_nonces,
  server_nonces, server_accepts, server_finishes, client_written, client_finishes, Session,
}

generated :
    (p : Primitives) (priv mac : Bytes) (nopfs : Bool)
    → (yh : Bytes) × (x : Bytes) × (proto_crypt_dh_generate p (some priv) [] mac nopfs
        ≡ some (yh, x))
      × (sent p x nopfs ≡ sent p priv nopfs)
unfolding proto_crypt_dh_generate
generated p priv mac true = (_, _, refl, refl)
generated p priv mac false = (_, _, refl, refl)

module _ (p : Primitives) (d : IsDocumented p) where
  -- What an end generates is accepted by an end that does not require what the first lacks.
  accepted :
      (priv mac : Bytes) (nopfs requirepfs : Bool) {yh x : Bytes}
      → proto_crypt_dh_generate p (some priv) [] mac nopfs ≡ some (yh, x)
      → sent p x nopfs ≡ sent p priv nopfs
      → (requirepfs ≡ true → sent p priv nopfs ≢ dh_one)
      → proto_crypt_dh_validate p yh mac requirepfs ≡ false
  accepted priv mac nopfs requirepfs {yh} g same strong =
      elim (Bool-cases (proto_crypt_dh_validate p yh mac requirepfs)) [
        | inl refused ↦
            let (r, one) =
              (dh_validate-dh_generate p d (some priv) [] mac nopfs requirepfs g).1.0 refused in
            absurd (strong r (sym same ∙ one))
        | inr accepts ↦ accepts
      ]

  -- Two ends with one secret, each given what the other sent, both finish, and with the same pair
  -- of keys: in every order of the nonce callbacks, with or without forward secrecy at either end,
  -- provided that no call fails and that an end that requires forward secrecy is not sent 1.
  pub handshake_agrees :
      (s : ProtoSecret) (nonce_c nonce_s : Bytes)
      (order_c order_s nopfs_c nopfs_s requirepfs_c requirepfs_s : Bool) (priv_c priv_s : Bytes)
      → (requirepfs_s ≡ true → sent p priv_c nopfs_c ≢ dh_one)
      → (requirepfs_c ≡ true → sent p priv_s nopfs_s ≢ dh_one)
      → Session p s nonce_c nonce_s order_c order_s nopfs_c nopfs_s requirepfs_c requirepfs_s priv_c
          priv_s
  handshake_agrees s nonce_c nonce_s order_c order_s nopfs_c nopfs_s requirepfs_c requirepfs_s
        priv_c priv_s strong_c strong_s =
      let mc = mac_c p s nonce_c nonce_s in
      let ms = mac_s p s nonce_c nonce_s in
      let (yh_c, x_c, g_c, same_c) = generated p priv_c mc nopfs_c in
      let (yh_s, x_s, g_s, same_s) = generated p priv_s ms nopfs_s in
      let ok_c = accepted priv_c mc nopfs_c requirepfs_s g_c same_c strong_c in
      let ok_s = accepted priv_s ms nopfs_s requirepfs_c g_s same_s strong_s in
      let agreed =
        mkkeys_agree p d s nonce_c nonce_s nopfs_c nopfs_s (some priv_c) (some priv_s) [] [] mc ms 0
          0 g_c g_s in
      record {
        client = client_sends p s nonce_c nonce_s nopfs_c requirepfs_c yh_c x_c;
        server = server_reads p s nonce_c nonce_s nopfs_s requirepfs_s;
        client' = client_reads p s nonce_c nonce_s nopfs_c requirepfs_c yh_c x_c;
        server' = server_sends p s nonce_c nonce_s nopfs_s requirepfs_s yh_c yh_s x_s;
        keys_c = _;
        keys_s = _;
        nonces_c = client_nonces p s nonce_c nonce_s order_c nopfs_c requirepfs_c priv_c g_c;
        nonces_s = server_nonces p s nonce_c nonce_s order_s nopfs_s requirepfs_s priv_s;
        parameter_sent = client_written p s nonce_c nonce_s nopfs_c requirepfs_c priv_c yh_c x_c;
        parameter_read =
            server_accepts p s nonce_c nonce_s nopfs_s requirepfs_s priv_s yh_c ok_c g_s;
        server_done =
            server_finishes p s nonce_c nonce_s nopfs_s requirepfs_s priv_s yh_c yh_s x_s agreed.3;
        client_done =
            client_finishes p s nonce_c nonce_s nopfs_c requirepfs_c priv_c yh_c x_c yh_s ok_s
              agreed.2;
      }

  -- A server that requires forward secrecy drops a client that does without it: it hands no keys
  -- on, whatever its calls report.
  pub weak_client_dropped :
      (s : ProtoSecret) (nonce_c nonce_s : Bytes) (nopfs_s : Bool) (a : Answers) (len : ℕ)
      {yh x : Bytes}
      → proto_crypt_dh_generate p none [] (mac_c p s nonce_c nonce_s) true ≡ some (yh, x)
      → callback_dh_read p a
          (pos len)
          (record (server_reads p s nonce_c nonce_s nopfs_s true) { yh_remote = yh })
        ≡ failed none none upstream
  unfolding callback_dh_read
  weak_client_dropped s nonce_c nonce_s nopfs_s a len g =
      rw
        ((dh_validate-dh_generate p d none [] (mac_c p s nonce_c nonce_s) true true g).1.1
          (refl, refl))
        (ground arith)
