-- ===== src/Crypt/Keys.antt =====
-- lib/proto/proto_crypt.c: the key structures, their creation and their release.
pub mod Secret
use spiped.Base.{
  ℕ, ◌+◌, ◌-◌, Bool, true, ◌||◌, Option, none, some, List, [], ◌∷◌, length, take, drop, ◌==◌,
  if◌then◌else◌,
}
use spiped.Primitives.{Bytes, Primitives}
use spiped.Crypt.{ProtoSecret}

-- What `malloc` and `crypto_aes_key_expand` report in one call of `mkkeypair`.
pub record KeyAlloc : Type 0 where
  pub struct_ok : Bool
  pub aes_ok : Bool

-- All allocations of a call of `mkkeypair` succeed.
abbrev pub granted : KeyAlloc
granted = record { struct_ok = true; aes_ok = true }

-- What `proto_crypt_secret` meets: its allocation, whether the name is "-", whether `fopen`
-- works, what each `fread` returns, and what `feof` says afterwards.
pub record KeyFile : Type 0 where
  pub alloc_ok : Bool
  pub is_stdin : Bool
  pub opens : Bool
  pub reads : List Bytes
  pub at_eof : Bool

-- Live heap objects and open files (standard input aside).
pub record Resources : Type 0 where
  pub live : ℕ
  pub files : ℕ

module _ (p : Primitives) where
  open p use {
    AesKey, HmacCtx, ShaCtx, sha256_init, sha256_update, sha256_final, crypto_aes_key_expand,
    hmac_sha256_init,
  }

  -- `struct proto_keys`.
  pub record ProtoKeys : Type 0 where
    pub k_aes : AesKey
    pub ctx_init : HmacCtx
    pub pnum : ℕ

  -- The structure that `mkkeypair` fills in from the 64 bytes of `kbuf`.
  unfoldable pub keypair : Bytes → ProtoKeys
  keypair kbuf = record {
    k_aes = crypto_aes_key_expand (take 32 kbuf);
    ctx_init = hmac_sha256_init (take 32 (drop 32 kbuf));
    pnum = 0;
  }

  -- The structure and its AES key are one heap object each.
  unfoldable pub mkkeypair : KeyAlloc → Bytes → ℕ → Option ProtoKeys × ℕ
  mkkeypair a kbuf live =
      if a.struct_ok
      then (if a.aes_ok then (some (keypair kbuf), live + 1 + 1) else (none, live + 1 - 1))
      else (none, live)

  -- `free` of the AES key and of the structure, if there is one.
  unfoldable pub proto_crypt_free : Option ProtoKeys → ℕ → ℕ
  proto_crypt_free none live = live
  proto_crypt_free (some k) live = live - 1 - 1

  -- `while ((lenread = fread(…)) > 0) SHA256_Update(…)`.
  pub read_all : ShaCtx → List Bytes → ShaCtx
  read_all c [] = c
  read_all c (m ∷ ms) =
      let rest = read_all (sha256_update c m) ms in if length m == 0 then c else rest

  unfoldable pub proto_crypt_secret_free : Option ProtoSecret → Resources → Resources
  proto_crypt_secret_free none r = r
  proto_crypt_secret_free (some k) r = record r { live = r.live - 1 }

  close_file : KeyFile → Resources → Resources
  close_file f r = if f.is_stdin then r else record r { files = r.files - 1 }

  open_file : KeyFile → Resources → Resources
  open_file f r = if f.is_stdin then r else record r { files = r.files + 1 }

  unfoldable pub proto_crypt_secret : KeyFile → Resources → Option ProtoSecret × Resources
  unfolding proto_crypt_secret_free close_file open_file
  proto_crypt_secret f r =
      let taken : Resources = record r { live = r.live + 1 } in
      let opened = open_file f taken in
      let key : ProtoSecret = record { k = sha256_final (read_all sha256_init f.reads) } in
      if f.alloc_ok
      then (if f.is_stdin || f.opens
          then (if f.at_eof
              then (some key, close_file f opened)
              else (none, proto_crypt_secret_free (some key) (close_file f opened)))
          else (none, proto_crypt_secret_free (some key) taken))
      else (none, r)
