-- ===== src/Crypt/Keys/Secret.antt =====
-- lib/proto/proto_crypt.c, proto_crypt_secret: reading the key file.
use spiped.Base.{
  ℕ, ◌+◌, ◌≡◌, ◌<◌, ap, sym, ◌∙◌, ◌++◌, [], ◌∷◌, List, true, false, none, some, ◌&&◌, ◌||◌, ◌⊎◌,
  length, arith, ◌==◌, append-nil, append_assoc,
}
use mathlib.Core.List.{flatten}
use spiped.Primitives.{Bytes, Primitives, IsDocumented}
use spiped.Crypt.Keys.{KeyFile, Resources, read_all, proto_crypt_secret}

-- Every read of a list returned some bytes.
abbrev pub AllNonempty : List Bytes → Type 0
AllNonempty [] = Unit
AllNonempty (m ∷ ms) = (0 < length m) × AllNonempty ms

ne_zero : (n : ℕ) → 0 < n → (n == 0) ≡ false
ne_zero n h = ground arith

module _ (p : Primitives) (d : IsDocumented p) where
  read_all_stops :
      (c : p.ShaCtx) (m : Bytes) (ms late : List Bytes)
      → AllNonempty ms
      → read_all p (p.sha256_update c m) (ms ++ [] ∷ late) ≡ p.sha256_update c (m ++ flatten ms)
  unfolding read_all flatten
  read_all_stops c m [] late h = rw append-nil
  read_all_stops c m (n ∷ ms) late h =
      let next =
        read_all_stops c (m ++ n) ms late h.1
        ∙ ap (p.sha256_update c) (append_assoc m n (flatten ms)) in
      rw (ne_zero (length n) h.0, d.sha256_update) next

  -- When `fread` returns the pieces of a file and then nothing, the secret is the SHA256 of the
  -- whole file, however it was cut, and one heap object is added. When the allocation or `fopen`
  -- fails, or the reading stopped short of the end, there is no secret and nothing is left
  -- allocated. In each case no more files are open than were.
  pub proto_crypt_secret_lem :
      (f : KeyFile) (r : Resources) (ms late : List Bytes)
      → AllNonempty ms
      → f.reads ≡ ms ++ [] ∷ late
      → let (key, r') = proto_crypt_secret p f r in
        let ok = f.alloc_ok && ((f.is_stdin || f.opens) && f.at_eof) in
        ((ok ≡ false) × (key ≡ none) × (r'.live ≡ r.live) × (r'.files ≡ r.files))
        ⊎ ((ok ≡ true)
            × (key
                ≡ some (record { k = p.sha256_final (p.sha256_update p.sha256_init (flatten ms)) }))
            × (r'.live ≡ r.live + 1)
            × (r'.files ≡ r.files))
  unfolding proto_crypt_secret
  proto_crypt_secret_lem f r ms late h e =
      let whole : read_all p p.sha256_init f.reads ≡ p.sha256_update p.sha256_init (flatten ms) =
        rw e (
          ap (λ (c : p.ShaCtx). read_all p c (ms ++ [] ∷ late))
            (sym (d.sha256_update_nil p.sha256_init))
          ∙ read_all_stops p.sha256_init [] ms late h) in
      ground arith
