-- ===== src/Sample.antt =====
-- A concrete instance of the calls of lib/proto/proto_crypt.c into libcperciva, which shows that
-- what their headers promise can hold. It has no cryptographic strength: a checksum stands for
-- SHA256, HMAC and PBKDF2, flipping each byte's lowest bit for the cipher, and a group of two
-- elements, written as 1 and 2, for the Diffie-Hellman group.
mod Witnesses
mod Ends
mod Wire
mod Conns
mod Server
mod Threads
mod Sessions
mod Together
mod Resolver
mod Client
mod Daemon
mod DaemonRun
mod TestServer
mod TestClient
mod Rates
mod Zeros
mod Eof
use spiped.Base.{
  ℕ, zero, suc, ◌+◌, ◌*◌, ◌/◌, ◌%◌, ◌^◌, ◌<◌, ◌≡◌, ◌↔◌, refl, ap, ap₂, sym, ◌∙◌, Bool, true, false,
  ◌&&◌, [], ◌∷◌, ◌++◌, map, length, length-map, get_or, replicate, length-replicate, append_assoc,
  append-nil, ◌==◌, ==_iff, if◌then◌else◌, Bool-cases, inl, inr, arith,
}
use spiped.Primitives.{Bytes, AreBytes, dh_one, Primitives, IsDocumented}

pub sum : Bytes → ℕ
sum [] = 0
sum (b ∷ bs) = b + sum bs

pub checksum : Bytes → Bytes
unfolding sum replicate
checksum bs = replicate 32 (sum bs % 256)

pub flip : ℕ → ℕ
flip zero = 1
flip (suc zero) = 0
flip (suc (suc n)) = suc (suc (flip n))

pub verify_bytes : Bytes → Bytes → ℕ
verify_bytes [] [] = 0
verify_bytes [] (c ∷ cs) = 1
verify_bytes (b ∷ bs) [] = 1
verify_bytes (b ∷ bs) (c ∷ cs) = let rest = verify_bytes bs cs in if b == c then rest else 1

abbrev pub nonempty : Bytes → Bool
nonempty [] = false
nonempty (b ∷ bs) = true

abbrev pub element : Bool → Bytes
element true = replicate 255 0 ++ 2 ∷ []
element false = dh_one

pub enc32 : ℕ → Bytes
enc32 n = n / 2 ^ 24 % 256 ∷ n / 2 ^ 16 % 256 ∷ n / 2 ^ 8 % 256 ∷ n % 256 ∷ []

pub dec32 : Bytes → ℕ
dec32 b = get_or b 0 0 * 2 ^ 24 + get_or b 1 0 * 2 ^ 16 + get_or b 2 0 * 2 ^ 8 + get_or b 3 0

abbrev pub toy : Primitives
toy = record {
  AesKey = Bytes;
  HmacCtx = Bytes;
  ShaCtx = Bytes;
  sha256_init = [];
  sha256_update = λ c m. c ++ m;
  sha256_final = checksum;
  crypto_aes_key_expand = λ k. k;
  crypto_aesctr_buf = λ k n m. map flip m;
  hmac_sha256_init = λ k. k;
  hmac_sha256_update = λ c m. c ++ m;
  hmac_sha256_final = checksum;
  hmac_sha256_buf = λ k m. checksum (k ++ m);
  pbkdf2_sha256 = λ k s c n. replicate n (sum (k ++ s) % 256);
  crypto_verify_bytes = verify_bytes;
  crypto_dh_generate_pub = λ x. element (nonempty x);
  crypto_dh_compute = λ y x. element (get_or y 255 0 == 2 && nonempty x);
  crypto_dh_sanitycheck = λ y. false;
  be32enc = enc32;
  be32dec = dec32;
  be64enc = λ n. enc32 (n / 2 ^ 32) ++ enc32 (n % 2 ^ 32);
}

flip-flip : (n : ℕ) → flip (flip n) ≡ n
unfolding flip
flip-flip zero = refl
flip-flip (suc zero) = refl
flip-flip (suc (suc n)) = ap (λ (k : ℕ). suc (suc k)) (flip-flip n)

map-flip : (m : Bytes) → map flip (map flip m) ≡ m
map-flip [] = refl
map-flip (b ∷ bs) = ap₂ (λ (c : ℕ) (cs : Bytes). c ∷ cs) (flip-flip b) (map-flip bs)

verify_bytes_same : (a : Bytes) → verify_bytes a a ≡ 0
unfolding verify_bytes
verify_bytes_same [] = refl
verify_bytes_same (b ∷ bs) = rw ((==_iff b b).1 refl, verify_bytes_same bs) refl

verify_bytes_zero : (a b : Bytes) → verify_bytes a b ≡ 0 → a ≡ b
unfolding verify_bytes
verify_bytes_zero [] [] h = refl
verify_bytes_zero [] (c ∷ cs) h = absurd (omega arith)
verify_bytes_zero (b ∷ bs) [] h = absurd (omega arith)
verify_bytes_zero (b ∷ bs) (c ∷ cs) h = elim (Bool-cases (b == c)) [
  | inl e ↦
      ap₂ (λ (d : ℕ) (ds : Bytes). d ∷ ds) ((==_iff b c).0 e)
        (verify_bytes_zero bs cs (ground arith))
  | inr e ↦ absurd (ground arith)
]

dec32-enc32 : (n : ℕ) → n < 2 ^ 32 → dec32 (enc32 n) ≡ n
unfolding enc32 dec32
dec32-enc32 n h = omega arith

element_commute :
    (x y : Bytes)
    → element (get_or (element (nonempty x)) 255 0 == 2 && nonempty y)
      ≡ element (get_or (element (nonempty y)) 255 0 == 2 && nonempty x)
unfolding replicate
element_commute [] [] = refl
element_commute [] (c ∷ cs) = refl
element_commute (b ∷ bs) [] = refl
element_commute (b ∷ bs) (c ∷ cs) = refl

length-element : (b : Bool) → length (element b) ≡ 256
unfolding replicate
length-element true = refl
length-element false = refl

replicate-bytes : (n : ℕ) (b : ℕ) → b < 256 → AreBytes (replicate n 0 ++ b ∷ [])
unfolding replicate
replicate-bytes zero b h = (h, tt)
replicate-bytes (suc n) b h = (omega arith, replicate-bytes n b h)

element_bytes : (b : Bool) → AreBytes (element b)
element_bytes true = replicate-bytes 255 2 (omega arith)
element_bytes false = replicate-bytes 255 1 (omega arith)

one_compute : (x : Bytes) → element (get_or dh_one 255 0 == 2 && nonempty x) ≡ dh_one
unfolding replicate
one_compute x = refl

length-checksum : (c : Bytes) → length (checksum c) ≡ 32
unfolding checksum
length-checksum c = length-replicate 32 (sum c % 256)

length-enc32 : (n : ℕ) → length (enc32 n) ≡ 4
unfolding enc32
length-enc32 n = refl

-- The instance keeps every promise.
pub toy-IsDocumented : IsDocumented toy
toy-IsDocumented = record {
  sha256_update = λ c m n. append_assoc c m n;
  sha256_update_nil = λ c. append-nil c;
  hmac_final_length = λ c. length-checksum c;
  hmac_buf_length = λ k m. length-checksum (k ++ m);
  hmac_buf = λ k m. refl;
  hmac_update = λ c m n. append_assoc c m n;
  verify_iff =
      λ a b. (verify_bytes_zero a b, λ e. ap (verify_bytes a) (sym e) ∙ verify_bytes_same a);
  aesctr_length = λ k n m. length-map m flip;
  aesctr-aesctr = λ k n m. map-flip m;
  pbkdf2_length = λ k s c n. length-replicate n (sum (k ++ s) % 256);
  be32enc_length = λ n. length-enc32 n;
  be32dec-be32enc = dec32-enc32;
  dh_commute = element_commute;
  dh_compute_one = one_compute;
  dh_pub_length = λ x. length-element (nonempty x);
  dh_pub_bytes = λ x. element_bytes (nonempty x);
  dh_pub_sane = λ x. refl;
  dh_one_sane = refl;
}
