-- ===== src/Crypt.antt =====
-- lib/proto/proto_crypt.c: the handshake's computations and the packets.
--
-- A buffer is the list of its bytes, and a function that fills one returns it. Heap objects are
-- counted: a function that allocates or frees takes and returns the number of live ones, and the
-- outcome of each allocation is an argument.
pub mod Keys
pub mod Exchange
pub mod Packet
pub mod One
use spiped.Base.{ℕ, ◌+◌, ◌-◌, ◌%◌, ◌^◌, Bool, false, not, [], ◌∷◌, ltb, ◌==◌, if◌then◌else◌}
use Prim.Native.Nat.{bit_or}
use spiped.Primitives.{Bytes}

abbrev pub pcrypt_nonce_len : ℕ
pcrypt_nonce_len = 32

abbrev pub pcrypt_dhmac_len : ℕ
pcrypt_dhmac_len = 32

abbrev pub pcrypt_yh_len : ℕ
pcrypt_yh_len = 288

abbrev pub pcrypt_maxdsz : ℕ
pcrypt_maxdsz = 1024

abbrev pub pcrypt_esz : ℕ
pcrypt_esz = 1060

-- `struct proto_secret`: the 32 bytes of K.
pub record ProtoSecret : Type 0 where
  pub k : Bytes

-- A `char` that is or-ed with each byte: its bit pattern.
or_bytes : ℕ → Bytes → ℕ
or_bytes y [] = y
or_bytes y (b ∷ bs) = or_bytes (bit_or y b) bs

-- The `int` of a `char`'s pattern, as a 32-bit pattern, with its sign extended.
abbrev pub sign_extend : ℕ → ℕ
sign_extend y = if ltb y 128 then y else y + (2 ^ 32 - 256)

-- The last byte of a buffer, `x[len - 1]`.
abbrev pub last_byte : ℕ → Bytes → ℕ
last_byte b [] = b
last_byte b (c ∷ bs) = last_byte c bs

-- All bytes but the last.
abbrev pub but_last : ℕ → Bytes → Bytes
but_last b [] = []
but_last b (c ∷ bs) = b ∷ but_last c bs

-- The pattern of the `int` that is returned, of a buffer `b ∷ bs` of `len` > 0 bytes.
unfoldable pub is_not_one : ℕ → Bytes → ℕ
unfolding or_bytes
is_not_one b bs =
    bit_or (sign_extend (or_bytes 0 (but_last b bs))) ((last_byte b bs + (2 ^ 32 - 1)) % 2 ^ 32)

-- The same of a buffer as a list. The function is called with `CRYPTO_DH_PUBLEN` bytes.
unfoldable pub is_not_one_buf : Bytes → Bool
unfolding is_not_one
is_not_one_buf [] = false
is_not_one_buf (b ∷ bs) = not (is_not_one b bs == 0)
