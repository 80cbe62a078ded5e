-- ===== src/Crypt/One.antt =====
-- lib/proto/proto_crypt.c, is_not_one: the big-endian 1.
use Prim.Native.Nat.{bit_or, bit_or-bitwise, digits, max}
use spiped.Base.{
  ap₂, append_cut, length-append, length-replicate, ℕ, zero, suc, ◌+◌, ◌-◌, ◌*◌, ◌/◌, ◌%◌, ◌^◌, ◌≤◌,
  ◌<◌, ◌≡◌, ◌↔◌, refl, ap, sym, ◌∙◌, [], ◌∷◌, ◌++◌, length, replicate, arith, false,
}
use spiped.Primitives.{Bytes, AreBytes, dh_one}
use spiped.Crypt.{or_bytes, sign_extend, last_byte, but_last, is_not_one, is_not_one_buf}

-- The digit recursion that `bit_or` stands for, at any fuel that is enough.
abbrev or_digits : ℕ → ℕ → ℕ → ℕ
or_digits n a b = digits (λ b. b) max n a b

or_digits_fuel : (n m a b : ℕ) → a ≤ n → a ≤ m → or_digits n a b ≡ or_digits m a b
or_digits_fuel zero zero a b h k = refl
or_digits_fuel zero (suc m) zero b h k = refl
or_digits_fuel zero (suc m) (suc a) b h k = absurd (omega arith)
or_digits_fuel (suc n) zero zero b h k = refl
or_digits_fuel (suc n) zero (suc a) b h k = absurd (omega arith)
or_digits_fuel (suc n) (suc m) zero b h k = refl
or_digits_fuel (suc n) (suc m) (suc a) b h k =
    omega (arith, or_digits_fuel n m (suc a / 2) (b / 2) (omega arith) (omega arith))

zero-bit_or : (b : ℕ) → bit_or 0 b ≡ b
zero-bit_or b = bit_or-bitwise 0 b

bit_or_step : (a b : ℕ) → bit_or a b ≡ bit_or (a / 2) (b / 2) * 2 + max (a % 2) (b % 2)
bit_or_step zero b = omega (arith, zero-bit_or b, zero-bit_or (b / 2))
bit_or_step (suc a) b = omega (
  arith,
  bit_or-bitwise (suc a) b,
  bit_or-bitwise (suc a / 2) (b / 2),
  or_digits_fuel a (suc a / 2) (suc a / 2) (b / 2) (omega arith) (omega arith),
)

-- An `or` is at least as large as each of its operands.
le-bit_or_fuel : (n a b : ℕ) → a ≤ n → (a ≤ bit_or a b) × (b ≤ bit_or a b)
le-bit_or_fuel n zero b h = (omega arith, omega (arith, zero-bit_or b))
le-bit_or_fuel zero (suc a) b h = absurd (omega arith)
le-bit_or_fuel (suc n) (suc a) b h =
    let ih = le-bit_or_fuel n (suc a / 2) (b / 2) (omega arith) in
    (omega (arith, bit_or_step (suc a) b), omega (arith, bit_or_step (suc a) b))

pub le-bit_or : (a b : ℕ) → (a ≤ bit_or a b) × (b ≤ bit_or a b)
le-bit_or a b = le-bit_or_fuel a a b (omega arith)

last_byte-lt : (b : ℕ) (bs : Bytes) → AreBytes (b ∷ bs) → last_byte b bs < 256
last_byte-lt b [] h = h.0
last_byte-lt b (c ∷ bs) h = last_byte-lt c bs h.1

or_bytes_grows : (y : ℕ) (bs : Bytes) → y ≤ or_bytes y bs
unfolding or_bytes
or_bytes_grows y [] = omega arith
or_bytes_grows y (b ∷ bs) = omega (arith, le-bit_or y b, or_bytes_grows (bit_or y b) bs)

-- Nothing but zeros is or-ed to zero.
or_bytes_zero : (y : ℕ) (bs : Bytes) → or_bytes y bs ≡ 0 → bs ≡ replicate (length bs) 0
unfolding or_bytes replicate
or_bytes_zero y [] h = refl
or_bytes_zero y (b ∷ bs) h =
    ap₂ ◌∷◌ (omega (arith, le-bit_or y b, or_bytes_grows (bit_or y b) bs))
      (or_bytes_zero (bit_or y b) bs h)

or_bytes-replicate : (n : ℕ) → or_bytes 0 (replicate n 0) ≡ 0
unfolding or_bytes replicate
or_bytes-replicate zero = refl
or_bytes-replicate (suc n) = or_bytes-replicate n

split_last : (b : ℕ) (bs : Bytes) → b ∷ bs ≡ but_last b bs ++ last_byte b bs ∷ []
split_last b [] = refl
split_last b (c ∷ bs) = ap (λ l. b ∷ l) (split_last c bs)

length-but_last : (b : ℕ) (bs : Bytes) → length (but_last b bs) ≡ length bs
length-but_last b [] = refl
length-but_last b (c ∷ bs) = ap suc (length-but_last c bs)

but_last_one :
    (n : ℕ) (b : ℕ) (bs : Bytes)
    → b ∷ bs ≡ replicate n 0 ++ 1 ∷ []
    → (but_last b bs ≡ replicate n 0) × (last_byte b bs ≡ 1)
but_last_one n b bs h =
    let e = sym (split_last b bs) ∙ h in
    let l : length bs ≡ n = omega (
      arith,
      ap length h,
      length-append {A = ℕ} (replicate n 0) (1 ∷ []),
      length-replicate {A = ℕ} n 0,
    ) in
    let cut =
      append_cut (but_last b bs) (last_byte b bs ∷ []) (replicate n 0) (1 ∷ [])
        (length-but_last b bs ∙ (l ∙ sym (length-replicate {A = ℕ} n 0))) e in
    (cut.0, cc cut.1)

-- Of a nonempty buffer of bytes, `is_not_one` is 0 exactly when it holds zeros and then a 1.
pub is_not_one_iff :
    (b : ℕ) (bs : Bytes)
    → last_byte b bs < 256
    → (is_not_one b bs ≡ 0) ↔ (b ∷ bs ≡ replicate (length bs) 0 ++ 1 ∷ [])
unfolding is_not_one
is_not_one_iff b bs h =
    let y = or_bytes 0 (but_last b bs) in
    let v = (last_byte b bs + (2 ^ 32 - 1)) % 2 ^ 32 in
    let grows = le-bit_or (sign_extend y) v in
    (
      λ e.
          let one : last_byte b bs ≡ 1 = omega arith in
          let zeros : but_last b bs ≡ replicate (length bs) 0 =
            or_bytes_zero 0 (but_last b bs) (ground arith)
            ∙ ap (λ (n : ℕ). replicate n 0) (length-but_last b bs) in
          split_last b bs ∙ ap₂ (λ (l : Bytes) (c : ℕ). l ++ c ∷ []) zeros one,
      λ e.
          let parts = but_last_one (length bs) b bs e in
          rw (parts.0, parts.1, or_bytes-replicate (length bs)) refl,
    )

-- `is_not_one` of a group element's 256 bytes says whether it differs from the big-endian 1.
pub is_not_one_buf_lem :
    (y : Bytes) → length y ≡ 256 → AreBytes y → (is_not_one_buf y ≡ false) ↔ (y ≡ dh_one)
unfolding is_not_one_buf
is_not_one_buf_lem [] l h = absurd (omega arith)
is_not_one_buf_lem (b ∷ bs) l h =
    let iff = is_not_one_iff b bs (last_byte-lt b bs h) in
    let n : length bs ≡ 255 = omega arith in
    let shape : replicate (length bs) 0 ++ 1 ∷ [] ≡ dh_one =
      ap (λ (n : ℕ). replicate n 0 ++ 1 ∷ []) n in
    (λ e. iff.0 (ground arith) ∙ shape, λ e. let z = iff.1 (e ∙ sym shape) in ground arith)
