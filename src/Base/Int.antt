-- ===== src/Base/Int.antt =====
-- C's signed integers, for statuses, descriptors and lengths, as far as the program compares them.
use Prim.Native.Nat.{ℕ}
use mathlib.Core.Bool.{Bool, true, false}
use spiped.Base.Tests.{ltb, ◌==◌}

-- `negsuc n` is -(n + 1).
pub data ℤ : Type 0 where
  pos : ℕ → ℤ
  negsuc : ℕ → ℤ

abbrev pub minus_one : ℤ
minus_one = negsuc 0

abbrev pub is_zero : ℤ → Bool
is_zero (pos n) = n == 0
is_zero (negsuc n) = false

abbrev pub is_minus_one : ℤ → Bool
is_minus_one (pos n) = false
is_minus_one (negsuc n) = n == 0

-- `len < n` for an `ssize_t` and a length.
abbrev pub lt_len : ℤ → ℕ → Bool
lt_len (pos m) n = ltb m n
lt_len (negsuc m) n = true
