-- ===== src/Options.antt =====
-- The command line, in spipe/main.c and spiped/main.c: both run through the options that GETOPT
-- returns, one after the other.
--
-- The text of an argument, and what reads and checks it, are parameters. An option comes with its
-- argument.
pub mod Loop
use spiped.Base.{ℕ, Bool, Option, none, some, List, [], ◌∷◌}

-- What becomes of the program: it has its options; it prints its usage, or that an argument cannot
-- be read, and exits with 1; or it prints its version and exits with 0.
pub data Parsed {ℓ} (A : Type ℓ) : Type ℓ where
  parsed : A → Parsed A
  usage eparse version : Parsed A

infixl 5 ◌>>=◌
abbrev pub ◌>>=◌ {ℓ κ} : {A : Type ℓ} {B : Type κ} → Parsed A → (A → Parsed B) → Parsed B
parsed a >>= f = f a
usage >>= f = usage
eparse >>= f = eparse
version >>= f = version

-- The loop over the options; `step` is its body.
unfoldable pub parse_options {ℓ κ} :
    {Opt : Type ℓ} {S : Type κ} → (S → Opt → Parsed S) → S → List Opt → Parsed S
parse_options step s [] = parsed s
parse_options step s (x ∷ xs) = step s x >>= λ s'. parse_options step s' xs

-- The options that the program goes on with.
abbrev pub accepted {ℓ} : {A : Type ℓ} → Parsed A → Option A
accepted (parsed a) = some a
accepted usage = none
accepted eparse = none
accepted version = none

-- Arguments, and libcperciva's functions on them: `PARSENUM` for a `size_t` and for a `double` that
-- is not below 0, and `sock_addr_validate`, `true` if it returns 0. `is_positive` is `> 0.0`, and
-- `is_moderate` holds of what is finite and not above 1e9.
pub record Arguments : Type 1 where
  pub Text : Type 0
  pub Number : Type 0
  pub number : ℕ → Number
  pub parsenum_size : Text → Option ℕ
  pub parsenum : Text → Option Number
  pub is_positive : Number → Bool
  pub is_moderate : Number → Bool
  pub sock_addr_validate : Text → Bool
