-- ===== src/Spipe.antt =====
-- spipe/main.c: the options of the client.
pub mod CommandLine
pub mod Events
pub mod Program
pub mod Invariant
pub mod Shutdown
pub mod Ledger
pub mod SetUp
pub mod Outcome
pub mod Run
use spiped.Base.{
  ℕ, ◌==◌, Bool, true, false, not, ◌&&◌, ◌||◌, Option, none, some, List, if◌then◌else◌,
}
use spiped.Options.{Arguments, Parsed, parsed, usage, eparse, version, ◌>>=◌, parse_options}
use spiped.Options

abbrev pub is_some {ℓ} : {A : Type ℓ} → Option A → Bool
is_some none = false
is_some (some a) = true

module _ (a : Arguments) where
  -- The options that GETOPT returns. The last two stand for `GETOPT_MISSING_ARG` and
  -- `GETOPT_DEFAULT`.
  pub data Opt : Type 0 where
    dash_b : a.Text → Opt
    dash_f : Opt
    dash_g : Opt
    dash_j : Opt
    dash_k : a.Text → Opt
    dash_o : a.Text → Opt
    dash_t : a.Text → Opt
    dash_v : Opt
    missing_arg : Opt
    unknown : Opt

  pub record Settings : Type 0 where
    pub opt_b : Option a.Text
    pub opt_f : Bool
    pub opt_g : Bool
    pub opt_j : Bool
    pub opt_k : Option a.Text
    pub opt_o_set : Bool
    pub opt_o : a.Number
    pub opt_t : Option a.Text

  abbrev pub unset : Settings
  unset = record {
    opt_b = none;
    opt_f = false;
    opt_g = false;
    opt_j = false;
    opt_k = none;
    opt_o_set = false;
    opt_o = a.number 0;
    opt_t = none;
  }

  unfoldable pub parse_o : a.Text → Settings → Parsed Settings
  parse_o w s = elim (a.parsenum w) [
    | none ↦ eparse
    | some n ↦ parsed (record s { opt_o_set = true; opt_o = n })
  ]

  -- The body of the loop.
  unfoldable pub parse_option : Settings → Opt → Parsed Settings
  unfolding parse_o
  parse_option s (dash_b w) =
      if is_some s.opt_b then usage else parsed (record s { opt_b = some w })
  parse_option s dash_f = if s.opt_f then usage else parsed (record s { opt_f = true })
  parse_option s dash_g = if s.opt_g then usage else parsed (record s { opt_g = true })
  parse_option s dash_j = if s.opt_j then usage else parsed (record s { opt_j = true })
  parse_option s (dash_k w) =
      if is_some s.opt_k then usage else parsed (record s { opt_k = some w })
  parse_option s (dash_o w) = if s.opt_o_set then usage else parse_o w s
  parse_option s (dash_t w) =
      if is_some s.opt_t then usage else parsed (record s { opt_t = some w })
  parse_option s dash_v = version
  parse_option s missing_arg = usage
  parse_option s unknown = usage

  unfoldable pub set_defaults : Settings → Settings
  set_defaults s = if s.opt_o_set then s else record s { opt_o = a.number 5 }

  -- Whether there is an address and it is well-formed.
  abbrev pub is_address : Option a.Text → Bool
  is_address none = false
  is_address (some w) = a.sock_addr_validate w

  unfoldable pub check_options : Settings → Parsed Settings
  check_options s =
      if s.opt_f && s.opt_g
      then usage
      else if not (is_some s.opt_k)
      then usage
      else if not (a.is_positive s.opt_o)
      then usage
      else if not (is_some s.opt_t) || not (is_address s.opt_t)
      then usage
      else if is_some s.opt_b && not (is_address s.opt_b)
      then usage
      else parsed s

  -- `rest` is how many arguments the options leave over.
  unfoldable pub command_line : List Opt → ℕ → Parsed Settings
  unfolding set_defaults
  command_line xs rest = parse_options parse_option unset xs >>= λ s.
      if not (rest == 0) then usage else check_options (set_defaults s)
