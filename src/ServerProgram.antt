-- ===== src/ServerProgram.antt =====
-- spiped/main.c: the options of the server.
pub mod Table
pub mod CommandLine
pub mod SetUp
pub mod Exit
pub mod Outcome
pub mod Events
pub mod Ledger
pub mod Run
use spiped.Base.{
  ℕ, ◌==◌, ◌-◌, ◌^◌, ltb, Bool, true, false, not, ◌&&◌, ◌||◌, Option, none, some, List,
  if◌then◌else◌,
}
use spiped.Options.{Arguments, Parsed, parsed, usage, eparse, version, ◌>>=◌, parse_options}
use spiped.Spipe.{is_some}

-- `SIZE_MAX`, for a `size_t` of 64 bits.
unfoldable pub size_max : ℕ
size_max = 2 ^ 64 - 1

module _ (a : Arguments) where
  -- The options that GETOPT returns. The last two stand for `GETOPT_MISSING_ARG` and
  -- `GETOPT_DEFAULT`.
  pub data Opt : Type 0 where
    dash_b : a.Text → Opt
    dash_d : Opt
    dash_D : Opt
    dash_e : Opt
    dash_f : Opt
    dash_F : Opt
    dash_g : Opt
    dash_j : Opt
    dash_k : a.Text → Opt
    dash_n : a.Text → Opt
    dash_o : a.Text → Opt
    dash_p : a.Text → Opt
    dash_r : a.Text → Opt
    dash_R : Opt
    dash_s : a.Text → Opt
    dash_syslog : Opt
    dash_t : a.Text → Opt
    dash_u : a.Text → Opt
    dash_v : Opt
    missing_arg : Opt
    unknown : Opt

  pub record Settings : Type 0 where
    pub opt_b : Option a.Text
    pub opt_d : Bool
    pub opt_D : Bool
    pub opt_e : Bool
    pub opt_f : Bool
    pub opt_F : Bool
    pub opt_g : Bool
    pub opt_j : Bool
    pub opt_k : Option a.Text
    pub opt_n_set : Bool
    pub opt_n : ℕ
    pub opt_o_set : Bool
    pub opt_o : a.Number
    pub opt_p : Option a.Text
    pub opt_r_set : Bool
    pub opt_r : a.Number
    pub opt_R : Bool
    pub opt_s : Option a.Text
    pub opt_syslog : Bool
    pub opt_t : Option a.Text
    pub opt_u : Option a.Text

  abbrev pub unset : Settings
  unset = record {
    opt_b = none;
    opt_d = false;
    opt_D = false;
    opt_e = false;
    opt_f = false;
    opt_F = false;
    opt_g = false;
    opt_j = false;
    opt_k = none;
    opt_n_set = false;
    opt_n = 0;
    opt_o_set = false;
    opt_o = a.number 0;
    opt_p = none;
    opt_r_set = false;
    opt_r = a.number 0;
    opt_R = false;
    opt_s = none;
    opt_syslog = false;
    opt_t = none;
    opt_u = none;
  }

  -- The number 0 stands for no limit.
  abbrev pub limit : ℕ → ℕ
  limit n = if n == 0 then size_max else n

  unfoldable pub parse_n : a.Text → Settings → Parsed Settings
  parse_n w s = elim (a.parsenum_size w) [
    | none ↦ eparse
    | some n ↦ parsed (record s { opt_n_set = true; opt_n = limit n })
  ]

  unfoldable pub parse_o : a.Text → Settings → Parsed Settings
  parse_o w s = elim (a.parsenum w) [
    | none ↦ eparse
    | some n ↦ parsed (record s { opt_o_set = true; opt_o = n })
  ]

  unfoldable pub parse_r : a.Text → Settings → Parsed Settings
  parse_r w s = elim (a.parsenum w) [
    | none ↦ eparse
    | some n ↦
        if not (a.is_moderate n) then eparse else parsed (record s { opt_r_set = true; opt_r = n })
  ]

  -- The body of the loop.
  unfoldable pub parse_option : Settings → Opt → Parsed Settings
  unfolding parse_n parse_o parse_r
  parse_option s (dash_b w) =
      if is_some s.opt_b then usage else parsed (record s { opt_b = some w })
  parse_option s dash_d = if s.opt_d || s.opt_e then usage else parsed (record s { opt_d = true })
  parse_option s dash_D = if s.opt_D then usage else parsed (record s { opt_D = true })
  parse_option s dash_e = if s.opt_d || s.opt_e then usage else parsed (record s { opt_e = true })
  parse_option s dash_f = if s.opt_f then usage else parsed (record s { opt_f = true })
  parse_option s dash_F = if s.opt_F then usage else parsed (record s { opt_F = true })
  parse_option s dash_g = if s.opt_g then usage else parsed (record s { opt_g = true })
  parse_option s dash_j = if s.opt_j then usage else parsed (record s { opt_j = true })
  parse_option s (dash_k w) =
      if is_some s.opt_k then usage else parsed (record s { opt_k = some w })
  parse_option s (dash_n w) = if s.opt_n_set then usage else parse_n w s
  parse_option s (dash_o w) = if s.opt_o_set then usage else parse_o w s
  parse_option s (dash_p w) =
      if is_some s.opt_p then usage else parsed (record s { opt_p = some w })
  parse_option s (dash_r w) = if s.opt_r_set then usage else parse_r w s
  parse_option s dash_R = if s.opt_R then usage else parsed (record s { opt_R = true })
  parse_option s (dash_s w) =
      if is_some s.opt_s then usage else parsed (record s { opt_s = some w })
  parse_option s dash_syslog =
      if s.opt_syslog then usage else parsed (record s { opt_syslog = true })
  parse_option s (dash_t w) =
      if is_some s.opt_t then usage else parsed (record s { opt_t = some w })
  parse_option s (dash_u w) =
      if is_some s.opt_u then usage else parsed (record s { opt_u = some w })
  parse_option s dash_v = version
  parse_option s missing_arg = usage
  parse_option s unknown = usage

  unfoldable pub set_defaults : Settings → Settings
  set_defaults s = record s {
    opt_n = if s.opt_n_set then s.opt_n else 100;
    opt_o = if s.opt_o_set then s.opt_o else a.number 5;
    opt_r = if s.opt_r_set then s.opt_r else a.number 60;
  }

  -- Whether there is an address and it is well-formed.
  abbrev pub is_address : Option a.Text → Bool
  is_address none = false
  is_address (some w) = a.sock_addr_validate w

  unfoldable pub check_options : Settings → Parsed Settings
  check_options s =
      if not s.opt_d && not s.opt_e
      then usage
      else if s.opt_f && s.opt_g
      then usage
      else if not (is_some s.opt_k)
      then usage
      else if not (a.is_positive s.opt_o)
      then usage
      else if s.opt_r_set && s.opt_R
      then usage
      else if not (is_some s.opt_s) || not (is_address s.opt_s)
      then usage
      else if not (is_some s.opt_t) || not (is_address s.opt_t)
      then usage
      else if is_some s.opt_b && not (is_address s.opt_b)
      then usage
      else parsed s

  unfoldable pub cap_limit : Settings → Settings
  cap_limit s = record s { opt_n = if ltb size_max s.opt_n then size_max else s.opt_n }

  -- `rest` is how many arguments the options leave over.
  unfoldable pub command_line : List Opt → ℕ → Parsed Settings
  unfolding set_defaults
  command_line xs rest = parse_options parse_option unset xs >>= λ s.
      if not (rest == 0)
      then usage
      else check_options (set_defaults s) >>= λ s'. parsed (cap_limit s')
