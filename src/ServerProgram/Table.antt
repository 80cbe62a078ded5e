-- ===== src/ServerProgram/Table.antt =====
-- spiped/main.c: each option of the server by itself, and what it gives.
use spiped.Base.{
  ℕ, ◌≡◌, Bool, true, false, not, ◌&&◌, ◌||◌, ◌==◌, Option, none, some, List, if◌then◌else◌, arith,
}
use spiped.Options.{Arguments, accepted}
use spiped.Options.Loop.{Table, given}
use spiped.Spipe.{is_some}
use spiped.ServerProgram.{
  Opt, Settings, limit, parse_option, dash_b, dash_d, dash_D, dash_e, dash_f, dash_F, dash_g,
  dash_j, dash_k, dash_n, dash_o, dash_p, dash_r, dash_R, dash_s, dash_syslog, dash_t, dash_u,
  dash_v, missing_arg, unknown,
}

module _ (a : Arguments) where
  -- The options `-d` and `-e` exclude one another.
  abbrev pub key : Opt a → ℕ
  key (dash_b w) = 0
  key dash_d = 1
  key dash_D = 2
  key dash_e = 1
  key dash_f = 3
  key dash_F = 4
  key dash_g = 5
  key dash_j = 6
  key (dash_k w) = 7
  key (dash_n w) = 8
  key (dash_o w) = 9
  key (dash_p w) = 10
  key (dash_r w) = 11
  key dash_R = 12
  key (dash_s w) = 13
  key dash_syslog = 14
  key (dash_t w) = 15
  key (dash_u w) = 16
  key dash_v = 17
  key missing_arg = 18
  key unknown = 19

  -- What the options with a number give; 0 for `-n` is no limit.
  abbrev pub n_of : Opt a → Option ℕ
  n_of (dash_n w) = elim (a.parsenum_size w) [ none ↦ none | some n ↦ some (limit a n) ]
  n_of x = none

  abbrev pub o_of : Opt a → Option a.Number
  o_of (dash_o w) = a.parsenum w
  o_of x = none

  abbrev pub r_of : Opt a → Option a.Number
  r_of (dash_r w) = elim (a.parsenum w) [
    | none ↦ none
    | some n ↦ if a.is_moderate n then some n else none
  ]
  r_of x = none

  -- An option that asks for no exit, and an argument that can be read.
  abbrev pub is_good : Opt a → Bool
  is_good (dash_n w) = is_some (n_of (dash_n w))
  is_good (dash_o w) = is_some (o_of (dash_o w))
  is_good (dash_r w) = is_some (r_of (dash_r w))
  is_good dash_v = false
  is_good missing_arg = false
  is_good unknown = false
  is_good x = true

  abbrev pub set : Settings a → Opt a → Settings a
  set s (dash_b w) = record s { opt_b = some w }
  set s dash_d = record s { opt_d = true }
  set s dash_D = record s { opt_D = true }
  set s dash_e = record s { opt_e = true }
  set s dash_f = record s { opt_f = true }
  set s dash_F = record s { opt_F = true }
  set s dash_g = record s { opt_g = true }
  set s dash_j = record s { opt_j = true }
  set s (dash_k w) = record s { opt_k = some w }
  set s (dash_n w) = record s {
    opt_n_set = true;
    opt_n = elim (n_of (dash_n w)) [ none ↦ s.opt_n | some n ↦ n ];
  }
  set s (dash_o w) = record s {
    opt_o_set = true;
    opt_o = elim (o_of (dash_o w)) [ none ↦ s.opt_o | some n ↦ n ];
  }
  set s (dash_p w) = record s { opt_p = some w }
  set s (dash_r w) = record s {
    opt_r_set = true;
    opt_r = elim (r_of (dash_r w)) [ none ↦ s.opt_r | some n ↦ n ];
  }
  set s dash_R = record s { opt_R = true }
  set s (dash_s w) = record s { opt_s = some w }
  set s dash_syslog = record s { opt_syslog = true }
  set s (dash_t w) = record s { opt_t = some w }
  set s (dash_u w) = record s { opt_u = some w }
  set s x = s

  abbrev pub is_set : ℕ → Settings a → Bool
  is_set i s =
      (i == 0 && is_some s.opt_b)
      || (i == 1 && (s.opt_d || s.opt_e))
      || (i == 2 && s.opt_D)
      || (i == 3 && s.opt_f)
      || (i == 4 && s.opt_F)
      || (i == 5 && s.opt_g)
      || (i == 6 && s.opt_j)
      || (i == 7 && is_some s.opt_k)
      || (i == 8 && s.opt_n_set)
      || (i == 9 && s.opt_o_set)
      || (i == 10 && is_some s.opt_p)
      || (i == 11 && s.opt_r_set)
      || (i == 12 && s.opt_R)
      || (i == 13 && is_some s.opt_s)
      || (i == 14 && s.opt_syslog)
      || (i == 15 && is_some s.opt_t)
      || (i == 16 && is_some s.opt_u)

  pub step_lem :
      (s : Settings a) (x : Opt a)
      → accepted (parse_option a s x)
        ≡ (if is_good x && not (is_set (key x) s) then some (set s x) else none)
  unfolding parse_option
  step_lem s (dash_n w) = ground arith
  step_lem s (dash_o w) = ground arith
  step_lem s (dash_r w) = ground arith
  step_lem s x = ground arith

  pub is_set-set :
      (i : ℕ) (s : Settings a) (x : Opt a)
      → is_good x ≡ true
      → is_set i (set s x) ≡ (i == key x) || is_set i s
  is_set-set i s (dash_n w) e = ground arith
  is_set-set i s x e = ground arith

  abbrev pub table : Table (Opt a) (Settings a)
  table = record {
    step = parse_option a;
    key = key;
    is_good = is_good;
    set = set;
    is_set = is_set;
    step_lem = step_lem;
    is_set-set = is_set-set;
  }

  -- What an option gives to each of the other settings.
  abbrev pub b_of : Opt a → Option (Option a.Text)
  b_of (dash_b w) = some (some w)
  b_of x = none

  abbrev pub d_of : Opt a → Option Bool
  d_of dash_d = some true
  d_of x = none

  abbrev pub cap_d_of : Opt a → Option Bool
  cap_d_of dash_D = some true
  cap_d_of x = none

  abbrev pub e_of : Opt a → Option Bool
  e_of dash_e = some true
  e_of x = none

  abbrev pub f_of : Opt a → Option Bool
  f_of dash_f = some true
  f_of x = none

  abbrev pub cap_f_of : Opt a → Option Bool
  cap_f_of dash_F = some true
  cap_f_of x = none

  abbrev pub g_of : Opt a → Option Bool
  g_of dash_g = some true
  g_of x = none

  abbrev pub j_of : Opt a → Option Bool
  j_of dash_j = some true
  j_of x = none

  abbrev pub k_of : Opt a → Option (Option a.Text)
  k_of (dash_k w) = some (some w)
  k_of x = none

  abbrev pub has_n : Opt a → Option Bool
  has_n (dash_n w) = some true
  has_n x = none

  abbrev pub has_o : Opt a → Option Bool
  has_o (dash_o w) = some true
  has_o x = none

  abbrev pub p_of : Opt a → Option (Option a.Text)
  p_of (dash_p w) = some (some w)
  p_of x = none

  abbrev pub has_r : Opt a → Option Bool
  has_r (dash_r w) = some true
  has_r x = none

  abbrev pub cap_r_of : Opt a → Option Bool
  cap_r_of dash_R = some true
  cap_r_of x = none

  abbrev pub s_of : Opt a → Option (Option a.Text)
  s_of (dash_s w) = some (some w)
  s_of x = none

  abbrev pub syslog_of : Opt a → Option Bool
  syslog_of dash_syslog = some true
  syslog_of x = none

  abbrev pub t_of : Opt a → Option (Option a.Text)
  t_of (dash_t w) = some (some w)
  t_of x = none

  abbrev pub u_of : Opt a → Option (Option a.Text)
  u_of (dash_u w) = some (some w)
  u_of x = none

  -- The settings that the options ask for, with a default for the three numbers.
  abbrev pub asked_for : List (Opt a) → Settings a
  asked_for xs = record {
    opt_b = given b_of none xs;
    opt_d = given d_of false xs;
    opt_D = given cap_d_of false xs;
    opt_e = given e_of false xs;
    opt_f = given f_of false xs;
    opt_F = given cap_f_of false xs;
    opt_g = given g_of false xs;
    opt_j = given j_of false xs;
    opt_k = given k_of none xs;
    opt_n_set = given has_n false xs;
    opt_n = given n_of 100 xs;
    opt_o_set = given has_o false xs;
    opt_o = given o_of (a.number 5) xs;
    opt_p = given p_of none xs;
    opt_r_set = given has_r false xs;
    opt_r = given r_of (a.number 60) xs;
    opt_R = given cap_r_of false xs;
    opt_s = given s_of none xs;
    opt_syslog = given syslog_of false xs;
    opt_t = given t_of none xs;
    opt_u = given u_of none xs;
  }
