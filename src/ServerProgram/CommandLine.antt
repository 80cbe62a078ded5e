-- ===== src/ServerProgram/CommandLine.antt =====
-- spiped/main.c: which command lines the server accepts.
use spiped.Base.{
  ℕ, ◌≡◌, refl, Bool, true, false, not, ◌&&◌, ◌||◌, ◌==◌, map, none, some, List, [], ◌∷◌,
  if◌then◌else◌, arith,
}
use spiped.Options.{Arguments, accepted, usage, parsed, parse_options, ◌>>=◌}
use spiped.Options.Loop.{
  all, distinct, given, set_all, accepted->>=, given_default, parse_options-distinct,
}
use spiped.Spipe.{is_some}
use spiped.ServerProgram.{
  Opt, Settings, unset, parse_option, is_address, set_defaults, check_options, cap_limit,
  command_line, dash_b, dash_d, dash_D, dash_e, dash_f, dash_F, dash_g, dash_j, dash_k, dash_n,
  dash_o, dash_p, dash_r, dash_R, dash_s, dash_syslog, dash_t, dash_u, dash_v, missing_arg, unknown,
}
use spiped.ServerProgram.Table.{
  key, is_good, set, is_set, table, asked_for, n_of, o_of, r_of, b_of, d_of, cap_d_of, e_of, f_of,
  cap_f_of, g_of, j_of, k_of, has_n, has_o, p_of, has_r, cap_r_of, s_of, syslog_of, t_of, u_of,
}

module _ (a : Arguments) where
  set_all-given :
      (s : Settings a) (xs : List (Opt a))
      → set_all (table a) s xs ≡ record {
        opt_b = given (b_of a) s.opt_b xs;
        opt_d = given (d_of a) s.opt_d xs;
        opt_D = given (cap_d_of a) s.opt_D xs;
        opt_e = given (e_of a) s.opt_e xs;
        opt_f = given (f_of a) s.opt_f xs;
        opt_F = given (cap_f_of a) s.opt_F xs;
        opt_g = given (g_of a) s.opt_g xs;
        opt_j = given (j_of a) s.opt_j xs;
        opt_k = given (k_of a) s.opt_k xs;
        opt_n_set = given (has_n a) s.opt_n_set xs;
        opt_n = given (n_of a) s.opt_n xs;
        opt_o_set = given (has_o a) s.opt_o_set xs;
        opt_o = given (o_of a) s.opt_o xs;
        opt_p = given (p_of a) s.opt_p xs;
        opt_r_set = given (has_r a) s.opt_r_set xs;
        opt_r = given (r_of a) s.opt_r xs;
        opt_R = given (cap_r_of a) s.opt_R xs;
        opt_s = given (s_of a) s.opt_s xs;
        opt_syslog = given (syslog_of a) s.opt_syslog xs;
        opt_t = given (t_of a) s.opt_t xs;
        opt_u = given (u_of a) s.opt_u xs;
      }
  set_all-given s [] = refl
  set_all-given s (dash_b w ∷ xs) = set_all-given (set a s (dash_b w)) xs
  set_all-given s (dash_d ∷ xs) = set_all-given (set a s dash_d) xs
  set_all-given s (dash_D ∷ xs) = set_all-given (set a s dash_D) xs
  set_all-given s (dash_e ∷ xs) = set_all-given (set a s dash_e) xs
  set_all-given s (dash_f ∷ xs) = set_all-given (set a s dash_f) xs
  set_all-given s (dash_F ∷ xs) = set_all-given (set a s dash_F) xs
  set_all-given s (dash_g ∷ xs) = set_all-given (set a s dash_g) xs
  set_all-given s (dash_j ∷ xs) = set_all-given (set a s dash_j) xs
  set_all-given s (dash_k w ∷ xs) = set_all-given (set a s (dash_k w)) xs
  set_all-given s (dash_n w ∷ xs) = set_all-given (set a s (dash_n w)) xs
  set_all-given s (dash_o w ∷ xs) = set_all-given (set a s (dash_o w)) xs
  set_all-given s (dash_p w ∷ xs) = set_all-given (set a s (dash_p w)) xs
  set_all-given s (dash_r w ∷ xs) = set_all-given (set a s (dash_r w)) xs
  set_all-given s (dash_R ∷ xs) = set_all-given (set a s dash_R) xs
  set_all-given s (dash_s w ∷ xs) = set_all-given (set a s (dash_s w)) xs
  set_all-given s (dash_syslog ∷ xs) = set_all-given (set a s dash_syslog) xs
  set_all-given s (dash_t w ∷ xs) = set_all-given (set a s (dash_t w)) xs
  set_all-given s (dash_u w ∷ xs) = set_all-given (set a s (dash_u w)) xs
  set_all-given s (dash_v ∷ xs) = set_all-given s xs
  set_all-given s (missing_arg ∷ xs) = set_all-given s xs
  set_all-given s (unknown ∷ xs) = set_all-given s xs

  abbrev pub is_sane : Settings a → Bool
  is_sane s =
      (s.opt_d || s.opt_e)
      && not (s.opt_f && s.opt_g)
      && is_some s.opt_k
      && a.is_positive s.opt_o
      && not (s.opt_r_set && s.opt_R)
      && is_address a s.opt_s
      && is_address a s.opt_t
      && (not (is_some s.opt_b) || is_address a s.opt_b)

  and-false : (c : Bool) → c && false ≡ false
  and-false true = refl
  and-false false = refl

  none_set : (i : ℕ) → is_set a i (unset a) ≡ false
  none_set i = simp and-false

  n_given :
      (x : Opt a)
      → is_good a x ≡ true
      → has_n a x ≡ elim (n_of a x) [ none ↦ none | some b ↦ some true ]
  n_given (dash_n w) g = ground arith
  n_given x g = refl

  o_given :
      (x : Opt a)
      → is_good a x ≡ true
      → has_o a x ≡ elim (o_of a x) [ none ↦ none | some b ↦ some true ]
  o_given (dash_o w) g = ground arith
  o_given x g = refl

  r_given :
      (x : Opt a)
      → is_good a x ≡ true
      → has_r a x ≡ elim (r_of a x) [ none ↦ none | some b ↦ some true ]
  r_given (dash_r w) g = ground arith
  r_given x g = refl

  set_defaults-given :
      (xs : List (Opt a))
      → all (is_good a) xs ≡ true
      → set_defaults a (set_all (table a) (unset a) xs) ≡ asked_for a xs
  unfolding set_defaults
  set_defaults-given xs h = rw (set_all-given (unset a) xs) (
      ground (
        arith,
        given_default (is_good a) (n_of a) (has_n a) n_given false 0 100 xs h,
        given_default (is_good a) (o_of a) (has_o a) o_given false (a.number 0) (a.number 5) xs h,
        given_default (is_good a) (r_of a) (has_r a) r_given false (a.number 0) (a.number 60) xs h,
      ))

  check_options_lem :
      (s : Settings a)
      → accepted (check_options a s >>= λ s'. parsed (cap_limit a s'))
        ≡ (if is_sane s then some (cap_limit a s) else none)
  unfolding check_options
  check_options_lem s = ground arith

  -- What follows the loop.
  checks :
      (good once none_left : Bool) (s s' : Settings a)
      → (good ≡ true → set_defaults a s ≡ s')
      → elim (if good && once then some s else none) [
        | none ↦ none
        | some r ↦ accepted (
            if not none_left
            then usage
            else check_options a (set_defaults a r) >>= λ r'. parsed (cap_limit a r'))
      ]
        ≡ (if good && once && none_left && is_sane s' then some (cap_limit a s') else none)
  checks false once none_left s s' h = refl
  checks true false none_left s s' h = refl
  checks true true false s s' h = refl
  checks true true true s s' h = rw (h refl) (check_options_lem s')

  -- The server goes on exactly when no option asks for it to exit, each is given at most once and
  -- only one of `-d` and `-e`, the numbers can be read, that of `-r` moderate, no argument is left
  -- over, and the settings make sense: `-d` or `-e`, not both `-f` and `-g`, a key file, a timeout
  -- above 0, not both `-r` and `-R`, a well-formed source and target, and a well-formed address to
  -- bind to if there is one. Its settings are then those that the options ask for, with the numbers
  -- 100, 5 and 60 where none does, and with no limit for `-n 0`, up to the greatest limit.
  pub server_command_line :
      (xs : List (Opt a)) (rest : ℕ)
      → accepted (command_line a xs rest) ≡ (
          if all (is_good a) xs
            && distinct (map (key a) xs)
            && rest == 0
            && is_sane (asked_for a xs)
          then some (cap_limit a (asked_for a xs))
          else none)
  unfolding command_line
  server_command_line xs rest =
      rw
        (
          accepted->>= (parse_options (parse_option a) (unset a) xs) (λ s.
              if not (rest == 0)
              then usage
              else check_options a (set_defaults a s) >>= λ s'. parsed (cap_limit a s')),
          parse_options-distinct (table a) (unset a) xs none_set,
        )
        (checks (all (is_good a) xs) (distinct (map (key a) xs)) (rest == 0)
          (set_all (table a) (unset a) xs) (asked_for a xs) (set_defaults-given xs))
