-- ===== src/Spipe/CommandLine.antt =====
-- spipe/main.c: which command lines the client accepts.
use spiped.Base.{
  ℕ, ◌≡◌, refl, Bool, true, false, not, ◌&&◌, ◌||◌, ◌==◌, map, Option-cases, inl, inr, Option, none,
  some, List, [], ◌∷◌, if◌then◌else◌, arith,
}
use spiped.Options.{Arguments, accepted, usage, parse_options}
use spiped.Options.Loop.{Table, all, distinct, given, set_all, accepted->>=, parse_options-distinct}
use spiped.Spipe.{
  Opt, dash_b, dash_f, dash_g, dash_j, dash_k, dash_o, dash_t, dash_v, missing_arg, unknown,
  Settings, unset, parse_option, is_some, is_address, set_defaults, check_options, command_line,
}

module _ (a : Arguments) where
  abbrev pub key : Opt a → ℕ
  key (dash_b w) = 0
  key dash_f = 1
  key dash_g = 2
  key dash_j = 3
  key (dash_k w) = 4
  key (dash_o w) = 5
  key (dash_t w) = 6
  key dash_v = 7
  key missing_arg = 8
  key unknown = 9

  -- An option that asks for no exit, and an argument that can be read.
  abbrev pub is_good : Opt a → Bool
  is_good (dash_o w) = is_some (a.parsenum w)
  is_good dash_v = false
  is_good missing_arg = false
  is_good unknown = false
  is_good x = true

  abbrev pub set : Settings a → Opt a → Settings a
  set s (dash_b w) = record s { opt_b = some w }
  set s dash_f = record s { opt_f = true }
  set s dash_g = record s { opt_g = true }
  set s dash_j = record s { opt_j = true }
  set s (dash_k w) = record s { opt_k = some w }
  set s (dash_o w) = record s {
    opt_o_set = true;
    opt_o = elim (a.parsenum w) [ none ↦ s.opt_o | some n ↦ n ];
  }
  set s (dash_t w) = record s { opt_t = some w }
  set s x = s

  abbrev pub is_set : ℕ → Settings a → Bool
  is_set i s =
      (i == 0 && is_some s.opt_b)
      || (i == 1 && s.opt_f)
      || (i == 2 && s.opt_g)
      || (i == 3 && s.opt_j)
      || (i == 4 && is_some s.opt_k)
      || (i == 5 && s.opt_o_set)
      || (i == 6 && is_some s.opt_t)

  step_lem :
      (s : Settings a) (x : Opt a)
      → accepted (parse_option a s x)
        ≡ (if is_good x && not (is_set (key x) s) then some (set s x) else none)
  unfolding parse_option
  step_lem s (dash_o w) = ground arith
  step_lem s (dash_b w) = ground arith
  step_lem s x = ground arith

  is_set-set :
      (i : ℕ) (s : Settings a) (x : Opt a)
      → is_good x ≡ true
      → is_set i (set s x) ≡ (i == key x) || is_set i s
  is_set-set i s (dash_o w) e = ground arith
  is_set-set i s x e = ground arith

  abbrev table : Table (Opt a) (Settings a)
  table = record {
    step = parse_option a;
    key = key;
    is_good = is_good;
    set = set;
    is_set = is_set;
    step_lem = step_lem;
    is_set-set = is_set-set;
  }

  -- What an option gives to each of the settings.
  abbrev pub b_of : Opt a → Option (Option a.Text)
  b_of (dash_b w) = some (some w)
  b_of x = none

  abbrev pub k_of : Opt a → Option (Option a.Text)
  k_of (dash_k w) = some (some w)
  k_of x = none

  abbrev pub t_of : Opt a → Option (Option a.Text)
  t_of (dash_t w) = some (some w)
  t_of x = none

  abbrev pub f_of : Opt a → Option Bool
  f_of dash_f = some true
  f_of x = none

  abbrev pub g_of : Opt a → Option Bool
  g_of dash_g = some true
  g_of x = none

  abbrev pub j_of : Opt a → Option Bool
  j_of dash_j = some true
  j_of x = none

  abbrev pub has_o : Opt a → Option Bool
  has_o (dash_o w) = some true
  has_o x = none

  abbrev pub o_of : Opt a → Option a.Number
  o_of (dash_o w) = a.parsenum w
  o_of x = none

  -- The settings that the options ask for, the number 5 for `opt_o` if none does.
  abbrev pub asked_for : List (Opt a) → Settings a
  asked_for xs = record {
    opt_b = given b_of none xs;
    opt_f = given f_of false xs;
    opt_g = given g_of false xs;
    opt_j = given j_of false xs;
    opt_k = given k_of none xs;
    opt_o_set = given has_o false xs;
    opt_o = given o_of (a.number 5) xs;
    opt_t = given t_of none xs;
  }

  set_all-given :
      (s : Settings a) (xs : List (Opt a))
      → set_all table s xs ≡ record {
        opt_b = given b_of s.opt_b xs;
        opt_f = given f_of s.opt_f xs;
        opt_g = given g_of s.opt_g xs;
        opt_j = given j_of s.opt_j xs;
        opt_k = given k_of s.opt_k xs;
        opt_o_set = given has_o s.opt_o_set xs;
        opt_o = given o_of s.opt_o xs;
        opt_t = given t_of s.opt_t xs;
      }
  set_all-given s [] = refl
  set_all-given s (dash_b w ∷ xs) = set_all-given (set s (dash_b w)) xs
  set_all-given s (dash_f ∷ xs) = set_all-given (set s dash_f) xs
  set_all-given s (dash_g ∷ xs) = set_all-given (set s dash_g) xs
  set_all-given s (dash_j ∷ xs) = set_all-given (set s dash_j) xs
  set_all-given s (dash_k w ∷ xs) = set_all-given (set s (dash_k w)) xs
  set_all-given s (dash_o w ∷ xs) = set_all-given (set s (dash_o w)) xs
  set_all-given s (dash_t w ∷ xs) = set_all-given (set s (dash_t w)) xs
  set_all-given s (dash_v ∷ xs) = set_all-given s xs
  set_all-given s (missing_arg ∷ xs) = set_all-given s xs
  set_all-given s (unknown ∷ xs) = set_all-given s xs

  -- The default is what the options give when they start from it.
  given_default :
      (c : Bool) (d e : a.Number) (xs : List (Opt a))
      → all is_good xs ≡ true
      → (if given has_o c xs then given o_of d xs else e) ≡ given o_of (if c then d else e) xs
  given_default true d e [] h = refl
  given_default false d e [] h = refl
  given_default c d e (dash_o w ∷ xs) h = elim (Option-cases (a.parsenum w)) [
    | inl n ↦ ground arith
    | inr (n, r) ↦ rw r (given_default true n e xs (ground arith))
  ]
  given_default c d e (x ∷ xs) h = ground (arith, given_default c d e xs)

  abbrev pub is_sane : Settings a → Bool
  is_sane s =
      not (s.opt_f && s.opt_g)
      && is_some s.opt_k
      && a.is_positive s.opt_o
      && is_address a s.opt_t
      && (not (is_some s.opt_b) || is_address a s.opt_b)

  set_defaults-given :
      (xs : List (Opt a))
      → all is_good xs ≡ true
      → set_defaults a (set_all table (unset a) xs) ≡ asked_for xs
  unfolding set_defaults
  set_defaults-given xs h =
      rw (set_all-given (unset a) xs)
        (ground (arith, given_default false (a.number 0) (a.number 5) xs h))

  check_options_lem :
      (s : Settings a) → accepted (check_options a s) ≡ (if is_sane s then some s else none)
  unfolding check_options
  check_options_lem s = ground arith

  -- The client goes on exactly when no option asks for it to exit, each is given at most once, the
  -- number can be read, no argument is left over, and the settings make sense: not both `-f` and
  -- `-g`, a key file, a timeout above 0, a well-formed target, and a well-formed address to bind to
  -- if there is one. Its settings are then those that the options ask for, the timeout 5 if none.
  pub command_line_lem :
      (xs : List (Opt a)) (rest : ℕ)
      → accepted (command_line a xs rest) ≡ (
          if all is_good xs && distinct (map key xs) && rest == 0 && is_sane (asked_for xs)
          then some (asked_for xs)
          else none)
  unfolding command_line
  command_line_lem xs rest =
      rw
        (
          accepted->>= (parse_options (parse_option a) (unset a) xs)
              (λ s. if not (rest == 0) then usage else check_options a (set_defaults a s)),
          parse_options-distinct table (unset a) xs (λ i. ground arith),
        )
        (ground (arith, set_defaults-given xs, check_options_lem (asked_for xs)))
