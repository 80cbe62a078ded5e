-- ===== src/Options/Loop.antt =====
-- The loop over the options, for any table of options: each has a key, and may be given when the key
-- is not taken. Both main functions are such tables.
use spiped.Base.{
  ℕ, ◌≡◌, refl, Bool, true, false, not, ◌&&◌, ◌||◌, Option-cases, inl, inr, ◌==◌, map, Option, none,
  some, List, [], ◌∷◌, if◌then◌else◌, arith,
}
use spiped.Options.{Parsed, parsed, usage, eparse, version, accepted, ◌>>=◌, parse_options}

abbrev pub mem : ℕ → List ℕ → Bool
mem k [] = false
mem k (j ∷ js) = k == j || mem k js

abbrev pub distinct : List ℕ → Bool
distinct [] = true
distinct (k ∷ ks) = not (mem k ks) && distinct ks

abbrev pub all {ℓ} : {A : Type ℓ} → (A → Bool) → List A → Bool
all p [] = true
all p (x ∷ xs) = p x && all p xs

-- What the last of the options gives, of those that `f` reads.
abbrev pub given {ℓ κ} : {A : Type ℓ} {B : Type κ} → (A → Option B) → B → List A → B
given f d [] = d
given f d (x ∷ xs) = given f (elim (f x) [ none ↦ d | some b ↦ b ]) xs

-- `is_good` is about an option by itself, `set` is what it does, and `is_set` says whether a key is
-- taken.
pub record Table (Opt S : Type 0) : Type 0 where
  pub step : S → Opt → Parsed S
  pub key : Opt → ℕ
  pub is_good : Opt → Bool
  pub set : S → Opt → S
  pub is_set : ℕ → S → Bool
  pub step_lem :
      (s : S) (x : Opt)
      → accepted (step s x) ≡ (if is_good x && not (is_set (key x) s) then some (set s x) else none)
  pub is_set-set :
      (k : ℕ) (s : S) (x : Opt) → is_good x ≡ true → is_set k (set s x) ≡ (k == key x) || is_set k s

-- A default that is taken when no option sets a flag is what the options start from.
pub given_default {ℓ κ} :
    {A : Type ℓ} {B : Type κ} (good : A → Bool) (f : A → Option B) (has : A → Option Bool)
    → ((x : A) → good x ≡ true → has x ≡ elim (f x) [ none ↦ none | some b ↦ some true ])
    → (c : Bool) (d e : B) (xs : List A) → all good xs ≡ true
    → (if given has c xs then given f d xs else e) ≡ given f (if c then d else e) xs
given_default good f has same true d e [] h = refl
given_default good f has same false d e [] h = refl
given_default good f has same c d e (x ∷ xs) h = elim (Option-cases (f x)) [
  | inl n ↦ rw (same x (ground arith), n) (given_default good f has same c d e xs (ground arith))
  | inr (b, r) ↦
      rw (same x (ground arith), r) (given_default good f has same true b e xs (ground arith))
]

pub accepted->>= {ℓ κ} :
    {A : Type ℓ} {B : Type κ} (m : Parsed A) (f : A → Parsed B)
    → accepted (m >>= f) ≡ elim (accepted m) [ none ↦ none | some a ↦ accepted (f a) ]
accepted->>= (parsed a) f = refl
accepted->>= usage f = refl
accepted->>= eparse f = refl
accepted->>= version f = refl

module _ {Opt S : Type 0} (t : Table Opt S) where
  abbrev pub keys : List Opt → List ℕ
  keys xs = map t.key xs

  abbrev pub set_all : S → List Opt → S
  set_all s [] = s
  set_all s (x ∷ xs) = set_all (t.set s x) xs

  -- No key of the options is taken.
  free : S → List Opt → Bool
  free s xs = all (λ x. not (t.is_set (t.key x) s)) xs

  free-set :
      (s : S) (x : Opt) (xs : List Opt)
      → t.is_good x ≡ true
      → free (t.set s x) xs ≡ (not (mem (t.key x) (keys xs)) && free s xs)
  unfolding free
  free-set s x [] g = refl
  free-set s x (y ∷ ys) g = ground (arith, free-set s x ys, t.is_set-set (t.key y) s x)

  parse_options-free :
      (s : S) (xs : List Opt)
      → accepted (parse_options t.step s xs) ≡ (
          if all t.is_good xs && (distinct (keys xs) && free s xs)
          then some (set_all s xs)
          else none)
  unfolding parse_options free
  parse_options-free s [] = refl
  parse_options-free s (x ∷ xs) =
      rw (accepted->>= (t.step s x) (λ s'. parse_options t.step s' xs), t.step_lem s x)
        (ground (arith, parse_options-free (t.set s x) xs, free-set s x xs))

  free-none : (s : S) (xs : List Opt) → ((k : ℕ) → t.is_set k s ≡ false) → free s xs ≡ true
  unfolding free
  free-none s [] n = refl
  free-none s (x ∷ xs) n = ground (arith, n (t.key x), free-none s xs n)

  pub parse_options-distinct :
      (s : S) (xs : List Opt)
      → ((k : ℕ) → t.is_set k s ≡ false)
      → accepted (parse_options t.step s xs)
        ≡ (if all t.is_good xs && distinct (keys xs) then some (set_all s xs) else none)
  parse_options-distinct s xs n = ground (arith, parse_options-free s xs, free-none s xs n)
