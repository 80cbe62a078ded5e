-- ===== src/SimpleServer/Nodes.antt =====
-- tests/nc-server/simple_server.c, conn_list_node: the list of the connections.
use spiped.Base.{
  ℕ, ◌+◌, ◌≡◌, refl, Bool, true, false, some, List, [], ◌∷◌, length, ◌==◌, arith, Bool-cases, inl,
  inr, if◌then◌else◌,
}
use spiped.SimpleServer.{held, list_remove, is_empty, network_read_cookie, set_cookie}

abbrev pub has : ℕ → List (ℕ × Bool) → Bool
has i [] = false
has i ((j, r) ∷ js) = if i == j then true else has i js

abbrev pub AreDistinct : List (ℕ × Bool) → Type 0
AreDistinct [] = Unit
AreDistinct ((i, r) ∷ js) = (has i js ≡ false) × AreDistinct js

-- How many reads are pending.
abbrev pub reading : List (ℕ × Bool) → ℕ
reading [] = 0
reading ((i, r) ∷ js) = held r + reading js

pub length-list_remove :
    (i : ℕ) (js : List (ℕ × Bool)) (r : Bool)
    → network_read_cookie i js ≡ some r
    → length (list_remove i js) + 1 ≡ length js
unfolding list_remove
length-list_remove i [] r h = absurd (ground arith)
length-list_remove i ((j, q) ∷ js) r h = elim (Bool-cases (i == j)) [
  | inl e ↦ rw e (omega arith)
  | inr e ↦ rw e (omega (arith, length-list_remove i js r (ground arith)))
]

pub reading-list_remove :
    (i : ℕ) (js : List (ℕ × Bool)) (r : Bool)
    → network_read_cookie i js ≡ some r
    → reading (list_remove i js) + held r ≡ reading js
unfolding list_remove
reading-list_remove i [] r h = absurd (ground arith)
reading-list_remove i ((j, q) ∷ js) r h = elim (Bool-cases (i == j)) [
  | inl e ↦ let same : q ≡ r = ground arith in rw e (rw same (omega arith))
  | inr e ↦ rw e (omega (arith, reading-list_remove i js r (ground arith)))
]

has-list_remove :
    (k i : ℕ) (js : List (ℕ × Bool)) → has k js ≡ false → has k (list_remove i js) ≡ false
unfolding list_remove
has-list_remove k i [] h = refl
has-list_remove k i ((j, q) ∷ js) h = elim (Bool-cases (i == j)) [
  | inl e ↦ rw e (ground arith)
  | inr e ↦ let rest = has-list_remove k i js (ground arith) in rw e (ground arith)
]

pub AreDistinct-list_remove :
    (i : ℕ) (js : List (ℕ × Bool)) → AreDistinct js → AreDistinct (list_remove i js)
unfolding list_remove
AreDistinct-list_remove i [] h = tt
AreDistinct-list_remove i ((j, q) ∷ js) h = elim (Bool-cases (i == j)) [
  | inl e ↦ rw e h.1
  | inr e ↦ rw e (has-list_remove j i js h.0, AreDistinct-list_remove i js h.1)
]

pub length-set_cookie :
    (i : ℕ) (b : Bool) (js : List (ℕ × Bool)) → length (set_cookie i b js) ≡ length js
unfolding set_cookie
length-set_cookie i b [] = refl
length-set_cookie i b ((j, q) ∷ js) = elim (Bool-cases (i == j)) [
  | inl e ↦ rw e refl
  | inr e ↦ rw e (omega (arith, length-set_cookie i b js))
]

pub reading-set_cookie :
    (i : ℕ) (b : Bool) (js : List (ℕ × Bool)) (r : Bool)
    → network_read_cookie i js ≡ some r
    → reading (set_cookie i b js) + held r ≡ reading js + held b
unfolding set_cookie
reading-set_cookie i b [] r h = absurd (ground arith)
reading-set_cookie i b ((j, q) ∷ js) r h = elim (Bool-cases (i == j)) [
  | inl e ↦ let same : q ≡ r = ground arith in rw e (rw same (omega arith))
  | inr e ↦ rw e (omega (arith, reading-set_cookie i b js r (ground arith)))
]

pub cookie-set_cookie :
    (i : ℕ) (b : Bool) (js : List (ℕ × Bool)) (r : Bool)
    → network_read_cookie i js ≡ some r
    → network_read_cookie i (set_cookie i b js) ≡ some b
unfolding set_cookie
cookie-set_cookie i b [] r h = absurd (ground arith)
cookie-set_cookie i b ((j, q) ∷ js) r h = elim (Bool-cases (i == j)) [
  | inl e ↦ rw e (ground arith)
  | inr e ↦ let rest = cookie-set_cookie i b js r (ground arith) in rw e (ground arith)
]

has-set_cookie : (k i : ℕ) (b : Bool) (js : List (ℕ × Bool)) → has k (set_cookie i b js) ≡ has k js
unfolding set_cookie
has-set_cookie k i b [] = refl
has-set_cookie k i b ((j, q) ∷ js) = elim (Bool-cases (i == j)) [
  | inl e ↦ rw e refl
  | inr e ↦ let rest = has-set_cookie k i b js in rw e (ground arith)
]

pub AreDistinct-set_cookie :
    (i : ℕ) (b : Bool) (js : List (ℕ × Bool)) → AreDistinct js → AreDistinct (set_cookie i b js)
unfolding set_cookie
AreDistinct-set_cookie i b [] h = tt
AreDistinct-set_cookie i b ((j, q) ∷ js) h = elim (Bool-cases (i == j)) [
  | inl e ↦ rw e h
  | inr e ↦
      let same = has-set_cookie j i b js in rw e (ground arith, AreDistinct-set_cookie i b js h.1)
]

pub is_empty-cookie :
    (i : ℕ) (js : List (ℕ × Bool)) (r : Bool)
    → network_read_cookie i js ≡ some r
    → is_empty js ≡ false
is_empty-cookie i [] r h = absurd (ground arith)
is_empty-cookie i (j ∷ js) r h = refl
