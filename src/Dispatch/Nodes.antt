-- ===== src/Dispatch/Nodes.antt =====
-- spiped/dispatch.c, conn_list_node: the list of a server's connections.
use spiped.Base.{
  ℕ, ◌+◌, ◌≡◌, refl, Bool, true, false, List, [], ◌∷◌, length, ◌==◌, arith, Bool-cases, inl, inr,
  if◌then◌else◌,
}
use spiped.Dispatch.{list_remove, is_empty}

abbrev pub has : ℕ → List ℕ → Bool
has i [] = false
has i (j ∷ js) = if i == j then true else has i js

abbrev pub AreDistinct : List ℕ → Type 0
AreDistinct [] = Unit
AreDistinct (i ∷ js) = (has i js ≡ false) × AreDistinct js

pub length-list_remove :
    (i : ℕ) (js : List ℕ) → has i js ≡ true → length (list_remove i js) + 1 ≡ length js
unfolding list_remove
length-list_remove i [] h = absurd (ground arith)
length-list_remove i (j ∷ js) h = elim (Bool-cases (i == j)) [
  | inl e ↦ rw e (omega arith)
  | inr e ↦ rw e (omega (arith, length-list_remove i js (ground arith)))
]

has-list_remove : (k i : ℕ) (js : List ℕ) → has k js ≡ false → has k (list_remove i js) ≡ false
unfolding list_remove
has-list_remove k i [] h = refl
has-list_remove k i (j ∷ js) h = elim (Bool-cases (i == j)) [
  | inl e ↦ rw e (ground arith)
  | inr e ↦ let rest = has-list_remove k i js (ground arith) in rw e (ground arith)
]

pub AreDistinct-list_remove :
    (i : ℕ) (js : List ℕ) → AreDistinct js → AreDistinct (list_remove i js)
unfolding list_remove
AreDistinct-list_remove i [] h = tt
AreDistinct-list_remove i (j ∷ js) h = elim (Bool-cases (i == j)) [
  | inl e ↦ rw e h.1
  | inr e ↦ rw e (has-list_remove j i js h.0, AreDistinct-list_remove i js h.1)
]

pub is_empty-has : (i : ℕ) (js : List ℕ) → has i js ≡ true → is_empty js ≡ false
is_empty-has i [] h = absurd (ground arith)
is_empty-has i (j ∷ js) h = refl
