-- ===== src/Dispatch/Shutdown.antt =====
-- spiped/dispatch.c: what dispatch_shutdown leaves.
use spiped.Base.{
  ℕ, ◌≡◌, refl, ◌∙◌, ap, subst, true, false, Option, some, List, [], ◌∷◌, length, ==_iff, arith,
}
use spiped.Dispatch.{
  World, AcceptState, Answers, Outcome, returns, aborted, list_remove, callback_conndied,
}
use spiped.Dispatch.Stop.{is_first, release, drop_next, drop_all, dispatch_shutdown}
use spiped.Dispatch.Nodes.{has, AreDistinct}
use spiped.Dispatch.Ledger.{IsAccepting, IsBalanced, Keeps, conndied-Keeps}

-- With no connection left, the server holds what `release` releases.
pub release_balanced :
    (base : World) (c : AcceptState) (w : World)
    → IsBalanced base c w
    → c.conn_cookies ≡ []
    → release c w ≡ base
unfolding release
release_balanced base c w b e = ground arith

-- Which connections a callback leaves.
abbrev Leaves : List ℕ → Outcome → Type 0
Leaves js (returns ok c w) = c.conn_cookies ≡ js
Leaves js aborted = Unit

pub remove_first : (i : ℕ) (js : List ℕ) → list_remove i (i ∷ js) ≡ js
unfolding list_remove
remove_first i js = rw ((==_iff i i).1 refl) refl

conndied-Leaves :
    (a : Answers) (i : ℕ) (js : List ℕ) (c : AcceptState) (w : World)
    → c.conn_cookies ≡ i ∷ js
    → Leaves js (callback_conndied a i c w)
unfolding callback_conndied
conndied-Leaves a i js c w e = let r = ap (list_remove i) e ∙ remove_first i js in ground arith

pub has_first : (i : ℕ) (js : List ℕ) → has i (i ∷ js) ≡ true
has_first i js = rw ((==_iff i i).1 refl) refl

pub first_distinct : (i : ℕ) (js : List ℕ) → has i js ≡ false → is_first i js ≡ false
first_distinct i [] h = refl
first_distinct i (j ∷ js) h = ground arith

drop_next-some :
    (rest : AcceptState → World → Option World) (base : World) (i : ℕ) (js : List ℕ) (o : Outcome)
    → has i js ≡ false
    → Keeps base o
    → Leaves js o
    → ((c : AcceptState) (w : World)
        → IsAccepting c
        → IsBalanced base c w
        → c.conn_cookies ≡ js
        → rest c w ≡ some base)
    → drop_next rest i o ≡ some base
unfolding drop_next
drop_next-some rest base i js (returns ok c w) fresh k left ends =
    let other : is_first i c.conn_cookies ≡ false =
      ap (is_first i) left ∙ first_distinct i js fresh in
    rw other (ends c w k.0 k.1 left)
drop_next-some rest base i js aborted fresh k left ends = absurd k

drop_all-some :
    (js : List ℕ) (a : ℕ → Answers) (base : World) (c : AcceptState) (w : World)
    → IsAccepting c
    → IsBalanced base c w
    → c.conn_cookies ≡ js
    → drop_all (length js) a c w ≡ some base
unfolding drop_all
drop_all-some [] a base c w i b e = rw e (ap some (release_balanced base c w b e))
drop_all-some (k ∷ js) a base c w i b e = rw e (
    drop_next-some _ base k js _ ((subst AreDistinct e i.distinct).0)
      (conndied-Keeps (a (length js)) base c w i b k (ap (has k) e ∙ has_first k js))
      (conndied-Leaves (a (length js)) k js c _ e)
      (λ c' w' i' b' e'. drop_all-some js a base c' w' i' b' e'))

-- Stopping a server, whatever the accepts report that its callbacks try on the way, ends after as
-- many passes as it has connections, its assertions hold, and it leaves what there was before it
-- was started: no connection, node, accept, timer, thread, address list or descriptor of it is
-- left, and none is released twice.
pub dispatch_shutdown_lem :
    (a : ℕ → Answers) (base : World) (c : AcceptState) (w : World)
    → IsAccepting c
    → IsBalanced base c w
    → dispatch_shutdown a c w ≡ some base
unfolding dispatch_shutdown
dispatch_shutdown_lem a base c w i b = drop_all-some c.conn_cookies a base c w i b refl
