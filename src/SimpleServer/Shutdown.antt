-- ===== src/SimpleServer/Shutdown.antt =====
-- tests/nc-server/simple_server.c: what simple_server_shutdown leaves.
use spiped.Base.{
  ℕ, ◌≡◌, ◌∙◌, refl, ap, subst, Bool, true, false, Option, some, List, [], ◌∷◌, length, ==_iff,
  arith,
}
use spiped.SimpleServer.{
  World, AcceptState, Answers, Outcome, returns, aborted, doaccept, then_accept, conndied, ignoring,
  drop, lose, network_read_cookie, list_remove,
}
use spiped.SimpleServer.Nodes.{has, AreDistinct}
use spiped.SimpleServer.Ledger.{IsAccepting, IsBalanced, Keeps, drop-Keeps}
use spiped.SimpleServer.Stop.{is_first, release, drop_next, drop_all, simple_server_shutdown}

-- Which connections a drop leaves, and the pending accept; the server is stopping.
abbrev Leaves : List (ℕ × Bool) → Outcome → Type 0
Leaves js (returns ok c w) =
    (c.conn_cookies ≡ js) × (c.accept_cookie ≡ false) × (c.shutdown_requested ≡ true)
Leaves js aborted = Unit

remove_first : (i : ℕ) (r : Bool) (js : List (ℕ × Bool)) → list_remove i ((i, r) ∷ js) ≡ js
unfolding list_remove
remove_first i r js = rw ((==_iff i i).1 refl) refl

first_cookie :
    (i : ℕ) (r : Bool) (js : List (ℕ × Bool)) → network_read_cookie i ((i, r) ∷ js) ≡ some r
first_cookie i r js = rw ((==_iff i i).1 refl) refl

first_distinct : (i : ℕ) (js : List (ℕ × Bool)) → has i js ≡ false → is_first i js ≡ false
first_distinct i [] h = refl
first_distinct i ((j, r) ∷ js) h = ground arith

drop-Leaves :
    (a : Answers) (i : ℕ) (r : Bool) (js : List (ℕ × Bool)) (c : AcceptState) (w : World)
    → c.conn_cookies ≡ (i, r) ∷ js
    → c.accept_cookie ≡ false
    → c.shutdown_requested ≡ true
    → Leaves js (drop a i r c w)
unfolding drop ignoring conndied lose then_accept doaccept
drop-Leaves a i r js c w e quiet stop =
    let rest = ap (list_remove i) e ∙ remove_first i r js in ground arith

drop_next-some :
    (rest : AcceptState → World → Option World) (base : World) (ready : Bool → Bool) (i : ℕ)
    (js : List (ℕ × Bool)) (o : Outcome)
    → has i js ≡ false
    → Keeps base ready o
    → Leaves js o
    → ((c : AcceptState) (w : World)
        → IsAccepting c
        → IsBalanced base c w
        → c.conn_cookies ≡ js
        → c.accept_cookie ≡ false
        → c.shutdown_requested ≡ true
        → rest c w ≡ some base)
    → drop_next rest i o ≡ some base
unfolding drop_next
drop_next-some rest base ready i js (returns ok c w) fresh k left ends =
    let other : is_first i c.conn_cookies ≡ false =
      ap (is_first i) left.0 ∙ first_distinct i js fresh in
    rw other (ends c w k.0 k.1 left.0 left.1 left.2)
drop_next-some rest base ready i js aborted fresh k left ends = absurd k

drop_all-some :
    (js : List (ℕ × Bool)) (a : ℕ → Answers) (base : World) (c : AcceptState) (w : World)
    → IsAccepting c
    → IsBalanced base c w
    → c.conn_cookies ≡ js
    → c.accept_cookie ≡ false
    → c.shutdown_requested ≡ true
    → drop_all (length js) a c w ≡ some base
unfolding drop_all release
drop_all-some [] a base c w i b e quiet stop = rw e (ground arith)
drop_all-some ((k, r) ∷ js) a base c w i b e quiet stop = rw e (
    drop_next-some _ base (λ ok. (a (length js)).accept_ok) k js _
      ((subst AreDistinct e i.distinct).0)
      (drop-Keeps c k r i (ap (network_read_cookie k) e ∙ first_cookie k r js) (a (length js)) base
        w b)
      (drop-Leaves (a (length js)) k r js c w e quiet stop)
      (λ c' w' i' b' e' q s. drop_all-some js a base c' w' i' b' e' q s))

pub simple_server_shutdown_lem :
    (a : ℕ → Answers) (base : World) (c : AcceptState) (w : World)
    → IsAccepting c
    → IsBalanced base c w
    → simple_server_shutdown a c w ≡ some base
unfolding simple_server_shutdown
simple_server_shutdown_lem a base c w i b =
    drop_all-some c.conn_cookies a base _ _ (ground arith) (ground arith) refl refl refl
