-- ===== src/Server/Total.antt =====
-- spiped/dispatch.c with lib/proto/proto_conn.c: what all connections of a server hold.
use spiped.Base.{
  ℕ, ◌+◌, ◌≡◌, refl, ap, subst, ◌∙◌, Bool-cases, not, inl, inr, some, List, [], ◌∷◌, ◌==◌,
  is_minus_one, arith,
}
use spiped.Primitives.{Primitives}
use spiped.Conn.{World, ConnState, held, is_some}
use spiped.Conn.Ledger.{IsConn, IsBalanced}
use spiped.Dispatch.{list_remove}
use spiped.Server.{names, find, replace, remove}

-- Two worlds together.
abbrev pub plus : World → World → World
plus v w = record {
  fds = v.fds + w.fds;
  timers = v.timers + w.timers;
  connects = v.connects + w.connects;
  addr_lists = v.addr_lists + w.addr_lists;
  handshakes = v.handshakes + w.handshakes;
  keys = v.keys + w.keys;
  pipes = v.pipes + w.pipes;
  conns = v.conns + w.conns;
}

abbrev pub nothing : World
nothing = record {
  fds = 0;
  timers = 0;
  connects = 0;
  addr_lists = 0;
  handshakes = 0;
  keys = 0;
  pipes = 0;
  conns = 0;
}

pub plus_assoc : (u v w : World) → plus (plus u v) w ≡ plus u (plus v w)
plus_assoc u v w = ground arith

plus-swap : (u v w : World) → plus (plus u v) w ≡ plus (plus u w) v
plus-swap u v w = ground arith

module _ (p : Primitives) where
  -- What one connection holds.
  abbrev pub held_by : ConnState p → World
  held_by c = record {
    fds = 1 + held (not (is_minus_one c.t));
    timers = held c.connect_timeout + held c.handshake_timeout;
    connects = held c.connecting;
    addr_lists = held c.sas;
    handshakes = held c.handshaking;
    keys = held (is_some c.k_f) + held (is_some c.k_r);
    pipes = held c.pipe_f + held c.pipe_r;
    conns = 1;
  }

  abbrev pub total : List (ℕ × ConnState p) → World
  total [] = nothing
  total ((i, c) ∷ cs) = plus (total cs) (held_by c)

  -- Each connection keeps its invariant.
  abbrev pub AreConns : List (ℕ × ConnState p) → Type 0
  AreConns [] = Unit
  AreConns ((i, c) ∷ cs) = IsConn p c × AreConns cs

  pub balanced :
      (base w : World) (c : ConnState p) → w ≡ plus base (held_by c) → IsBalanced p base c w
  balanced base w c e = ground arith

  pub unbalanced :
      (base w : World) (c : ConnState p) → IsBalanced p base c w → w ≡ plus base (held_by c)
  unbalanced base w c b = ground arith

  pub total-remove :
      (i : ℕ) (cs : List (ℕ × ConnState p)) (c : ConnState p)
      → find p i cs ≡ some c
      → total cs ≡ plus (total (remove p i cs)) (held_by c)
  unfolding remove
  total-remove i [] c e = absurd (ground arith)
  total-remove i ((j, b) ∷ cs) c e = elim (Bool-cases (i == j)) [
    | inl same ↦
        let is_c : b ≡ c = ground arith in
        rw same (ap (λ (x : ConnState p). plus (total cs) (held_by x)) is_c)
    | inr other ↦ rw other (
        ap (λ (v : World). plus v (held_by b)) (total-remove i cs c (ground arith))
        ∙ plus-swap (total (remove p i cs)) (held_by c) (held_by b))
  ]

  pub total-replace :
      (i : ℕ) (cs : List (ℕ × ConnState p)) (c c' : ConnState p)
      → find p i cs ≡ some c
      → total (replace p i c' cs) ≡ plus (total (remove p i cs)) (held_by c')
  unfolding remove replace
  total-replace i [] c c' e = absurd (ground arith)
  total-replace i ((j, b) ∷ cs) c c' e = elim (Bool-cases (i == j)) [
    | inl same ↦ rw same refl
    | inr other ↦ rw other (
        ap (λ (v : World). plus v (held_by b)) (total-replace i cs c c' (ground arith))
        ∙ plus-swap (total (remove p i cs)) (held_by c') (held_by b))
  ]

  pub names-remove :
      (i : ℕ) (cs : List (ℕ × ConnState p)) → names p (remove p i cs) ≡ list_remove i (names p cs)
  unfolding remove list_remove
  names-remove i [] = refl
  names-remove i ((j, b) ∷ cs) = elim (Bool-cases (i == j)) [
    | inl same ↦ rw same refl
    | inr other ↦ rw other (ap (λ (l : List ℕ). j ∷ l) (names-remove i cs))
  ]

  pub names-replace :
      (i : ℕ) (c' : ConnState p) (cs : List (ℕ × ConnState p))
      → names p (replace p i c' cs) ≡ names p cs
  unfolding replace
  names-replace i c' [] = refl
  names-replace i c' ((j, b) ∷ cs) = elim (Bool-cases (i == j)) [
    | inl same ↦ rw same refl
    | inr other ↦ rw other (ap (λ (l : List ℕ). j ∷ l) (names-replace i c' cs))
  ]

  pub AreConns-find :
      (i : ℕ) (cs : List (ℕ × ConnState p)) (c : ConnState p)
      → AreConns cs
      → find p i cs ≡ some c
      → IsConn p c
  AreConns-find i [] c a e = absurd (ground arith)
  AreConns-find i ((j, b) ∷ cs) c a e = elim (Bool-cases (i == j)) [
    | inl same ↦ let is_c : b ≡ c = ground arith in subst (IsConn p) is_c a.0
    | inr other ↦ AreConns-find i cs c a.1 (ground arith)
  ]

  pub AreConns-remove :
      (i : ℕ) (cs : List (ℕ × ConnState p)) → AreConns cs → AreConns (remove p i cs)
  unfolding remove
  AreConns-remove i [] a = tt
  AreConns-remove i ((j, b) ∷ cs) a = elim (Bool-cases (i == j)) [
    | inl same ↦ rw same a.1
    | inr other ↦ rw other (a.0, AreConns-remove i cs a.1)
  ]

  pub AreConns-replace :
      (i : ℕ) (c' : ConnState p) (cs : List (ℕ × ConnState p))
      → IsConn p c'
      → AreConns cs
      → AreConns (replace p i c' cs)
  unfolding replace
  AreConns-replace i c' [] b a = tt
  AreConns-replace i c' ((j, c) ∷ cs) b a = elim (Bool-cases (i == j)) [
    | inl same ↦ rw same (b, a.1)
    | inr other ↦ rw other (a.0, AreConns-replace i c' cs b a.1)
  ]
