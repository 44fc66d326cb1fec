-- ===== src/Semaphores/Mutexes/Places.antt =====
-- The owners of the mutexes of Lab10/main.c in the states after the child's first lock.
use os_posix.Prelude.{ℕ, ◌+◌, ◌≤◌, ◌<◌, ◌≡◌, ◌≢◌, ◌⊎◌, true, inl, inr, none, some, arith, dec_lt}
use os_posix.Semaphores.Alternation.{parent, child}
use os_posix.Semaphores.Mutexes.{
  Pc, spinning, entering, locking, unlocking, printing, closing, left, State,
}
use os_posix.Semaphores.Mutexes.Owners.{mutex, Owned}
use os_posix.Semaphores.Mutexes.Strings.{PlacedAt, Placed, at, Lines}

abbrev pub Span : ℕ → ℕ → ℕ → ℕ → Type 0
Span sh a b i = (i + sh ≤ a) × (a ≤ i + 1 + sh) × (i + sh + 1 ≤ b)

PlacedAt-Span : (p : Pc) (sh a b k i : ℕ) → PlacedAt p sh a b k i → Span sh a b i
PlacedAt-Span spinning sh a b k i (u, v, x, y) = (omega arith, omega arith, omega arith)
PlacedAt-Span entering sh a b k i (u, v, x, y) = (omega arith, omega arith, omega arith)
PlacedAt-Span locking sh a b k i (u, v, x, y) = (omega arith, omega arith, omega arith)
PlacedAt-Span unlocking sh a b k i (u, v, x, y) = (omega arith, omega arith, omega arith)
PlacedAt-Span printing sh a b k i (u, v, x, y) = (omega arith, omega arith, omega arith)
PlacedAt-Span closing sh a b k i (u, v, x) = (omega arith, omega arith, omega arith)
PlacedAt-Span left sh a b k i (u, inl (x, y, z)) = (omega arith, omega arith, omega arith)
PlacedAt-Span left sh a b k i (u, inr (x, y, z)) = (omega arith, omega arith, omega arith)

-- Only the parent gives all its mutexes back.
PlacedAt-owns :
    (p : Pc) (sh a b k i : ℕ) → PlacedAt p sh a b k i → (a < b) ⊎ ((sh ≡ 2) × (a ≡ 33) × (b ≡ 33))
PlacedAt-owns spinning sh a b k i (u, v, x, y) = inl (omega arith)
PlacedAt-owns entering sh a b k i (u, v, x, y) = inl (omega arith)
PlacedAt-owns locking sh a b k i (u, v, x, y) = inl (omega arith)
PlacedAt-owns unlocking sh a b k i (u, v, x, y) = inl (omega arith)
PlacedAt-owns printing sh a b k i (u, v, x, y) = inl (omega arith)
PlacedAt-owns closing sh a b k i (u, v, x) = inl (omega arith)
PlacedAt-owns left sh a b k i (u, inl (x, y, z)) = inl (omega arith)
PlacedAt-owns left sh a b k i (u, inr w) = inr w

-- A state after the child's first lock.
pub record Runs (s : State) : Type 0 where
  pub a : ℕ
  pub b : ℕ
  pub c : ℕ
  pub d : ℕ
  pub ready : s.ready ≡ true
  pub owned : Owned s.mute a b c d
  pub child_in : Placed 0 a b s.child_at
  pub parent_in : Placed 2 c d s.parent_at
  pub right : s.errors ≡ 0
  pub lines : Lines s.child_at.i s.parent_at.i s.out

module _ (s : State) (v : Runs s) where
  pub child_bounds : Span 0 v.a v.b s.child_at.i
  child_bounds = PlacedAt-Span s.child_at.pc 0 v.a v.b s.child_at.k s.child_at.i v.child_in

  pub parent_bounds : Span 2 v.c v.d s.parent_at.i
  parent_bounds = PlacedAt-Span s.parent_at.pc 2 v.c v.d s.parent_at.k s.parent_at.i v.parent_in

  pub child_owns : v.a < v.b
  child_owns = elim (PlacedAt-owns s.child_at.pc 0 v.a v.b s.child_at.k s.child_at.i v.child_in) [
    | inl h ↦ h
    | inr (z, x, y) ↦ absurd (omega arith)
  ]

  pub parent_owns : (v.c < v.d) ⊎ ((v.c ≡ 33) × (v.d ≡ 33))
  parent_owns =
      elim (PlacedAt-owns s.parent_at.pc 2 v.c v.d s.parent_at.k s.parent_at.i v.parent_in) [
        | inl h ↦ inl h
        | inr (z, x, y) ↦ inr (x, y)
      ]

  pub not_childs : (y : ℕ) → v.b ≤ y → y < v.a + 3 → s.mute (mutex y) ≢ some child
  not_childs y l u = elim (dec_lt y v.c) [
    | yes p ↦ λ e. cc (v.owned.gap y l p)
    | no p ↦ elim (dec_lt y v.d) [
      | yes q ↦ λ e. cc (v.owned.parents y (omega arith) q)
      | no q ↦ λ e. cc (v.owned.rest y (omega arith) u)
    ]
  ]

  -- The mutex behind those of the parent is free or the child's.
  pub not_parents : s.mute (mutex v.d) ≢ some parent
  not_parents = elim (dec_lt v.d (v.a + 3)) [
    | yes p ↦ λ e. cc (v.owned.rest v.d (omega arith) p)
    | no p ↦
        let same : mutex v.d ≡ mutex v.a = omega (arith, v.owned.round) in
        λ e. cc (same, v.owned.childs v.a (omega arith) child_owns)
  ]

  -- A child that is at the lock of a free mutex finds it before those of the parent.
  pub child_room : s.child_at.pc ≡ locking → s.mute (mutex v.b) ≡ none → v.b < v.c
  child_room e free =
      let (more, from, size, k) = at 0 v.a v.b s.child_at v.child_in locking e in
      elim (dec_lt v.b v.c) [
        | yes h ↦ h
        | no h ↦ elim parent_owns [
          | inl l ↦ absurd (cc (v.owned.parents v.b (omega arith) (omega (arith, v.owned.mid, l))))
          | inr (x, y) ↦ absurd (omega (arith, v.owned.round))
        ]
      ]

  pub parent_room : s.mute (mutex v.d) ≡ none → v.d < v.a + 3
  parent_room free = elim (dec_lt v.d (v.a + 3)) [
    | yes h ↦ h
    | no h ↦
        let same : mutex v.d ≡ mutex v.a = omega (arith, v.owned.round) in
        absurd (cc (same, v.owned.childs v.a (omega arith) child_owns))
  ]
