-- ===== src/Semaphores/Mutexes/Strings.antt =====
-- Where a thread of Lab10/main.c is on the circle of the mutexes, and the strings that are printed.
use mathlib.Core.Path.{subst}
use os_posix.Prelude.{
  ℕ, suc, ◌+◌, ◌*◌, ◌≤◌, ◌<◌, ◌≡◌, ◌⊎◌, refl, ap, ◌∙◌, Bool-cases, inl, inr, List, ◌∷◌, arith, ltb,
  ◌==◌,
}
use os_posix.Semaphores.Alternation.{Line, parent, child}
use os_posix.Semaphores.Alternation.Turns.{full_rounds}
use os_posix.Semaphores.Mutexes.{
  Pc, spinning, entering, locking, unlocking, printing, closing, left, Caller, iterations,
  after_lock, after_unlock, after_print, print_string,
}
use os_posix.Semaphores.Mutexes.Owners.{mutex}

-- A thread owns the mutexes from a on before b; the child begins at 0, the parent at 2.
abbrev pub PlacedAt : Pc → ℕ → ℕ → ℕ → ℕ → ℕ → Type 0
PlacedAt spinning sh a b k i = (sh ≡ 2) × (i ≡ 0) × (a ≡ 2) × (b ≡ 3)
PlacedAt entering sh a b k i = (sh ≡ 2) × (i ≡ 0) × (a ≡ 2) × (b ≡ 3)
PlacedAt locking sh a b k i = (i < 30) × (a ≡ i + sh) × (b ≡ a + 1) × (k ≡ mutex b)
PlacedAt unlocking sh a b k i = (i < 30) × (a ≡ i + sh) × (b ≡ a + 2) × (k ≡ mutex a)
PlacedAt printing sh a b k i = (i < 30) × (a ≡ i + 1 + sh) × (b ≡ a + 1) × (k ≡ mutex (i + sh))
PlacedAt closing sh a b k i = (i ≡ 30) × (a ≡ 30 + sh) × (b ≡ a + 1)
PlacedAt left sh a b k i =
    (i ≡ 30) × (((sh ≡ 0) × (a ≡ 30) × (b ≡ 31)) ⊎ ((sh ≡ 2) × (a ≡ 33) × (b ≡ 33)))

abbrev pub Placed : ℕ → ℕ → ℕ → Caller → Type 0
Placed sh a b c = PlacedAt c.pc sh a b c.k c.i

module _ (sh a b : ℕ) (c : Caller) (v : Placed sh a b c) where
  pub at : (p : Pc) → c.pc ≡ p → PlacedAt p sh a b c.k c.i
  at p e = subst (λ x. PlacedAt x sh a b c.k c.i) e v

  pub after_lock-Placed : c.pc ≡ locking → Placed sh a (b + 1) (after_lock c)
  after_lock-Placed e =
      let (more, from, size, k) = at locking e in (more, from, omega arith, omega arith)

  pub after_unlock-Placed : c.pc ≡ unlocking → Placed sh (a + 1) b (after_unlock c)
  after_unlock-Placed e =
      let (more, from, size, k) = at unlocking e in
      (more, omega arith, omega arith, k ∙ ap mutex from)

  pub after_print-Placed : c.pc ≡ printing → Placed sh a b (after_print c)
  unfolding after_print
  after_print-Placed e =
      let (more, from, size, k) = at printing e in
      elim (Bool-cases (ltb (c.i + 1) iterations)) [
        | inl again ↦ rw again (ground arith, from, size, omega arith)
        | inr all ↦ rw all (ground arith, ground arith, size)
      ]

-- `full_rounds n`, or these and the parent's string, when the child ended i of its iterations and
-- the parent j.
pub data Lines (i j : ℕ) (out : List Line) : Type 0 where
  full :
      (n : ℕ)
      → 3 * n ≤ i
      → i < 3 * n + 3
      → 3 * n ≤ j + 2
      → j < 3 * n + 1
      → out ≡ full_rounds n
      → Lines i j out
  half :
      (n : ℕ)
      → 3 * n ≤ i
      → i < 3 * n + 3
      → 3 * n < j
      → j < 3 * n + 4
      → out ≡ parent ∷ full_rounds n
      → Lines i j out

-- The child prints when the parent has printed, and the parent when the child has.
pub child-Lines :
    (i j k : ℕ) (out : List Line)
    → k ≡ mutex i
    → i ≤ j + 1
    → j ≤ i + 1
    → Lines i j out
    → Lines (i + 1) j (print_string child k out)
unfolding print_string
child-Lines i j k out e l u (full n p q r s o) =
    full n (omega arith) (ground arith) r s (ground arith)
child-Lines i j k out e l u (half n p q r s o) = elim (Bool-cases (k == 2)) [
  | inl prints ↦
      full (suc n) (ground arith) (omega arith) (ground arith) (ground arith) (rw (prints, o) refl)
  | inr quiet ↦ half n (omega arith) (ground arith) r s (rw quiet o)
]

pub parent-Lines :
    (i j k : ℕ) (out : List Line)
    → k ≡ mutex (j + 2)
    → j ≤ i
    → i ≤ j + 2
    → Lines i j out
    → Lines i (j + 1) (print_string parent k out)
unfolding print_string
parent-Lines i j k out e l u (half n p q r s o) =
    half n p q (omega arith) (ground arith) (ground arith)
parent-Lines i j k out e l u (full n p q r s o) = elim (Bool-cases (k == 2)) [
  | inl prints ↦ half n p q (ground arith) (omega arith) (rw (prints, o) refl)
  | inr quiet ↦ full n p q (omega arith) (ground arith) (rw quiet o)
]
