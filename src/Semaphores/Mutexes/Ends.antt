-- ===== src/Semaphores/Mutexes/Ends.antt =====
-- The strings of Lab10/main.c, and that some thread can go on.
use mathlib.Core.Path.{subst}
use os_posix.Prelude.{
  ℕ, ◌≤◌, ◌≡◌, ◌≢◌, ◌⊎◌, refl, ap, sym, ◌∙◌, inl, inr, none, some, List, arith, dec_lt, ℕ_discrete,
}
use os_posix.Semaphores.Alternation.{Line, parent, child, rounds}
use os_posix.Semaphores.Alternation.Turns.{full_rounds, Alternate}
use os_posix.Semaphores.Mutexes.{
  Pc, spinning, entering, locking, unlocking, printing, closing, left, State, start, Step,
  spins_out, enters_first, enters_later, locks, unlocks, prints, closes, close_fails, Reachable,
}
use os_posix.Semaphores.Mutexes.Strings.{PlacedAt, at, Lines, full, half}
use os_posix.Semaphores.Mutexes.Places.{Runs}
use os_posix.Semaphores.Mutexes.Turns.{Reachable-Runs, no_childs_enter}
use os_posix.Semaphores.Mutexes.Calls.{
  child_closes, parent_has, child_unlocks_own, parent_unlocks_own,
}

-- Both threads have left, each printed its string ten times, and the child owns the mutex 1.
abbrev pub Over : State → Type 0
Over s =
    (s.child_at.pc ≡ left)
    × (s.parent_at.pc ≡ left)
    × (s.out ≡ full_rounds rounds)
    × (s.mute 1 ≡ some child)

abbrev Moves : State → Type 0
Moves s = (s' : State) × Step s s'

Lines-Alternate : (i j : ℕ) (out : List Line) → i ≤ 30 → j ≤ 30 → Lines i j out → Alternate out
Lines-Alternate i j out p q (full n a b c d e) = (n, inl (omega arith, e))
Lines-Alternate i j out p q (half n a b c d e) = (n, inr (omega arith, e))

Lines-over : (out : List Line) → Lines 30 30 out → out ≡ full_rounds rounds
Lines-over out (full n a b c d e) = let all : n ≡ rounds = omega arith in e ∙ ap full_rounds all
Lines-over out (half n a b c d e) = absurd (omega arith)

PlacedAt-most : (p : Pc) (sh a b k i : ℕ) → PlacedAt p sh a b k i → i ≤ 30
PlacedAt-most spinning sh a b k i (u, v, x, y) = omega arith
PlacedAt-most entering sh a b k i (u, v, x, y) = omega arith
PlacedAt-most locking sh a b k i (u, v, x, y) = omega arith
PlacedAt-most unlocking sh a b k i (u, v, x, y) = omega arith
PlacedAt-most printing sh a b k i (u, v, x, y) = omega arith
PlacedAt-most closing sh a b k i (u, v, x) = omega arith
PlacedAt-most left sh a b k i (u, v) = omega arith

module _ (s : State) (v : Runs s) where
  child_over : s.child_at.pc ≡ left → (s.child_at.i ≡ 30) × (v.a ≡ 30) × (v.b ≡ 31)
  child_over w =
      let (all, where_to) = at 0 v.a v.b s.child_at v.child_in left w in
      elim where_to [ inl (z, x, y) ↦ (all, x, y) | inr (z, x, y) ↦ absurd (omega arith) ]

  over : s.child_at.pc ≡ left → s.parent_at.pc ≡ left → Over s
  over w e =
      let (i, a, b) = child_over w in
      let (j, where_to) = at 2 v.c v.d s.parent_at v.parent_in left e in
      let out : Lines 30 30 s.out =
        subst (λ x. Lines 30 x s.out) j (subst (λ x. Lines x s.parent_at.i s.out) i v.lines) in
      (w, e, Lines-over s.out out, v.owned.childs 30 (omega arith) (omega arith))

  not_parent_first : s.child_at.pc ≡ locking → s.parent_at.pc ≢ left
  not_parent_first w e =
      let (more, from, size, k) = at 0 v.a v.b s.child_at v.child_in locking w in
      let (j, where_to) = at 2 v.c v.d s.parent_at v.parent_in left e in
      elim where_to [ inl (z, x, y) ↦ omega arith | inr (z, x, y) ↦ omega (arith, v.owned.round) ]

  free_again : s.child_at.pc ≡ left → s.parent_at.pc ≡ locking → s.mute s.parent_at.k ≡ none
  free_again w e =
      let (i, a, b) = child_over w in
      let (more, from, size, k) = at 2 v.c v.d s.parent_at v.parent_in locking e in
      ap s.mute k ∙ v.owned.rest v.d (omega arith) (omega arith)

  one_locks : s.child_at.pc ≡ locking → s.parent_at.pc ≡ locking → Moves s
  one_locks w e =
      let (some_left, start, width, k) = at 0 v.a v.b s.child_at v.child_in locking w in
      let (more, from, size, k') = at 2 v.c v.d s.parent_at v.parent_in locking e in
      elim (dec_lt v.b v.c) [
        | yes h ↦ (_, locks child w (ap s.mute k ∙ v.owned.gap v.b (omega arith) h))
        | no h ↦ (
          _,
          locks parent e
              (ap s.mute k' ∙ v.owned.rest v.d (omega arith) (omega (arith, v.owned.mid))),
        )
      ]

  -- The child has left or is at a lock.
  parent_moves :
      (p : Pc)
      → s.parent_at.pc ≡ p
      → (s.child_at.pc ≡ left) ⊎ (s.child_at.pc ≡ locking)
      → Moves s ⊎ Over s
  parent_moves spinning e w = inl (_, spins_out e v.ready)
  parent_moves entering e w = inl (_, enters_later parent e v.ready)
  parent_moves unlocking e w = inl (_, unlocks parent e (parent_unlocks_own s v e))
  parent_moves printing e w = inl (_, prints parent e)
  parent_moves closing e w = inl (_, closes parent e (parent_has s v e))
  parent_moves left e (inl w) = inr (over w e)
  parent_moves left e (inr w) = absurd (not_parent_first w e)
  parent_moves locking e (inl w) = inl (_, locks parent e (free_again w e))
  parent_moves locking e (inr w) = inl (one_locks w e)

  moves : (p : Pc) → s.child_at.pc ≡ p → Moves s ⊎ Over s
  moves spinning e =
      let (z, none_yet, a, b) = at 0 v.a v.b s.child_at v.child_in spinning e in
      absurd (omega arith)
  moves entering e = absurd (no_childs_enter s v e)
  moves locking e = parent_moves s.parent_at.pc refl (inr e)
  moves unlocking e = inl (_, unlocks child e (child_unlocks_own s v e))
  moves printing e = inl (_, prints child e)
  moves closing e = inl (_, close_fails child e (child_closes s v e))
  moves left e = parent_moves s.parent_at.pc refl (inl e)

abbrev HasTurn : State → Type 0
HasTurn s = Alternate s.out × (s.errors ≡ 0) × (Moves s ⊎ Over s)

Runs-HasTurn : (s : State) → Runs s → HasTurn s
Runs-HasTurn s v = (
  Lines-Alternate s.child_at.i s.parent_at.i s.out
      (PlacedAt-most s.child_at.pc 0 v.a v.b s.child_at.k s.child_at.i v.child_in)
      (PlacedAt-most s.parent_at.pc 2 v.c v.d s.parent_at.k s.parent_at.i v.parent_in) v.lines,
  v.right,
  moves s v s.child_at.pc refl,
)

start-HasTurn : HasTurn start
unfolding ℕ_discrete
start-HasTurn = ((0, inl (omega arith, refl)), refl, inl (_, enters_first child refl refl refl))

-- In every state that the threads of Lab10 reach the strings alternate, the first is the parent's
-- and there are at most ten of each; no lock and no unlock in the loop failed; and some thread can
-- take a step, or both have left, have printed ten strings each, and the child still owns mutex 1.
pub mutex_strings-Alternate :
    (s : State)
    → Reachable s
    → Alternate s.out × (s.errors ≡ 0) × (((s' : State) × Step s s') ⊎ Over s)
mutex_strings-Alternate s h = elim (Reachable-Runs s h) [
  | inl e ↦ subst HasTurn (sym e) start-HasTurn
  | inr v ↦ Runs-HasTurn s v
]
