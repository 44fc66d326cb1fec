-- ===== src/Philosophers/Monitor/Safety.antt =====
-- Neighbours, sleepers and deadlock in Lab9/smartPhilo.c.
use os_posix.Prelude.{
  ℕ, ◌<◌, ◌≡◌, ◌≢◌, refl, ◌⊎◌, inl, inr, Bool, true, false, arith, Bool-cases, update_self,
}
use os_posix.Philosophers.Monitor.{
  philo, left, right, eating, Pc, seated, inside, dining, done, Dinner, Step, take, wake, release,
  Reach,
}
use os_posix.Philosophers.Monitor.Invariant.{Inv, Reach-Inv, right-left, left-lt, right-lt}

-- A step of the thread of philosopher `i`: only that one moves its own `pc`.
abbrev pub Moves : Bool → Dinner → ℕ → Type 0
Moves b d i = (e : Dinner) × Step b d e × (e.pc i ≢ d.pc i)

eater_moves :
    {b : Bool} {d : Dinner}
    → Inv b d
    → (i : ℕ) (p : Pc) → i < philo
    → d.pc i ≡ p
    → d.table.status i ≡ eating
    → Moves b d i
eater_moves v i seated h at e = absurd (ground (arith, v.agrees i h))
eater_moves {b} {d} v i inside h at e =
    (_, wake i h at (ground (arith, v.agrees i h)), λ same. cc (update_self d.pc i dining, at))
eater_moves {b} {d} v i dining h at e =
    (_, release i h at, λ same. cc (update_self d.pc i seated, at))
eater_moves v i done h at e = absurd (ground (arith, v.agrees i h))

-- Without spurious wakeups: in every state that the threads reach, if philosopher `i` is between
-- the return of `get_forks` and `down_forks`, then neither neighbour is.
pub dining_apart :
    {d : Dinner}
    → Reach false d
    → (i : ℕ) → i < philo
    → d.pc i ≡ dining
    → (d.pc (left i) ≢ dining) × (d.pc (right i) ≢ dining)
dining_apart {d} r i h e = (
  λ l. ground (
    arith,
    v.agrees i h,
    v.agrees (left i) (left-lt i),
    v.apart (left i) (left-lt i),
    right-left i h,
  ),
  λ r'. ground (arith, v.agrees i h, v.agrees (right i) (right-lt i), v.apart i h),
)
  where
    v : Inv false d
    v = Reach-Inv r

-- In every state that the threads reach, with or without spurious wakeups, a philosopher that
-- sleeps in `get_forks` has a neighbour whose state is EATING, and that neighbour can take a step.
pub sleeper_has_eater :
    {b : Bool} {d : Dinner}
    → Reach b d
    → (i : ℕ) → i < philo
    → d.table.waiting i ≡ true
    → (j : ℕ) × ((j ≡ left i) ⊎ (j ≡ right i)) × (d.table.status j ≡ eating) × Moves b d j
sleeper_has_eater {b} {d} r i h w =
    let v : Inv b d = Reach-Inv r in
    elim (v.blocked i h (ground (arith, v.agrees i h))) [
      | inl e ↦ (left i, inl refl, e, eater_moves v (left i) (d.pc (left i)) (left-lt i) refl e)
      | inr e ↦ (right i, inr refl, e, eater_moves v (right i) (d.pc (right i)) (right-lt i) refl e)
    ]

no_deadlock_at :
    {b : Bool} {d : Dinner}
    → Reach b d
    → (i : ℕ) (p : Pc) → i < philo
    → d.pc i ≡ p
    → p ≢ done
    → (e : Dinner) × Step b d e
no_deadlock_at r i seated h at live = (_, take i h at)
no_deadlock_at {b} {d} r i inside h at live = elim (Bool-cases (d.table.waiting i)) [
  | inl asleep ↦ let (j, side, eats, (e, step, moved)) = sleeper_has_eater r i h asleep in (e, step)
  | inr woken ↦ (_, wake i h at woken)
]
no_deadlock_at r i dining h at live = (_, release i h at)
no_deadlock_at r i done h at live = absurd (live refl)

-- In every state that the threads reach, with or without spurious wakeups, in which some
-- philosopher has not left, some thread can take a step.
pub no_deadlock :
    {b : Bool} {d : Dinner}
    → Reach b d
    → (i : ℕ) → i < philo
    → d.pc i ≢ done
    → (e : Dinner) × Step b d e
no_deadlock {b} {d} r i h live = no_deadlock_at r i (d.pc i) h refl live
