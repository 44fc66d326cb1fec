-- ===== src/Philosophers/Trylock/Wakeups.antt =====
-- The wakeup that Lab21/main.c loses: a broadcast between the failed `pthread_mutex_trylock` and the
-- wait wakes nobody, and nobody broadcasts after the last meal.
use os_posix.Prelude.{
  ℕ, zero, suc, ◌+◌, ◌-◌, ◌≤◌, ◌<◌, ◌≡◌, false, none, arith, refl, ℕ_discrete, ap, ◌⊎◌,
}
use os_posix.Philosophers.Food.{food_on_table}
use os_posix.Philosophers.Trylock.{
  philosophers, seated, asleep, done, Dinner, wake, Step, serve, leave, get_left, get_left_again,
  get_right, miss, wait, wakes_alone, down_left, down_right, broadcast, Reach, here, next,
}

-- Nobody can take a step.
abbrev pub IsStuck : Dinner → Type 0
IsStuck d = (e : Dinner) → Step false d e → ⊥

-- Everybody sits, and every fork lies on the table.
record IsIdle (d : Dinner) : Type 0 where
  pc : (i : ℕ) → d.pc i ≡ seated
  forks : (f : ℕ) → d.forks f ≡ none

-- Philosopher 0 eats a dish while the others sit.
eats_alone :
    {food k : ℕ} {d : Dinner}
    → Reach false food d
    → IsIdle d
    → d.food ≡ suc (suc k)
    → (e : Dinner) × Reach false food e × IsIdle e × (e.food ≡ suc k)
unfolding food_on_table ℕ_discrete
eats_alone {food} {k} {d} r v e =
    let r1 = next r (serve 0 (suc k) (omega arith) (v.pc 0) (ground (arith, e)) (omega arith)) in
    let r2 = next r1 (get_left 0 (omega arith) refl (ground (arith, v.forks 1))) in
    let r3 = next r2 (get_right 0 (omega arith) refl (ground (arith, v.forks 0))) in
    let r4 = next r3 (down_left 0 (omega arith) refl) in
    let r5 = next r4 (down_right 0 (omega arith) refl) in
    let r6 = next r5 (broadcast 0 (omega arith) refl) in
    (
      _,
      r6,
      record { pc = λ i. ground (arith, v.pc i); forks = λ f. ground (arith, v.forks f) },
      refl,
    )

three_left :
    {food : ℕ} (k : ℕ) {d : Dinner}
    → Reach false food d
    → IsIdle d
    → d.food ≡ k + 3
    → (e : Dinner) × Reach false food e × IsIdle e × (e.food ≡ 3)
three_left zero {d} r v e = (d, r, v, omega (arith, e))
three_left (suc k) r v e =
    let (d1, r1, v1, e1) = eats_alone {k = k + 2} r v (omega (arith, e)) in
    three_left k r1 v1 (omega (arith, e1))

-- Everybody is asleep or gone.
abbrev Over : Dinner → Type 0
Over d = (i : ℕ) → i < philosophers → (d.pc i ≡ done) ⊎ (d.pc i ≡ asleep)

Over-IsStuck : (d : Dinner) → Over d → IsStuck d
Over-IsStuck d v e (serve i f h p m n) = ground (arith, v i h)
Over-IsStuck d v e (leave i f h p m) = ground (arith, v i h)
Over-IsStuck d v e (get_left i h p n) = ground (arith, v i h)
Over-IsStuck d v e (get_left_again i h p n) = ground (arith, v i h)
Over-IsStuck d v e (get_right i h p n) = ground (arith, v i h)
Over-IsStuck d v e (miss i j h p n) = ground (arith, v i h)
Over-IsStuck d v e (wait i h p) = ground (arith, v i h)
Over-IsStuck d v e (wakes_alone i h b p) = cc
Over-IsStuck d v e (down_left i h p) = ground (arith, v i h)
Over-IsStuck d v e (down_right i h p) = ground (arith, v i h)
Over-IsStuck d v e (broadcast i h p) = ground (arith, v i h)

-- With three dishes left philosopher 0 has its last meal while philosopher 1 finds fork 1 taken.
last_meal :
    {food : ℕ} {d : Dinner}
    → Reach false food d
    → IsIdle d
    → d.food ≡ 3
    → (e : Dinner) × Reach false food e × Over e × (e.pc 1 ≡ asleep) × ((f : ℕ) → e.forks f ≡ none)
unfolding food_on_table ℕ_discrete
last_meal {food} {d} r v e =
    let r1 = next r (serve 0 2 (omega arith) (v.pc 0) (ground (arith, e)) (omega arith)) in
    let r2 = next r1 (serve 1 1 (omega arith) (v.pc 1) refl (omega arith)) in
    let r3 = next r2 (get_left 0 (omega arith) refl (v.forks 1)) in
    let r4 = next r3 (get_right 0 (omega arith) refl (v.forks 0)) in
    let r5 = next r4 (get_left 1 (omega arith) refl (v.forks 2)) in
    let r6 = next r5 (miss 1 0 (omega arith) refl refl) in
    let r7 = next r6 (down_left 0 (omega arith) refl) in
    let r8 = next r7 (down_right 0 (omega arith) refl) in
    let r9 = next r8 (broadcast 0 (omega arith) refl) in
    let r10 = next r9 (leave 0 0 (omega arith) refl refl) in
    let r11 = next r10 (leave 2 0 (omega arith) (ap wake (v.pc 2)) refl) in
    let r12 = next r11 (leave 3 0 (omega arith) (ap wake (v.pc 3)) refl) in
    let r13 = next r12 (leave 4 0 (omega arith) (ap wake (v.pc 4)) refl) in
    let r14 = next r13 (wait 1 (omega arith) refl) in
    (_, r14, λ i h. ground arith, refl, λ f. ground (arith, v.forks f))

-- With three dishes or more on the table, and no spurious wakeup, the threads reach a state in
-- which nobody can take a step, every fork is free, and philosopher 1 sleeps before a dish that it
-- was given.
pub lost_wakeup :
    (food : ℕ)
    → 3 ≤ food
    → (d : Dinner) × Reach false food d
      × IsStuck d
      × (d.pc 1 ≡ asleep)
      × ((f : ℕ) → d.forks f ≡ none)
lost_wakeup food h =
    let (d, r, v, e) =
      three_left (food - 3) here (record { pc = λ i. refl; forks = λ f. refl }) (omega arith) in
    let (d', r', over, sleeps, free) = last_meal r v e in
    (d', r', Over-IsStuck d' over, sleeps, free)
