-- ===== src/Philosophers/Monitor/Tests.antt =====
-- Runs of Lab9/smartPhilo.c.
use os_posix.Prelude.{ℕ, ◌≡◌, ◌≢◌, refl, ◌⊎◌, false, ℕ_discrete, arith}
use os_posix.Philosophers.Monitor.{
  left, right, eating, dining, inside, Dinner, get_forks, down_forks, Step, take, release, Reach,
  here, next,
}
use os_posix.Philosophers.Monitor.Safety.{Moves, dining_apart, sleeper_has_eater, no_deadlock}

-- Philosopher 0 eats, and 1 waits for it.
abbrev one_waits : (d : Dinner) × Reach false d
unfolding get_forks ℕ_discrete
one_waits = (_, next (next here (take 0 (omega arith) refl)) (take 1 (omega arith) refl))

-- Philosopher 0 has put its forks down, which wakes 1.
abbrev one_woken : (d : Dinner) × Reach false d
unfolding get_forks down_forks ℕ_discrete
one_woken = (_, next one_waits.1 (release 0 (omega arith) refl))

woken_eats : (one_woken.0.pc 1 ≡ inside) × (one_woken.0.table.waiting 1 ≡ false)
unfolding get_forks down_forks ℕ_discrete
woken_eats = (refl, refl)

dining_apart_example : (one_waits.0.pc 4 ≢ dining) × (one_waits.0.pc 1 ≢ dining)
unfolding get_forks ℕ_discrete
dining_apart_example = dining_apart one_waits.1 0 (omega arith) refl

sleeper_has_eater_example :
    (j : ℕ) × ((j ≡ left 1) ⊎ (j ≡ right 1))
    × (one_waits.0.table.status j ≡ eating)
    × Moves false one_waits.0 j
unfolding get_forks ℕ_discrete
sleeper_has_eater_example = sleeper_has_eater one_waits.1 1 (omega arith) refl

no_deadlock_example : (e : Dinner) × Step false one_waits.0 e
unfolding get_forks ℕ_discrete
no_deadlock_example = no_deadlock one_waits.1 1 (omega arith) (λ e. cc)
