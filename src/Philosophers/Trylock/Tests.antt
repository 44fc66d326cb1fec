-- ===== src/Philosophers/Trylock/Tests.antt =====
-- The dinner of Lab21/main.c at concrete states.
use os_posix.Prelude.{ℕ, ◌≡◌, ◌≢◌, false, none, refl, ℕ_discrete, arith}
use os_posix.Philosophers.Food.{food, food_on_table}
use os_posix.Philosophers.Trylock.{
  asleep, dining, Dinner, Step, serve, get_left, get_right, Reach, here, next,
}
use os_posix.Philosophers.Trylock.Forks.{trylock_apart, some_philosopher_moves}
use os_posix.Philosophers.Trylock.Wakeups.{IsStuck, lost_wakeup}

abbrev one_eats : (d : Dinner) × Reach false food d
unfolding food_on_table ℕ_discrete
one_eats = (
  _,
  next
      (next (next here (serve 4 49 (omega arith) refl refl (omega arith)))
        (get_left 4 (omega arith) refl refl))
      (get_right 4 (omega arith) refl refl),
)

trylock_apart_example : one_eats.0.pc 0 ≢ dining
unfolding food_on_table ℕ_discrete
trylock_apart_example = trylock_apart one_eats.1 4 (omega arith) refl

some_philosopher_moves_example : (e : Dinner) × Step false one_eats.0 e
unfolding food_on_table ℕ_discrete
some_philosopher_moves_example =
    some_philosopher_moves one_eats.1 4 (omega arith) (λ e. cc) (λ e. cc)

lost_wakeup_example :
    (d : Dinner) × Reach false food d × IsStuck d × (d.pc 1 ≡ asleep) × ((f : ℕ) → d.forks f ≡ none)
lost_wakeup_example = lost_wakeup food (omega arith)
