-- ===== src/Philosophers/Naive/Tests.antt =====
-- The schedule of Lab9/din_phil.c that ends in a deadlock.
use os_posix.Prelude.{ℕ, zero, suc, ◌<◌, ◌≡◌, ◌≢◌, refl, ℕ_discrete, arith}
use os_posix.Philosophers.Naive.{
  philo, has_right, dining, Dinner, Step, get_right, get_left, Reach, here, next,
}
use os_posix.Philosophers.Naive.Deadlock.{naive_apart, all_right_deadlock}

-- Each philosopher in turn takes its right fork.
abbrev stuck : (d : Dinner) × Reach d
unfolding ℕ_discrete
stuck = (
  _,
  next
      (next
        (next
          (next (next here (get_right 0 (omega arith) refl refl))
            (get_right 1 (omega arith) refl refl))
          (get_right 2 (omega arith) refl refl))
        (get_right 3 (omega arith) refl refl))
      (get_right 4 (omega arith) refl refl),
)

all_have_right : (i : ℕ) → i < philo → stuck.0.pc i ≡ has_right
unfolding ℕ_discrete
all_have_right zero h = refl
all_have_right (suc zero) h = refl
all_have_right (suc (suc zero)) h = refl
all_have_right (suc (suc (suc zero))) h = refl
all_have_right (suc (suc (suc (suc zero)))) h = refl
all_have_right (suc (suc (suc (suc (suc i))))) h = absurd (omega arith)

all_right_deadlock_test : ¬ Step stuck.0 stuck.0
unfolding ℕ_discrete
all_right_deadlock_test = all_right_deadlock stuck.1 all_have_right

abbrev one_eats : (d : Dinner) × Reach d
unfolding ℕ_discrete
one_eats =
    (_, next (next here (get_right 3 (omega arith) refl refl)) (get_left 3 (omega arith) refl refl))

naive_apart_test : one_eats.0.pc 4 ≢ dining
unfolding ℕ_discrete
naive_apart_test = naive_apart one_eats.1 3 (omega arith) refl
