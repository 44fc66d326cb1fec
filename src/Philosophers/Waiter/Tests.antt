-- ===== src/Philosophers/Waiter/Tests.antt =====
-- A run of Lab9/main.c.
use os_posix.Prelude.{◌≡◌, ◌≢◌, refl, some, ℕ_discrete, arith}
use os_posix.Philosophers.Waiter.{
  dining, Dinner, lock_all, lock_left, lock_right, unlock_l_forks, Reach, here, next,
}
use os_posix.Philosophers.Waiter.Safety

-- Philosopher 0 eats with forks 1 and 0, and 1 waits for fork 2 with `lForks` in its hand.
abbrev first_dish : (d : Dinner) × Reach d
unfolding ℕ_discrete
first_dish = (
  _,
  next
      (next
        (next
          (next (next here (lock_all 0 (omega arith) refl refl))
            (lock_left 0 (omega arith) refl refl))
          (lock_right 0 (omega arith) refl refl))
        (unlock_l_forks 0 (omega arith) refl))
      (lock_all 1 (omega arith) refl refl),
)

dining_owns_forks_example :
    (first_dish.0.forks 1 ≡ some 0) × (first_dish.0.forks 0 ≡ some 0) × (first_dish.0.pc 1 ≢ dining)
unfolding ℕ_discrete
dining_owns_forks_example = Safety.dining_owns_forks first_dish.1 0 (omega arith) refl
