-- ===== src/Philosophers/Waiter/Safety.antt =====
-- Forks and deadlock in Lab9/main.c.
use os_posix.Prelude.{ℕ, ◌<◌, ◌≡◌, ◌≢◌, some, arith}
use os_posix.Philosophers.Waiter.{philosophers, left_fork, right_fork, dining, Dinner, Reach}
use os_posix.Philosophers.Waiter.Invariant.{Inv, Reach-Inv}

-- In every state that the threads reach, a philosopher between `get_fork` and `down_forks` owns
-- both its forks, and its right-hand neighbour is not there too.
pub dining_owns_forks :
    {d : Dinner}
    → Reach d
    → (i : ℕ) → i < philosophers
    → d.pc i ≡ dining
    → (d.forks (left_fork i) ≡ some i)
      × (d.forks (right_fork i) ≡ some i)
      × (d.pc (left_fork i) ≢ dining)
dining_owns_forks {d} r i h e = (
  ground (arith, v.owns i (left_fork i)),
  ground (arith, v.owns i (right_fork i)),
  λ e'. ground (arith, v.owns i (left_fork i), v.owns (left_fork i) (left_fork i)),
)
  where
    v : Inv d
    v = Reach-Inv r
