-- ===== src/Philosophers/Naive/Deadlock.antt =====
-- Who owns which fork in Lab9/din_phil.c, and the deadlock that its order of locking allows.
use os_posix.Prelude.{ℕ, ◌<◌, ◌≡◌, ◌≢◌, Bool, true, false, some, ◌||◌, arith, ◌==◌}
use os_posix.Philosophers.Naive.{
  philo, right_fork, left_fork, Pc, has_right, dining, half_down, Dinner, Step, leave, get_right,
  get_left, down_left, down_right, Reach, here, next,
}

abbrev holds : Pc → ℕ → ℕ → Bool
holds has_right i f = right_fork i == f
holds dining i f = (left_fork i == f) || (right_fork i == f)
holds half_down i f = right_fork i == f
holds _ i f = false

abbrev Owns : Dinner → Type 0
Owns d = (i f : ℕ) → i < philo → holds (d.pc i) i f ≡ true → d.forks f ≡ some i

Step-Owns : {d e : Dinner} → Step d e → Owns d → Owns e
Step-Owns (leave i h p) v j f hj q = ground (arith, v j f)
Step-Owns (get_right i h p n) v j f hj q = ground (arith, v j f, v i f)
Step-Owns (get_left i h p n) v j f hj q = ground (arith, v j f, v i f)
Step-Owns (down_left i h p) v j f hj q = ground (arith, v j f, v i f)
Step-Owns (down_right i h p) v j f hj q = ground (arith, v j f, v i f)

Reach-Owns : {d : Dinner} → Reach d → Owns d
Reach-Owns here = λ i f h e. cc
Reach-Owns (next r s) = Step-Owns s (Reach-Owns r)

-- In every state that the threads reach, neighbours are never both between `get_fork` of the left
-- fork and `down_forks`.
pub naive_apart :
    {d : Dinner} → Reach d → (i : ℕ) → i < philo → d.pc i ≡ dining → d.pc (left_fork i) ≢ dining
naive_apart r i h e e' =
    let v = Reach-Owns r in ground (arith, v i (left_fork i), v (left_fork i) (left_fork i))

-- A reachable state in which every philosopher has its right fork and wants its left one is a
-- deadlock: no thread can take any step from it.
pub all_right_deadlock :
    {d e : Dinner} → Reach d → ((i : ℕ) → i < philo → d.pc i ≡ has_right) → ¬ Step d e
all_right_deadlock r all (leave i h p) = ground (arith, all i h)
all_right_deadlock r all (get_right i h p n) = ground (arith, all i h)
all_right_deadlock r all (get_left i h p n) =
    ground (arith, all (left_fork i), Reach-Owns r (left_fork i) (left_fork i))
all_right_deadlock r all (down_left i h p) = ground (arith, all i h)
all_right_deadlock r all (down_right i h p) = ground (arith, all i h)
