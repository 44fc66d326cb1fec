-- ===== src/Semaphores/Mutexes/Tests.antt =====
-- Lab10 at a reachable state.
use os_posix.Prelude.{◌≡◌, ◌⊎◌, refl, none, some, true, update, ℕ_discrete}
use os_posix.Semaphores.Alternation.{child}
use os_posix.Semaphores.Alternation.Turns.{Alternate}
use os_posix.Semaphores.Mutexes.{
  State, start, enter, after_lock, put, Step, enters_first, locks, begins, steps,
}
use os_posix.Semaphores.Mutexes.Ends.{mutex_strings-Alternate, Over}

-- The child has locked the mutexes 1 and 0.
abbrev in_loop : State
in_loop =
    put child (enter 0) (record start { mute = update start.mute 1 (some child); ready = true })

abbrev two_locked : State
two_locked =
    put child (after_lock in_loop.child_at)
      (record in_loop { mute = update in_loop.mute 0 (some child) })

one_free : start.mute 1 ≡ none
unfolding ℕ_discrete
one_free = refl

other_free : in_loop.mute 0 ≡ none
unfolding ℕ_discrete
other_free = refl

mutex_strings-Alternate_example :
    Alternate two_locked.out
    × (two_locked.errors ≡ 0)
    × (((s : State) × Step two_locked s) ⊎ Over two_locked)
mutex_strings-Alternate_example =
    mutex_strings-Alternate two_locked
      (steps (steps begins (enters_first child refl refl one_free)) (locks child refl other_free))
