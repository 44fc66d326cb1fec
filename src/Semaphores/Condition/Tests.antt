-- ===== src/Semaphores/Condition/Tests.antt =====
-- Lab12 at reachable states.
use os_posix.Prelude.{◌≡◌, ◌⊎◌, refl, true, false, ◌∷◌, arith}
use os_posix.Semaphores.Alternation.{parent}
use os_posix.Semaphores.Alternation.Turns.{Alternate, full_rounds}
use os_posix.Semaphores.Condition.{
  State, start, parent_section, Step, parent_begins, Reachable, begins, steps,
}
use os_posix.Semaphores.Condition.Turns.{condition_lines-Alternate, spurious_repeats, Over}

abbrev waits_for_child : State
unfolding parent_section
waits_for_child = parent_section start

condition_lines-Alternate_example :
    Alternate waits_for_child.out
    × (((s : State) × Step false waits_for_child s) ⊎ Over waits_for_child)
unfolding parent_section
condition_lines-Alternate_example =
    condition_lines-Alternate waits_for_child (steps begins (parent_begins refl))

spurious_repeats_test : (s : State) × Reachable true s × (s.out ≡ parent ∷ parent ∷ full_rounds 4)
spurious_repeats_test = spurious_repeats 4 (omega arith)
