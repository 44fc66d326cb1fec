-- ===== src/Semaphores/Tests.antt =====
-- The theorems on Lab13 and Lab22 at reachable states.
use os_posix.Prelude.{◌≤◌, ◌≡◌, ◌⊎◌, refl, true, arith}
use os_posix.Semaphores.Alternation as Alternation
use os_posix.Semaphores.Alternation.Turns.{Alternate, full_rounds, lines-Alternate}
use os_posix.Semaphores.Assembly as Assembly
use os_posix.Semaphores.Assembly.Stock.{assembles, nothing_from_nothing, line_moves}

abbrev printing : Alternation.State
printing = record Alternation.start { parent_at = Alternation.prints; sem2 = 0 }

printing-Reachable : Alternation.Reachable printing
printing-Reachable =
    Alternation.steps Alternation.begins (Alternation.parent_wait 0 refl (omega arith) refl)

lines-Alternate_example :
    Alternate printing.out
    × (((s' : Alternation.State) × Alternation.Step printing s')
        ⊎ (printing.out ≡ full_rounds Alternation.rounds))
lines-Alternate_example = lines-Alternate printing printing-Reachable

abbrev stocked : Assembly.Line
stocked = record Assembly.start {
  detail_a = 1;
  made_a = 1;
  detail_b = 1;
  made_b = 1;
  detail_c = 1;
  made_c = 1;
}

stocked-Reachable : Assembly.Reachable stocked
stocked-Reachable =
    Assembly.steps
      (Assembly.steps (Assembly.steps Assembly.begins Assembly.create_a) Assembly.create_b)
      Assembly.create_c

nothing_from_nothing_test :
    (stocked.widgets ≤ stocked.modules)
    × (stocked.widgets ≤ stocked.made_c)
    × (stocked.modules ≤ stocked.made_a)
    × (stocked.modules ≤ stocked.made_b)
nothing_from_nothing_test = nothing_from_nothing stocked stocked-Reachable

line_moves_example : (s' : Assembly.Line) × (t : Assembly.Step stocked s') × (assembles t ≡ true)
line_moves_example = line_moves stocked stocked-Reachable (omega arith) (omega arith) (omega arith)
