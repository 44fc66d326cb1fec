-- ===== src/SortedList/Locked/Relock.antt =====
-- The locks of the list of Lab17/main.c, with one, two and more nodes.
use os_posix.Prelude.{◌≡◌, refl, true, false, List, [], ◌∷◌}
use os_posix.SortedList.{Text, inner}
use os_posix.SortedList.Locked.{Node, returns, stuck, bubble_str_sort, push, print_list}

-- Nodes that no thread holds.
abbrev pub unheld : List Text → List Node
unheld [] = []
unheld (t ∷ ts) = record { str = t; held = false } ∷ unheld ts

-- With three nodes or more the sort never returns. With two it leaves the second one locked, so
-- that the list is never printed again, though strings can be added; with one it returns.
pub bubble_str_sort-relock :
    (a b c : Text) (cs : List Text)
    → (bubble_str_sort (unheld (a ∷ b ∷ c ∷ cs)) ≡ stuck)
      × ((s t : Text) × (bubble_str_sort (unheld (a ∷ b ∷ []))
            ≡ returns (record { str = s; held = false } ∷ record { str = t; held = true } ∷ []))
          × (print_list (record { str = s; held = false } ∷ record { str = t; held = true } ∷ [])
              ≡ stuck)
          × (push c (record { str = s; held = false }) (record { str = t; held = true } ∷ [])
              ≡ returns (
                  record { str = c; held = false }
                  ∷ record { str = s; held = false }
                  ∷ record { str = t; held = true }
                  ∷ [])))
      × (bubble_str_sort (unheld (a ∷ [])) ≡ returns (unheld (a ∷ [])))
unfolding bubble_str_sort inner print_list push
bubble_str_sort-relock a b c cs = (refl, (_, _, refl, refl, refl), refl)
