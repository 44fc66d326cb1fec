-- ===== src/SortedList/Tests.antt =====
-- The sorts of Lab16 and Lab17 at concrete lists.
use os_posix.Prelude.{◌≡◌, refl, true, false, some, [], ◌∷◌}
use mathlib.Core.List.{Perm}
use os_posix.SortedList.{Text, bubble_str_sort, on_input}
use os_posix.SortedList.Sort.{IsSorted, bubble_str_sort-IsSorted}
use os_posix.SortedList.Locked.{returns, stuck, print_list}
use os_posix.SortedList.Locked as Locked
use os_posix.SortedList.Locked.Relock.{unheld, bubble_str_sort-relock}

abbrev ab : Text
ab = b'a' ∷ b'b' ∷ []

abbrev ba : Text
ba = b'b' ∷ b'a' ∷ []

abbrev b : Text
b = b'b' ∷ []

sorts : bubble_str_sort (ba ∷ b ∷ ab ∷ b ∷ []) ≡ ab ∷ b ∷ b ∷ ba ∷ []
unfolding bubble_str_sort
sorts = refl

reads_line : on_input (b'b' ∷ 10 ∷ []) (ab ∷ []) ≡ some (b ∷ ab ∷ [])
unfolding on_input
reads_line = refl

bubble_str_sort-IsSorted_example :
    IsSorted (bubble_str_sort (ba ∷ ab ∷ [])) × Perm (ba ∷ ab ∷ []) (bubble_str_sort (ba ∷ ab ∷ []))
bubble_str_sort-IsSorted_example = bubble_str_sort-IsSorted (ba ∷ ab ∷ [])

abbrev node : Text → Locked.Node
node t = record { str = t; held = false }

abbrev held_node : Text → Locked.Node
held_node t = record { str = t; held = true }

bubble_str_sort-relock_test :
    (Locked.bubble_str_sort (unheld (ba ∷ b ∷ ab ∷ [])) ≡ stuck)
    × ((s t : Text) × (Locked.bubble_str_sort (unheld (ba ∷ b ∷ []))
          ≡ returns (node s ∷ held_node t ∷ []))
        × (print_list (node s ∷ held_node t ∷ []) ≡ stuck)
        × (Locked.push ab (node s) (held_node t ∷ [])
            ≡ returns (node ab ∷ node s ∷ held_node t ∷ [])))
    × (Locked.bubble_str_sort (unheld (ba ∷ [])) ≡ returns (unheld (ba ∷ [])))
bubble_str_sort-relock_test = bubble_str_sort-relock ba b ab []
