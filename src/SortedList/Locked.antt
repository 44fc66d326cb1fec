-- ===== src/SortedList/Locked.antt =====
-- Lab17/main.c: the same list with a mutex in every node. A thread that locks a mutex that is
-- held waits; here by itself, when it holds the mutex.
pub mod Relock
use os_posix.Prelude.{ℕ, zero, suc, Bool, true, false, List, [], ◌∷◌, if◌then◌else◌, length}
use os_posix.SortedList.{Text, inner}

pub record Node : Type 0 where
  pub str : Text
  pub held : Bool

pub data Outcome (A : Type 0) : Type 0 where
  returns : A → Outcome A
  stuck : Outcome A

abbrev pub texts : List Node → List Text
texts [] = []
texts (n ∷ ns) = n.str ∷ texts ns

-- The strings that the inner loop left, in the nodes they are in.
abbrev pub with_texts : List Text → List Node → List Node
with_texts (t ∷ ts) (n ∷ ns) = record n { str = t } ∷ with_texts ts ns
with_texts ts ns = ns

abbrev pub then_cons : Node → Outcome (List Node) → Outcome (List Node)
then_cons n stuck = stuck
then_cons n (returns ns) = returns (n ∷ ns)

-- The inner loop takes no locks.
abbrev pub inner_nodes : Node → List Node → Node × List Node
inner_nodes n ns =
    let out = inner n.str (texts ns) in (record n { str = out.0 }, with_texts out.1 ns)

abbrev pub lock_first : List Node → List Node
lock_first [] = []
lock_first (n ∷ ns) = record n { held = true } ∷ ns

-- The outer loop: the node and the next one are locked, and only the node is unlocked.
unfoldable pub outer_locked : ℕ → List Node → Outcome (List Node)
outer_locked zero list = returns list
outer_locked (suc fuel) [] = returns []
outer_locked (suc fuel) (n ∷ []) = returns (n ∷ [])
outer_locked (suc fuel) (n ∷ m ∷ ns) =
    let out = inner_nodes n (lock_first (m ∷ ns)) in
    let rest = outer_locked fuel out.1 in
    if n.held then stuck else (if m.held then stuck else then_cons out.0 rest)

unfoldable pub bubble_str_sort : List Node → Outcome (List Node)
unfolding outer_locked
bubble_str_sort list = outer_locked (length list) list

-- The list, which is never empty, is its head and the others. The mutex of the old head is locked
-- and unlocked.
unfoldable pub push : Text → Node → List Node → Outcome (List Node)
push t n ns = if n.held then stuck else returns (record { str = t; held = false } ∷ n ∷ ns)

-- Each node is locked while it is printed.
unfoldable pub print_list : List Node → Outcome (List Text)
print_list [] = returns []
print_list (n ∷ ns) =
    let rest = print_list ns in
    if n.held then stuck else elim rest [ stuck ↦ stuck | returns ts ↦ returns (n.str ∷ ts) ]
