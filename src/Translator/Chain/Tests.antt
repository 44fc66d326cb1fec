-- ===== src/Translator/Chain/Tests.antt =====
-- Two connections of Lab25 on the heap.
use os_posix.Prelude.{◌≡◌, refl, true, false, none, some, [], ◌∷◌, arith, if◌then◌else◌}
use os_posix.Translator.{Connection, is_stale}
use os_posix.Translator.Chain.{
  null, node, Heap, write, connection_create, connection_drop, fault, swept, sweep,
}
use os_posix.Translator.Chain.Links.{Cells, IsChain}
use os_posix.Translator.Chain.Create.{created, connection_create-IsChain}
use os_posix.Translator.Chain.Drop.{connection_drop-IsChain}
use os_posix.Translator.Chain.Sweep.{any_stale, wants, greatest, sweep_lem}

abbrev old : Connection
old = created 4 5 100

abbrev young : Connection
young = created 6 7 104

abbrev empty_heap : Heap
empty_heap p = none

abbrev two : Heap
two = write (write empty_heap 1 (some (node old null 2))) 2 (some (node young 1 null))

abbrev cells : Cells
cells = (2, young) ∷ (1, old) ∷ []

cells-IsChain : IsChain two 2 cells
cells-IsChain = record {
  head = refl;
  links = (refl, (refl, tt));
  distinct = (refl, refl, (refl, refl, tt));
}

connection_create-IsChain_test :
    (h : Heap) × (connection_create 8 9 105 3 (two, 2) ≡ some (h, 3))
    × IsChain h 3 ((3, created 8 9 105) ∷ cells)
connection_create-IsChain_test =
    connection_create-IsChain 8 9 105 3 two 2 cells (ground arith) refl cells-IsChain

connection_drop-IsChain_example :
    (h : Heap) × (connection_drop 1 (two, 2) ≡ some (h, 2))
    × IsChain h 2 ((2, young) ∷ [])
    × (h 1 ≡ none)
connection_drop-IsChain_example =
    connection_drop-IsChain two 2 ((2, young) ∷ []) 1 old [] cells-IsChain

-- At 103 nobody is silent for too long, and at 105 the older connection is.
sweep_lem_example :
    sweep 3 103 2 (two, 2) 3
    ≡ (if any_stale 103 cells then fault else swept (wants cells) (greatest cells 3))
sweep_lem_example =
    sweep_lem 3 103 two 2 3 cells cells-IsChain
      ((omega arith, omega arith), ((omega arith, omega arith), tt)) (omega arith)

sweeps_all : any_stale 103 cells ≡ false
unfolding is_stale
sweeps_all = refl

sweeps_freed : any_stale 105 cells ≡ true
unfolding is_stale
sweeps_freed = refl
