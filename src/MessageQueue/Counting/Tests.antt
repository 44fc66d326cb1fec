-- ===== src/MessageQueue/Counting/Tests.antt =====
-- The queue of Lab23 at a reachable state, and a chain that is freed.
use os_posix.Prelude.{ℕ, suc, ◌≤◌, ◌≡◌, refl, false, none, some, [], ◌∷◌, arith, length, take}
use os_posix.MessageQueue.Cells.{Ptr, null, Text, message, Heap, write, Cells}
use os_posix.MessageQueue.Cells.Chain.{IsFresh}
use os_posix.MessageQueue.Destroy.{free_from}
use os_posix.MessageQueue.Destroy.Freed.{without, free_from-without}
use os_posix.MessageQueue.Broadcast.{link}
use os_posix.MessageQueue.Counting.{
  Queue, places, mymsginit, put_section, get_section, System, put_wait, put, put_post, get_wait,
  Reachable, begins, steps,
}
use os_posix.MessageQueue.Counting.Sections.{HoldsChain, get_section-HoldsChain}
use os_posix.MessageQueue.Counting.Balance.{calls_never_fault}

abbrev empty_heap : Heap
empty_heap p = none

abbrev letter : Text
letter = b'x' ∷ []

abbrev one_heap : Heap
one_heap = write empty_heap 7 (some (message letter null null))

abbrev one_queue : Queue
one_queue = record { heap = one_heap; head = 7; tail = 7; is_droped = false }

-- A put has returned, and a get has claimed its message.
abbrev claiming : System
claiming = record {
  queue = one_queue;
  empty = 9;
  full = 0;
  putting = 0;
  posting_full = 0;
  getting = 1;
  posting_empty = 0;
}

claiming-Reachable : Reachable empty_heap claiming
unfolding mymsginit put_section link
claiming-Reachable =
    steps
      (steps
        (steps (steps begins (put_wait 9 refl))
          (put 0 7 letter one_queue refl refl (ground arith) refl))
        (put_post 0 refl))
      (get_wait 0 refl)

calls_never_fault_example :
    (cs : Cells) × HoldsChain claiming.queue cs
    × (claiming.queue.is_droped ≡ false
        → (length cs ≤ places)
          × (claiming.full ≤ length cs)
          × ((n size : ℕ)
              → claiming.getting ≡ suc n
              → (q : Queue) × (t : Text) × (get_section size claiming.queue ≡ some (q, t)))
          × ((f : Ptr) (msg : Text)
              → IsFresh claiming.queue.heap f
              → (q : Queue) × (put_section f msg claiming.queue ≡ some q)))
calls_never_fault_example = calls_never_fault empty_heap claiming claiming-Reachable

one-HoldsChain : HoldsChain one_queue ((7, letter) ∷ [])
one-HoldsChain = record {
  head = refl;
  tail = refl;
  links = (refl, tt);
  distinct = (refl, refl, tt);
}

get_section-HoldsChain_test :
    (q' : Queue) × (get_section 41 one_queue ≡ some (q', take 41 letter))
    × HoldsChain q' []
    × (q'.is_droped ≡ false)
get_section-HoldsChain_test = get_section-HoldsChain 41 one_queue [] 7 letter one-HoldsChain

free_from-without_example :
    (h' : Heap) × (free_from 1 one_heap 7 ≡ some h')
    × ((p : Ptr) → h' p ≡ without ((7, letter) ∷ []) one_heap p)
free_from-without_example =
    free_from-without one_heap null ((7, letter) ∷ []) (refl, tt) (refl, refl, tt)
