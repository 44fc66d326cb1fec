-- ===== src/MessageQueue/Broadcast/Tests.antt =====
-- Runs of the queue of Lab24/main.c.
use os_posix.Prelude.{
  ◌≤◌, ◌≡◌, refl, true, false, none, [], ◌∷◌, ◌++◌, arith, length, take, ℕ_discrete,
}
use mathlib.Core.List.{map}
use os_posix.MessageQueue.Cells.{Heap, Cells, texts}
use os_posix.MessageQueue.Spec.{Spec, spec_put, spec_get}
use os_posix.MessageQueue.Broadcast.{
  limit, width, mymsginit, mymsqdrop, link, mymsgput, unlink, mymsgget,
}
use os_posix.MessageQueue.Broadcast.Refine.{
  Refines, mymsgput-Refines, mymsgget-Refines, mymsginit-Represents, mymsqdrop-Represents,
}
use os_posix.MessageQueue.Broadcast.Chains.{IsChain}
use os_posix.MessageQueue.Broadcast.Threads.{
  System, put_sleeps, get_sleeps, puts, gets, Reach, here, next,
}
use os_posix.MessageQueue.Broadcast.Delivery.{delivered_in_order, no_lost_wakeup}

abbrev empty_heap : Heap
empty_heap p = none

abbrev empty : Spec
empty = record { items = []; dropped = false }

mymsgput-Refines_example :
    Refines (mymsgput 7 (65 ∷ []) (mymsginit empty_heap)) (spec_put limit width (65 ∷ []) empty)
unfolding mymsginit
mymsgput-Refines_example =
    mymsgput-Refines 7 (65 ∷ []) (mymsginit empty_heap) empty (ground arith)
      (mymsginit-Represents empty_heap)

mymsgget-Refines_example :
    Refines
      (mymsgget 41 (mymsqdrop (mymsginit empty_heap)))
      (spec_get 41 (record { items = []; dropped = true }))
mymsgget-Refines_example =
    mymsgget-Refines 41 (mymsqdrop (mymsginit empty_heap)) (record { items = []; dropped = true })
      (mymsqdrop-Represents (mymsginit empty_heap) empty (mymsginit-Represents empty_heap))

-- Thread 1 finds the queue empty; thread 0 then puts two messages, and thread 2 gets one.
abbrev two_puts : (s : System) × Reach 41 s
unfolding mymsginit mymsgput link mymsgget unlink ℕ_discrete
two_puts = (
  _,
  next
      (next (next (next (here empty_heap) (gets 1 refl)) (puts 0 7 (65 ∷ []) refl (ground arith)))
        (puts 0 9 (66 ∷ 67 ∷ []) refl (ground arith)))
      (gets 2 refl),
)

one_left : (two_puts.0.got_log ≡ (65 ∷ []) ∷ []) × (two_puts.0.queue.head ≡ 9)
unfolding mymsginit mymsgput link mymsgget unlink ℕ_discrete
one_left = (refl, refl)

delivered_in_order_example :
    (cs : Cells) × IsChain two_puts.0.queue cs
    × (two_puts.0.faulted ≡ false)
    × (length cs ≤ limit)
    × (map (take 41) (map (take 80) two_puts.0.put_log)
        ≡ map (take 41) (texts cs) ++ two_puts.0.got_log)
delivered_in_order_example = delivered_in_order two_puts.1

abbrev one_sleeps : (s : System) × Reach 41 s
unfolding mymsginit mymsgget ℕ_discrete
one_sleeps = (_, next (here empty_heap) (gets 1 refl))

no_lost_wakeup_example :
    (one_sleeps.0.sleep 1 ≡ put_sleeps
      → (one_sleeps.0.queue.mes_count ≡ limit) × (one_sleeps.0.queue.is_droped ≡ false))
    × (one_sleeps.0.sleep 1 ≡ get_sleeps
        → (one_sleeps.0.queue.mes_count ≡ 0) × (one_sleeps.0.queue.is_droped ≡ false))
no_lost_wakeup_example = no_lost_wakeup one_sleeps.1 1
