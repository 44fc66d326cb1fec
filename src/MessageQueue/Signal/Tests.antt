-- ===== src/MessageQueue/Signal/Tests.antt =====
-- The queue of Lab23-24/cond_implementation at concrete states.
use os_posix.Prelude.{
  ℕ, ◌<◌, ◌≢◌, arith, ◌-◌, ◌≡◌, refl, true, false, none, some, [], ◌∷◌, ◌==◌, take,
}
use os_posix.MessageQueue.Cells.{Text, null, message, Heap, write}
use os_posix.MessageQueue.Broadcast.{link}
use os_posix.MessageQueue.Counting.Sections.{HoldsChain}
use os_posix.MessageQueue.Signal.{
  Queue, returns, waits, message_queue_init, message_queue_put, message_queue_get,
}
use os_posix.MessageQueue.Signal.Puts.{IsQueue, message_queue_put-IsQueue}
use os_posix.MessageQueue.Signal.Threads.{System, Reach, threads_count}
use os_posix.MessageQueue.Signal.Threads.Deadlock.{signal_deadlock}
use os_posix.MessageQueue.Broadcast.Threads.{awake}
use os_posix.MessageQueue.Signal.Chains.{message_queue_get-HoldsChain}

abbrev empty_heap : Heap
empty_heap p = none

abbrev word : Text
word = b'h' ∷ b'i' ∷ []

abbrev one : Queue
one = record {
  list = record {
    heap = write empty_heap 7 (some (message word null null));
    head = 7;
    tail = 7;
    is_droped = false;
  };
  messages_count = 1;
  messages_limit = 1;
}

puts_one : message_queue_put 7 word (message_queue_init empty_heap 1) ≡ returns true one true
unfolding message_queue_put message_queue_init link
puts_one = refl

full_waits : message_queue_put 9 word one ≡ waits
unfolding message_queue_put
full_waits = refl

one-HoldsChain : HoldsChain one.list ((7, word) ∷ [])
one-HoldsChain = record {
  head = refl;
  tail = refl;
  links = (refl, tt);
  distinct = (refl, refl, tt);
}

message_queue_get-HoldsChain_test :
    (q' : Queue) × (message_queue_get 2 one ≡ returns (some (take (2 - 1) word)) q' (1 == 1))
    × HoldsChain q'.list []
    × (q'.messages_count ≡ 0)
    × (q'.list.heap 7 ≡ none)
message_queue_get-HoldsChain_test =
    message_queue_get-HoldsChain 2 one [] 7 word (omega arith) one-HoldsChain refl refl

abbrev none_yet : Queue
unfolding message_queue_init
none_yet = message_queue_init empty_heap 1

none_yet-IsQueue : IsQueue 1 none_yet []
unfolding message_queue_init
none_yet-IsQueue = record {
  holds = record { head = refl; tail = refl; links = tt; distinct = tt };
  count = refl;
  limited = refl;
  live = refl;
}

message_queue_put-IsQueue_test :
    (q : Queue) × (message_queue_put 7 word none_yet ≡ returns true q true)
    × IsQueue 1 q ((7, take 81 word) ∷ [])
    × ((p : ℕ) → p ≢ 7 → none_yet.list.heap p ≡ none → q.list.heap p ≡ none)
unfolding message_queue_init
message_queue_put-IsQueue_test =
    message_queue_put-IsQueue 7 word none_yet [] (ground arith, refl) none_yet-IsQueue (omega arith)

signal_deadlock_example :
    (s : System) × Reach 10 s
    × IsQueue 10 s.queue []
    × ((i : ℕ) → i < threads_count → s.sleep i ≢ awake)
signal_deadlock_example = signal_deadlock 10 (omega arith)
