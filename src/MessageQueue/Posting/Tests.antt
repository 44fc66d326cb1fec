-- ===== src/MessageQueue/Posting/Tests.antt =====
-- Two calls on the queue of Lab23-24/sem_implementation/message_queue.c, and its drop.
use os_posix.Prelude.{
  ℕ, ◌-◌, ◌≤◌, ◌<◌, ◌≡◌, ◌≢◌, refl, true, false, none, some, [], ◌∷◌, arith, take, suc, length,
}
use mathlib.Core.List.{map, reverse}
use os_posix.MessageQueue.Cells.{Text, Heap, null, message, write, Cells}
use os_posix.MessageQueue.Cells.Chain.{IsFresh}
use os_posix.MessageQueue.Broadcast.{link}
use os_posix.MessageQueue.Counting.{unlink}
use os_posix.MessageQueue.Counting as Counting
use os_posix.MessageQueue.Counting.Sections.{HoldsChain}
use os_posix.MessageQueue.Signal.{text_size}
use os_posix.MessageQueue.Posting.{
  System, message_queue_init, put_section, get_section, put_wait, put_goes_on, put, put_post,
  get_wait, get_goes_on, drop_marks, drop_posts_put, drop_posts_get, Reachable, begins, steps,
  frees, ended,
}
use os_posix.MessageQueue.Posting.Balance.{calls_run_before_drop}
use os_posix.MessageQueue.Posting.Dropping.{Steps, Open, drop-Open}
use os_posix.MessageQueue.Posting.Faults.{dropped_faults}
use os_posix.MessageQueue.Posting.RoundTrip.{Puts, none_put, puts, get_all, get_all-Puts}

abbrev empty_heap : Heap
empty_heap p = none

abbrev word : Text
word = b'h' ∷ b'i' ∷ []

abbrev empty : Counting.Queue
empty = record { heap = empty_heap; head = null; tail = null; is_droped = false }

abbrev one : Counting.Queue
one = record {
  heap = write empty_heap 7 (some (message word null null));
  head = 7;
  tail = 7;
  is_droped = false;
}

puts_one : put_section 7 word empty ≡ some one
unfolding put_section link
puts_one = refl

empty-HoldsChain : HoldsChain empty []
empty-HoldsChain = record { head = refl; tail = refl; links = tt; distinct = tt }

one-HoldsChain : HoldsChain one ((7, word) ∷ [])
one-HoldsChain = record {
  head = refl;
  tail = refl;
  links = (refl, tt);
  distinct = (refl, refl, tt);
}

one_put : Puts empty (word ∷ []) one
one_put = puts 7 word none_put (ground arith, refl) puts_one

get_all-Puts_example :
    (q : Counting.Queue) × (get_all 2 1 one
      ≡ some (q, map (take (2 - 1)) (reverse (map (take text_size) (word ∷ [])))))
    × HoldsChain q []
get_all-Puts_example = get_all-Puts 2 (omega arith) empty-HoldsChain one_put

-- A put that passed `sem_put` of a queue for three messages.
abbrev looked : System
looked = record (message_queue_init empty_heap 3) { sem_put = 2; put_looks = 1 }

looked-Reachable : Reachable empty_heap 3 looked
unfolding message_queue_init
looked-Reachable = steps begins (put_wait 2 refl)

calls_run_before_drop_example :
    (cs : Cells) × HoldsChain looked.queue cs
    × (length cs ≤ 3)
    × (looked.sem_get ≤ length cs)
    × ((n size : ℕ)
        → looked.getting ≡ suc n
        → 0 < size
        → (q : Counting.Queue) × (t : Text) × (get_section size looked.queue ≡ some (q, t)))
    × ((f : ℕ) (text : Text)
        → IsFresh looked.queue.heap f
        → (q : Counting.Queue) × (put_section f text looked.queue ≡ some q))
unfolding message_queue_init
calls_run_before_drop_example = calls_run_before_drop empty_heap 3 looked looked-Reachable refl

-- A queue with no place is dropped; a put took the first post and did not look yet.
abbrev dropped : System
dropped = record {
  queue = record empty { is_droped = true };
  sem_put = 0;
  sem_get = 1;
  put_looks = 1;
  putting = 0;
  posts_get = 0;
  get_looks = 0;
  getting = 0;
  posts_put = 0;
  dropping = frees null;
}

dropped-Reachable : Reachable empty_heap 0 dropped
unfolding message_queue_init
dropped-Reachable =
    steps (steps (steps (steps begins (drop_marks refl)) (drop_posts_put refl)) (put_wait 0 refl))
      (drop_posts_get refl)

drop-Open_example : (s : System) × Steps dropped s × Open s
drop-Open_example = drop-Open empty_heap 0 dropped dropped-Reachable refl

-- A put ended, and a get looked at `is_destroyed` and goes on to the mutex.
abbrev put_once : System
put_once = record (message_queue_init empty_heap 3) { queue = one; sem_put = 2; getting = 1 }

put_once-Reachable : Reachable empty_heap 3 put_once
unfolding message_queue_init
put_once-Reachable =
    let put_done =
      steps
        (steps (steps (steps begins (put_wait 2 refl)) (put_goes_on 0 refl refl))
          (put 0 7 word one refl (ground arith, refl) puts_one))
        (put_post 0 refl) in
    steps (steps put_done (get_wait 0 refl)) (get_goes_on 0 refl refl)

dropped_faults_example :
    (s : System) × Steps put_once s
    × (s.dropping ≡ ended)
    × (s.getting ≡ put_once.getting)
    × (s.putting ≡ put_once.putting)
    × ((size : ℕ) → get_section size s.queue ≡ none)
    × ((f : ℕ) (t : Text) → f ≢ s.queue.head → put_section f t s.queue ≡ none)
unfolding message_queue_init
dropped_faults_example =
    dropped_faults empty_heap 3 put_once put_once-Reachable refl (λ e. omega arith)
