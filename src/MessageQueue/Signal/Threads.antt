-- ===== src/MessageQueue/Signal/Threads.antt =====
-- The producers and consumers of Lab23-24/main.c on the queue of
-- Lab23-24/cond_implementation/message_queue.c, where `pthread_cond_signal` wakes one thread of
-- either kind.
pub mod Deadlock
pub mod Runs
use os_posix.Prelude.{ℕ, ◌+◌, ◌≤◌, ◌<◌, ◌≡◌, ◌≢◌, Bool, true, false, Option, none, some, update}
use os_posix.MessageQueue.Cells.{Ptr, Text, Heap}
use os_posix.MessageQueue.Cells.Chain.{IsFresh}
use os_posix.MessageQueue.Broadcast.Threads.{Sleep, awake, put_sleeps, get_sleeps}
use os_posix.MessageQueue.Destroy.{free_from}
use os_posix.MessageQueue.Signal.{
  Queue, waits, returns, message_queue_init, message_queue_put, message_queue_get,
}

abbrev pub producers_count : ℕ
producers_count = 5

abbrev pub threads_count : ℕ
threads_count = 9

-- The producers are the threads below `producers_count`.
pub record System : Type 0 where
  pub queue : Queue
  pub sleep : ℕ → Sleep

abbrev pub start : ℕ → System
start limit = record { queue = message_queue_init (λ p. none) limit; sleep = λ i. awake }

-- The sleepers after a section that signals, or does not.
pub data Signals (signalled : Bool) (sleep : ℕ → Sleep) : (ℕ → Sleep) → Type 0 where
  silent : signalled ≡ false → Signals signalled sleep sleep
  nobody :
      signalled ≡ true
      → ((i : ℕ) → i < threads_count → sleep i ≡ awake)
      → Signals signalled sleep sleep
  wakes :
      (j : ℕ)
      → signalled ≡ true
      → j < threads_count
      → sleep j ≢ awake
      → Signals signalled sleep (update sleep j awake)

-- `message_queue_drop` broadcasts, and then frees the messages under the mutex.
pub data Step (s : System) : System → Type 0 where
  put_waits :
      (i : ℕ) (f : Ptr) (text : Text)
      → i < producers_count
      → s.sleep i ≡ awake
      → message_queue_put f text s.queue ≡ waits
      → Step s (record s { sleep = update s.sleep i put_sleeps })
  puts :
      (i : ℕ) (f : Ptr) (text : Text) (result : Bool) (q : Queue) (w : Bool) (sleep : ℕ → Sleep)
      → i < producers_count
      → s.sleep i ≡ awake
      → IsFresh s.queue.list.heap f
      → message_queue_put f text s.queue ≡ returns result q w
      → Signals w s.sleep sleep
      → Step s (record { queue = q; sleep = sleep })
  get_waits :
      (i size : ℕ)
      → producers_count ≤ i
      → i < threads_count
      → s.sleep i ≡ awake
      → message_queue_get size s.queue ≡ waits
      → Step s (record s { sleep = update s.sleep i get_sleeps })
  gets :
      (i size : ℕ) (result : Option Text) (q : Queue) (w : Bool) (sleep : ℕ → Sleep)
      → producers_count ≤ i
      → i < threads_count
      → s.sleep i ≡ awake
      → message_queue_get size s.queue ≡ returns result q w
      → Signals w s.sleep sleep
      → Step s (record { queue = q; sleep = sleep })
  drop_marks : Step s (record {
    queue = record s.queue { list = record s.queue.list { is_droped = true } };
    sleep = λ i. awake;
  })
  drop_frees :
      (fuel : ℕ) (h : Heap)
      → s.queue.list.is_droped ≡ true
      → free_from fuel s.queue.list.heap s.queue.list.head ≡ some h
      → Step s (record s { queue = record s.queue { list = record s.queue.list { heap = h } } })

pub data Reach (limit : ℕ) : System → Type 0 where
  here : Reach limit (start limit)
  next : {s t : System} → Reach limit s → Step s t → Reach limit t
