-- ===== src/MessageQueue/Posting.antt =====
-- Lab23-24/sem_implementation/message_queue.c: the queue under two counting semaphores, where a
-- call looks at `is_destroyed` before it takes the mutex, a get frees the message, and the drop
-- frees the messages that are left. What a call does between its lock and its unlock is one step.
pub mod Sections
pub mod Balance
pub mod Awake
pub mod Dropping
pub mod Faults
pub mod RoundTrip
mod Tests
use os_posix.Prelude.{
  ℕ, suc, ◌+◌, ◌-◌, ◌≡◌, true, false, Option, none, some, ◌==◌, if◌then◌else◌, take,
}
use os_posix.MessageQueue.Cells.{Ptr, null, Text, Message, Heap, write, load}
use os_posix.MessageQueue.Cells.Chain.{IsFresh}
use os_posix.MessageQueue.Broadcast.{link}
use os_posix.MessageQueue.Counting.{unlink, then_some}
use os_posix.MessageQueue.Counting as Counting
use os_posix.MessageQueue.Destroy.{free_message}
use os_posix.MessageQueue.Signal.{text_size}

-- The new message, at `f`, becomes `in`.
unfoldable pub put_section : Ptr → Text → Counting.Queue → Option Counting.Queue
put_section f text q =
    then_some (link q.heap f q.head (take text_size text))
      λ h. some (record q { heap = h; head = f; tail = if q.head == null then f else q.tail })

-- The last message is unlinked, copied to the buffer, cut before the last byte of it, and freed. In
-- a buffer of no bytes the NUL is written at the index (size_t) -1.
unfoldable pub get_section : ℕ → Counting.Queue → Option (Counting.Queue × Text)
get_section buffer_length q = then_some (unlink q) λ l. then_some (load l.heap q.tail) λ m.
    if buffer_length == 0
    then none
    else some (record l { heap = free_message l.heap q.tail }, take (buffer_length - 1) m.text)

-- Where `message_queue_drop` is: before it, behind the assignment of `is_destroyed`, behind the
-- first post, about to free the message at an address, or at its end.
pub data Place : Type 0 where
  idle marked posted ended : Place
  frees : Ptr → Place

-- The number of threads that passed `sem_put` and did not look at `is_destroyed` yet, that go on to
-- the mutex, and that are before the post of `sem_get`; and so for a get.
pub record System : Type 0 where
  pub queue : Counting.Queue
  pub sem_put : ℕ
  pub sem_get : ℕ
  pub put_looks : ℕ
  pub putting : ℕ
  pub posts_get : ℕ
  pub get_looks : ℕ
  pub getting : ℕ
  pub posts_put : ℕ
  pub dropping : Place

unfoldable pub message_queue_init : Heap → ℕ → System
message_queue_init h messages_limit = record {
  queue = record { heap = h; head = null; tail = null; is_droped = false };
  sem_put = messages_limit;
  sem_get = 0;
  put_looks = 0;
  putting = 0;
  posts_get = 0;
  get_looks = 0;
  getting = 0;
  posts_put = 0;
  dropping = idle;
}

-- The steps of `message_queue_put`, `message_queue_get` and `message_queue_drop`. A call that is
-- refused returns 0.
pub data Step (s : System) : System → Type 0 where
  put_wait :
      (n : ℕ) → s.sem_put ≡ suc n → Step s (record s { sem_put = n; put_looks = s.put_looks + 1 })
  put_refused :
      (n : ℕ)
      → s.put_looks ≡ suc n
      → s.queue.is_droped ≡ true
      → Step s (record s { put_looks = n; sem_put = s.sem_put + 1 })
  put_goes_on :
      (n : ℕ)
      → s.put_looks ≡ suc n
      → s.queue.is_droped ≡ false
      → Step s (record s { put_looks = n; putting = s.putting + 1 })
  put :
      (n : ℕ) (f : Ptr) (text : Text) (q : Counting.Queue)
      → s.putting ≡ suc n
      → IsFresh s.queue.heap f
      → put_section f text s.queue ≡ some q
      → Step s (record s { queue = q; putting = n; posts_get = s.posts_get + 1 })
  put_post :
      (n : ℕ) → s.posts_get ≡ suc n → Step s (record s { posts_get = n; sem_get = s.sem_get + 1 })
  get_wait :
      (n : ℕ) → s.sem_get ≡ suc n → Step s (record s { sem_get = n; get_looks = s.get_looks + 1 })
  get_refused :
      (n : ℕ)
      → s.get_looks ≡ suc n
      → s.queue.is_droped ≡ true
      → Step s (record s { get_looks = n; sem_get = s.sem_get + 1 })
  get_goes_on :
      (n : ℕ)
      → s.get_looks ≡ suc n
      → s.queue.is_droped ≡ false
      → Step s (record s { get_looks = n; getting = s.getting + 1 })
  get :
      (n buffer_length : ℕ) (q : Counting.Queue) (t : Text)
      → s.getting ≡ suc n
      → get_section buffer_length s.queue ≡ some (q, t)
      → Step s (record s { queue = q; getting = n; posts_put = s.posts_put + 1 })
  get_post :
      (n : ℕ) → s.posts_put ≡ suc n → Step s (record s { posts_put = n; sem_put = s.sem_put + 1 })
  drop_marks :
      s.dropping ≡ idle
      → Step s (record s { queue = record s.queue { is_droped = true }; dropping = marked })
  drop_posts_put :
      s.dropping ≡ marked → Step s (record s { sem_put = s.sem_put + 1; dropping = posted })
  drop_posts_get :
      s.dropping ≡ posted
      → Step s (record s { sem_get = s.sem_get + 1; dropping = frees s.queue.head })
  drop_frees :
      (p : Ptr) (m : Message)
      → s.dropping ≡ frees p
      → load s.queue.heap p ≡ some m
      → Step s (record s {
        queue = record s.queue { heap = free_message s.queue.heap p };
        dropping = frees m.next;
      })
  drop_ends : s.dropping ≡ frees null → Step s (record s { dropping = ended })

pub data Reachable (h : Heap) (messages_limit : ℕ) : System → Type 0 where
  begins : Reachable h messages_limit (message_queue_init h messages_limit)
  steps : {s s' : System} → Reachable h messages_limit s → Step s s' → Reachable h messages_limit s'
