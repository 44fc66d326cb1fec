-- ===== src/MessageQueue/Counting.antt =====
-- Lab23/main.c: the queue under counting semaphores. `isEmpty` counts free places, `isFull`
-- messages, and `global` is a lock: what a call does between its wait for `global` and its post
-- is one step. The queue pointer is not NULL.
pub mod Balance
pub mod Sections
mod Tests
use os_posix.Prelude.{
  ℕ, zero, suc, ◌+◌, ◌≡◌, Bool, true, false, Option, none, some, List, [], ◌∷◌, ◌==◌, if◌then◌else◌,
  take,
}
use os_posix.MessageQueue.Cells.{Ptr, null, Text, Message, Heap, load, set_next, on_message}
use os_posix.MessageQueue.Cells.Chain.{IsFresh}
use os_posix.MessageQueue.Broadcast.{link, width}

pub record Queue : Type 0 where
  pub heap : Heap
  pub head : Ptr
  pub tail : Ptr
  pub is_droped : Bool

abbrev pub places : ℕ
places = 10

unfoldable pub mymsginit : Heap → Queue
mymsginit h = record { heap = h; head = null; tail = null; is_droped = false }

abbrev pub then_some : {A B : Type 0} → Option A → (A → Option B) → Option B
then_some none k = none
then_some (some a) k = k a

-- The new message, at `f`, becomes the head; the lines are those of Lab24.
unfoldable pub put_section : Ptr → Text → Queue → Option Queue
put_section f msg q =
    then_some (link q.heap f q.head (take width msg))
      λ h. some (record q { heap = h; head = f; tail = if q.head == null then f else q.tail })

-- The queue without its last message. `none` is a read through NULL or of no message.
unfoldable pub unlink : Queue → Option Queue
unlink q =
    if q.head == q.tail
    then some (record q { head = null; tail = null })
    else then_some (load q.heap q.tail) λ m.
      then_some (set_next q.heap m.prev null) λ h. some (record q { heap = h; tail = m.prev })

-- The last message, and the bytes that the buffer gets of it. The message is never freed.
unfoldable pub get_section : ℕ → Queue → Option (Queue × Text)
get_section size q =
    then_some (unlink q) λ q'. then_some (load q'.heap q.tail) λ m. some (q', take size m.text)

-- The semaphores, and how many threads are past the wait for `isEmpty` in `mymsgput`, before the
-- post of `isFull`, past the wait for `isFull` in `mymsgget`, and before the post of `isEmpty`.
pub record System : Type 0 where
  pub queue : Queue
  pub empty : ℕ
  pub full : ℕ
  pub putting : ℕ
  pub posting_full : ℕ
  pub getting : ℕ
  pub posting_empty : ℕ

abbrev pub start : Heap → System
start h = record {
  queue = mymsginit h;
  empty = places;
  full = 0;
  putting = 0;
  posting_full = 0;
  getting = 0;
  posting_empty = 0;
}

-- `mymsqdrop` marks the queue and posts both semaphores.
abbrev pub mymsqdrop : System → System
mymsqdrop s = record s {
  queue = record s.queue { is_droped = true };
  empty = s.empty + 1;
  full = s.full + 1;
}

-- The steps of `mymsgput`, of `mymsgget` and of `mymsqdrop`. A call that finds the queue dropped
-- posts the semaphore it waited for.
pub data Step (s : System) : System → Type 0 where
  put_wait : (n : ℕ) → s.empty ≡ suc n → Step s (record s { empty = n; putting = s.putting + 1 })
  put_refused :
      (n : ℕ)
      → s.putting ≡ suc n
      → s.queue.is_droped ≡ true
      → Step s (record s { putting = n; posting_empty = s.posting_empty + 1 })
  put :
      (n : ℕ) (f : Ptr) (msg : Text) (q : Queue)
      → s.putting ≡ suc n
      → s.queue.is_droped ≡ false
      → IsFresh s.queue.heap f
      → put_section f msg s.queue ≡ some q
      → Step s (record s { queue = q; putting = n; posting_full = s.posting_full + 1 })
  put_post :
      (n : ℕ) → s.posting_full ≡ suc n → Step s (record s { posting_full = n; full = s.full + 1 })
  get_wait : (n : ℕ) → s.full ≡ suc n → Step s (record s { full = n; getting = s.getting + 1 })
  get_refused :
      (n : ℕ)
      → s.getting ≡ suc n
      → s.queue.is_droped ≡ true
      → Step s (record s { getting = n; posting_full = s.posting_full + 1 })
  get :
      (n size : ℕ) (q : Queue) (t : Text)
      → s.getting ≡ suc n
      → s.queue.is_droped ≡ false
      → get_section size s.queue ≡ some (q, t)
      → Step s (record s { queue = q; getting = n; posting_empty = s.posting_empty + 1 })
  get_post :
      (n : ℕ)
      → s.posting_empty ≡ suc n
      → Step s (record s { posting_empty = n; empty = s.empty + 1 })
  drop : Step s (mymsqdrop s)

pub data Reachable (h : Heap) : System → Type 0 where
  begins : Reachable h (start h)
  steps : {s s' : System} → Reachable h s → Step s s' → Reachable h s'
