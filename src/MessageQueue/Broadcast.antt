-- ===== src/MessageQueue/Broadcast.antt =====
-- Lab24/main.c: a bounded message queue under one mutex and one condition variable, with a
-- broadcast when the queue stops being empty or full. A call is one critical section: from its
-- lock, or its return from the wait, to its unlock or its wait. A thread that wakes tests again,
-- so it runs the call once more. The queue pointer is not NULL.
pub mod Chains
pub mod Delivery
pub mod Refine
pub mod Tests
pub mod Threads
use os_posix.Prelude.{
  ℕ, zero, suc, ◌+◌, ◌-◌, ◌≡◌, Bool, true, false, not, ◌&&◌, Option, none, some, leb, ◌==◌,
  if◌then◌else◌, take,
}
use os_posix.MessageQueue.Cells.{
  Ptr, null, Text, Message, message, Heap, write, load, set_next, set_prev, on_message,
}

pub record Queue : Type 0 where
  pub heap : Heap
  pub head : Ptr
  pub tail : Ptr
  pub is_droped : Bool
  pub mes_count : ℕ

-- How a critical section ends: in the wait, in a return with a result, the new queue and whether
-- the condition variable was broadcast, or in a fault.
pub data Call (A : Type 0) : Type 0 where
  waits : Call A
  returns : A → Queue → Bool → Call A
  fault : Call A

abbrev pub limit : ℕ
limit = 10

abbrev pub width : ℕ
width = 80

unfoldable pub mymsginit : Heap → Queue
mymsginit h = record { heap = h; head = null; tail = null; is_droped = false; mes_count = 0 }

-- The broadcast of this call is always made.
unfoldable pub mymsqdrop : Queue → Queue
mymsqdrop q = record q { is_droped = true }

abbrev pub on_heap : {A : Type 0} → Option Heap → (Heap → Call A) → Call A
on_heap none k = fault
on_heap (some h) k = k h

abbrev pub on_cell : {A : Type 0} → Option Message → (Message → Call A) → Call A
on_cell none k = fault
on_cell (some m) k = k m

-- The new message at `f` in front of `tmp`, the old head. The message is written to what `malloc`
-- returned, NULL too.
unfoldable pub link : Heap → Ptr → Ptr → Text → Option Heap
link h f tmp t =
    let h' = write h f (some (message t null null)) in
    if f == null
    then none
    else (if tmp == null
        then some h'
        else elim (set_next h' f tmp) [ none ↦ none | some h'' ↦ set_prev h'' tmp f ])

-- `f` is what `malloc` returns; the result is the `int` as a test.
unfoldable pub mymsgput : Ptr → Text → Queue → Call Bool
mymsgput f msg q =
    if leb limit q.mes_count && not q.is_droped
    then waits
    else (if q.is_droped
        then returns false q false
        else on_heap (link q.heap f q.head (take width msg)) λ h.
          returns true
            (record {
              heap = h;
              head = f;
              tail = if q.head == null then f else q.tail;
              is_droped = q.is_droped;
              mes_count = q.mes_count + 1;
            })
            (q.mes_count == 0))

-- The queue without its last message; the message itself is never freed.
unfoldable pub unlink : Queue → Call (Unit {0})
unlink q =
    if q.head == q.tail
    then returns tt (record q { head = null; tail = null }) false
    else on_cell (load q.heap q.tail) λ m.
      on_heap (set_next q.heap m.prev null)
        λ h. returns tt (record q { heap = h; tail = m.prev }) false

abbrev pub on_return : {A B : Type 0} → Call A → (A → Queue → Call B) → Call B
on_return waits k = waits
on_return fault k = fault
on_return (returns a q w) k = k a q

-- `none` is the result 0, and `some buf` the result 1 with the bytes copied to the buffer.
unfoldable pub mymsgget : ℕ → Queue → Call (Option Text)
mymsgget buf_size q =
    if q.mes_count == 0 && not q.is_droped
    then waits
    else (if q.is_droped
        then returns none q false
        else on_return (unlink q) λ _ q'. on_cell (load q'.heap q.tail) λ res.
          returns (some (take buf_size res.text)) (record q' { mes_count = q.mes_count - 1 })
            (q.mes_count == limit))
