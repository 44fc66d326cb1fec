-- ===== src/MessageQueue/Signal.antt =====
-- Lab23-24/cond_implementation/message_queue.c: a bounded queue that signals one thread where
-- Lab24 wakes all. A call is one critical section, as in Lab24.
pub mod Chains
pub mod Puts
pub mod Threads
mod Tests
use os_posix.Prelude.{
  ℕ, suc, ◌+◌, ◌-◌, Bool, true, false, not, ◌&&◌, Option, none, some, leb, ◌==◌, if◌then◌else◌,
  take,
}
use os_posix.MessageQueue.Cells.{Ptr, null, Text, Message, Heap, write, load}
use os_posix.MessageQueue.Broadcast.{link}
use os_posix.MessageQueue.Counting.{unlink}
use os_posix.MessageQueue.Counting as Counting

-- `list` has `in` as its head, `out` as its tail and `is_destroyed` as its mark.
pub record Queue : Type 0 where
  pub list : Counting.Queue
  pub messages_count : ℕ
  pub messages_limit : ℕ

-- A wait, or a return with a result and whether the condition variable was signalled.
pub data Call (A : Type 0) : Type 0 where
  waits : Call A
  returns : A → Queue → Bool → Call A
  fault : Call A

-- `strncpy` copies at most the size of the array, and the NUL goes behind the array, into the
-- padding of the struct.
abbrev pub text_size : ℕ
text_size = 81

unfoldable pub message_queue_init : Heap → ℕ → Queue
message_queue_init h limit = record {
  list = record { heap = h; head = null; tail = null; is_droped = false };
  messages_count = 0;
  messages_limit = limit;
}

abbrev pub put_list : Ptr → Text → Queue → Option Heap → Call Bool
put_list f text q none = fault
put_list f text q (some h) =
    returns true
      (record q {
        list = record q.list {
          heap = h;
          head = f;
          tail = if q.list.head == null then f else q.list.tail;
        };
        messages_count = q.messages_count + 1;
      })
      (q.messages_count == 0)

-- `f` is what `malloc` returns. The result is false for 0.
unfoldable pub message_queue_put : Ptr → Text → Queue → Call Bool
message_queue_put f text q =
    if not q.list.is_droped && leb q.messages_limit q.messages_count
    then waits
    else (if q.list.is_droped
        then returns false q false
        else put_list f text q (link q.list.heap f q.list.head (take text_size text)))

-- The text is copied, cut before the last byte of the buffer, and the message freed. In a buffer of
-- no bytes the NUL is written at the index (size_t) -1.
abbrev pub free_out : ℕ → Queue → Counting.Queue → Option Message → Call (Option Text)
free_out size q l none = fault
free_out size q l (some m) =
    if size == 0
    then fault
    else returns (some (take (size - 1) m.text))
        (record q {
          list = record l { heap = write l.heap q.list.tail none };
          messages_count = q.messages_count - 1;
        })
        (q.messages_count == q.messages_limit)

abbrev pub get_list : ℕ → Queue → Option Counting.Queue → Call (Option Text)
get_list size q none = fault
get_list size q (some l) = free_out size q l (load l.heap q.list.tail)

unfoldable pub message_queue_get : ℕ → Queue → Call (Option Text)
message_queue_get size q =
    if q.messages_count == 0 && not q.list.is_droped
    then waits
    else (if q.list.is_droped then returns none q false else get_list size q (unlink q.list))
