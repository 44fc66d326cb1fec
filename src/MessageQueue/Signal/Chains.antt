-- ===== src/MessageQueue/Signal/Chains.antt =====
-- The calls of Lab23-24/cond_implementation/message_queue.c on a chain of messages.
use os_posix.Prelude.{
  ℕ, ◌-◌, ◌<◌, ◌≡◌, ap, ◌∙◌, false, none, some, [], ◌∷◌, ◌++◌, arith, ◌==◌, take, length,
  length-append,
}
use os_posix.MessageQueue.Cells.{Ptr, null, Text, Message, Heap, Cells, write, load, final}
use os_posix.MessageQueue.Cells.Chain.{Distinct-last, final-append}
use os_posix.MessageQueue.Counting.{unlink, put_section, get_section, then_some}
use os_posix.MessageQueue.Counting as Counting
use os_posix.MessageQueue.Counting.Sections.{HoldsChain, unlink-HoldsChain}
use os_posix.MessageQueue.Destroy.Freed.{Links-after}
use os_posix.MessageQueue.Signal.{Queue, returns, message_queue_get}

tail_of : (xs : Cells) (p : Ptr) (t : Text) → final null (xs ++ (p, t) ∷ []) ≡ p
tail_of xs p t = final-append null xs p t

write_freed : (h : Heap) (q p : Ptr) → q ≡ p → write h q none p ≡ none
write_freed h q p e = ground (arith, e)

-- A get whose message can be unlinked and read.
get_list_run :
    (size : ℕ) (q : Queue) (l : Counting.Queue) (m : Message)
    → 0 < size
    → unlink q.list ≡ some l
    → load l.heap q.list.tail ≡ some m
    → q.list.is_droped ≡ false
    → (q.messages_count == 0) ≡ false
    → message_queue_get size q
      ≡ returns
          (some (take (size - 1) m.text))
          (record q {
            list = record l { heap = write l.heap q.list.tail none };
            messages_count = q.messages_count - 1;
          })
          (q.messages_count == q.messages_limit)
unfolding message_queue_get
get_list_run size q l m room run at d some_left =
    let e : (size == 0) ≡ false = ground arith in simp (run, at, d, some_left, e)

-- A get on a chain that is not empty, into a buffer of one byte or more, does not fault: the oldest text goes to the buffer, cut before
-- its last byte; the message leaves the chain and is freed; and a waiting thread is signalled if
-- the queue was full.
pub message_queue_get-HoldsChain :
    (size : ℕ) (q : Queue) (xs : Cells) (p : Ptr) (t : Text)
    → 0 < size
    → HoldsChain q.list (xs ++ (p, t) ∷ [])
    → q.messages_count ≡ length (xs ++ (p, t) ∷ [])
    → q.list.is_droped ≡ false
    → (q' : Queue) × (message_queue_get size q
        ≡ returns (some (take (size - 1) t)) q' (q.messages_count == q.messages_limit))
      × HoldsChain q'.list xs
      × (q'.messages_count ≡ length xs)
      × (q'.list.heap p ≡ none)
message_queue_get-HoldsChain size q xs p t room v count d =
    let (l, m, run, at, same, holds, kept) = unlink-HoldsChain q.list xs p t v in
    let (nn, out) = Distinct-last xs p t v.distinct in
    let at_p : q.list.tail ≡ p = v.tail ∙ tail_of xs p t in
    let counted = length-append xs ((p, t) ∷ []) in
    let some_left : (q.messages_count == 0) ≡ false = ground (arith, count, counted) in
    let q' : Queue = record q {
      list = record l { heap = write l.heap q.list.tail none };
      messages_count = q.messages_count - 1;
    } in
    (
      q',
      get_list_run size q l m room run at d some_left
          ∙ ap (λ x. returns (some (take (size - 1) x)) q' (q.messages_count == q.messages_limit))
              same,
      record {
        head = holds.head;
        tail = holds.tail;
        links = Links-after l.heap null xs null q.list.tail (rw at_p out) holds.links;
        distinct = holds.distinct;
      },
      omega (arith, count, counted),
      write_freed l.heap q.list.tail p at_p,
    )
