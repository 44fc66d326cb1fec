-- ===== src/MessageQueue/Signal/Puts.antt =====
-- `message_queue_put` of Lab23-24/cond_implementation/message_queue.c on a chain of messages.
use os_posix.Prelude.{
  ℕ, ◌<◌, ◌≡◌, ◌≢◌, refl, ap, sym, ◌∙◌, true, false, Option, none, some, [], ◌∷◌, arith, leb, ◌==◌,
  take, length,
}
use os_posix.MessageQueue.Cells.{Ptr, null, Text, Message, Heap, Cells, first}
use os_posix.MessageQueue.Cells.Chain.{IsFresh, IsFresh-has}
use os_posix.MessageQueue.Broadcast.{link}
use os_posix.MessageQueue.Broadcast.Chains.{link-Links}
use os_posix.MessageQueue.Counting.Sections.{HoldsChain, put_tail, nonnull}
use os_posix.MessageQueue.Signal.{
  Queue, returns, waits, text_size, put_list, message_queue_put, message_queue_get,
}

-- A queue of messages that is not dropped.
pub record IsQueue (limit : ℕ) (q : Queue) (cs : Cells) : Type 0 where
  pub holds : HoldsChain q.list cs
  pub count : q.messages_count ≡ length cs
  pub limited : q.messages_limit ≡ limit
  pub live : q.list.is_droped ≡ false

put_run :
    (f : Ptr) (t : Text) (q : Queue) {h : Heap}
    → q.list.is_droped ≡ false
    → leb q.messages_limit q.messages_count ≡ false
    → link q.list.heap f q.list.head (take text_size t) ≡ some h
    → message_queue_put f t q ≡ put_list f (take text_size t) q (some h)
unfolding message_queue_put
put_run f t q d room run = simp (d, room, run)

-- A full queue makes a put wait, and an empty one a get.
pub put_full :
    {limit : ℕ} (f : Ptr) (t : Text) (q : Queue) (cs : Cells)
    → IsQueue limit q cs
    → length cs ≡ limit
    → message_queue_put f t q ≡ waits
unfolding message_queue_put
put_full f t q cs v full =
    let is_full : leb q.messages_limit q.messages_count ≡ true =
      ground (arith, v.count, v.limited) in
    simp (is_full, v.live)

pub get_empty :
    {limit : ℕ} (size : ℕ) (q : Queue) → IsQueue limit q [] → message_queue_get size q ≡ waits
unfolding message_queue_get
get_empty size q v =
    let is_empty : (q.messages_count == 0) ≡ true = ground (arith, v.count) in
    simp (is_empty, v.live)

abbrev at_address : Option Heap → Ptr → Option Message
at_address none p = none
at_address (some h) p = h p

link-at :
    (h : Heap) (f tmp p : Ptr) (t : Text)
    → p ≢ f
    → h p ≡ none
    → at_address (link h f tmp t) p ≡ none
unfolding link
link-at h f tmp p t ne free = ground arith

-- No address comes into use but that of the new message.
link-none :
    (h : Heap) (f tmp p : Ptr) (t : Text) {h' : Heap}
    → link h f tmp t ≡ some h'
    → p ≢ f
    → h p ≡ none
    → h' p ≡ none
link-none h f tmp p t e ne free = ap (λ o. at_address o p) (sym e) ∙ link-at h f tmp p t ne free

-- With room in the queue and a fresh address the put does not fault and adds the text, cut at the
-- size of the array, at the head; a waiting thread is signalled if the queue was empty. No
-- other address comes into use.
pub message_queue_put-IsQueue :
    {limit : ℕ} (f : Ptr) (t : Text) (q : Queue) (cs : Cells)
    → IsFresh q.list.heap f
    → IsQueue limit q cs
    → length cs < limit
    → (q' : Queue) × (message_queue_put f t q ≡ returns true q' (q.messages_count == 0))
      × IsQueue limit q' ((f, take text_size t) ∷ cs)
      × ((p : Ptr) → p ≢ f → q.list.heap p ≡ none → q'.list.heap p ≡ none)
message_queue_put-IsQueue {limit} f t q cs n v room =
    let (h, e, l) =
      link-Links q.list.heap f (take text_size t) cs n v.holds.distinct v.holds.links in
    let has_room : leb q.messages_limit q.messages_count ≡ false =
      ground (arith, v.count, v.limited) in
    (
      _,
      put_run f t q v.live has_room
          (ap (λ p. link q.list.heap f p (take text_size t)) v.holds.head ∙ e),
      record {
        holds = record {
          head = refl;
          tail = put_tail f q.list cs v.holds;
          links = l;
          distinct = (
            nonnull n.0,
            IsFresh-has q.list.heap f null cs null n v.holds.links,
            v.holds.distinct,
          );
        };
        count = omega (arith, v.count);
        limited = v.limited;
        live = v.live;
      },
      λ p ne free. link-none q.list.heap f (first cs null) p (take text_size t) e ne free,
    )
