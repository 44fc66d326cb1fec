-- ===== src/MessageQueue/Signal/Threads/Runs.antt =====
-- Puts of one producer and gets of one consumer of Lab23-24/main.c, one after another.
use os_posix.Prelude.{
  ℕ, zero, suc, ◌+◌, ◌<◌, ◌≡◌, refl, ap, ◌∙◌, Bool, true, false, none, some, [], ◌∷◌, arith, ◌==◌,
  length, length-append, Option-cases, inl, inr,
}
use mathlib.Core.Path.{subst}
use os_posix.MessageQueue.Cells.{Ptr, Text, Cells}
use os_posix.MessageQueue.Spec.Split.{unsnoc}
use os_posix.MessageQueue.Broadcast.Threads.{Sleep, awake}
use os_posix.MessageQueue.Counting.{unlink}
use os_posix.MessageQueue.Counting as Counting
use os_posix.MessageQueue.Counting.Sections.{HoldsChain}
use os_posix.MessageQueue.Signal.{
  Queue, returns, message_queue_init, message_queue_put, message_queue_get,
}
use os_posix.MessageQueue.Signal.Chains.{message_queue_get-HoldsChain}
use os_posix.MessageQueue.Signal.Puts.{IsQueue, message_queue_put-IsQueue}
use os_posix.MessageQueue.Signal.Threads.{System, start, silent, puts, gets, Reach, next}

is_droped-unlink : (q q' : Counting.Queue) → unlink q ≡ some q' → q'.is_droped ≡ q.is_droped
unfolding unlink
is_droped-unlink q q' e = ground arith

-- What a get leaves as it was.
get_keeps :
    (size : ℕ) (q q' : Queue) (t : Text) (w : Bool)
    → message_queue_get size q ≡ returns (some t) q' w
    → (q'.messages_limit ≡ q.messages_limit) × (q'.list.is_droped ≡ q.list.is_droped)
unfolding message_queue_get
get_keeps size q q' t w e = elim (Option-cases (unlink q.list)) [
  | inl fails ↦ absurd (ground (arith, e, fails))
  | inr (l, run) ↦ ground (arith, e, run, is_droped-unlink q.list l run)
]

abbrev pub system : Queue → (ℕ → Sleep) → System
system q sleep = record { queue = q; sleep = sleep }

-- A queue whose messages stand at addresses up to `b`.
pub record IsBelow (limit b : ℕ) (q : Queue) (cs : Cells) : Type 0 where
  pub queue : IsQueue limit q cs
  pub free : (p : Ptr) → b < p → q.list.heap p ≡ none

-- One put, at the next address.
pub put_next :
    {limit b : ℕ} (q : Queue) (cs : Cells)
    → IsBelow limit b q cs
    → length cs < limit
    → (q' : Queue) × (cs' : Cells) × (message_queue_put (suc b) [] q
        ≡ returns true q' (q.messages_count == 0))
      × IsBelow limit (suc b) q' cs'
      × (length cs' ≡ suc (length cs))
put_next {limit} {b} q cs v room =
    let (q', run, w, frame) =
      message_queue_put-IsQueue (suc b) [] q cs (ground arith, v.free (suc b) (omega arith)) v.queue
        room in
    (
      q',
      _,
      run,
      record { queue = w; free = λ p h. frame p (ground arith) (v.free p (omega arith)) },
      refl,
    )

-- Producer 0 fills a queue that is not empty.
pub fill :
    (k : ℕ) {limit b : ℕ} {sleep : ℕ → Sleep} (q : Queue) (cs : Cells)
    → Reach limit (system q sleep)
    → sleep 0 ≡ awake
    → IsBelow limit b q cs
    → 0 < length cs
    → length cs + k ≡ limit
    → (q' : Queue) × (cs' : Cells) × Reach limit (system q' sleep)
      × IsQueue limit q' cs'
      × (length cs' ≡ limit)
fill zero q cs r a v some_in e = (q, cs, r, v.queue, omega (arith, e))
fill (suc k) {limit} {b} {sleep} q cs r a v some_in e =
    let (q', cs', run, w, longer) = put_next q cs v (omega (arith, e)) in
    let quiet : (q.messages_count == 0) ≡ false = ground (arith, v.queue.count) in
    fill k q' cs'
      (next r (
        puts 0 (suc b) [] true q' (q.messages_count == 0) sleep (omega arith) a
          (ground arith, v.free (suc b) (omega arith)) run (silent quiet)))
      a w (omega (arith, longer)) (omega (arith, longer, e))

-- One get.
pub get_next :
    {limit : ℕ} (q : Queue) (cs : Cells) (k : ℕ)
    → IsQueue limit q cs
    → length cs ≡ suc k
    → (q' : Queue) × (cs' : Cells) × (t : Text) × (message_queue_get 81 q
        ≡ returns (some t) q' (q.messages_count == q.messages_limit))
      × IsQueue limit q' cs'
      × (length cs' ≡ k)
get_next q [] k v e = absurd (omega arith)
get_next {limit} q ((p, t) ∷ cs) k v e =
    let (xs, r, u, same, rest) = unsnoc p t cs in
    let (q', run, holds, count, freed) =
      message_queue_get-HoldsChain 81 q xs r u (omega arith)
        (subst (HoldsChain q.list) same v.holds) (v.count ∙ ap length same) v.live in
    let (limited, live) = get_keeps 81 q q' _ _ run in
    (
      q',
      xs,
      _,
      run,
      record { holds = holds; count = count; limited = limited ∙ v.limited; live = live ∙ v.live },
      omega (arith, ap length same, length-append xs ((r, u) ∷ []), e),
    )

-- Consumer 5 empties a queue that is not full.
pub drain :
    (k : ℕ) {limit : ℕ} {sleep : ℕ → Sleep} (q : Queue) (cs : Cells)
    → Reach limit (system q sleep)
    → sleep 5 ≡ awake
    → IsQueue limit q cs
    → length cs ≡ k
    → k < limit
    → (q' : Queue) × Reach limit (system q' sleep) × IsQueue limit q' []
drain zero q [] r a v e h = (q, r, v)
drain zero q (c ∷ cs) r a v e h = absurd (omega arith)
drain (suc k) {limit} {sleep} q cs r a v e h =
    let (q', cs', t, run, w, shorter) = get_next q cs k v e in
    let quiet : (q.messages_count == q.messages_limit) ≡ false =
      ground (arith, v.count, v.limited, e) in
    drain k q' cs'
      (next r (
        gets 5 81 (some t) q' (q.messages_count == q.messages_limit) sleep (omega arith)
          (omega arith) a run (silent quiet)))
      a w shorter (omega arith)

pub start-IsBelow : (limit : ℕ) → IsBelow limit 0 (start limit).queue []
unfolding message_queue_init
start-IsBelow limit = record {
  queue = record {
    holds = record { head = refl; tail = refl; links = tt; distinct = tt };
    count = refl;
    limited = refl;
    live = refl;
  };
  free = λ p h. refl;
}
