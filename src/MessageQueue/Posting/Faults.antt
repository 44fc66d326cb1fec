-- ===== src/MessageQueue/Posting/Faults.antt =====
-- The sections of Lab23-24/sem_implementation/message_queue.c on messages that the drop freed.
use os_posix.Prelude.{
  ℕ, zero, suc, ◌+◌, ◌≡◌, ◌≢◌, refl, ◌∙◌, ap, true, false, none, some, [], ◌∷◌, arith, ◌==◌, length,
  Bool-cases, Option-cases, inl, inr,
}
use os_posix.MessageQueue.Cells.{Ptr, null, Text, Heap, Cells, has, load}
use os_posix.MessageQueue.Cells.Chain.{has-final}
use os_posix.MessageQueue.Broadcast.{link}
use os_posix.MessageQueue.Counting.{unlink, then_some}
use os_posix.MessageQueue.Counting as Counting
use os_posix.MessageQueue.Counting.Sections.{HoldsChain}
use os_posix.MessageQueue.Destroy.{free_from}
use os_posix.MessageQueue.Destroy.Freed.{free_from-without, without}
use mathlib.Core.Path.{subst}
use mathlib.Core.Option.{some_inj}
use os_posix.MessageQueue.Posting.{
  put_section, get_section, System, Step, idle, marked, frees, ended, drop_marks, drop_posts_put,
  drop_posts_get, drop_frees, drop_ends, Reachable,
}
use os_posix.MessageQueue.Posting.Balance.{Reachable-Balance}
use os_posix.MessageQueue.Posting.Dropping.{Steps, here, next}

freed_get : (size : ℕ) (q : Counting.Queue) → load q.heap q.tail ≡ none → get_section size q ≡ none
unfolding get_section unlink
freed_get size q e = ground (arith, e)

freed_put :
    (f : Ptr) (t : Text) (q : Counting.Queue)
    → (q.head == null) ≡ false
    → (q.head == f) ≡ false
    → load q.heap q.head ≡ none
    → put_section f t q ≡ none
unfolding put_section link
freed_put f t q n ne e = ground (arith, e)

freed_load :
    (cs : Cells) (g h h' : Heap) (a : Ptr)
    → h' ≡ h
    → h' a ≡ without cs g a
    → has a cs ≡ true
    → load h a ≡ none
freed_load cs g h h' a e w i = ground (arith, ap (λ k. k a) e)

first_step : {s r t : System} → Step s r → Steps r t → Steps s t
first_step st here = next here st
first_step st (next before last) = next (first_step st before) last

-- The drop from the head on, when nobody else takes a step.
abbrev dropped_to : System → Heap → System
dropped_to s h = record s { queue = record s.queue { heap = h }; dropping = ended }

drop_ended :
    (p : Ptr) (s : System) {h : Heap}
    → (p == null) ≡ true
    → s.dropping ≡ frees p
    → some s.queue.heap ≡ some h
    → Steps s (dropped_to s h)
drop_ended p s {h} last e same =
    let none_left : p ≡ null = ground arith in
    subst (λ g. Steps s (dropped_to s g)) (some_inj.0 same)
      (next here (drop_ends (e ∙ ap frees none_left)))

drop_frees_all :
    (fuel : ℕ) (p : Ptr) (s : System) {h : Heap}
    → s.dropping ≡ frees p
    → free_from fuel s.queue.heap p ≡ some h
    → Steps s (dropped_to s h)
unfolding free_from
drop_frees_all zero p s e run = elim (Bool-cases (p == null)) [
  | inl last ↦ drop_ended p s last e (rw last at run)
  | inr more ↦ absurd (ground (arith, more))
]
drop_frees_all (suc fuel) p s e run = elim (Bool-cases (p == null)) [
  | inl last ↦ drop_ended p s last e (rw last at run)
  | inr more ↦ elim (Option-cases (load s.queue.heap p)) [
    | inl gone ↦ absurd (ground (arith, more, gone))
    | inr (m, at) ↦
        first_step (drop_frees p m e at)
          (drop_frees_all fuel m.next _ refl (ground (arith, more, at, run)))
  ]
]

-- What a call meets when the drop has freed the chain.
freed_chain :
    (q : Counting.Queue) (c : Ptr × Text) (cs : Cells)
    → HoldsChain q (c ∷ cs)
    → (h : Heap) × (free_from (length (c ∷ cs)) q.heap q.head ≡ some h)
      × (load h q.tail ≡ none)
      × (load h q.head ≡ none)
      × ((q.head == null) ≡ false)
freed_chain q (p, u) cs v =
    let (h, run, same) = free_from-without q.heap null ((p, u) ∷ cs) v.links v.distinct in
    let gone : (a : Ptr) → has a ((p, u) ∷ cs) ≡ true → load h a ≡ none =
      λ a i. freed_load ((p, u) ∷ cs) q.heap h h a refl (same a) i in
    (
      h,
      ap (free_from (length ((p, u) ∷ cs)) q.heap) v.head ∙ run,
      gone q.tail (ap (λ a. has a ((p, u) ∷ cs)) v.tail ∙ has-final p u null cs),
      gone q.head (ground (arith, v.head)),
      rw v.head v.distinct.0,
    )

abbrev Faulty : System → Type 0
Faulty s =
    (s' : System) × Steps s s'
    × (s'.dropping ≡ ended)
    × (s'.getting ≡ s.getting)
    × (s'.putting ≡ s.putting)
    × ((size : ℕ) → get_section size s'.queue ≡ none)
    × ((f : Ptr) (t : Text) → f ≢ s'.queue.head → put_section f t s'.queue ≡ none)

chain-Faulty :
    (s : System) (cs : Cells)
    → HoldsChain s.queue cs
    → s.dropping ≡ idle
    → s.queue.head ≢ null
    → Faulty s
chain-Faulty s [] v d some_left = absurd (some_left v.head)
chain-Faulty s (c ∷ cs) v d some_left =
    let (h, run, tail, head, live) = freed_chain s.queue c cs v in
    let marked_s : System = record s {
      queue = record s.queue { is_droped = true };
      dropping = marked;
    } in
    let s3 : System = record marked_s {
      sem_put = s.sem_put + 1;
      sem_get = s.sem_get + 1;
      dropping = frees s.queue.head;
    } in
    (
      dropped_to s3 h,
      first_step (drop_marks d) (
          first_step (drop_posts_put refl) (
            first_step (drop_posts_get refl)
              (drop_frees_all (length (c ∷ cs)) s.queue.head s3 refl run))),
      refl,
      refl,
      refl,
      λ size. freed_get size (dropped_to s3 h).queue tail,
      λ f t other. freed_put f t (dropped_to s3 h).queue live (ground (arith, other)) head,
    )

-- From every reachable state before the drop, with messages in the queue, the drop can run to its
-- end before the others go on; then a get that looked at `is_destroyed` before reads a freed
-- message, and so does such a put for which `malloc` does not return the address of the newest.
pub dropped_faults :
    (h : Heap) (messages_limit : ℕ) (s : System)
    → Reachable h messages_limit s
    → s.dropping ≡ idle
    → s.queue.head ≢ null
    → (s' : System) × Steps s s'
      × (s'.dropping ≡ ended)
      × (s'.getting ≡ s.getting)
      × (s'.putting ≡ s.putting)
      × ((size : ℕ) → get_section size s'.queue ≡ none)
      × ((f : Ptr) (t : Text) → f ≢ s'.queue.head → put_section f t s'.queue ≡ none)
dropped_faults h limit s r d some_left =
    let (cs, v) = Reachable-Balance h limit s r d in chain-Faulty s cs v.holds d some_left
