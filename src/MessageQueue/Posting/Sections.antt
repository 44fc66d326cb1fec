-- ===== src/MessageQueue/Posting/Sections.antt =====
-- The sections under the mutex of Lab23-24/sem_implementation/message_queue.c on a chain.
use os_posix.Prelude.{
  ℕ, zero, suc, ◌-◌, ◌<◌, ◌≡◌, refl, ap, ◌∙◌, Option-cases, inl, inr, false, none, some, [], ◌∷◌,
  ◌++◌, ◌==◌, if◌then◌else◌, take, arith,
}
use os_posix.MessageQueue.Cells.{Ptr, null, Text, Message, Cells, load}
use os_posix.MessageQueue.Cells.Chain.{Distinct-last, final-append, IsFresh, IsFresh-has}
use os_posix.MessageQueue.Broadcast.Chains.{link-Links}
use os_posix.MessageQueue.Counting.{unlink, then_some}
use os_posix.MessageQueue.Counting as Counting
use os_posix.MessageQueue.Counting.Sections.{HoldsChain, unlink-HoldsChain, put_tail, nonnull}
use os_posix.MessageQueue.Destroy.{free_message}
use os_posix.MessageQueue.Destroy.Freed.{Links-after}
use os_posix.MessageQueue.Signal.{text_size}
use os_posix.MessageQueue.Posting.{put_section, get_section}

-- With a fresh address the put does not fault, and adds the text, cut at the size of the array.
pub put_section-HoldsChain :
    (f : Ptr) (t : Text) (q : Counting.Queue) (cs : Cells)
    → IsFresh q.heap f
    → HoldsChain q cs
    → (q' : Counting.Queue) × (put_section f t q ≡ some q')
      × HoldsChain q' ((f, take text_size t) ∷ cs)
      × (q'.is_droped ≡ q.is_droped)
unfolding put_section
put_section-HoldsChain f t q cs n v =
    let (h, e, l) = link-Links q.heap f (take text_size t) cs n v.distinct v.links in
    (
      record q { heap = h; head = f; tail = if q.head == null then f else q.tail },
      simp (v.head, e),
      record {
        head = refl;
        tail = put_tail f q cs v;
        links = l;
        distinct = (nonnull n.0, IsFresh-has q.heap f null cs null n v.links, v.distinct);
      },
      refl,
    )

get_section_run :
    (size : ℕ) (q l : Counting.Queue) (m : Message)
    → 0 < size
    → unlink q ≡ some l
    → load l.heap q.tail ≡ some m
    → get_section size q
      ≡ some (record l { heap = free_message l.heap q.tail }, take (size - 1) m.text)
unfolding get_section
get_section_run size q l m h run at =
    let e : (size == 0) ≡ false = ground arith in simp (run, at, e)

-- Into a buffer that is not empty the get does not fault on a chain that is not empty: it takes the oldest message, and frees it.
pub get_section-HoldsChain :
    (size : ℕ) (q : Counting.Queue) (xs : Cells) (p : Ptr) (t : Text)
    → 0 < size
    → HoldsChain q (xs ++ (p, t) ∷ [])
    → (q' : Counting.Queue) × (get_section size q ≡ some (q', take (size - 1) t))
      × HoldsChain q' xs
      × (q'.is_droped ≡ q.is_droped)
get_section-HoldsChain size q xs p t h v =
    let (l, m, run, at, same, holds, kept) = unlink-HoldsChain q xs p t v in
    let (nn, out) = Distinct-last xs p t v.distinct in
    let at_p : q.tail ≡ p = v.tail ∙ final-append null xs p t in
    let q' : Counting.Queue = record l { heap = free_message l.heap q.tail } in
    (
      q',
      get_section_run size q l m h run at ∙ ap (λ x. some (q', take (size - 1) x)) same,
      record {
        head = holds.head;
        tail = holds.tail;
        links = Links-after l.heap null xs null q.tail (rw at_p out) holds.links;
        distinct = holds.distinct;
      },
      kept,
    )

into_nothing : (q : Counting.Queue) → get_section 0 q ≡ none
unfolding get_section
into_nothing q = elim (Option-cases (unlink q)) [
  | inl gone ↦ simp gone
  | inr (l, run) ↦ elim (Option-cases (load l.heap q.tail)) [
    | inl gone ↦ simp (run, gone)
    | inr (m, at) ↦ simp (run, at)
  ]
]

pub get_section-some :
    (size : ℕ) (q : Counting.Queue) {r : Counting.Queue × Text}
    → get_section size q ≡ some r
    → 0 < size
get_section-some zero q e = absurd (cc (into_nothing q))
get_section-some (suc n) q e = omega arith
