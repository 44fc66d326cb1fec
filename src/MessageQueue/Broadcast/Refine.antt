-- ===== src/MessageQueue/Broadcast/Refine.antt =====
-- The calls of Lab24/main.c beside the specification of a bounded queue.
use os_posix.Prelude.{
  ℕ, ◌+◌, ◌≡◌, ◌≢◌, refl, ap, ◌∙◌, true, false, none, [], ◌∷◌, ◌++◌, arith, inl, inr, Bool-cases,
  leb, ◌==◌, if◌then◌else◌, take, length,
}
use os_posix.MessageQueue.Cells.{Ptr, null, Text, Heap, Cells, texts, final}
use os_posix.MessageQueue.Cells.Chain.{IsFresh, IsFresh-has}
use os_posix.MessageQueue.Spec.Split.{unsnoc, length-texts}
use os_posix.MessageQueue.Spec.{Spec, Answer, blocks, answers, spec_put, oldest, spec_get}
use os_posix.MessageQueue.Broadcast.{
  Queue, Call, waits, returns, limit, width, mymsginit, mymsqdrop, mymsgput, mymsgget,
}
use os_posix.MessageQueue.Broadcast.Chains.{IsChain, link-Links, mymsgget_last}

-- The queue `q` stands for the texts and the mark of `s`.
abbrev pub Represents : Queue → Spec → Type 0
Represents q s = (cs : Cells) × IsChain q cs × (texts cs ≡ s.items) × (q.is_droped ≡ s.dropped)

-- A call does what the specification answers.
abbrev pub Refines : {A : Type 0} → Call A → Answer A → Type 0
Refines waits blocks = Unit
Refines (returns a q w) (answers b s) = (a ≡ b) × Represents q s
Refines _ _ = ⊥

pub put_dropped :
    (f : Ptr) (t : Text) (q : Queue) → q.is_droped ≡ true → mymsgput f t q ≡ returns false q false
unfolding mymsgput
put_dropped f t q d = ground arith

pub put_full :
    (f : Ptr) (t : Text) (q : Queue)
    → q.is_droped ≡ false
    → leb limit q.mes_count ≡ true
    → mymsgput f t q ≡ waits
unfolding mymsgput
put_full f t q d full = rw (full, d)

put_tail :
    (f : Ptr) (q : Queue) (cs : Cells)
    → IsChain q cs
    → (if q.head == null then f else q.tail) ≡ final f cs
put_tail f q [] v = ground (arith, v.head)
put_tail f q (c ∷ cs) v = ground (arith, v.head, v.tail, v.distinct)

nonnull : {f : Ptr} → f ≢ null → (f == null) ≡ false
nonnull n = ground arith

full_items :
    (q : Queue) (cs : Cells) (s : Spec)
    → IsChain q cs
    → texts cs ≡ s.items
    → leb limit (length s.items) ≡ leb limit q.mes_count
full_items q cs s v same = rw (← same, length-texts cs, v.count)

pub put_room :
    (f : Ptr) (t : Text) (q : Queue) (cs : Cells)
    → IsFresh q.heap f
    → IsChain q cs
    → q.is_droped ≡ false
    → leb limit q.mes_count ≡ false
    → (q' : Queue) × (mymsgput f t q ≡ returns true q' (q.mes_count == 0))
      × IsChain q' ((f, take width t) ∷ cs)
      × (q'.is_droped ≡ false)
unfolding mymsgput
put_room f t q cs n v d room =
    let (h, e, l) = link-Links q.heap f (take width t) cs n v.distinct v.links in
    (
      record {
        heap = h;
        head = f;
        tail = if q.head == null then f else q.tail;
        is_droped = q.is_droped;
        mes_count = q.mes_count + 1;
      },
      simp (room, d, v.head, e),
      record {
        head = refl;
        tail = put_tail f q cs v;
        links = l;
        distinct = (nonnull n.0, IsFresh-has q.heap f null cs null n v.links, v.distinct);
        count = omega (arith, v.count);
      },
      d,
    )

-- When `malloc` returns memory that is not in use: every call of `mymsgput`, on a queue that stands
-- for `s`, does what `spec_put` says: it waits, returns 0 and changes nothing, or returns 1 and adds
-- the text, cut at 80 bytes.
pub mymsgput-Refines :
    (f : Ptr) (t : Text) (q : Queue) (s : Spec)
    → IsFresh q.heap f
    → Represents q s
    → Refines (mymsgput f t q) (spec_put limit width t s)
mymsgput-Refines f t q s n (cs, v, same, drop) = elim (Bool-cases s.dropped) [
  | inl d ↦ simp (put_dropped f t q (drop ∙ d), d) (refl, (cs, v, same, drop ∙ d))
  | inr d ↦ elim (Bool-cases (leb limit q.mes_count)) [
    | inl full ↦ simp (put_full f t q (drop ∙ d) full, d, full_items q cs s v same, full) tt
    | inr room ↦
        let (q', e, v', d') = put_room f t q cs n v (drop ∙ d) room in
        simp (e, d, full_items q cs s v same, room)
          (refl, ((f, take width t) ∷ cs, v', ap (λ ts. take width t ∷ ts) same, d'))
  ]
]

pub get_dropped : (n : ℕ) (q : Queue) → q.is_droped ≡ true → mymsgget n q ≡ returns none q false
unfolding mymsgget
get_dropped n q d = ground arith

pub get_empty : (n : ℕ) (q : Queue) → q.is_droped ≡ false → q.mes_count ≡ 0 → mymsgget n q ≡ waits
unfolding mymsgget
get_empty n q d e = ground arith

get_kept :
    (n : ℕ) (q : Queue) (cs : Cells)
    → IsChain q cs
    → q.is_droped ≡ false
    → Refines (mymsgget n q) (oldest n false (texts cs))
get_kept n q [] v d = rw (get_empty n q d v.count) tt
get_kept n q ((p, t) ∷ cs) v d =
    let (xs, r, u, e, s) = unsnoc p t cs in
    let v' : IsChain q (xs ++ (r, u) ∷ []) = rw e at v in
    let (q', run, left, d') = mymsgget_last n q xs r u v' d in
    rw (run, s) (refl, (xs, left, refl, d'))

-- Every call of `mymsgget`, on a queue that stands for `s`, does what `spec_get` says: it waits,
-- returns 0 and changes nothing, or returns 1 with the oldest text, which leaves the queue.
pub mymsgget-Refines :
    (n : ℕ) (q : Queue) (s : Spec) → Represents q s → Refines (mymsgget n q) (spec_get n s)
mymsgget-Refines n q s (cs, v, same, drop) = elim (Bool-cases s.dropped) [
  | inl d ↦ simp (get_dropped n q (drop ∙ d), d) (refl, (cs, v, same, drop ∙ d))
  | inr d ↦ simp (d, ← same) (get_kept n q cs v (drop ∙ d))
]

-- After `mymsginit` the queue stands for the empty queue, and `mymsqdrop` marks it as dropped.
pub mymsginit-Represents :
    (h : Heap) → Represents (mymsginit h) (record { items = []; dropped = false })
unfolding mymsginit
mymsginit-Represents h =
    ([], record { head = refl; tail = refl; links = tt; distinct = tt; count = refl }, refl, refl)

pub mymsqdrop-Represents :
    (q : Queue) (s : Spec) → Represents q s → Represents (mymsqdrop q) (record s { dropped = true })
unfolding mymsqdrop
mymsqdrop-Represents q s (cs, v, same, drop) = (
  cs,
  record { head = v.head; tail = v.tail; links = v.links; distinct = v.distinct; count = v.count },
  same,
  refl,
)
