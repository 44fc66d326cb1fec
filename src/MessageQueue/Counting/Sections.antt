-- ===== src/MessageQueue/Counting/Sections.antt =====
-- What the critical sections of Lab23/main.c do to a queue that stands for a chain of messages.
use os_posix.Prelude.{
  ℕ, ◌≡◌, ◌≢◌, refl, ap, ◌∙◌, false, Option, some, [], ◌∷◌, ◌++◌, arith, ◌==◌, if◌then◌else◌, take,
}
use os_posix.MessageQueue.Cells.{
  Ptr, null, Text, Message, message, Heap, write, load, Cells, first, final, Links, Distinct,
}
use os_posix.MessageQueue.Cells.Chain.{
  IsFresh, IsFresh-has, Links-last, Links-unlink, Distinct-init, final-append, first-ne-last,
  Distinct-last, has-ne, has-final,
}
use os_posix.MessageQueue.Broadcast.{width}
use os_posix.MessageQueue.Broadcast.Chains.{link-Links}
use os_posix.MessageQueue.Counting.{Queue, put_section, unlink, get_section}

-- `head` and `tail` are the ends of the chain `cs`.
pub record HoldsChain (q : Queue) (cs : Cells) : Type 0 where
  pub head : q.head ≡ first cs null
  pub tail : q.tail ≡ final null cs
  pub links : Links q.heap null cs null
  pub distinct : Distinct cs

pub put_tail :
    (f : Ptr) (q : Queue) (cs : Cells)
    → HoldsChain q cs
    → (if q.head == null then f else q.tail) ≡ final f cs
put_tail f q [] v = ground (arith, v.head)
put_tail f q (c ∷ cs) v = ground (arith, v.head, v.tail, v.distinct)

pub nonnull : {f : Ptr} → f ≢ null → (f == null) ≡ false
nonnull n = ground arith

-- With a fresh address the put does not fault, and adds the text, cut at 80 bytes, at the head.
pub put_section-HoldsChain :
    (f : Ptr) (t : Text) (q : Queue) (cs : Cells)
    → IsFresh q.heap f
    → HoldsChain q cs
    → (q' : Queue) × (put_section f t q ≡ some q')
      × HoldsChain q' ((f, take width t) ∷ cs)
      × (q'.is_droped ≡ q.is_droped)
unfolding put_section
put_section-HoldsChain f t q cs n v =
    let (h, e, l) = link-Links q.heap f (take width t) cs n v.distinct v.links in
    (
      record q { heap = h; head = f; tail = if q.head == null then f else q.tail },
      simp (v.head, e),
      record {
        head = refl;
        tail = put_tail f q cs v;
        links = l;
        distinct = (nonnull n.0, IsFresh-has q.heap f null cs null n v.links, v.distinct);
      },
      refl,
    )

unlink_run :
    (q : Queue) (res m : Message)
    → (q.head == q.tail) ≡ false
    → load q.heap q.tail ≡ some res
    → load q.heap res.prev ≡ some m
    → unlink q
      ≡ some (record q {
        heap = write q.heap res.prev (some (record m { next = null }));
        tail = res.prev;
      })
unfolding unlink
unlink_run q res m many at_tail at_prev = rw (many, at_tail, at_prev)

get_section_run :
    (n : ℕ) (q q' : Queue) (res : Message)
    → unlink q ≡ some q'
    → load q'.heap q.tail ≡ some res
    → get_section n q ≡ some (q', take n res.text)
unfolding get_section
get_section_run n q q' res run at_tail = simp (run, at_tail)

load-write_ne :
    (h : Heap) (p q : Ptr) (c : Option Message) → (q == p) ≡ false → load (write h p c) q ≡ load h q
load-write_ne h p q c ne = rw ne

-- From a chain that is not empty the oldest message is unlinked, and can still be read.
pub unlink-HoldsChain :
    (q : Queue) (xs : Cells) (p : Ptr) (t : Text)
    → HoldsChain q (xs ++ (p, t) ∷ [])
    → (q' : Queue) × (m : Message) × (unlink q ≡ some q')
      × (load q'.heap q.tail ≡ some m)
      × (m.text ≡ t)
      × HoldsChain q' xs
      × (q'.is_droped ≡ q.is_droped)
unlink-HoldsChain q [] p t v = (
  record q { head = null; tail = null },
  message t null null,
  unfold unlink in ground (arith, v.head, v.tail),
  ground (arith, v.tail, v.links, v.distinct),
  refl,
  record { head = refl; tail = refl; links = tt; distinct = tt },
  refl,
)
unlink-HoldsChain q ((r, u) ∷ xs) p t v =
    let (m, e, l) = Links-unlink q.heap null r u xs p t v.distinct v.links in
    let (nn, out) = Distinct-last ((r, u) ∷ xs) p t v.distinct in
    let at_p : q.tail ≡ p = v.tail ∙ final-append r xs p t in
    let many : (q.head == q.tail) ≡ false =
      rw (v.head, at_p) (first-ne-last (r, u) xs p t null v.distinct) in
    let at_tail : load q.heap q.tail ≡ some (message t null (final r xs)) =
      rw (at_p, nn) (Links-last q.heap null ((r, u) ∷ xs) p t null v.links) in
    let apart : (q.tail == final r xs) ≡ false =
      rw at_p (has-ne p (final r xs) ((r, u) ∷ xs) out (has-final r u null xs)) in
    let q' : Queue = record q {
      heap = write q.heap (final r xs) (some (record m { next = null }));
      tail = final r xs;
    } in
    (
      q',
      message t null (final r xs),
      unlink_run q (message t null (final r xs)) m many at_tail e,
      load-write_ne q.heap (final r xs) q.tail _ apart ∙ at_tail,
      refl,
      record {
        head = v.head;
        tail = refl;
        links = l;
        distinct = Distinct-init ((r, u) ∷ xs) ((p, t) ∷ []) v.distinct;
      },
      refl,
    )

-- The get does not fault on a chain that is not empty: it takes the oldest message.
pub get_section-HoldsChain :
    (n : ℕ) (q : Queue) (xs : Cells) (p : Ptr) (t : Text)
    → HoldsChain q (xs ++ (p, t) ∷ [])
    → (q' : Queue) × (get_section n q ≡ some (q', take n t))
      × HoldsChain q' xs
      × (q'.is_droped ≡ q.is_droped)
get_section-HoldsChain n q xs p t v =
    let (q', m, run, at, same, holds, kept) = unlink-HoldsChain q xs p t v in
    (q', get_section_run n q q' m run at ∙ ap (λ x. some (q', take n x)) same, holds, kept)
