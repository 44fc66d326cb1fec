-- ===== src/MessageQueue/Broadcast/Chains.antt =====
-- What the calls of Lab24/main.c do to a queue that is a chain of messages.
use os_posix.Prelude.{
  ℕ, suc, ◌-◌, ◌≡◌, refl, ◌∙◌, false, Option, some, [], ◌∷◌, ◌++◌, arith, ◌==◌, take, length,
  length-append,
}
use os_posix.MessageQueue.Cells.{
  Ptr, null, Text, Message, message, Heap, write, load, Cells, first, final, Links, Distinct,
}
use os_posix.MessageQueue.Cells.Chain.{
  IsFresh, IsFresh-has, Links-push, Links-last, Links-unlink, Links-frame, Distinct-init,
  final-append, first-ne-last, Distinct-last, has-ne, has-final,
}
use os_posix.MessageQueue.Broadcast.{Queue, returns, limit, link, unlink, mymsgget}

-- `head` and `tail` are the ends of the chain `cs`, which `mes_count` counts.
pub record IsChain (q : Queue) (cs : Cells) : Type 0 where
  pub head : q.head ≡ first cs null
  pub tail : q.tail ≡ final null cs
  pub links : Links q.heap null cs null
  pub distinct : Distinct cs
  pub count : q.mes_count ≡ length cs

pub link-Links :
    (h : Heap) (f : Ptr) (t : Text) (cs : Cells)
    → IsFresh h f
    → Distinct cs
    → Links h null cs null
    → (h' : Heap) × (link h f (first cs null) t ≡ some h') × Links h' null ((f, t) ∷ cs) null
unfolding link
link-Links h f t [] n d l = (write h f (some (message t null null)), ground arith, ground arith)
link-Links h f t ((q, u) ∷ cs) n d l =
    let out = IsFresh-has h f null ((q, u) ∷ cs) null n l in
    let linked =
      write (write h f (some (message t q null))) q (some (message u (first cs null) f)) in
    (
      write (write (write h f (some (message t null null))) f (some (message t q null))) q
          (some (message u (first cs null) f)),
      ground arith,
      Links-frame linked _ null ((f, t) ∷ (q, u) ∷ cs) null (λ p i. ground arith)
          (Links-push h f t q u cs (ground arith) out d l),
    )

unlink_run :
    (q : Queue) (res m : Message)
    → (q.head == q.tail) ≡ false
    → load q.heap q.tail ≡ some res
    → load q.heap res.prev ≡ some m
    → unlink q
      ≡ returns tt
          (record q {
            heap = write q.heap res.prev (some (record m { next = null }));
            tail = res.prev;
          })
          false
unfolding unlink
unlink_run q res m many at_tail at_prev = rw (many, at_tail, at_prev)

load-write_ne :
    (h : Heap) (p q : Ptr) (c : Option Message) → (q == p) ≡ false → load (write h p c) q ≡ load h q
load-write_ne h p q c ne = rw ne

mymsgget_run :
    (n : ℕ) (q q' : Queue) (res : Message)
    → q.is_droped ≡ false
    → (q.mes_count == 0) ≡ false
    → unlink q ≡ returns tt q' false
    → load q'.heap q.tail ≡ some res
    → mymsgget n q
      ≡ returns
          (some (take n res.text))
          (record q' { mes_count = q.mes_count - 1 })
          (q.mes_count == limit)
unfolding mymsgget
mymsgget_run n q q' res kept some_left run at_tail = simp (some_left, kept, run, at_tail)

-- What a chain of two or more says of the last message and the one before it.
record LastTwo (q : Queue) (r : Ptr) (u : Text) (xs : Cells) (p : Ptr) (t : Text) : Type 0 where
  many : (q.head == q.tail) ≡ false
  at_tail : load q.heap q.tail ≡ some (message t null (final r xs))
  apart : (q.tail == final r xs) ≡ false

last_two :
    (q : Queue) (r : Ptr) (u : Text) (xs : Cells) (p : Ptr) (t : Text)
    → IsChain q ((r, u) ∷ xs ++ (p, t) ∷ [])
    → LastTwo q r u xs p t
last_two q r u xs p t v =
    let (nn, out) = Distinct-last ((r, u) ∷ xs) p t v.distinct in
    let at_p : q.tail ≡ p = v.tail ∙ final-append r xs p t in
    record {
      many = rw (v.head, at_p) (first-ne-last (r, u) xs p t null v.distinct);
      at_tail = rw (at_p, nn) (Links-last q.heap null ((r, u) ∷ xs) p t null v.links);
      apart = rw at_p (has-ne p _ ((r, u) ∷ xs) out (has-final r u null xs));
    }

pub succ_not_zero : {n m : ℕ} → n ≡ suc m → (n == 0) ≡ false
succ_not_zero e = ground arith

-- A get of the oldest message, whatever else there is.
pub mymsgget_last :
    (n : ℕ) (q : Queue) (xs : Cells) (p : Ptr) (t : Text)
    → IsChain q (xs ++ (p, t) ∷ [])
    → q.is_droped ≡ false
    → (q' : Queue) × (mymsgget n q ≡ returns (some (take n t)) q' (q.mes_count == limit))
      × IsChain q' xs
      × (q'.is_droped ≡ false)
mymsgget_last n q [] p t v d = (
  record q { head = null; tail = null; mes_count = q.mes_count - 1 },
  mymsgget_run n q (record q { head = null; tail = null }) (message t null null) d
      (ground (arith, v.count)) (unfold unlink in ground (arith, v.head, v.tail))
      (ground (arith, v.tail, v.links, v.distinct)),
  record { head = refl; tail = refl; links = tt; distinct = tt; count = omega (arith, v.count) },
  d,
)
mymsgget_last n q ((r, u) ∷ xs) p t v d =
    let (m, e, l) = Links-unlink q.heap null r u xs p t v.distinct v.links in
    let two = last_two q r u xs p t v in
    let q' : Queue = record q {
      heap = write q.heap (final r xs) (some (record m { next = null }));
      tail = final r xs;
    } in
    (
      record q' { mes_count = q.mes_count - 1 },
      mymsgget_run n q q' (message t null (final r xs)) d (succ_not_zero v.count)
          (unlink_run q (message t null (final r xs)) m two.many two.at_tail e)
          (load-write_ne q.heap (final r xs) q.tail _ two.apart ∙ two.at_tail),
      record {
        head = v.head;
        tail = refl;
        links = l;
        distinct = Distinct-init ((r, u) ∷ xs) ((p, t) ∷ []) v.distinct;
        count = omega (arith, v.count, length-append xs ((p, t) ∷ []));
      },
      d,
    )
