-- ===== src/MessageQueue/Counting/Balance.antt =====
-- The semaphores of Lab23/main.c beside the messages in the queue.
use os_posix.Prelude.{
  ℕ, suc, ◌+◌, ◌≤◌, ◌≡◌, refl, sym, ap, ◌∙◌, false, Option, some, [], ◌∷◌, ◌++◌, arith, take,
  length, length-append,
}
use mathlib.Core.Path.{subst}
use os_posix.MessageQueue.Cells.{Ptr, Text, Heap, Cells}
use os_posix.MessageQueue.Cells.Chain.{IsFresh}
use os_posix.MessageQueue.Spec.Split.{unsnoc}
use os_posix.MessageQueue.Broadcast.{width}
use os_posix.MessageQueue.Counting.{
  Queue, places, mymsginit, put_section, get_section, System, start, Step, put_wait, put_refused,
  put, put_post, get_wait, get_refused, get, get_post, drop, Reachable, begins, steps,
}
use os_posix.MessageQueue.Counting.Sections.{
  HoldsChain, put_section-HoldsChain, get_section-HoldsChain,
}

-- While the queue is not dropped, each message is counted by `isFull`, about to be, or claimed by
-- a get; and each free place by `isEmpty`, about to be, or claimed by a put.
pub record Counts (s : System) (size : ℕ) : Type 0 where
  pub messages : s.full + s.getting + s.posting_full ≡ size
  pub free : s.empty + s.putting + s.posting_empty + size ≡ places

pub record IsCounted (s : System) (cs : Cells) : Type 0 where
  pub holds : HoldsChain s.queue cs
  pub counts : s.queue.is_droped ≡ false → Counts s (length cs)

pub same_some : {A : Type 0} {o : Option A} {a b : A} → o ≡ some a → o ≡ some b → a ≡ b
same_some p q = ground (arith, p, q)

-- A chain that a get has claimed a message of is not empty.
claimed :
    (s : System) (cs : Cells) (n : ℕ)
    → Counts s (length cs)
    → s.getting ≡ suc n
    → (xs : Cells) × (p : Ptr) × (t : Text) × (cs ≡ xs ++ (p, t) ∷ [])
claimed s [] n v e = absurd (omega (arith, v.messages))
claimed s ((p, t) ∷ cs) n v e = let (xs, r, u, same, rest) = unsnoc p t cs in (xs, r, u, same)

put-IsCounted :
    (s : System) (cs : Cells) (n : ℕ) (f : Ptr) (msg : Text) (q : Queue)
    → IsCounted s cs
    → s.putting ≡ suc n
    → s.queue.is_droped ≡ false
    → IsFresh s.queue.heap f
    → put_section f msg s.queue ≡ some q
    → IsCounted
        (record s { queue = q; putting = n; posting_full = s.posting_full + 1 })
        ((f, take width msg) ∷ cs)
put-IsCounted s cs n f msg q v e d fresh run =
    let (q', run', holds, kept) = put_section-HoldsChain f msg s.queue cs fresh v.holds in
    let c = v.counts d in
    record {
      holds = subst (λ x. HoldsChain x ((f, take width msg) ∷ cs)) (same_some run' run) holds;
      counts = λ d'. record { messages = omega (arith, c.messages); free = omega (arith, c.free) };
    }

get-IsCounted :
    (s : System) (cs : Cells) (n size : ℕ) (q : Queue) (t : Text)
    → IsCounted s cs
    → s.getting ≡ suc n
    → s.queue.is_droped ≡ false
    → get_section size s.queue ≡ some (q, t)
    → (xs : Cells) × IsCounted
        (record s { queue = q; getting = n; posting_empty = s.posting_empty + 1 })
        xs
get-IsCounted s cs n size q t v e d run =
    let c = v.counts d in
    let (xs, p, u, split) = claimed s cs n c e in
    let (q', run', holds, kept) =
      get_section-HoldsChain size s.queue xs p u (subst (HoldsChain s.queue) split v.holds) in
    let counted = ap length split ∙ length-append xs ((p, u) ∷ []) in
    (
      xs,
      record {
        holds = subst (λ x. HoldsChain x xs) (ap (λ r. r.0) (same_some run' run)) holds;
        counts = λ d'. record {
          messages = omega (arith, c.messages, counted);
          free = omega (arith, c.free, counted);
        };
      },
    )

-- A step of the semaphores alone.
recount :
    (s s' : System) (cs : Cells)
    → IsCounted s cs
    → s'.queue ≡ s.queue
    → (s.queue.is_droped ≡ false → Counts s (length cs) → Counts s' (length cs))
    → IsCounted s' cs
recount s s' cs v same c = record {
  holds = subst (λ q. HoldsChain q cs) (sym same) v.holds;
  counts = λ d.
      let d' : s.queue.is_droped ≡ false = ap (λ q. q.is_droped) (sym same) ∙ d in
      c d' (v.counts d');
}

step-IsCounted :
    (s s' : System) (cs : Cells) → IsCounted s cs → Step s s' → (cs' : Cells) × IsCounted s' cs'
step-IsCounted s s' cs v (put_wait n e) = (
  cs,
  recount s s' cs v refl (λ d c. record { messages = c.messages; free = omega (arith, c.free) }),
)
step-IsCounted s s' cs v (put_refused n e d) = (cs, recount s s' cs v refl (λ d' c. absurd (cc)))
step-IsCounted s s' cs v (put n f msg q e d fresh run) =
    ((f, take width msg) ∷ cs, put-IsCounted s cs n f msg q v e d fresh run)
step-IsCounted s s' cs v (put_post n e) = (
  cs,
  recount s s' cs v refl (λ d c. record { messages = omega (arith, c.messages); free = c.free }),
)
step-IsCounted s s' cs v (get_wait n e) = (
  cs,
  recount s s' cs v refl (λ d c. record { messages = omega (arith, c.messages); free = c.free }),
)
step-IsCounted s s' cs v (get_refused n e d) = (cs, recount s s' cs v refl (λ d' c. absurd (cc)))
step-IsCounted s s' cs v (get n size q t e d run) = get-IsCounted s cs n size q t v e d run
step-IsCounted s s' cs v (get_post n e) = (
  cs,
  recount s s' cs v refl (λ d c. record { messages = c.messages; free = omega (arith, c.free) }),
)
step-IsCounted s s' cs v drop = (
  cs,
  record {
    holds = record {
      head = v.holds.head;
      tail = v.holds.tail;
      links = v.holds.links;
      distinct = v.holds.distinct;
    };
    counts = λ d. absurd (cc);
  },
)

start-IsCounted : (h : Heap) → IsCounted (start h) []
unfolding mymsginit
start-IsCounted h = record {
  holds = record { head = refl; tail = refl; links = tt; distinct = tt };
  counts = λ d. record { messages = refl; free = refl };
}

pub Reachable-IsCounted : (h : Heap) (s : System) → Reachable h s → (cs : Cells) × IsCounted s cs
Reachable-IsCounted h s begins = ([], start-IsCounted h)
Reachable-IsCounted h s (steps {s = r} before t) =
    let (cs, v) = Reachable-IsCounted h r before in step-IsCounted r s cs v t

-- In every state that the calls of Lab23 reach the queue is a chain of messages. While it is not
-- dropped there are at most ten of them, no more than that are counted by `isFull`, and neither a
-- get that claimed one nor a put with a fresh address faults.
pub calls_never_fault :
    (h : Heap) (s : System)
    → Reachable h s
    → (cs : Cells) × HoldsChain s.queue cs
      × (s.queue.is_droped ≡ false
          → (length cs ≤ places)
            × (s.full ≤ length cs)
            × ((n size : ℕ)
                → s.getting ≡ suc n
                → (q : Queue) × (t : Text) × (get_section size s.queue ≡ some (q, t)))
            × ((f : Ptr) (msg : Text)
                → IsFresh s.queue.heap f
                → (q : Queue) × (put_section f msg s.queue ≡ some q)))
calls_never_fault h s r =
    let (cs, v) = Reachable-IsCounted h s r in
    (
      cs,
      v.holds,
      λ d.
          let c = v.counts d in
          (
            omega (arith, c.free),
            omega (arith, c.messages),
            λ n size e.
                let (xs, p, u, split) = claimed s cs n c e in
                let (q', run, holds, kept) =
                  get_section-HoldsChain size s.queue xs p u
                    (subst (HoldsChain s.queue) split v.holds) in
                (q', take size u, run),
            λ f msg fresh.
                let (q', run, holds, kept) =
                  put_section-HoldsChain f msg s.queue cs fresh v.holds in
                (q', run),
          ),
    )
