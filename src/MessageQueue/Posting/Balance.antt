-- ===== src/MessageQueue/Posting/Balance.antt =====
-- The semaphores of Lab23-24/sem_implementation/message_queue.c beside the messages of the queue,
-- before the drop.
use os_posix.Prelude.{
  ℕ, suc, ◌+◌, ◌-◌, ◌≤◌, ◌<◌, ◌≡◌, refl, sym, ap, ◌∙◌, some, [], ◌∷◌, ◌++◌, arith, take, length,
  length-append,
}
use mathlib.Core.Path.{subst}
use os_posix.MessageQueue.Cells.{Ptr, Text, Heap, Cells}
use os_posix.MessageQueue.Cells.Chain.{IsFresh}
use os_posix.MessageQueue.Spec.Split.{unsnoc}
use os_posix.MessageQueue.Counting.{unlink, then_some}
use os_posix.MessageQueue.Counting as Counting
use os_posix.MessageQueue.Counting.Sections.{HoldsChain}
use os_posix.MessageQueue.Counting.Balance.{same_some}
use os_posix.MessageQueue.Signal.{text_size}
use os_posix.MessageQueue.Posting.{
  System, message_queue_init, put_section, get_section, Step, put_wait, put_refused, put_goes_on,
  put, put_post, get_wait, get_refused, get_goes_on, get, get_post, drop_marks, drop_posts_put,
  drop_posts_get, drop_frees, drop_ends, Reachable, begins, steps, idle,
}
use os_posix.MessageQueue.Posting.Sections.{
  put_section-HoldsChain, get_section-HoldsChain, get_section-some,
}

-- Each message is counted by `sem_get`, about to be, or claimed by a get; each free place by
-- `sem_put`, about to be, or claimed by a put.
pub record IsBalanced (limit : ℕ) (s : System) (cs : Cells) : Type 0 where
  pub holds : HoldsChain s.queue cs
  pub messages : s.sem_get + s.get_looks + s.getting + s.posts_get ≡ length cs
  pub places : s.sem_put + s.put_looks + s.putting + s.posts_put + length cs ≡ limit

-- Nothing is claimed once the drop has begun.
abbrev Balance : ℕ → System → Type 0
Balance limit s = s.dropping ≡ idle → (cs : Cells) × IsBalanced limit s cs

claimed :
    (limit : ℕ) (s : System) (cs : Cells) (n : ℕ)
    → IsBalanced limit s cs
    → s.getting ≡ suc n
    → (xs : Cells) × (p : Ptr) × (t : Text) × (cs ≡ xs ++ (p, t) ∷ [])
claimed limit s [] n v e = absurd (omega (arith, v.messages))
claimed limit s ((p, t) ∷ cs) n v e = let (xs, r, u, same, rest) = unsnoc p t cs in (xs, r, u, same)

put-IsBalanced :
    (limit : ℕ) (s : System) (cs : Cells) (n : ℕ) (f : Ptr) (text : Text) (q : Counting.Queue)
    → IsBalanced limit s cs
    → s.putting ≡ suc n
    → IsFresh s.queue.heap f
    → put_section f text s.queue ≡ some q
    → IsBalanced limit
        (record s { queue = q; putting = n; posts_get = s.posts_get + 1 })
        ((f, take text_size text) ∷ cs)
put-IsBalanced limit s cs n f text q v e fresh run =
    let (q', run', holds, kept) = put_section-HoldsChain f text s.queue cs fresh v.holds in
    record {
      holds = subst (λ x. HoldsChain x ((f, take text_size text) ∷ cs)) (same_some run' run) holds;
      messages = omega (arith, v.messages);
      places = omega (arith, v.places);
    }

get-IsBalanced :
    (limit : ℕ) (s : System) (cs : Cells) (n size : ℕ) (q : Counting.Queue) (t : Text)
    → IsBalanced limit s cs
    → s.getting ≡ suc n
    → get_section size s.queue ≡ some (q, t)
    → (xs : Cells) × IsBalanced limit
        (record s { queue = q; getting = n; posts_put = s.posts_put + 1 })
        xs
get-IsBalanced limit s cs n size q t v e run =
    let (xs, p, u, split) = claimed limit s cs n v e in
    let (q', run', holds, kept) =
      get_section-HoldsChain size s.queue xs p u (get_section-some size s.queue run)
        (subst (HoldsChain s.queue) split v.holds) in
    let counted = ap length split ∙ length-append xs ((p, u) ∷ []) in
    (
      xs,
      record {
        holds = subst (λ x. HoldsChain x xs) (ap (λ r. r.0) (same_some run' run)) holds;
        messages = omega (arith, v.messages, counted);
        places = omega (arith, v.places, counted);
      },
    )

-- A step of the semaphores alone.
recount :
    {limit : ℕ} (s s' : System)
    → Balance limit s
    → s'.queue ≡ s.queue
    → s'.dropping ≡ s.dropping
    → s'.sem_get + s'.get_looks + s'.getting + s'.posts_get
      ≡ s.sem_get + s.get_looks + s.getting + s.posts_get
    → s'.sem_put + s'.put_looks + s'.putting + s'.posts_put
      ≡ s.sem_put + s.put_looks + s.putting + s.posts_put
    → Balance limit s'
recount s s' v same idle' gets puts d =
    let (cs, b) = v (sym idle' ∙ d) in
    (
      cs,
      record {
        holds = subst (λ q. HoldsChain q cs) (sym same) b.holds;
        messages = omega (arith, b.messages);
        places = omega (arith, b.places);
      },
    )

step-Balance : {limit : ℕ} (s s' : System) → Balance limit s → Step s s' → Balance limit s'
step-Balance s s' v (put_wait n e) = recount s s' v refl refl refl (omega arith)
step-Balance s s' v (put_refused n e d) = recount s s' v refl refl refl (omega arith)
step-Balance s s' v (put_goes_on n e d) = recount s s' v refl refl refl (omega arith)
step-Balance {limit} s s' v (put n f text q e fresh run) =
    λ d. let (cs, b) = v d in (_, put-IsBalanced limit s cs n f text q b e fresh run)
step-Balance s s' v (put_post n e) = recount s s' v refl refl (omega arith) refl
step-Balance s s' v (get_wait n e) = recount s s' v refl refl (omega arith) refl
step-Balance s s' v (get_refused n e d) = recount s s' v refl refl (omega arith) refl
step-Balance s s' v (get_goes_on n e d) = recount s s' v refl refl (omega arith) refl
step-Balance {limit} s s' v (get n size q t e run) =
    λ d. let (cs, b) = v d in get-IsBalanced limit s cs n size q t b e run
step-Balance s s' v (get_post n e) = recount s s' v refl refl refl (omega arith)
step-Balance s s' v (drop_marks e) = λ d. absurd (cc)
step-Balance s s' v (drop_posts_put e) = λ d. absurd (cc)
step-Balance s s' v (drop_posts_get e) = λ d. absurd (cc)
step-Balance s s' v (drop_frees p m e at) = λ d. absurd (cc)
step-Balance s s' v (drop_ends e) = λ d. absurd (cc)

pub Reachable-Balance : (h : Heap) (limit : ℕ) (s : System) → Reachable h limit s → Balance limit s
unfolding message_queue_init
Reachable-Balance h limit s begins d = (
  [],
  record {
    holds = record { head = refl; tail = refl; links = tt; distinct = tt };
    messages = refl;
    places = omega arith;
  },
)
Reachable-Balance h limit s (steps {s = r} before t) d =
    step-Balance r s (Reachable-Balance h limit r before) t d

-- Before the drop begins the queue is in every reachable state a chain of at most as many messages
-- as `messages_limit`, `sem_get` is no more than their number, and neither a get past `sem_get`,
-- into a buffer that is not empty, nor a put with a fresh address faults.
pub calls_run_before_drop :
    (h : Heap) (messages_limit : ℕ) (s : System)
    → Reachable h messages_limit s
    → s.dropping ≡ idle
    → (cs : Cells) × HoldsChain s.queue cs
      × (length cs ≤ messages_limit)
      × (s.sem_get ≤ length cs)
      × ((n size : ℕ)
          → s.getting ≡ suc n
          → 0 < size
          → (q : Counting.Queue) × (t : Text) × (get_section size s.queue ≡ some (q, t)))
      × ((f : Ptr) (text : Text)
          → IsFresh s.queue.heap f
          → (q : Counting.Queue) × (put_section f text s.queue ≡ some q))
calls_run_before_drop h limit s r d =
    let (cs, v) = Reachable-Balance h limit s r d in
    (
      cs,
      v.holds,
      omega (arith, v.places),
      omega (arith, v.messages),
      λ n size e room.
          let (xs, p, u, split) = claimed limit s cs n v e in
          let (q', run, holds, kept) =
            get_section-HoldsChain size s.queue xs p u room
              (subst (HoldsChain s.queue) split v.holds) in
          (q', take (size - 1) u, run),
      λ f text fresh.
          let (q', run, holds, kept) = put_section-HoldsChain f text s.queue cs fresh v.holds in
          (q', run),
    )
