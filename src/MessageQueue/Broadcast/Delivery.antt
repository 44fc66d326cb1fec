-- ===== src/MessageQueue/Broadcast/Delivery.antt =====
-- The messages and the sleepers of Lab24/main.c, over all interleavings.
use os_posix.Prelude.{
  ℕ, ◌+◌, ◌≤◌, ◌≡◌, refl, ap, ◌∙◌, inl, inr, true, false, List, [], ◌∷◌, ◌++◌, arith, Bool-cases,
  leb, ◌==◌, if◌then◌else◌, update_elim, take, length, length-append,
}
use mathlib.Core.List.{map}
use os_posix.MessageQueue.Cells.{Ptr, Text, Heap, Cells, texts}
use os_posix.MessageQueue.Cells.Chain.{IsFresh}
use os_posix.MessageQueue.Spec.Split.{unsnoc}
use os_posix.MessageQueue.Broadcast.{Queue, limit, width, mymsginit, mymsqdrop, mymsgput, mymsgget}
use os_posix.MessageQueue.Broadcast.Refine.{put_dropped, put_full, put_room, get_dropped, get_empty}
use os_posix.MessageQueue.Broadcast.Chains.{IsChain, mymsgget_last}
use os_posix.MessageQueue.Broadcast.Threads.{
  Sleep, awake, put_sleeps, get_sleeps, System, start, after_put, after_get, Step, puts, gets,
  drops, Reach, here, next,
}

-- A sleeping thread could not go on if it were awake.
abbrev pub Asleep : Sleep → Queue → Type 0
Asleep awake q = Unit
Asleep put_sleeps q = (q.mes_count ≡ limit) × (q.is_droped ≡ false)
Asleep get_sleeps q = (q.mes_count ≡ 0) × (q.is_droped ≡ false)

abbrev cut : ℕ → List Text → List Text
cut n = map (take n)

pub record Inv (n : ℕ) (s : System) : Type 0 where
  pub cells : Cells
  pub chain : IsChain s.queue cells
  pub bounded : s.queue.mes_count ≤ limit
  pub delivered : cut n (cut width s.put_log) ≡ cut n (texts cells) ++ s.got_log
  pub asleep : (i : ℕ) → Asleep (s.sleep i) s.queue
  pub sound : s.faulted ≡ false

start-Inv : (n : ℕ) (h : Heap) → Inv n (start h)
unfolding mymsginit
start-Inv n h = record {
  cells = [];
  chain = record { head = refl; tail = refl; links = tt; distinct = tt; count = refl };
  bounded = omega arith;
  delivered = refl;
  asleep = λ i. tt;
  sound = refl;
}

full_count : {n : ℕ} → n ≤ limit → leb limit n ≡ true → n ≡ limit
full_count b f = ground arith

not_full : (n : ℕ) → leb limit n ≡ false → n + 1 ≤ limit
not_full n f = ground arith

not_empty : (n m : ℕ) → n ≡ m + 1 → (n == 0) ≡ false
not_empty n m e = ground arith

-- A put that succeeds leaves only threads asleep that cannot go on.
wakes_put :
    (q q' : Queue) (z : Sleep)
    → leb limit q.mes_count ≡ false
    → Asleep z q
    → Asleep (if q.mes_count == 0 then awake else z) q'
wakes_put q q' awake room a = ground arith
wakes_put q q' put_sleeps room a = absurd (ground arith)
wakes_put q q' get_sleeps room a = ground arith

-- So does a get.
wakes_get :
    (q q' : Queue) (z : Sleep)
    → (q.mes_count == 0) ≡ false
    → Asleep z q
    → Asleep (if q.mes_count == limit then awake else z) q'
wakes_get q q' awake some_left a = ground arith
wakes_get q q' put_sleeps some_left a = ground arith
wakes_get q q' get_sleeps some_left a = absurd (ground arith)

put-Inv :
    {n : ℕ} {s : System} (i : ℕ) (f : Ptr) (t : Text)
    → IsFresh s.queue.heap f
    → Inv n s
    → Inv n (after_put s i t (mymsgput f t s.queue))
put-Inv {n} {s} i f t fresh v = elim (Bool-cases s.queue.is_droped) [
  | inl d ↦ rw (put_dropped f t s.queue d) v
  | inr d ↦ elim (Bool-cases (leb limit s.queue.mes_count)) [
    | inl full ↦ rw (put_full f t s.queue d full) (record {
      cells = v.cells;
      chain = v.chain;
      bounded = v.bounded;
      delivered = v.delivered;
      asleep = λ j.
          update_elim (λ k z. Asleep z s.queue) s.sleep i put_sleeps j
            (full_count v.bounded full, d) (λ ne. v.asleep j);
      sound = v.sound;
    })
    | inr room ↦
        let (q', e, c, d') = put_room f t s.queue v.cells fresh v.chain d room in
        rw e (record {
          cells = (f, take width t) ∷ v.cells;
          chain = c;
          bounded = omega (arith, c.count, v.chain.count, not_full s.queue.mes_count room);
          delivered = ap (λ ts. take n (take width t) ∷ ts) v.delivered;
          asleep = λ j. wakes_put s.queue q' (s.sleep j) room (v.asleep j);
          sound = v.sound;
        })
  ]
]

-- The text that leaves the chain is the next in the log.
cut-last :
    (n : ℕ) (xs : Cells) (p : Ptr) (t : Text) (ts : List Text)
    → cut n (texts (xs ++ (p, t) ∷ [])) ++ ts ≡ cut n (texts xs) ++ take n t ∷ ts
cut-last n [] p t ts = refl
cut-last n ((q, u) ∷ xs) p t ts = ap (λ us. take n u ∷ us) (cut-last n xs p t ts)

get_last-Inv :
    {n : ℕ} {s : System} (i : ℕ) (xs : Cells) (p : Ptr) (t : Text)
    → (v : Inv n s) → v.cells ≡ xs ++ (p, t) ∷ []
    → s.queue.is_droped ≡ false
    → Inv n (after_get s i (mymsgget n s.queue))
get_last-Inv {n} {s} i xs p t v at_end d =
    let chain : IsChain s.queue (xs ++ (p, t) ∷ []) = rw at_end at v.chain in
    let (q', e, c, d') = mymsgget_last n s.queue xs p t chain d in
    let counted = length-append xs ((p, t) ∷ []) in
    rw e (record {
      cells = xs;
      chain = c;
      bounded = omega (arith, c.count, chain.count, counted, v.bounded);
      delivered =
          v.delivered
          ∙ ap (λ cs. cut n (texts cs) ++ s.got_log) at_end
          ∙ cut-last n xs p t s.got_log;
      asleep = λ j.
          wakes_get s.queue q' (s.sleep j)
            (not_empty _ (length xs) (omega (arith, chain.count, counted))) (v.asleep j);
      sound = v.sound;
    })

get-Inv : {n : ℕ} {s : System} (i : ℕ) → Inv n s → Inv n (after_get s i (mymsgget n s.queue))
get-Inv {n} {s} i v = elim (Bool-cases s.queue.is_droped) [
  | inl d ↦ rw (get_dropped n s.queue d) v
  | inr d ↦ at_cells v.cells refl d
]
  where
    at_cells :
        (cs : Cells)
        → v.cells ≡ cs
        → s.queue.is_droped ≡ false
        → Inv n (after_get s i (mymsgget n s.queue))
    at_cells [] e d = rw (get_empty n s.queue d (v.chain.count ∙ ap length e)) (record {
      cells = v.cells;
      chain = v.chain;
      bounded = v.bounded;
      delivered = v.delivered;
      asleep = λ j.
          update_elim (λ k z. Asleep z s.queue) s.sleep i get_sleeps j
            (v.chain.count ∙ ap length e, d) (λ ne. v.asleep j);
      sound = v.sound;
    })
    at_cells ((p, t) ∷ cs) e d =
        let (xs, q, u, split, _) = unsnoc p t cs in get_last-Inv i xs q u v (e ∙ split) d

drop-Inv :
    {n : ℕ} {s : System}
    → Inv n s
    → Inv n (record s { queue = mymsqdrop s.queue; sleep = λ _. awake })
unfolding mymsqdrop
drop-Inv v = record {
  cells = v.cells;
  chain = record {
    head = v.chain.head;
    tail = v.chain.tail;
    links = v.chain.links;
    distinct = v.chain.distinct;
    count = v.chain.count;
  };
  bounded = v.bounded;
  delivered = v.delivered;
  asleep = λ i. tt;
  sound = v.sound;
}

Step-Inv : {n : ℕ} {s t : System} → Step n s t → Inv n s → Inv n t
Step-Inv (puts i f t a fresh) v = put-Inv i f t fresh v
Step-Inv (gets i a) v = get-Inv i v
Step-Inv drops v = drop-Inv v

pub Reach-Inv : {n : ℕ} {s : System} → Reach n s → Inv n s
Reach-Inv {n} (here h) = start-Inv n h
Reach-Inv (next r st) = Step-Inv st (Reach-Inv r)

-- When `malloc` always returns memory: in every state that the threads reach, no call has faulted,
-- at most ten messages wait, and the texts that were put, each cut at 80 bytes and then at the size
-- of the buffers, are those that were got, in the same order, and after them those that wait in the
-- chain from `head` to `tail`, cut at that size too.
pub delivered_in_order :
    {n : ℕ} {s : System}
    → Reach n s
    → (cs : Cells) × IsChain s.queue cs
      × (s.faulted ≡ false)
      × (length cs ≤ limit)
      × (cut n (cut width s.put_log) ≡ cut n (texts cs) ++ s.got_log)
delivered_in_order r =
    let v = Reach-Inv r in
    (v.cells, v.chain, v.sound, omega (arith, v.chain.count, v.bounded), v.delivered)

-- In every state that the threads reach, a producer sleeps only while the queue is full and not
-- dropped, and a consumer only while it is empty and not dropped.
pub no_lost_wakeup :
    {n : ℕ} {s : System}
    → Reach n s
    → (i : ℕ)
    → (s.sleep i ≡ put_sleeps → (s.queue.mes_count ≡ limit) × (s.queue.is_droped ≡ false))
      × (s.sleep i ≡ get_sleeps → (s.queue.mes_count ≡ 0) × (s.queue.is_droped ≡ false))
no_lost_wakeup r i = (λ e. rw e at ((Reach-Inv r).asleep i), λ e. rw e at ((Reach-Inv r).asleep i))
