-- ===== src/MessageQueue/Posting/Dropping.antt =====
-- `message_queue_drop` of Lab23-24/sem_implementation/message_queue.c beside the calls.
use os_posix.Prelude.{ℕ, ◌+◌, ◌-◌, ◌≤◌, ◌<◌, ◌≡◌, refl, true, arith, dec_lt}
use os_posix.MessageQueue.Cells.{Heap}
use os_posix.MessageQueue.Posting.{
  System, Step, put_refused, get_refused, Reachable, Place, idle, marked, posted, frees, ended,
}
use os_posix.MessageQueue.Posting.Awake.{put_posts, get_posts, Begun, Reachable-Awake}

pub data Steps (s : System) : System → Type 0 where
  here : Steps s s
  next : {r t : System} → Steps s r → Step r t → Steps s t

-- Where a thread that waits for either semaphore goes on, to be refused.
abbrev pub Open : System → Type 0
Open s = (0 < s.sem_put) × (0 < s.sem_get) × (s.queue.is_droped ≡ true)

Open-get :
    (s : System)
    → s.queue.is_droped ≡ true
    → 0 < s.sem_put
    → 1 ≤ s.sem_get + s.get_looks
    → (s' : System) × Steps s s' × Open s'
Open-get s d p g = elim (dec_lt 0 s.sem_get) [
  | yes h ↦ (s, here, (p, h, d))
  | no h ↦ (_, next here (get_refused (s.get_looks - 1) (omega arith) d), (p, omega arith, d))
]

Open-both :
    (s : System)
    → s.queue.is_droped ≡ true
    → 1 ≤ s.sem_put + s.put_looks
    → 1 ≤ s.sem_get + s.get_looks
    → (s' : System) × Steps s s' × Open s'
Open-both s d p g = elim (dec_lt 0 s.sem_put) [
  | yes h ↦ Open-get s d h g
  | no h ↦
      let (s', run, o) =
        Open-get (record s { put_looks = s.put_looks - 1; sem_put = s.sem_put + 1 }) d (omega arith)
          g in
      (s', after (put_refused (s.put_looks - 1) (omega arith) d) run, o)
]
  where
    after : {a b c : System} → Step a b → Steps b c → Steps a c
    after st here = next here st
    after st (next r u) = next (after st r) u

-- From every reachable state in which the drop posted both semaphores, a few refusals lead to one
-- in which both are positive and the queue is dropped, so that a call that waits goes on and
-- returns 0: the two posts are enough for any number of waiting threads.
pub drop-Open :
    (h : Heap) (messages_limit : ℕ) (s : System)
    → Reachable h messages_limit s
    → get_posts s.dropping ≡ 1
    → (s' : System) × Steps s s' × Open s'
drop-Open h limit s r e =
    let v = Reachable-Awake h limit s r in
    Open-both s (v.mark (begun s.dropping e)) (omega (arith, v.puts, both s.dropping e))
      (omega (arith, v.gets))
  where
    begun : (p : Place) → get_posts p ≡ 1 → Begun p
    begun idle e = absurd (omega arith)
    begun marked e = tt
    begun posted e = tt
    begun ended e = tt
    begun (frees p) e = tt

    both : (p : Place) → get_posts p ≡ 1 → put_posts p ≡ 1
    both idle e = e
    both marked e = e
    both posted e = refl
    both ended e = refl
    both (frees p) e = refl
