-- ===== src/MessageQueue/Broadcast/Threads.antt =====
-- Any number of producers and consumers on the queue of Lab24/main.c, their critical sections
-- interleaved in any order.
use os_posix.Prelude.{
  ℕ, ◌≡◌, Bool, true, false, Option, none, some, List, [], ◌∷◌, if◌then◌else◌, update,
}
use os_posix.MessageQueue.Cells.{Ptr, Text, Heap}
use os_posix.MessageQueue.Cells.Chain.{IsFresh}
use os_posix.MessageQueue.Broadcast.{
  Queue, Call, waits, returns, fault, mymsginit, mymsqdrop, mymsgput, mymsgget,
}

-- Is a thread in `pthread_cond_wait`, and of which call?
pub data Sleep : Type 0 where
  awake put_sleeps get_sleeps : Sleep

-- The logs hold the texts that were put, whole, and the texts that were got, newest first.
pub record System : Type 0 where
  pub queue : Queue
  pub sleep : ℕ → Sleep
  pub put_log : List Text
  pub got_log : List Text
  pub faulted : Bool

abbrev pub start : Heap → System
start h = record {
  queue = mymsginit h;
  sleep = λ _. awake;
  put_log = [];
  got_log = [];
  faulted = false;
}

abbrev pub broadcast : Bool → (ℕ → Sleep) → ℕ → Sleep
broadcast w sleep i = if w then awake else sleep i

abbrev pub after_put : System → ℕ → Text → Call Bool → System
after_put s i t waits = record s { sleep = update s.sleep i put_sleeps }
after_put s i t (returns b q w) = record s {
  queue = q;
  sleep = broadcast w s.sleep;
  put_log = if b then t ∷ s.put_log else s.put_log;
}
after_put s i t fault = record s { faulted = true }

abbrev pub log : Option Text → List Text → List Text
log none ts = ts
log (some t) ts = t ∷ ts

abbrev pub after_get : System → ℕ → Call (Option Text) → System
after_get s i waits = record s { sleep = update s.sleep i get_sleeps }
after_get s i (returns r q w) = record s {
  queue = q;
  sleep = broadcast w s.sleep;
  got_log = log r s.got_log;
}
after_get s i fault = record s { faulted = true }

-- One critical section of thread `i`, with buffers of `n` bytes for `mymsgget`. `malloc` always
-- returns memory here; where it returns NULL the put writes through it.
pub data Step (n : ℕ) (s : System) : System → Type 0 where
  puts :
      (i : ℕ) (f : Ptr) (t : Text)
      → s.sleep i ≡ awake
      → IsFresh s.queue.heap f
      → Step n s (after_put s i t (mymsgput f t s.queue))
  gets : (i : ℕ) → s.sleep i ≡ awake → Step n s (after_get s i (mymsgget n s.queue))
  drops : Step n s (record s { queue = mymsqdrop s.queue; sleep = λ _. awake })

pub data Reach (n : ℕ) : System → Type 0 where
  here : (h : Heap) → Reach n (start h)
  next : {s t : System} → Reach n s → Step n s t → Reach n t
