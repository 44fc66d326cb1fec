-- ===== src/MessageQueue/Signal/Threads/Deadlock.antt =====
-- A signal of Lab23-24/cond_implementation/message_queue.c that wakes a consumer when a place comes
-- free.
use os_posix.Prelude.{
  ℕ, zero, suc, ◌-◌, ◌<◌, ◌≡◌, ◌≢◌, refl, ◌∙◌, true, some, [], arith, ◌==◌, length, update,
  ℕ_discrete,
}
use os_posix.MessageQueue.Cells.{Cells}
use os_posix.MessageQueue.Broadcast.Threads.{Sleep, awake, put_sleeps, get_sleeps}
use os_posix.MessageQueue.Signal.{Queue}
use os_posix.MessageQueue.Signal.Puts.{IsQueue, put_full, get_empty}
use os_posix.MessageQueue.Signal.Threads.{
  threads_count, System, start, wakes, put_waits, puts, get_waits, gets, Reach, here, next,
}
use os_posix.MessageQueue.Signal.Threads.Runs.{
  system, put_next, fill, get_next, drain, start-IsBelow,
}

-- The sleepers when the consumers found the queue empty, and when the producers found it full.
abbrev consumers_sleep : ℕ → Sleep
consumers_sleep =
    update (update (update (update (λ i. awake) 5 get_sleeps) 6 get_sleeps) 7 get_sleeps) 8
      get_sleeps

abbrev one_awake : ℕ → Sleep
one_awake = update consumers_sleep 5 awake

abbrev producers_sleep : ℕ → Sleep
producers_sleep =
    update
      (update (update (update (update one_awake 0 put_sleeps) 1 put_sleeps) 2 put_sleeps) 3
        put_sleeps)
      4 put_sleeps

abbrev two_awake : ℕ → Sleep
two_awake = update producers_sleep 6 awake

abbrev all_sleep : ℕ → Sleep
all_sleep = update (update two_awake 5 get_sleeps) 6 get_sleeps

consumers_wait : (limit : ℕ) → Reach limit (system (start limit).queue consumers_sleep)
unfolding ℕ_discrete
consumers_wait limit =
    let e = get_empty 81 (start limit).queue (start-IsBelow limit).queue in
    next
      (next
        (next (next here (get_waits 5 81 (omega arith) (omega arith) refl e))
          (get_waits 6 81 (omega arith) (omega arith) refl e))
        (get_waits 7 81 (omega arith) (omega arith) refl e))
      (get_waits 8 81 (omega arith) (omega arith) refl e)

producers_wait :
    {limit : ℕ} (q : Queue) (cs : Cells)
    → Reach limit (system q one_awake)
    → IsQueue limit q cs
    → length cs ≡ limit
    → Reach limit (system q producers_sleep)
unfolding ℕ_discrete
producers_wait q cs r v full =
    let e = put_full 1 [] q cs v full in
    next
      (next
        (next
          (next (next r (put_waits 0 1 [] (omega arith) refl e))
            (put_waits 1 1 [] (omega arith) refl e))
          (put_waits 2 1 [] (omega arith) refl e))
        (put_waits 3 1 [] (omega arith) refl e))
      (put_waits 4 1 [] (omega arith) refl e)

asleep : (i : ℕ) → i < threads_count → all_sleep i ≢ awake
unfolding ℕ_discrete
asleep zero h e = cc
asleep (suc zero) h e = cc
asleep (suc (suc zero)) h e = cc
asleep (suc (suc (suc zero))) h e = cc
asleep (suc (suc (suc (suc zero)))) h e = cc
asleep (suc (suc (suc (suc (suc zero))))) h e = cc
asleep (suc (suc (suc (suc (suc (suc zero)))))) h e = cc
asleep (suc (suc (suc (suc (suc (suc (suc zero))))))) h e = cc
asleep (suc (suc (suc (suc (suc (suc (suc (suc zero)))))))) h e = cc
asleep (suc (suc (suc (suc (suc (suc (suc (suc (suc i))))))))) h e = absurd (omega arith)

-- The first get from a full queue wakes another consumer, and the consumers end on an empty queue.
all_wait :
    {limit k : ℕ} (q : Queue) (cs : Cells)
    → Reach limit (system q producers_sleep)
    → IsQueue limit q cs
    → length cs ≡ limit
    → limit ≡ suc k
    → (q' : Queue) × Reach limit (system q' all_sleep) × IsQueue limit q' []
unfolding ℕ_discrete
all_wait {limit} {k} q cs r v full some_room =
    let (q1, cs1, t, run, w, shorter) = get_next q cs k v (full ∙ some_room) in
    let signals : (q.messages_count == q.messages_limit) ≡ true =
      ground (arith, v.count, v.limited, full) in
    let woken = next r (
      gets 5 81 (some t) q1 (q.messages_count == q.messages_limit) two_awake (omega arith)
        (omega arith) refl run (wakes 6 signals (omega arith) (λ e. cc))) in
    let (q2, r2, w2) = drain k q1 cs1 woken refl w shorter (omega (arith, some_room)) in
    let e = get_empty 81 q2 w2 in
    (
      q2,
      next (next r2 (get_waits 5 81 (omega arith) (omega arith) refl e))
          (get_waits 6 81 (omega arith) (omega arith) refl e),
      w2,
    )

-- For every limit but 0 the threads reach a state, with no drop, in which all of them sleep although
-- the queue is empty: the producers, who wait for a place, are never woken.
pub signal_deadlock :
    (messages_limit : ℕ)
    → 0 < messages_limit
    → (s : System) × Reach messages_limit s
      × IsQueue messages_limit s.queue []
      × ((i : ℕ) → i < threads_count → s.sleep i ≢ awake)
unfolding ℕ_discrete
signal_deadlock limit h =
    let q0 = (start limit).queue in
    let (q1, cs1, run, w, longer) = put_next q0 [] (start-IsBelow limit) h in
    let signals : (q0.messages_count == 0) ≡ true =
      ground (arith, (start-IsBelow limit).queue.count) in
    let first_put = next (consumers_wait limit) (
      puts 0 1 [] true q1 (q0.messages_count == 0) one_awake (omega arith) refl
        (ground arith, (start-IsBelow limit).free 1 (omega arith)) run
        (wakes 5 signals (omega arith) (λ e. cc))) in
    let (q2, cs2, r2, w2, full) =
      fill (limit - 1) q1 cs1 first_put refl w (omega (arith, longer)) (omega (arith, longer)) in
    let (q3, r3, w3) =
      all_wait {k = limit - 1} q2 cs2 (producers_wait q2 cs2 r2 w2 full) w2 full (omega arith) in
    (system q3 all_sleep, r3, w3, asleep)
