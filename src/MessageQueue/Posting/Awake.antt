-- ===== src/MessageQueue/Posting/Awake.antt =====
-- The tokens that `message_queue_drop` of Lab23-24/sem_implementation/message_queue.c posts.
use os_posix.Prelude.{
  ℕ, ◌+◌, ◌≤◌, ◌≡◌, ◌∙◌, refl, sym, ap, true, false, some, arith, Option-cases, inl, inr,
}
use mathlib.Core.Path.{subst}
use os_posix.MessageQueue.Cells.{Ptr, Text, Heap}
use os_posix.MessageQueue.Counting.{unlink, then_some}
use os_posix.MessageQueue.Counting as Counting
use os_posix.MessageQueue.Posting.{
  System, message_queue_init, put_section, get_section, Step, put_wait, put_refused, put_goes_on,
  put, put_post, get_wait, get_refused, get_goes_on, get, get_post, drop_marks, drop_posts_put,
  drop_posts_get, drop_frees, drop_ends, Reachable, begins, steps, Place, idle, marked, posted,
  frees, ended,
}

is_droped-put_section :
    (f : Ptr) (t : Text) (q q' : Counting.Queue)
    → put_section f t q ≡ some q'
    → q'.is_droped ≡ q.is_droped
unfolding put_section
is_droped-put_section f t q q' e = ground arith

is_droped-unlink : (q q' : Counting.Queue) → unlink q ≡ some q' → q'.is_droped ≡ q.is_droped
unfolding unlink
is_droped-unlink q q' e = ground arith

is_droped-get_section :
    (size : ℕ) (q q' : Counting.Queue) (t : Text)
    → get_section size q ≡ some (q', t)
    → q'.is_droped ≡ q.is_droped
unfolding get_section
is_droped-get_section size q q' t e = elim (Option-cases (unlink q)) [
  | inl fails ↦ absurd (ground (arith, fails))
  | inr (l, run) ↦ ground (arith, run, is_droped-unlink q l run)
]

-- How many posts of the drop were made, for puts and for gets.
abbrev pub put_posts : Place → ℕ
put_posts idle = 0
put_posts marked = 0
put_posts other = 1

abbrev pub get_posts : Place → ℕ
get_posts (frees p) = 1
get_posts ended = 1
get_posts other = 0

abbrev pub Begun : Place → Type 0
Begun idle = ⊥
Begun other = Unit {0}

-- The tokens that the drop posted go round: a call that is refused posts the one it took.
pub record Awake (s : System) : Type 0 where
  pub mark : Begun s.dropping → s.queue.is_droped ≡ true
  pub puts : put_posts s.dropping ≤ s.sem_put + s.put_looks
  pub gets : get_posts s.dropping ≤ s.sem_get + s.get_looks

not-Begun : (p : Place) → (Begun p → ⊥) → (put_posts p ≡ 0) × (get_posts p ≡ 0)
not-Begun idle n = (refl, refl)
not-Begun marked n = absurd (n tt)
not-Begun posted n = absurd (n tt)
not-Begun ended n = absurd (n tt)
not-Begun (frees p) n = absurd (n tt)

-- A call that goes on saw that there was no drop.
none_yet :
    (s : System)
    → Awake s
    → s.queue.is_droped ≡ false
    → (put_posts s.dropping ≡ 0) × (get_posts s.dropping ≡ 0)
none_yet s v d = not-Begun s.dropping (λ b. absurd (cc (v.mark b)))

step-Awake : (s s' : System) → Awake s → Step s s' → Awake s'
step-Awake s s' v (put_wait n e) = record {
  mark = v.mark;
  puts = omega (arith, v.puts);
  gets = v.gets;
}
step-Awake s s' v (put_refused n e d) = record {
  mark = v.mark;
  puts = omega (arith, v.puts);
  gets = v.gets;
}
step-Awake s s' v (put_goes_on n e d) = record {
  mark = v.mark;
  puts = omega (arith, none_yet s v d);
  gets = v.gets;
}
step-Awake s s' v (put n f text q e fresh run) = record {
  mark = λ b. is_droped-put_section f text s.queue q run ∙ v.mark b;
  puts = v.puts;
  gets = v.gets;
}
step-Awake s s' v (put_post n e) = record {
  mark = v.mark;
  puts = v.puts;
  gets = omega (arith, v.gets);
}
step-Awake s s' v (get_wait n e) = record {
  mark = v.mark;
  puts = v.puts;
  gets = omega (arith, v.gets);
}
step-Awake s s' v (get_refused n e d) = record {
  mark = v.mark;
  puts = v.puts;
  gets = omega (arith, v.gets);
}
step-Awake s s' v (get_goes_on n e d) = record {
  mark = v.mark;
  puts = v.puts;
  gets = omega (arith, none_yet s v d);
}
step-Awake s s' v (get n size q t e run) = record {
  mark = λ b. is_droped-get_section size s.queue q t run ∙ v.mark b;
  puts = v.puts;
  gets = v.gets;
}
step-Awake s s' v (get_post n e) = record {
  mark = v.mark;
  puts = omega (arith, v.puts);
  gets = v.gets;
}
step-Awake s s' v (drop_marks e) = record {
  mark = λ b. refl;
  puts = omega arith;
  gets = omega arith;
}
step-Awake s s' v (drop_posts_put e) = record {
  mark = λ b. v.mark (subst Begun (sym e) tt);
  puts = omega arith;
  gets = omega arith;
}
step-Awake s s' v (drop_posts_get e) = record {
  mark = λ b. v.mark (subst Begun (sym e) tt);
  puts = omega (arith, v.puts, ap put_posts e);
  gets = omega arith;
}
step-Awake s s' v (drop_frees p m e at) = record {
  mark = λ b. v.mark (subst Begun (sym e) tt);
  puts = omega (arith, v.puts, ap put_posts e);
  gets = omega (arith, v.gets, ap get_posts e);
}
step-Awake s s' v (drop_ends e) = record {
  mark = λ b. v.mark (subst Begun (sym e) tt);
  puts = omega (arith, v.puts, ap put_posts e);
  gets = omega (arith, v.gets, ap get_posts e);
}

pub Reachable-Awake : (h : Heap) (limit : ℕ) (s : System) → Reachable h limit s → Awake s
unfolding message_queue_init
Reachable-Awake h limit s begins = record {
  mark = λ b. elim b [ ];
  puts = omega arith;
  gets = omega arith;
}
Reachable-Awake h limit s (steps {s = r} before t) =
    step-Awake r s (Reachable-Awake h limit r before) t
