-- ===== src/Semaphores/Mutexes/Moves.antt =====
-- What each thread of Lab10/main.c does after the child's first lock.
use mathlib.Core.Path.{subst}
use os_posix.Prelude.{◌+◌, ◌<◌, ◌≡◌, refl, ap, sym, ◌∙◌, inl, inr, none, some, arith, update}
use os_posix.Semaphores.Alternation.{parent, child}
use os_posix.Semaphores.Mutexes.{
  locking, unlocking, printing, closing, left, State, after_lock, after_unlock, after_print,
  print_string, put,
}
use os_posix.Semaphores.Mutexes.Owners.{
  mutex, Owned, child_takes, child_gives, parent_takes, parent_gives,
}
use os_posix.Semaphores.Mutexes.Strings.{
  at, after_lock-Placed, after_unlock-Placed, after_print-Placed, child-Lines, parent-Lines,
}
use os_posix.Semaphores.Mutexes.Places.{
  Runs, child_bounds, parent_bounds, child_owns, child_room, parent_room,
}

-- What a thread does leaves the mutexes in their order.
module _ (s : State) (v : Runs s) where
  pub child_locks :
      s.child_at.pc ≡ locking
      → s.mute s.child_at.k ≡ none
      → Runs (
          put child
            (after_lock s.child_at)
            (record s { mute = update s.mute s.child_at.k (some child) }))
  child_locks e free =
      let (more, from, size, k) = at 0 v.a v.b s.child_at v.child_in locking e in
      let room : v.b < v.c = child_room s v e (ap s.mute (sym k) ∙ free) in
      record {
        a = v.a;
        b = v.b + 1;
        c = v.c;
        d = v.d;
        ready = v.ready;
        owned =
            subst (λ x. Owned (update s.mute x (some child)) v.a (v.b + 1) v.c v.d) (sym k)
              (child_takes s.mute v.a v.b v.c v.d v.owned room);
        child_in = after_lock-Placed 0 v.a v.b s.child_at v.child_in e;
        parent_in = v.parent_in;
        right = v.right;
        lines = v.lines;
      }

  pub parent_locks :
      s.parent_at.pc ≡ locking
      → s.mute s.parent_at.k ≡ none
      → Runs (
          put parent
            (after_lock s.parent_at)
            (record s { mute = update s.mute s.parent_at.k (some parent) }))
  parent_locks e free =
      let (more, from, size, k) = at 2 v.c v.d s.parent_at v.parent_in locking e in
      let room : v.d < v.a + 3 = parent_room s v (ap s.mute (sym k) ∙ free) in
      record {
        a = v.a;
        b = v.b;
        c = v.c;
        d = v.d + 1;
        ready = v.ready;
        owned =
            subst (λ x. Owned (update s.mute x (some parent)) v.a v.b v.c (v.d + 1)) (sym k)
              (parent_takes s.mute v.a v.b v.c v.d v.owned room);
        child_in = v.child_in;
        parent_in = after_lock-Placed 2 v.c v.d s.parent_at v.parent_in e;
        right = v.right;
        lines = v.lines;
      }

  pub child_unlocks :
      s.child_at.pc ≡ unlocking
      → Runs (
          put child (after_unlock s.child_at) (record s { mute = update s.mute s.child_at.k none }))
  child_unlocks e =
      let (more, from, size, k) = at 0 v.a v.b s.child_at v.child_in unlocking e in
      record {
        a = v.a + 1;
        b = v.b;
        c = v.c;
        d = v.d;
        ready = v.ready;
        owned =
            subst (λ x. Owned (update s.mute x none) (v.a + 1) v.b v.c v.d) (sym k)
              (child_gives s.mute v.a v.b v.c v.d v.owned (child_owns s v));
        child_in = after_unlock-Placed 0 v.a v.b s.child_at v.child_in e;
        parent_in = v.parent_in;
        right = v.right;
        lines = v.lines;
      }

  pub parent_unlocks :
      s.parent_at.pc ≡ unlocking
      → Runs (
          put parent
            (after_unlock s.parent_at)
            (record s { mute = update s.mute s.parent_at.k none }))
  parent_unlocks e =
      let (more, from, size, k) = at 2 v.c v.d s.parent_at v.parent_in unlocking e in
      record {
        a = v.a;
        b = v.b;
        c = v.c + 1;
        d = v.d;
        ready = v.ready;
        owned =
            subst (λ x. Owned (update s.mute x none) v.a v.b (v.c + 1) v.d) (sym k)
              (parent_gives s.mute v.a v.b v.c v.d v.owned (omega arith));
        child_in = v.child_in;
        parent_in = after_unlock-Placed 2 v.c v.d s.parent_at v.parent_in e;
        right = v.right;
        lines = v.lines;
      }

  pub child_prints :
      s.child_at.pc ≡ printing
      → Runs (
          put child
            (after_print s.child_at)
            (record s { out = print_string child s.child_at.k s.out }))
  child_prints e =
      let (more, from, size, k) = at 0 v.a v.b s.child_at v.child_in printing e in
      let (low, high, end) = parent_bounds s v in
      record {
        a = v.a;
        b = v.b;
        c = v.c;
        d = v.d;
        ready = v.ready;
        owned = v.owned;
        child_in = after_print-Placed 0 v.a v.b s.child_at v.child_in e;
        parent_in = v.parent_in;
        right = v.right;
        lines =
            unfold after_print in
            child-Lines s.child_at.i s.parent_at.i s.child_at.k s.out (omega arith)
              (omega (arith, v.owned.mid)) (omega (arith, v.owned.round)) v.lines;
      }

  pub parent_prints :
      s.parent_at.pc ≡ printing
      → Runs (
          put parent
            (after_print s.parent_at)
            (record s { out = print_string parent s.parent_at.k s.out }))
  parent_prints e =
      let (more, from, size, k) = at 2 v.c v.d s.parent_at v.parent_in printing e in
      let (low, high, end) = child_bounds s v in
      record {
        a = v.a;
        b = v.b;
        c = v.c;
        d = v.d;
        ready = v.ready;
        owned = v.owned;
        child_in = v.child_in;
        parent_in = after_print-Placed 2 v.c v.d s.parent_at v.parent_in e;
        right = v.right;
        lines =
            unfold after_print in
            parent-Lines s.child_at.i s.parent_at.i s.parent_at.k s.out k
              (omega (arith, v.owned.round)) (omega (arith, v.owned.mid)) v.lines;
      }

  pub child_leaves : s.child_at.pc ≡ closing → Runs (put child (record s.child_at { pc = left }) s)
  child_leaves e =
      let (all, from, size) = at 0 v.a v.b s.child_at v.child_in closing e in
      record {
        a = v.a;
        b = v.b;
        c = v.c;
        d = v.d;
        ready = v.ready;
        owned = v.owned;
        child_in = (all, inl (refl, from, omega arith));
        parent_in = v.parent_in;
        right = v.right;
        lines = v.lines;
      }

  pub parent_leaves :
      s.parent_at.pc ≡ closing
      → Runs
          (put parent (record s.parent_at { pc = left }) (record s { mute = update s.mute 2 none }))
  parent_leaves e =
      let (all, from, size) = at 2 v.c v.d s.parent_at v.parent_in closing e in
      let there : mutex v.c ≡ 2 = omega arith in
      record {
        a = v.a;
        b = v.b;
        c = v.c + 1;
        d = v.d;
        ready = v.ready;
        owned =
            subst (λ x. Owned (update s.mute x none) v.a v.b (v.c + 1) v.d) there
              (parent_gives s.mute v.a v.b v.c v.d v.owned (omega arith));
        child_in = v.child_in;
        parent_in = (all, inr (refl, omega arith, omega arith));
        right = v.right;
        lines = v.lines;
      }
